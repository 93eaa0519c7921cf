-- ===== src/Command.antt =====
-- What a line that a player enters does, src/task/command.c: which command is run, by what name and with what
-- argument. A command is the callback that the table names.
pub mod Lookup
pub mod Lines
mod Tests
use boris.Prelude.{
  ℕ, ◌+◌, Bool, true, false, not, ◌&&◌, ◌||◌, Option, none, some, List, [], ◌∷◌, ◌==◌,
  if◌then◌else◌, between, head, take, skip_space, same_text, Bytes, codes,
}

-- the callbacks
pub data Callback : Type 0 where
  not_implemented : Callback
  do_quit : Callback
  do_say : Callback
  do_yell : Callback
  do_emote : Callback
  do_pose : Callback
  do_chsay : Callback
  do_time : Callback
  do_help : Callback
  do_roomget : Callback
  do_character : Callback

-- a call of a callback, less the client and the user; an `arg` of `none` is NULL
pub record Call : Type 0 where
  pub cb : Callback
  pub cmd : Bytes
  pub arg : Option Bytes

abbrev pub command_table : List (Bytes × Callback)
command_table =
    (codes "who", not_implemented)
    ∷ (codes "quit", do_quit)
    ∷ (codes "page", not_implemented)
    ∷ (codes "say", do_say)
    ∷ (codes "yell", do_yell)
    ∷ (codes "emote", do_emote)
    ∷ (codes "pose", do_pose)
    ∷ (codes "chsay", do_chsay)
    ∷ (codes "sayto", not_implemented)
    ∷ (codes "tell", not_implemented)
    ∷ (codes "time", do_time)
    ∷ (codes "whisper", not_implemented)
    ∷ (codes "to", not_implemented)
    ∷ (codes "help", do_help)
    ∷ (codes "spoof", not_implemented)
    ∷ (codes "roomget", do_roomget)
    ∷ (codes "char", do_character)
    ∷ []

abbrev pub command_short_table : List (Bytes × Bytes)
command_short_table =
    (codes ":", codes "pose")
    ∷ (codes "'", codes "say")
    ∷ (codes "\"\"", codes "yell")
    ∷ (codes "\"", codes "say")
    ∷ (codes ",", codes "emote")
    ∷ (codes ".", codes "chsay")
    ∷ (codes ";", codes "spoof")
    ∷ []

-- the loop of `command_run`; `none` is the message about an invalid command, and a result of 0
pub run_from : List (Bytes × Callback) → Bytes → Option Bytes → Option Call
run_from [] cmd arg = none
run_from ((name, cb) ∷ table) cmd arg =
    if same_text cmd name
    then some (record { cb = cb; cmd = cmd; arg = arg })
    else run_from table cmd arg

-- `command_run`
pub command_run : Bytes → Option Bytes → Option Call
unfolding run_from
command_run cmd arg = run_from command_table cmd arg

-- `ispunct`
abbrev pub ispunct : ℕ → Bool
ispunct c = between 33 47 c || (between 58 64 c || (between 91 96 c || between 123 126 c))

-- `!strncmp(line, shname, shname_len)`: what is behind the short name
pub behind : Bytes → Bytes → Option Bytes
behind [] line = some line
behind (c ∷ shname) [] = none
behind (c ∷ shname) (d ∷ line) = if c == d then behind shname line else none

-- `NULL` for an argument without text
abbrev pub or_null : Bytes → Option Bytes
or_null [] = none
or_null (c ∷ s) = some (c ∷ s)

-- the loop over the short commands; `none` where none fits
pub short_from : List (Bytes × Bytes) → Bytes → Option (Option Call)
unfolding behind command_run
short_from [] line = none
short_from ((shname, name) ∷ table) line = elim (behind shname line) [
  | none ↦ short_from table line
  | some arg ↦ some (command_run name (or_null (skip_space arg)))
]

abbrev pub isblank : ℕ → Bool
isblank c = (c == 32) || (c == 9)

-- the line split at `strcspn(line, " \t")`
pub first_word : Bytes → Bytes × Bytes
first_word [] = ([], [])
first_word (c ∷ s) = let r = first_word s in if isblank c then ([], c ∷ s) else (c ∷ r.0, r.1)

-- `s + strspn(s, " \t")`
pub skip_blanks : Bytes → Bytes
skip_blanks [] = []
skip_blanks (c ∷ s) = if isblank c then skip_blanks s else c ∷ s

-- where the arguments start
pub args : Bytes → Bytes
unfolding skip_blanks
args [] = []
args (c ∷ e) = skip_blanks e

-- the rest of `command_execute`, with the first word cut to 63 bytes
pub long_command : Bytes → Option Call
unfolding first_word args command_run
long_command line =
    let e = first_word line in command_run (take 63 e.0) (or_null (skip_space (args e.1)))

pub execute_line : Bytes → Option Call
unfolding long_command short_from
execute_line line =
    if ispunct (head line)
    then elim (short_from command_short_table line) [
      | none ↦ long_command line
      | some result ↦ result
    ]
    else long_command line

-- `command_execute`
pub command_execute : Bytes → Option Call
unfolding execute_line
command_execute line = execute_line (skip_space line)
