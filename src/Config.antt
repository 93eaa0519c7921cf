-- ===== src/Config.antt =====
-- The reader of configuration files, src/config.c, and the patterns of src/util/util.c. A line is the C
-- string that `fgets` leaves in the buffer. A callback is a function on a state, which stands for
-- whatever it writes to; `util_fnmatch` gives true where the source gives 0.
pub mod Pattern
pub mod Line
pub mod Load
mod Tests
use boris.Prelude.{
  ℕ, zero, suc, ◌+◌, Bool, true, false, not, ◌&&◌, ◌||◌, Option, none, some, List, [], ◌∷◌, ◌==◌,
  if◌then◌else◌, Bytes, head, isspace, tolower, skip_space, strip_right, until_nul, Stream, fgets,
  length, drop,
}

-- the comparison of two bytes, with or without UTIL_FNM_CASEFOLD
abbrev pub same_byte : Bool → ℕ → ℕ → Bool
same_byte fold c d = if fold then tolower c == tolower d else c == d

-- the loop over the places at which what follows a `*` may start; `next` is the byte after the `*`
pub star_loop : Bool → ℕ → (Bytes → Bool) → Bytes → Bool
star_loop fold next matches [] = false
star_loop fold next matches (c ∷ string) =
    (same_byte fold c next && matches (c ∷ string)) || star_loop fold next matches string

-- what a byte of the pattern other than `*` asks of the string
literal_matches : Bool → ℕ → (Bytes → Bool) → Bytes → Bool
literal_matches fold c matches [] = false
literal_matches fold c matches (d ∷ string) = ((c == b'?') || same_byte fold d c) && matches string

-- `util_fnmatch`
unfoldable pub util_fnmatch : Bool → Bytes → Bytes → Bool
unfolding star_loop literal_matches
util_fnmatch fold [] [] = true
util_fnmatch fold [] (d ∷ string) = false
util_fnmatch fold (c ∷ pattern) string =
    if c == b'*'
    then if head pattern == 0
      then true
      else star_loop fold (head pattern) (util_fnmatch fold pattern) string
    else literal_matches fold c (util_fnmatch fold pattern) string

-- `quote` behind the byte `c`
next_quote : ℕ → ℕ → ℕ
next_quote quote c =
    if quote == 0
    then if (c == b'"') || (c == 39) then c else 0
    else if quote == c
    then 0
    else quote

is_comment : ℕ → ℕ → Bytes → Bool
is_comment quote c rest = (quote == 0) && ((c == b'#') || ((c == b'/') && (head rest == b'/')))

-- the loop that strips comments; `quote` is the quote that is open, or 0
unfoldable pub strip_comment : ℕ → Bytes → Bytes
unfolding next_quote is_comment
strip_comment quote [] = []
strip_comment quote (c ∷ rest) =
    if is_comment quote c rest then [] else c ∷ strip_comment (next_quote quote c) rest

-- `strchr(s, d)`: what is in front of it and what is behind it
pub cut_at : ℕ → Bytes → Option (Bytes × Bytes)
cut_at d [] = none
cut_at d (c ∷ s) =
    if c == d
    then some ([], s)
    else elim (cut_at d s) [ none ↦ none | some (front, rest) ↦ some (c ∷ front, rest) ]

pub data Directive : Type 0 where
  blank : Directive
  invalid : Directive
  directive : Bytes → Bytes → Directive

end_quote : Bytes → Option (Bytes × Bytes) → Directive
end_quote id none = invalid
end_quote id (some (value, [])) = directive id value
end_quote id (some (value, c ∷ garbage)) = invalid

-- the value part, which a quote may surround
read_value : Bytes → Bytes → Directive
unfolding end_quote
read_value id value =
    if head value == b'"' then end_quote id (cut_at b'"' (drop 1 value)) else directive id value

split_directive : Option (Bytes × Bytes) → Directive
unfolding read_value
split_directive none = invalid
split_directive (some (id, value)) = read_value (strip_right id) (skip_space value)

-- what `config_load` makes of a line
pub read_directive : Bytes → Directive
unfolding split_directive
read_directive buf =
    let line = strip_right (strip_comment 0 buf) in
    if head line == 0 then blank else split_directive (cut_at b'=' line)

-- the result of a callback: 0, less than 0, or more
pub data Reply : Type 0 where
  ends_chain : Reply
  fails : Reply
  goes_on : Reply

-- `struct config_watcher`; `extra` is part of the function, and `S` is what the function may change
pub record Watcher (S : Type 0) : Type 0 where
  pub mask : Bytes
  pub func : Option (Bytes → Bytes → S → Reply × S)

module _ {S : Type 0} where
  -- `config_watch`
  unfoldable pub config_watch :
      Bytes → Option (Bytes → Bytes → S → Reply × S) → List (Watcher S) → List (Watcher S)
  config_watch mask func watchers = (record { mask = mask; func = func }) ∷ watchers

  after_call : (S → Bool × S) → Reply × S → Bool × S
  after_call rest (ends_chain, s) = (true, s)
  after_call rest (fails, s) = (false, s)
  after_call rest (goes_on, s) = rest s

  call_watcher :
      Option (Bytes → Bytes → S → Reply × S) → Bytes → Bytes → (S → Bool × S) → S → Bool × S
  unfolding after_call
  call_watcher none id value rest s = rest s
  call_watcher (some func) id value rest s = after_call rest (func id value s)

  -- the loop that checks the masks; false where a callback fails
  unfoldable pub check_masks : List (Watcher S) → Bytes → Bytes → S → Bool × S
  unfolding call_watcher
  check_masks [] id value s = (true, s)
  check_masks (curr ∷ watchers) id value s =
      if util_fnmatch true curr.mask id
      then call_watcher curr.func id value (check_masks watchers id value) s
      else check_masks watchers id value s

  unfoldable pub apply_directive : List (Watcher S) → Directive → S → Bool × S
  apply_directive watchers blank s = (true, s)
  apply_directive watchers invalid s = (false, s)
  apply_directive watchers (directive id value) s = check_masks watchers id value s

  unfoldable pub next_line : (S → Bool × S) → Bool × S → Bool × S
  next_line rest (true, s) = rest s
  next_line rest (false, s) = (false, s)

  -- a round of the loop over the lines, behind its `fgets`
  read_round : List (Watcher S) → (Stream → S → Bool × S) → Option Bytes × Stream → S → Bool × S
  unfolding next_line
  read_round watchers rest (none, left) s = (true, s)
  read_round watchers rest (some buf, left) s =
      next_line (rest left) (apply_directive watchers (read_directive (until_nul buf)) s)

  -- Each round reads at least a byte, so that one round more than there are bytes is enough.
  pub load_loop : ℕ → List (Watcher S) → Stream → S → Bool × S
  unfolding read_round
  load_loop zero watchers f s = (false, s)
  load_loop (suc rounds) watchers f s =
      read_round watchers (load_loop rounds watchers) (fgets 1024 f) s

  -- `config_load`: the file, if it can be opened
  pub config_load : Option Bytes → List (Watcher S) → S → Bool × S
  config_load none watchers s = (false, s)
  config_load (some bytes) watchers s =
      load_loop (length bytes + 1) watchers (record { rest = bytes; eof = false }) s
