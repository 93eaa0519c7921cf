-- ===== src/Command/Lines.antt =====
-- Lines as players write them.
use boris.Prelude.{
  ℕ, ◌≤◌, ◌≡◌, ◌∙◌, refl, sym, ap, true, false, none, some, [], ◌∷◌, ◌++◌, ◌==◌, length, take_all,
  All, head, isspace, skip_space, skip_space_solid, skip_space_blank, same_text, IsBlank, Bytes,
  codes, arith,
}
use boris.Command.{
  Callback, command_table, command_short_table, command_run, ispunct, isblank, behind, or_null,
  first_word, skip_blanks, args, long_command, execute_line, command_execute,
}
use boris.Command.Lookup.{IsEntry, command_run-entry}

first_word-word :
    (w : Bytes) (c : ℕ) (s : Bytes)
    → All (λ c. isblank c ≡ false) w
    → isblank c ≡ true
    → first_word (w ++ (c ∷ s)) ≡ (w, c ∷ s)
unfolding first_word
first_word-word [] c s h b = rw b refl
first_word-word (d ∷ w) c s h b = rw (h.0, first_word-word w c s h.1 b) refl

skip_blanks_blanks :
    (mid a : Bytes) → All (λ c. isblank c ≡ true) mid → skip_blanks (mid ++ a) ≡ skip_blanks a
unfolding skip_blanks
skip_blanks_blanks [] a h = refl
skip_blanks_blanks (c ∷ mid) a h = rw h.0 (skip_blanks_blanks mid a h.1)

-- skipping blanks in front of white space makes no difference
skip_space-skip_blanks : (s : Bytes) → skip_space (skip_blanks s) ≡ skip_space s
unfolding skip_space skip_blanks
skip_space-skip_blanks [] = refl
skip_space-skip_blanks (c ∷ s) = ground (arith, skip_space-skip_blanks s)

one_quote : (a : Bytes) → (head a == 34) ≡ false → behind (codes "\"") a ≡ none
unfolding behind
one_quote [] h = refl
one_quote (c ∷ a) h = ground arith

-- what a long command gets for its argument
same_arg :
    (name a : Bytes)
    → command_run name (or_null (skip_space a))
      ≡ command_run name (or_null (skip_space (skip_blanks a)))
same_arg name a = ap (λ s. command_run name (or_null s)) (sym (skip_space-skip_blanks a))

-- A short command is the long one that its table names, with what stands behind it for the argument:
-- `'hello` is `say hello`. In front of a quotation mark this is not said, since `""` is a command.
pub short-long :
    (a : Bytes)
    → (head a == 34) ≡ false
    → All
        (λ (e : Bytes × Bytes). command_execute (e.0 ++ a) ≡ command_execute (e.1 ++ (32 ∷ a)))
        command_short_table
unfolding command_execute skip_space
short-long a h = (
  same_arg (codes "pose") a,
  (
    same_arg (codes "say") a,
    (
      same_arg (codes "yell") a,
      (
        rw (one_quote a h) (same_arg (codes "say") a),
        (
          same_arg (codes "emote") a,
          (same_arg (codes "chsay") a, (same_arg (codes "spoof") a, tt)),
        ),
      ),
    ),
  ),
)

skip_space-text : (a : Bytes) → isspace (head a) ≡ false → skip_space a ≡ a
unfolding skip_space
skip_space-text [] h = refl
skip_space-text (c ∷ a) h = skip_space_solid c a h

skip_blanks-text :
    (mid a : Bytes)
    → All (λ c. isblank c ≡ true) mid
    → isspace (head a) ≡ false
    → skip_space (skip_blanks (mid ++ a)) ≡ a
skip_blanks-text mid a bs h =
    ap skip_space (skip_blanks_blanks mid a bs) ∙ (skip_space-skip_blanks a ∙ skip_space-text a h)

long_command-word :
    (w mid a : Bytes) (blank : ℕ)
    → All (λ c. isblank c ≡ false) w
    → length w ≤ 63
    → isblank blank ≡ true
    → All (λ c. isblank c ≡ true) mid
    → isspace (head a) ≡ false
    → long_command (w ++ (blank ∷ (mid ++ a))) ≡ command_run w (or_null a)
unfolding long_command args
long_command-word w mid a blank solid short b bs h =
    rw
      (first_word-word w blank (mid ++ a) solid b, skip_blanks-text mid a bs h, take_all 63 w short)
      refl

execute_line-letter :
    (c : ℕ) (s : Bytes) → ispunct c ≡ false → execute_line (c ∷ s) ≡ long_command (c ∷ s)
unfolding execute_line
execute_line-letter c s h = rw h refl

-- A line of a first word that is a command's name in any case, blanks and an argument, behind any
-- white space, runs that command by the word as it was written, with the argument as it was written, or NULL
-- where there is none. The word is of at most 63 bytes and does not begin with a punctuation mark.
pub command_execute-entry :
    (pre : Bytes) (c : ℕ) (w mid a name : Bytes) (blank : ℕ) (cb : Callback)
    → IsEntry command_table name cb
    → same_text (c ∷ w) name ≡ true
    → IsBlank pre
    → All (λ d. isblank d ≡ false) (c ∷ w)
    → length (c ∷ w) ≤ 63
    → isspace c ≡ false
    → ispunct c ≡ false
    → isblank blank ≡ true
    → All (λ d. isblank d ≡ true) mid
    → isspace (head a) ≡ false
    → command_execute (pre ++ ((c ∷ w) ++ (blank ∷ (mid ++ a))))
      ≡ some (record { cb = cb; cmd = c ∷ w; arg = or_null a })
unfolding command_execute
command_execute-entry pre c w mid a name blank cb m same blanks solid short starts letter b bs
      text =
    let line : Bytes = (c ∷ w) ++ (blank ∷ (mid ++ a)) in
    let trimmed : skip_space (pre ++ line) ≡ line =
      skip_space_blank pre line blanks ∙ skip_space_solid c (w ++ (blank ∷ (mid ++ a))) starts in
    ap execute_line trimmed
    ∙ (execute_line-letter c (w ++ (blank ∷ (mid ++ a))) letter
        ∙ (long_command-word (c ∷ w) mid a blank solid short b bs text
            ∙ command_run-entry (c ∷ w) (or_null a) name cb m same))
