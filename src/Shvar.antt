-- ===== src/Shvar.antt =====
-- Shell variables in a text, shvar_eval of src/common.c. `match` is the function that the caller hands over.

pub mod Expand
mod Tests
use boris.Prelude.{
  ℕ, zero, suc, ◌+◌, ◌-◌, Bool, true, false, ◌||◌, Option, none, some, List, [], ◌∷◌, ◌++◌, ◌==◌,
  if◌then◌else◌, ltb, between, length, take, Bytes,
}

-- the text that is written, whether a NUL stands behind it, and the result
pub record Shvar : Type 0 where
  pub text : Bytes
  pub ended : Bool
  pub result : ℕ

abbrev pub shvar_id_max : ℕ
shvar_id_max = 128

-- what a round of the loop comes to: more text with what is left of the room and of the source, the end of the
-- call, or what C leaves undefined
pub data ShvarRound : Type 0 where
  more : Bytes → ℕ → Bytes → ShvarRound
  stop : Shvar → ShvarRound
  undefined : ShvarRound

-- the text in front of `end_char`, and what is behind it
pub until : ℕ → Bytes → Option (Bytes × Bytes)
until end_char [] = none
until end_char (c ∷ s) =
    let r = until end_char s in
    if c == end_char
    then some ([], s)
    else elim r [ none ↦ none | some (key, rest) ↦ some (c ∷ key, rest) ]

-- `isalnum(c) || c == '_'`
abbrev pub is_key : ℕ → Bool
is_key c = between 48 57 c || (between 65 90 c || (between 97 122 c || c == 95))

-- the name at the start of the text, and what is behind it
pub bare : Bytes → Bytes × Bytes
bare [] = ([], [])
bare (c ∷ s) = let r = bare s in if is_key c then (c ∷ r.0, r.1) else ([], c ∷ s)

-- the value is copied where it fits
abbrev pub put_value : Option Bytes → ℕ → Bytes → ShvarRound
put_value none len rest = more [] len rest
put_value (some tmp) len rest =
    if ltb len (length tmp)
    then stop (record { text = []; ended = false; result = 0 })
    else more tmp (len - length tmp) rest

-- `key` has room for 127 bytes and their NUL
abbrev pub substitute : Option (Bytes → Option Bytes) → ℕ → Bytes → Bytes → ShvarRound
substitute none len key rest = more [] len rest
substitute (some match) len key rest =
    if ltb (length key) shvar_id_max then put_value (match key) len rest else undefined

-- a variable in brackets; without the closing one, the source from `old` on is copied
abbrev pub enclosed :
    Option (Bytes → Option Bytes) → ℕ → Bytes → Option (Bytes × Bytes) → ShvarRound
enclosed match len old none = stop (record { text = take (len - 1) old; ended = true; result = 0 })
enclosed match len old (some (key, rest)) = substitute match len key rest

-- behind a dollar sign
pub behind_dollar : Option (Bytes → Option Bytes) → ℕ → Bytes → ShvarRound
unfolding until bare
behind_dollar match len [] = substitute match len [] []
behind_dollar match len (c ∷ s) =
    if c == 123
    then enclosed match len (36 ∷ c ∷ s) (until 125 s)
    else if c == 40
    then enclosed match len (36 ∷ c ∷ s) (until 41 s)
    else if c == 36
    then more (36 ∷ []) (len - 1) s
    else substitute match len (bare (c ∷ s)).0 (bare (c ∷ s)).1

-- behind the loop; without room, the NUL goes behind the buffer
abbrev pub shvar_end : ℕ → Option Shvar
shvar_end zero = none
shvar_end (suc len) = some (record { text = []; ended = true; result = 1 })

abbrev pub behind_text : Bytes → Option Shvar → Option Shvar
behind_text out none = none
behind_text out (some r) = some (record r { text = out ++ r.text })

-- the loop; `none` where the rounds run out, or something undefined is done
pub shvar_loop : ℕ → Option (Bytes → Option Bytes) → ℕ → Bytes → Option Shvar
unfolding behind_dollar
shvar_loop zero match len src = none
shvar_loop (suc rounds) match len [] = shvar_end len
shvar_loop (suc rounds) match zero (c ∷ s) = shvar_end zero
shvar_loop (suc rounds) match (suc len) (c ∷ s) =
    let round : ShvarRound =
      if c == 36 then behind_dollar match (suc len) s else more (c ∷ []) len s in
    elim round [
      | more out left rest ↦ behind_text out (shvar_loop rounds match left rest)
      | stop r ↦ some r
      | undefined ↦ none
    ]

-- `shvar_eval`: each round takes a byte of the source
pub shvar_eval : ℕ → Bytes → Option (Bytes → Option Bytes) → Option Shvar
shvar_eval len src match = shvar_loop (length src + 1) match len src
