-- ===== src/Prelude/Ctype.antt =====
-- <ctype.h> and <string.h> in the C locale, over bytes as numbers. A C string is the list of its
-- bytes in front of the terminating NUL.
use Prim.Native.Nat.{ℕ, ◌+◌, ◌<◌}
use Prim.Native.Char.{code}
use Prim.Native.String.{String}
use native.Mathlib.Omega.{arith}
use mathlib.Core.Path.{◌≡◌, refl, sym, ◌∙◌}
use mathlib.Core.Logic.{inl, inr}
use mathlib.Core.Bool.{Bool, true, false, ◌&&◌, ◌||◌}
use mathlib.Core.List.{List, [], ◌∷◌, ◌++◌}
use boris.Prelude.Tests.{Bool-cases, leb, ◌==◌, if◌then◌else◌}
use boris.Prelude.Lists.{All}

abbrev pub Bytes : Type 0
Bytes = List ℕ

-- the bytes of an ASCII literal
abbrev pub codes : String → Bytes
codes String.[] = []
codes (String.◌∷◌ c s) = code c ∷ codes s

abbrev pub between : ℕ → ℕ → ℕ → Bool
between lo hi c = leb lo c && leb c hi

abbrev pub isspace : ℕ → Bool
isspace c = between 9 13 c || (c == 32)

abbrev pub isprint : ℕ → Bool
isprint c = between 32 126 c

abbrev pub isdigit : ℕ → Bool
isdigit c = between b'0' b'9' c

abbrev pub isxdigit : ℕ → Bool
isxdigit c = isdigit c || (between b'a' b'f' c || between b'A' b'F' c)

abbrev pub tolower : ℕ → ℕ
tolower c = if between b'A' b'Z' c then c + 32 else c

-- no byte is NUL and each fits a `char`
abbrev pub IsText : Bytes → Type 0
IsText = All (λ c. (0 < c) × (c < 256))

-- the byte at the start of a C string, NUL at its end
abbrev pub head : Bytes → ℕ
head [] = 0
head (c ∷ s) = c

-- what a reader of a C string sees of a buffer
unfoldable pub until_nul : Bytes → Bytes
until_nul [] = []
until_nul (c ∷ s) = if c == 0 then [] else c ∷ until_nul s

unfoldable pub skip_space : Bytes → Bytes
skip_space [] = []
skip_space (c ∷ s) = if isspace c then skip_space s else c ∷ s

abbrev pub drop_last_space : ℕ → Bytes → Bytes
drop_last_space c [] = if isspace c then [] else c ∷ []
drop_last_space c (d ∷ s) = c ∷ d ∷ s

-- the text in front of the trailing white space
unfoldable pub strip_right : Bytes → Bytes
strip_right [] = []
strip_right (c ∷ s) = drop_last_space c (strip_right s)

-- `strcmp(a, b) == 0`
unfoldable pub bytes_eq : Bytes → Bytes → Bool
bytes_eq [] [] = true
bytes_eq [] (d ∷ b) = false
bytes_eq (c ∷ a) [] = false
bytes_eq (c ∷ a) (d ∷ b) = (c == d) && bytes_eq a b

pub bytes_eq_refl : (a : Bytes) → bytes_eq a a ≡ true
unfolding bytes_eq
bytes_eq_refl [] = refl
bytes_eq_refl (c ∷ a) = ground (arith, bytes_eq_refl a)

pub bytes_eq_sound : (a b : Bytes) → bytes_eq a b ≡ true → a ≡ b
unfolding bytes_eq
bytes_eq_sound [] [] h = refl
bytes_eq_sound [] (d ∷ b) h = cc
bytes_eq_sound (c ∷ a) [] h = cc
bytes_eq_sound (c ∷ a) (d ∷ b) h = ground (arith, bytes_eq_sound a b)

-- `!strcasecmp(s, t)`
unfoldable pub same_text : Bytes → Bytes → Bool
same_text [] [] = true
same_text [] (d ∷ t) = false
same_text (c ∷ s) [] = false
same_text (c ∷ s) (d ∷ t) = (tolower c == tolower d) && same_text s t

pub same_text_refl : (s : Bytes) → same_text s s ≡ true
unfolding same_text
same_text_refl [] = refl
same_text_refl (c ∷ s) = ground (arith, same_text_refl s)

-- two names that are one but for case have the same third names
same_text-common :
    (a b n : Bytes) → same_text a n ≡ true → same_text b n ≡ true → same_text a b ≡ true
unfolding same_text
same_text-common [] [] n h k = refl
same_text-common [] (d ∷ b) [] h k = cc
same_text-common [] (d ∷ b) (e ∷ n) h k = cc
same_text-common (c ∷ a) b [] h k = cc
same_text-common (c ∷ a) [] (e ∷ n) h k = cc
same_text-common (c ∷ a) (d ∷ b) (e ∷ n) h k = ground (arith, same_text-common a b n)

pub not_both :
    (a b n : Bytes) → same_text a n ≡ true → same_text a b ≡ false → same_text b n ≡ false
not_both a b n h d = elim (Bool-cases (same_text b n)) [
  | inr e ↦ e
  | inl e ↦ let bad : true ≡ false = sym (same_text-common a b n h e) ∙ d in absurd (cc)
]

-- a byte that no loop over white space stops at
abbrev pub IsSolid : ℕ → Type 0
IsSolid c = isspace c ≡ false

pub drop_last_space_solid : (c : ℕ) (s : Bytes) → IsSolid c → drop_last_space c s ≡ c ∷ s
drop_last_space_solid c [] h = rw h
drop_last_space_solid c (d ∷ s) h = refl

pub strip_right_solid : (s : Bytes) → All IsSolid s → strip_right s ≡ s
unfolding strip_right
strip_right_solid [] h = refl
strip_right_solid (c ∷ s) h = rw (strip_right_solid s h.1) (drop_last_space_solid c s h.0)

-- white space at the end does not matter
pub strip_right_space : (s t : Bytes) → strip_right t ≡ [] → strip_right (s ++ t) ≡ strip_right s
unfolding strip_right
strip_right_space [] t h = h
strip_right_space (c ∷ s) t h = rw (strip_right_space s t h)

pub skip_space_solid : (c : ℕ) (s : Bytes) → IsSolid c → skip_space (c ∷ s) ≡ c ∷ s
unfolding skip_space
skip_space_solid c s h = rw h

pub strip_right-append :
    (s t : Bytes) (d : ℕ) (u : Bytes) → strip_right t ≡ d ∷ u → strip_right (s ++ t) ≡ s ++ (d ∷ u)
unfolding strip_right
strip_right-append [] t d u e = e
strip_right-append (c ∷ []) t d u e = rw (e, strip_right) refl
strip_right-append (c ∷ b ∷ s) t d u e = rw (strip_right-append (b ∷ s) t d u e) refl

abbrev pub IsBlank : Bytes → Type 0
IsBlank = All (λ c. isspace c ≡ true)

pub strip_right_blank : (s : Bytes) → IsBlank s → strip_right s ≡ []
unfolding strip_right
strip_right_blank [] h = refl
strip_right_blank (c ∷ s) h = rw (strip_right_blank s (h.1), h.0) refl

pub skip_space_blank : (s t : Bytes) → IsBlank s → skip_space (s ++ t) ≡ skip_space t
unfolding skip_space
skip_space_blank [] t h = refl
skip_space_blank (c ∷ s) t h = rw (h.0) (skip_space_blank s t (h.1))

ended : (d : ℕ) (t : Bytes) → IsSolid d → strip_right t ≡ [] → strip_right (d ∷ t) ≡ d ∷ []
unfolding strip_right
ended d t h e = rw (e, h) refl

pub strip_right_ends :
    (s : Bytes) (d : ℕ) (t : Bytes)
    → IsSolid d
    → strip_right t ≡ []
    → strip_right (s ++ d ∷ t) ≡ s ++ d ∷ []
strip_right_ends s d t h e = strip_right-append s (d ∷ t) d [] (ended d t h e)
