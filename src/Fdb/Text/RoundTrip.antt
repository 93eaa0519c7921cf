-- ===== src/Fdb/Text/RoundTrip.antt =====
-- What is written to a record is read back.
use boris.Prelude.{
  IsSolid, strip_right_solid, strip_right_space, skip_space_solid, sym, append_assoc, ℕ, zero, suc,
  ◌-◌, ◌/◌, ◌%◌, ◌≤◌, ◌<◌, ◌≡◌, ◌≢◌, inl, inr, refl, ap, ◌∙◌, true, some, [], ◌∷◌, ◌++◌, arith,
  length, length-append, replicate, All, All-append, Bytes, isspace, IsText, until_nul, skip_space,
  strip_right, Bool-cases,
}
use boris.Fdb.Text.{
  percent, ishex, hextab, unhex, emit, unescape_loop, unescape, split_name, pair, parse_line,
  is_plain, hex_digit, escape_byte, escape, escaped_len, format_pair,
}

unescape_loop-cons :
    (c : ℕ) (s : Bytes) → c ≢ percent → unescape_loop (c ∷ s) ≡ emit (some c) (unescape_loop s)
unfolding unescape_loop
unescape_loop-cons c [] h = refl
unescape_loop-cons c (d ∷ []) h = ground arith
unescape_loop-cons c (d ∷ e ∷ s) h = ground arith

unhex-hex_digit : (c : ℕ) → c < 256 → unhex (hex_digit (c / 16)) (hex_digit (c % 16)) ≡ some c
unfolding unhex hextab
unhex-hex_digit c h = ground arith

ishex-hex_digit : (n : ℕ) (s : Bytes) → n < 16 → ishex (hex_digit n ∷ s) ≡ true
unfolding ishex
ishex-hex_digit n s h = ground arith

plain-ne-percent : (c : ℕ) → is_plain c ≡ true → c ≢ percent
unfolding is_plain
plain-ne-percent c h = ground arith

unescape_loop-escape_byte :
    (c : ℕ) (s : Bytes)
    → c < 256
    → unescape_loop (escape_byte c ++ s) ≡ emit (some c) (unescape_loop s)
unfolding escape_byte
unescape_loop-escape_byte c s h = elim (Bool-cases (is_plain c)) [
  | inl p ↦ rw p (unescape_loop-cons c s (plain-ne-percent c p))
  | inr p ↦ rw p (
      unfold unescape_loop in
      ground (arith, ishex-hex_digit (c / 16) (hex_digit (c % 16) ∷ s), unhex-hex_digit c h))
]

unescape_loop-escape : (s : Bytes) → IsText s → unescape_loop (escape s) ≡ some s
unfolding escape
unescape_loop-escape [] v = unfold unescape_loop in refl
unescape_loop-escape (c ∷ s) v =
    rw (unescape_loop-escape_byte c (escape s) v.0.1, unescape_loop-escape s v.1)

escape_byte-IsSolid : (c : ℕ) → c < 256 → All IsSolid (escape_byte c)
unfolding escape_byte is_plain
escape_byte-IsSolid c h = ground arith

escape-IsSolid : (s : Bytes) → IsText s → All IsSolid (escape s)
unfolding escape
escape-IsSolid [] v = tt
escape-IsSolid (c ∷ s) v =
    All-append IsSolid (escape_byte c) (escape s) (escape_byte-IsSolid c v.0.1)
      (escape-IsSolid s v.1)

unescape-padded :
    (s t : Bytes)
    → All IsSolid s
    → strip_right t ≡ []
    → skip_space t ≡ []
    → unescape (skip_space (s ++ t)) ≡ unescape s
unfolding unescape
unescape-padded [] t h e f = rw f
unescape-padded (c ∷ s) t h e f =
    rw (skip_space_solid c (s ++ t) h.0, strip_right_space (c ∷ s) t e)

-- Undoing the escapes of an escaped text gives the text back.
pub unescape-escape : (s : Bytes) → IsText s → unescape (escape s) ≡ some s
unfolding unescape
unescape-escape s v =
    rw (strip_right_solid (escape s) (escape-IsSolid s v)) (unescape_loop-escape s v)

-- The first loop of `fdb_write_pair` measures what the second one writes.
length-escape : (s : Bytes) → length (escape s) ≡ escaped_len s
unfolding escape escaped_len escape_byte
length-escape [] = refl
length-escape (c ∷ s) = ground (arith, length-append (escape_byte c) (escape s), length-escape s)

abbrev pub LacksEquals : Bytes → Type 0
LacksEquals = All (λ c. c ≢ b'=')

-- A field's name: no `=` in it and no white space around it.
pub record IsName (name : Bytes) : Type 0 where
  pub no_equals : LacksEquals name
  pub trimmed_left : skip_space name ≡ name
  pub trimmed_right : strip_right name ≡ name

split_name-append :
    (name rest : Bytes) → LacksEquals name → split_name (name ++ (b'=' ∷ rest)) ≡ some (name, rest)
unfolding split_name
split_name-append [] rest h = refl
split_name-append (c ∷ name) rest h = ground (arith, split_name-append name rest h.1)

length-skip_space : (s : Bytes) → length (skip_space s) ≤ length s
unfolding skip_space
length-skip_space [] = omega arith
length-skip_space (c ∷ s) = ground (arith, length-skip_space s)

skip_space-cases : (c : ℕ) (s : Bytes) → skip_space (c ∷ s) ≡ c ∷ s → IsSolid c
unfolding skip_space
skip_space-cases c s h = elim (Bool-cases (isspace c)) [
  | inl space ↦ absurd (longer (rw space at h))
  | inr solid ↦ solid
]
  where
    longer : skip_space s ≡ c ∷ s → ⊥
    longer e = omega (arith, ap length e, length-skip_space s)

skip_space-pad : (n : ℕ) (s : Bytes) → skip_space (replicate n 32 ++ s) ≡ skip_space s
unfolding skip_space
skip_space-pad zero s = refl
skip_space-pad (suc n) s = skip_space-pad n s

strip_right-pad : (n : ℕ) → strip_right (replicate n 32) ≡ []
unfolding strip_right
strip_right-pad zero = refl
strip_right-pad (suc n) = rw (strip_right-pad n)

replicate-ne-equals : (n : ℕ) → LacksEquals (replicate n 32)
replicate-ne-equals zero = tt
replicate-ne-equals (suc n) = (omega arith, replicate-ne-equals n)

until_nul_text : (s : Bytes) → IsText s → until_nul s ≡ s
unfolding until_nul
until_nul_text [] v = refl
until_nul_text (c ∷ s) v = ground (arith, until_nul_text s v.1)

-- the padded name, in front of its `=`
name_part :
    (name : Bytes) (k : ℕ) (rest : Bytes)
    → IsName name
    → (padded : Bytes) × (split_name (skip_space ((name ++ replicate k 32) ++ (b'=' ∷ rest)))
        ≡ some (padded, rest))
      × (strip_right padded ≡ name)
name_part [] k rest v = (
  [],
  rw (skip_space-pad, skip_space_solid b'=' rest refl) (split_name-append [] rest tt),
  unfold strip_right in refl,
)
name_part (c ∷ name) k rest v = (
  (c ∷ name) ++ replicate k 32,
  rw
      (skip_space_solid c ((name ++ replicate k 32) ++ (b'=' ∷ rest))
        (skip_space-cases c name v.trimmed_left))
      (split_name-append ((c ∷ name) ++ replicate k 32) rest
        (All-append _ (c ∷ name) (replicate k 32) v.no_equals (replicate-ne-equals k))),
  strip_right_space (c ∷ name) (replicate k 32) (strip_right-pad k) ∙ v.trimmed_right,
)

value_part :
    (value : Bytes)
    → IsText value
    → unescape (skip_space (32 ∷ (escape value ++ (10 ∷ [])))) ≡ some value
value_part value w =
    skip_first
    ∙ unescape-padded (escape value) (10 ∷ []) (escape-IsSolid value w) (unfold strip_right in refl)
        (unfold skip_space in refl)
    ∙ unescape-escape value w
  where
    skip_first :
        unescape (skip_space (32 ∷ (escape value ++ (10 ∷ []))))
        ≡ unescape (skip_space (escape value ++ (10 ∷ [])))
    skip_first = ap unescape (skip_space-pad 1 (escape value ++ (10 ∷ [])))

-- A line that `fdb_write_pair` writes is parsed into the name and the value that it was given.
pub parse_line-format_pair :
    (name value : Bytes)
    → IsName name
    → IsText value
    → parse_line (format_pair name value) ≡ pair name value
unfolding parse_line format_pair
parse_line-format_pair name value v w =
    let rest = 32 ∷ (escape value ++ (10 ∷ [])) in
    let (padded, split, trimmed) = name_part name (12 - length name) rest v in
    rw (split, trimmed, value_part value w, until_nul_text value w)

escape_byte-IsLine : (c : ℕ) → c < 256 → All (λ d. (0 < d) × (d ≢ 10)) (escape_byte c)
unfolding escape_byte is_plain
escape_byte-IsLine c h = ground arith

-- Escaped text stays on its line.
pub escape-IsLine : (s : Bytes) → IsText s → All (λ d. (0 < d) × (d ≢ 10)) (escape s)
unfolding escape
escape-IsLine [] v = tt
escape-IsLine (c ∷ s) v =
    All-append _ (escape_byte c) (escape s) (escape_byte-IsLine c v.0.1) (escape-IsLine s v.1)

-- The line of a pair: one newline, at its end.
pub format_pair_line :
    (name value : Bytes)
    → format_pair name value
      ≡ ((name ++ replicate (12 - length name) 32) ++ (b'=' ∷ 32 ∷ escape value)) ++ (10 ∷ [])
unfolding format_pair
format_pair_line name value =
    sym
      (append_assoc (name ++ replicate (12 - length name) 32) (b'=' ∷ 32 ∷ escape value) (10 ∷ []))
