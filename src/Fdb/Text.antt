-- ===== src/Fdb/Text.antt =====
-- The text of a record: escapes, and the parser of a line.
pub mod RoundTrip
use boris.Prelude.{
  ℕ, ◌+◌, ◌-◌, ◌*◌, ◌/◌, ◌%◌, ◌≡◌, refl, Bool, not, ◌&&◌, Option, none, some, [], ◌∷◌, ◌++◌, ltb,
  ◌==◌, if◌then◌else◌, length, replicate, Bytes, codes, between, isspace, isprint, isxdigit, head,
  until_nul, skip_space, strip_right,
}

abbrev pub percent : ℕ
percent = b'%'

-- `ishex`: it looks at `code[0]` twice.
unfoldable pub ishex : Bytes → Bool
ishex s = isxdigit (head s) && isxdigit (head s)

-- `hextab`, which ends with 'f'; `none` is a read past its end. Entries with no initializer are 0.
unfoldable pub hextab : ℕ → Option ℕ
hextab c =
    if ltb b'f' c
    then none
    else if between b'0' b'9' c
    then some (c - b'0')
    else if between b'A' b'F' c
    then some (c - b'A' + 10)
    else if c == b'b'
    then some 12
    else if between b'a' b'f' c
    then some (c - b'a' + 10)
    else some 0

abbrev pub bind {ℓ κ} : {A : Type ℓ} {B : Type κ} → Option A → (A → Option B) → Option B
bind none f = none
bind (some a) f = f a

-- `unhex`
unfoldable pub unhex : ℕ → ℕ → Option ℕ
unhex c d = bind (hextab c) (λ a. bind (hextab d) (λ b. some (a * 16 + b)))

abbrev pub emit : Option ℕ → Option Bytes → Option Bytes
emit b s = bind b (λ x. bind s (λ t. some (x ∷ t)))

-- The second loop of `unescape`; `none` is a read out of bounds. Of `%` and one hexadecimal digit at
-- the end of the text, the loop steps over the NUL and reads on behind it.
unfoldable pub unescape_loop : Bytes → Option Bytes
unescape_loop [] = some []
unescape_loop (c ∷ []) = some (c ∷ [])
unescape_loop (c ∷ d ∷ []) = if (c == percent) && ishex (d ∷ []) then none else some (c ∷ d ∷ [])
unescape_loop (c ∷ d ∷ e ∷ s) =
    let escape = emit (unhex d e) (unescape_loop s) in
    let copy = emit (some c) (unescape_loop (d ∷ e ∷ s)) in
    if (c == percent) && ishex (d ∷ e ∷ s) then escape else copy

-- `unescape`: what the buffer holds in front of the NUL that the call writes last
unfoldable pub unescape : Bytes → Option Bytes
unescape s = unescape_loop (strip_right s)

-- up to the first `=`, and the text behind it
unfoldable pub split_name : Bytes → Option (Bytes × Bytes)
split_name [] = none
split_name (c ∷ s) =
    if c == b'=' then some ([], s) else bind (split_name s) (λ p. some (c ∷ p.0, p.1))

pub data Parsed : Type 0 where
  failure : Parsed
  out_of_bounds : Parsed
  pair : Bytes → Bytes → Parsed

abbrev pub parsed_value : Bytes → Option Bytes → Parsed
parsed_value name none = out_of_bounds
parsed_value name (some v) = pair name (until_nul v)

abbrev pub parsed_pair : Option (Bytes × Bytes) → Parsed
parsed_pair none = failure
parsed_pair (some (name, rest)) = parsed_value (strip_right name) (unescape (skip_space rest))

-- `fdb_parse_line`: the name and the value, as the C strings that the pointers reach
unfoldable pub parse_line : Bytes → Parsed
parse_line line = parsed_pair (split_name (skip_space line))

-- a byte that `fdb_write_pair` copies
unfoldable pub is_plain : ℕ → Bool
is_plain c = isprint c && (not (isspace c) && (not (c == percent) && not (c == b'"')))

-- a digit of `%02hhX`
abbrev pub hex_digit : ℕ → ℕ
hex_digit n = if ltb n 10 then b'0' + n else b'A' + (n - 10)

unfoldable pub escape_byte : ℕ → Bytes
escape_byte c =
    if is_plain c then c ∷ [] else percent ∷ hex_digit (c / 16) ∷ hex_digit (c % 16) ∷ []

-- the second loop of `fdb_write_pair`
unfoldable pub escape : Bytes → Bytes
escape [] = []
escape (c ∷ s) = escape_byte c ++ escape s

-- the first loop of `fdb_write_pair`, which measures the buffer
pub escaped_len : Bytes → ℕ
escaped_len [] = 0
escaped_len (c ∷ s) = (if is_plain c then 1 else 3) + escaped_len s

-- `fprintf(h->f, "%-12s= %s\n", name, escaped_value)`
unfoldable pub format_pair : Bytes → Bytes → Bytes
format_pair name value =
    (name ++ replicate (12 - length name) 32) ++ (b'=' ∷ 32 ∷ (escape value ++ (10 ∷ [])))

unescape_test : unescape (codes "a%20b%0AC  ") ≡ some (codes "a b\nC")
unfolding unescape unescape_loop ishex unhex hextab strip_right
unescape_test = refl
