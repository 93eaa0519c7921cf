-- ===== src/Fdb/Record.antt =====
-- A record that was written is read back, field by field, by the loop that the clients run:
-- `while (fdb_read_next(h, &name, &value)) ...`.
use boris.Prelude.{
  stream, ℕ, zero, suc, ◌+◌, ◌-◌, ◌≤◌, ◌<◌, ◌^◌, ◌≡◌, refl, ap, ◌∙◌, sym, true, false, List, [],
  ◌∷◌, ◌++◌, append_assoc, arith, length, length-append, replicate, All, All-append, Bytes, IsText,
}
use boris.Fdb.Text.{pair, failure, out_of_bounds, escape, format_pair, parse_line}
use boris.Fdb.Text.RoundTrip.{IsName, parse_line-format_pair, escape-IsLine, format_pair_line}
use boris.Fdb.Read.{ReadHandle, parsed, stop, out_of_fuel, read_next, read_begin, read_end}
use boris.Fdb.Read.Lines.{IsLine, read_next_line, read_next_end, read_end_lem}
use boris.Fdb.Write.Atomic.{record_text}

abbrev push : Bytes × Bytes → List (Bytes × Bytes) × ReadHandle → List (Bytes × Bytes) × ReadHandle
push f (fields, h) = (f ∷ fields, h)

-- the client's loop, of at most `rounds` rounds
unfoldable pub read_fields : ℕ → ℕ → ReadHandle → List (Bytes × Bytes) × ReadHandle
read_fields zero fuel h = ([], h)
read_fields (suc rounds) fuel h =
    let (res, h') = read_next fuel true h in
    elim res [
      | parsed (pair name value) ↦ push (name, value) (read_fields rounds fuel h')
      | parsed failure ↦ ([], h')
      | parsed out_of_bounds ↦ ([], h')
      | stop ↦ ([], h')
      | out_of_fuel ↦ ([], h')
    ]

-- A field that survives: a trimmed name with no `=` and no line break, and a value with no NUL.
pub record IsField (f : Bytes × Bytes) : Type 0 where
  pub name : IsName f.0
  pub name_line : IsLine f.0
  pub value : IsText f.1

-- the line of a field, less its newline
abbrev field_line : Bytes → Bytes → Bytes
field_line name value = (name ++ replicate (12 - length name) 32) ++ (b'=' ∷ 32 ∷ escape value)

replicate-IsLine : (n : ℕ) → IsLine (replicate n 32)
replicate-IsLine zero = tt
replicate-IsLine (suc n) = ((omega arith, omega arith), replicate-IsLine n)

field_line-IsLine :
    (name value : Bytes) → IsLine name → IsText value → IsLine (field_line name value)
field_line-IsLine name value v w =
    All-append _ (name ++ replicate (12 - length name) 32) (b'=' ∷ 32 ∷ escape value)
      (All-append _ name (replicate (12 - length name) 32) v (replicate-IsLine (12 - length name)))
      ((omega arith, omega arith), ((omega arith, omega arith), escape-IsLine value w))

-- each line fits the fuel of a call
abbrev pub Fits : ℕ → List (Bytes × Bytes) → Type 0
Fits fuel = All (λ f. length (format_pair f.0 f.1) ≤ fuel)

read_fields_pair :
    (rounds fuel : ℕ) (h : ReadHandle) (name value : Bytes) (h' : ReadHandle)
    → read_next fuel true h ≡ (parsed (pair name value), h')
    → read_fields (suc rounds) fuel h ≡ push (name, value) (read_fields rounds fuel h')
unfolding read_fields
read_fields_pair rounds fuel h name value h' e = rw (e, read_fields) (rw e)

read_fields_from :
    (fuel : ℕ) (fields : List (Bytes × Bytes)) (h : ReadHandle)
    → 0 < fuel
    → fuel ≤ 2 ^ 30 - 4096
    → All IsField fields
    → Fits fuel fields
    → h.stream ≡ stream (record_text fields) false
    → 2 ≤ h.alloc_len
    → h.alloc_len < 2 ^ 31
    → ((read_fields (suc (length fields)) fuel h).0 ≡ fields)
      × ((read_fields (suc (length fields)) fuel h).1.error_fl ≡ h.error_fl)
unfolding read_fields record_text
read_fields_from fuel [] h pos small v f at room int =
    let (res, fl) = read_next_end fuel h pos at room int in rw (res, read_fields) (refl, fl)
read_fields_from fuel ((name, value) ∷ fields) h pos small v f at room int =
    let line = field_line name value in
    let whole = format_pair_line name value in
    let size : length line < fuel =
      omega (arith, f.0, ap length whole, length-append line (10 ∷ [])) in
    let start : h.stream ≡ stream (line ++ (10 ∷ record_text fields)) false =
      at
      ∙ ap (λ s. stream s false)
          (ap (λ s. s ++ record_text fields) whole
            ∙ append_assoc line (10 ∷ []) (record_text fields)) in
    let (n', run, room', int') =
      read_next_line fuel line (record_text fields) h size (omega arith)
        (field_line-IsLine name value v.0.name_line v.0.value) start room int in
    let parse : parse_line (line ++ (10 ∷ [])) ≡ pair name value =
      ap parse_line (sym whole) ∙ parse_line-format_pair name value v.0.name v.0.value in
    let next = record h {
      stream = stream (record_text fields) false;
      alloc_len = n';
      line_number = h.line_number + 1;
    } in
    let (same, fl) = read_fields_from fuel fields next pos small v.1 f.1 refl room' int' in
    let step =
      read_fields_pair (suc (length fields)) fuel h name value next
        (run ∙ ap (λ p. (parsed p, next)) parse) in
    (ap (λ r. r.0) step ∙ ap (λ fs. (name, value) ∷ fs) same, ap (λ r. r.1.error_fl) step ∙ fl)

-- A file that holds the lines of well-formed fields, none longer than the fuel of a call or
-- 2 ^ 30 - 4096 bytes, is read back as those fields, in order, and the read ends without an error.
pub read_fields-record_text :
    (fuel : ℕ) (fields : List (Bytes × Bytes))
    → 0 < fuel
    → fuel ≤ 2 ^ 30 - 4096
    → All IsField fields
    → Fits fuel fields
    → ((read_fields (suc (length fields)) fuel (read_begin (record_text fields))).0 ≡ fields)
      × (read_end (read_fields (suc (length fields)) fuel (read_begin (record_text fields))).1
          ≡ true)
read_fields-record_text fuel fields pos small v f =
    let (same, fl) =
      read_fields_from fuel fields (read_begin (record_text fields)) pos small v f refl
        (omega arith) (omega arith) in
    (same, read_end_lem _ fl)
