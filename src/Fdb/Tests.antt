-- ===== src/Fdb/Tests.antt =====
-- Records of the file database on concrete data.
use boris.Prelude.{
  ◌^◌, bytes_eq, stream, ℕ, ◌≤◌, ◌<◌, ◌≡◌, ◌≢◌, refl, ◌⊎◌, true, false, some, none, List, [], ◌∷◌,
  ◌++◌, arith, All, Bytes, codes, skip_space, strip_right,
}
use boris.Fdb.Text.{pair, escape, escape_byte, is_plain, format_pair, parse_line}
use boris.Fdb.Text.RoundTrip.{IsName, parse_line-format_pair}
use boris.Fdb.Read.{parsed, read_next, read_begin, read_end}
use boris.Fdb.Read.Lines.{read_next_line}
use boris.Fdb.Record.{read_fields, read_fields-record_text}
use boris.Fdb.Write.{Disk, WriteHandle, makepath, makepath_tmp, write_begin, write_end}
use boris.Fdb.Write.Atomic.{IsOpen, record_text, write_end_atomic, write_transaction, write_fields}
use boris.Fdb.Directory.Names.{Names, iterate-Names}
use boris.Fdb.Directory.{Entry, regular, other, istempname, last, iterate, record_names, is_skipped}

-- a value with a newline and a percent sign: `50%`, then `ok`
abbrev value : Bytes
value = 53 ∷ 48 ∷ 37 ∷ 10 ∷ 111 ∷ 107 ∷ []

value-IsText : All (λ c. (0 < c) × (c < 256)) value
value-IsText = (
  (omega arith, omega arith),
  (
    (omega arith, omega arith),
    (
      (omega arith, omega arith),
      ((omega arith, omega arith), ((omega arith, omega arith), ((omega arith, omega arith), tt))),
    ),
  ),
)

-- `hp`
abbrev name : Bytes
name = 104 ∷ 112 ∷ []

name-IsName : IsName name
unfolding skip_space strip_right
name-IsName = record {
  no_equals = (λ e. absurd (omega (arith, e)), (λ e. absurd (omega (arith, e)), tt));
  trimmed_left = refl;
  trimmed_right = refl;
}

name-IsLine : All (λ c. (0 < c) × (c ≢ 10)) name
name-IsLine = (
  (omega arith, λ e. absurd (omega (arith, e))),
  ((omega arith, λ e. absurd (omega (arith, e))), tt),
)

abbrev empty_disk : Disk
empty_disk path = none

-- an open record, `data/u/1`
abbrev open_record : WriteHandle
open_record = record {
  written = codes "hp";
  filename_tmp = makepath_tmp (codes "u") (codes "1");
  domain = codes "u";
  id = codes "1";
  error_fl = false;
}

open_record-IsOpen : IsOpen open_record
open_record-IsOpen = record { tmp = refl; short = omega arith }

abbrev entries : List Entry
entries =
    (record { d_name = codes "1"; stat = regular })
    ∷ (record { d_name = codes ".."; stat = other })
    ∷ (record { d_name = codes "2.tmp"; stat = regular })
    ∷ []

record_names_test : record_names entries ≡ codes "1" ∷ []
unfolding record_names is_skipped istempname last bytes_eq
record_names_test = refl

parse_line-format_pair_example : parse_line (format_pair name value) ≡ pair name value
parse_line-format_pair_example = parse_line-format_pair name value name-IsName value-IsText

read_next_line_example :
    (n' : ℕ) × (read_next 3 true (read_begin (name ++ (10 ∷ value))) ≡ (
      parsed (parse_line (name ++ (10 ∷ []))),
      record (read_begin (name ++ (10 ∷ value))) {
        stream = stream value false;
        alloc_len = n';
        line_number = 1;
      },
    ))
    × (2 ≤ n')
    × (n' < 2 ^ 31)
read_next_line_example =
    read_next_line 3 name value (read_begin (name ++ (10 ∷ value))) (omega arith) (omega arith)
      name-IsLine refl (omega arith) (omega arith)

abbrev one_field : List (Bytes × Bytes)
one_field = (name, value) ∷ []

read_fields-record_text_example :
    ((read_fields 2 100 (read_begin (record_text one_field))).0 ≡ one_field)
    × (read_end (read_fields 2 100 (read_begin (record_text one_field))).1 ≡ true)
unfolding format_pair escape escape_byte is_plain
read_fields-record_text_example =
    read_fields-record_text 100 one_field (omega arith) (omega arith)
      (record { name = name-IsName; name_line = name-IsLine; value = value-IsText }, tt)
      (omega arith, tt)

write_end_atomic_example :
    (((write_end true true false [] open_record empty_disk).0 ≡ true)
        × (false ≡ false)
        × ((write_end true true false [] open_record empty_disk).1
              (makepath (codes "u") (codes "1"))
            ≡ some (codes "hp"))
        × ((write_end true true false [] open_record empty_disk).1 open_record.filename_tmp ≡ none)
      ⊎ ((write_end true true false [] open_record empty_disk).0 ≡ false)
        × ((write_end true true false [] open_record empty_disk).1
              (makepath (codes "u") (codes "1"))
            ≡ none))
    × ((p : Bytes)
        → p ≢ open_record.filename_tmp
        → p ≢ makepath (codes "u") (codes "1")
        → (write_end true true false [] open_record empty_disk).1 p ≡ none)
write_end_atomic_example =
    write_end_atomic true true false [] open_record empty_disk open_record-IsOpen

write_transaction_example :
    (h : WriteHandle) × (opened : Disk) × (saved : Disk) × (write_begin true
        (codes "u")
        (codes "1")
        empty_disk
      ≡ (some h, opened))
    × (write_end true true true [] (write_fields h one_field) opened ≡ (true, saved))
    × (saved (makepath (codes "u") (codes "1")) ≡ some (record_text one_field))
    × (saved (makepath_tmp (codes "u") (codes "1")) ≡ none)
    × ((p : Bytes)
        → p ≢ makepath (codes "u") (codes "1")
        → p ≢ makepath_tmp (codes "u") (codes "1")
        → saved p ≡ none)
write_transaction_example =
    write_transaction (codes "u") (codes "1") one_field empty_disk (omega arith)

iterate-Names_example : Names entries (iterate 4 entries)
iterate-Names_example = iterate-Names 4 entries (omega arith) (ground arith)
