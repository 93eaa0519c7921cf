-- ===== src/Character/Tests.antt =====
-- Characters at work: a check of one file at the start, and a new character after it.
use boris.Prelude.{
  ltb, ℕ, ◌+◌, ◌%◌, ◌^◌, ◌<◌, ◌≡◌, refl, true, false, not, ◌&&◌, none, some, List, [], ◌∷◌,
  if◌then◌else◌, Bytes, codes, bytes_eq, same_text, fgets, fgets_bytes, skip_space, strip_right,
  until_nul, All, u32_mod, arith,
}
use boris.Prelude.Decimal.{
  ten_digits, read_digits, number, ten_digits-isdigit, ten_digits_injective,
}
use boris.Freelist.{alloc, Extent, extent, new, pool, thwack, pool_loop, thwack_loop, thwack_at}
use boris.Freelist.Order.{IsOrdered, in_range, is_free}
use boris.Fdb.Directory.{
  Entry, regular, other, iterate, iterator_next, record_names, last, is_skipped, istempname,
}
use boris.Fdb.Read.{read_next, read_loop, read_round, take_part, has_newline}
use boris.Fdb.Text.{parse_line, split_name, unescape, unescape_loop}
use boris.Fdb.Record.{read_fields}
use boris.Fdb.Write.{write_begin, write_pair, write_pairs, write_end, Disk, makepath}
use boris.Character.{
  character_fields, Character, no_values, with_id, id_max, attrinfo, SaveCalls, character_new,
  character_save, character_attr_get, passed, character_initialize, character_load, load_values,
  set_in, character_attr_set,
}
use boris.Character.Numbers.{has_number, IsDistinct, character_initialize-Numbered}
use boris.Character.New.{Decimal, Fresh, character_new-Fresh}
use boris.Character.Values.{shown, character_attr_get-set}

abbrev entries : List Entry
entries =
    (record { d_name = codes "."; stat = other })
    ∷ (record { d_name = codes "0000000007"; stat = regular })
    ∷ []

abbrev seven : Bytes
seven = codes "id=0000000007\nname.short=sage\n"

files : Disk
files p = if bytes_eq p (codes "data/chars/0000000007") then some seven else none

abbrev left : List Extent
left = extent 1 6 ∷ extent 8 32760 ∷ []

checked_files :
    character_initialize ten_digits read_digits read_digits 5 100 true true true entries files
    ≡ passed left
unfolding character_initialize new pool pool_loop thwack thwack_loop thwack_at iterate iterator_next
    read_fields ten_digits read_digits number files bytes_eq makepath same_text last is_skipped
    istempname character_load load_values set_in character_attr_set fgets fgets_bytes read_next
    read_loop read_round take_part has_newline parse_line split_name skip_space strip_right unescape
    unescape_loop until_nul
checked_files = refl

entries_small : All (λ name. (read_digits name).0 % 2 ^ 32 + 1 < u32_mod) (record_names entries)
unfolding record_names is_skipped istempname last read_digits number bytes_eq
entries_small = omega arith

character_initialize-Numbered_example :
    IsOrdered 0 left
    × IsDistinct read_digits (record_names entries)
    × ((n : ℕ)
        → has_number read_digits n (record_names entries) ≡ true
        → in_range 1 id_max n ≡ true)
    × ((n : ℕ)
        → is_free left n
          ≡ (in_range 1 id_max n && not (has_number read_digits n (record_names entries))))
character_initialize-Numbered_example =
    character_initialize-Numbered read_digits read_digits ten_digits 5 100 files true true true
      entries left entries_small checked_files

digits-Decimal : Decimal ten_digits
unfolding ten_digits
digits-Decimal = record {
  digits = ten_digits-isdigit;
  short = λ n h. omega arith;
  injective = ten_digits_injective;
}

-- the first character that is made behind the check, where the file cannot be opened
abbrev first_new : Character
first_new = record no_values { values = with_id 1 no_values.values; dirty_fl = true }

left-is_free :
    (n : ℕ)
    → is_free left n ≡ true
    → (in_range 1 id_max n ≡ true) × (has_number read_digits n (codes "0000000007" ∷ []) ≡ false)
unfolding has_number read_digits number
left-is_free n h = ground arith

-- the temporary file is opened, and printing the third pair to it fails
abbrev no_room : SaveCalls
no_room = record {
  opens = true;
  closes = true;
  removes = true;
  renames = true;
  lost = [];
  pairs = λ i. record { malloc = true; fprintf = ltb i 2; lost = codes "na" };
}

first_made : (character_new ten_digits true no_room left files).0 ≡ some first_new
unfolding character_new character_save alloc write_begin write_pairs write_pair write_end
    character_fields
first_made = refl

character_new-Fresh_example :
    Fresh ten_digits digits-Decimal read_digits
      (codes "0000000007" ∷ [])
      left
      files
      1
      (character_new ten_digits true no_room left files).1
character_new-Fresh_example =
    character_new-Fresh ten_digits digits-Decimal true no_room left files read_digits
      (codes "0000000007" ∷ []) first_new (omega arith) left-is_free first_made

name_differs : same_text (codes "NAME.short") (codes "id") ≡ false
unfolding same_text
name_differs = refl

name_taken : (character_attr_set read_digits first_new (codes "NAME.short") (codes "sage")).0 ≡ 1
unfolding character_attr_set set_in same_text
name_taken = refl

character_attr_get-set_example :
    (character_attr_get ten_digits
        (character_attr_set read_digits first_new (codes "NAME.short") (codes "sage")).1
        (codes "NAME.short")
      ≡ some (
          shown read_digits ten_digits attrinfo first_new.values
            (codes "NAME.short")
            (codes "sage")))
    × (character_attr_get ten_digits
          (character_attr_set read_digits first_new (codes "NAME.short") (codes "sage")).1
          (codes "id")
        ≡ character_attr_get ten_digits first_new (codes "id"))
character_attr_get-set_example =
    character_attr_get-set read_digits ten_digits first_new (codes "NAME.short") (codes "sage")
      (codes "id") name_taken name_differs
