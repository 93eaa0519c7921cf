-- ===== src/Attr.antt =====
-- The values of records: attribute lists and the parsers of a value, `attr_find` to `attr_add` and
-- `parse_uint` to `parse_attr` of src/common.c. No allocation fails. `strtoul value` is what the C
-- library's `strtoul(value, &endptr, 0)` gives: the number and the text from `endptr`.
use boris.Prelude.{
  ℕ, ◌%◌, ◌^◌, Option, none, some, List, [], ◌∷◌, ◌++◌, ◌==◌, if◌then◌else◌, Bytes, head, bytes_eq,
}

-- `struct attr_entry`
pub record AttrEntry : Type 0 where
  pub name : Bytes
  pub value : Bytes

-- `attr_find`
unfoldable pub attr_find : List AttrEntry → Bytes → Option AttrEntry
attr_find [] name = none
attr_find (curr ∷ al) name = if bytes_eq curr.name name then some curr else attr_find al name

-- `attr_add`
unfoldable pub attr_add : List AttrEntry → Bytes → Bytes → ℕ × List AttrEntry
attr_add al name value = elim (attr_find al name) [
  | some curr ↦ (0, al)
  | none ↦ (1, al ++ (record { name = name; value = value }) ∷ [])
]

-- the value of the entry that `attr_find` finds is replaced
unfoldable pub replace_value : List AttrEntry → Bytes → Bytes → List AttrEntry
replace_value [] name value = []
replace_value (curr ∷ al) name value =
    if bytes_eq curr.name name
    then (record curr { value = value }) ∷ al
    else curr ∷ replace_value al name value

-- `parse_attr`
unfoldable pub parse_attr : Bytes → Bytes → List AttrEntry → ℕ × List AttrEntry
unfolding replace_value
parse_attr name value al = elim (attr_find al name) [
  | none ↦ attr_add al name value
  | some at ↦ (1, replace_value al name value)
]

-- `parse_str`
unfoldable pub parse_str : Bytes → ℕ × Option Bytes
parse_str value = (1, some value)

-- `parse_uint` of a value that is not NULL, with what `uint_p` held before
unfoldable pub parse_uint : (Bytes → ℕ × Bytes) → Bytes → ℕ → ℕ × ℕ
parse_uint strtoul value old =
    let r = strtoul value in
    if head value == 0
    then (0, old)
    else if head r.1 == 0
    then (1, r.0 % 2 ^ 32)
    else (0, r.0 % 2 ^ 32)
