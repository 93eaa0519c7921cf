-- ===== src/Character.antt =====
-- Characters, src/character/character.c: a record of the file database whose values are a table of members, the
-- numbers that are given out, and the check of all characters at the start. `decimal` is what `%u` prints,
-- `strtoul` as in Attr and `strtoul10` for base ten. No allocation fails but that of a new character
-- and those in saving one. The links and counts of the cache are left out.
pub mod Values
pub mod Numbers
pub mod New
mod Tests
use boris.Prelude.{
  ℕ, zero, suc, ◌+◌, ◌%◌, ◌^◌, Bool, true, false, Option, none, some, List, [], ◌∷◌, ◌++◌, map,
  ◌==◌, if◌then◌else◌, length, Bytes, codes, head, same_text, Outcome, ok, died,
}
use boris.Attr.{AttrEntry, attr_find, parse_attr}
use boris.Room.{optional, attr_field}
use boris.Freelist.{Extent, alloc, thwack, new}
use boris.Fdb.Read.{read_begin}
use boris.Fdb.Record.{read_fields}
use boris.Fdb.Directory.{Entry, iterate}
use boris.Fdb.Write.{Disk, WriteHandle, PairCalls, makepath, write_begin, write_pairs, write_end}

-- a member of `struct character` that the table names; its constructor is its `enum value_type`
pub data Value : Type 0 where
  uint : ℕ → Value
  str : Option Bytes → Value

-- `struct character`: the members in the order of the table
pub record Character : Type 0 where
  pub dirty_fl : Bool
  pub values : List Value
  pub extra_values : List AttrEntry

-- the names of `attrinfo`
abbrev pub attrinfo : List Bytes
attrinfo =
    codes "id"
    ∷ codes "name.short"
    ∷ codes "name.long"
    ∷ codes "desc.short"
    ∷ codes "desc.long"
    ∷ codes "owner"
    ∷ codes "controllers"
    ∷ codes "room.current"
    ∷ codes "room.home"
    ∷ []

-- what `character_ll_alloc` gives
abbrev pub no_values : Character
no_values = record {
  dirty_fl = false;
  values =
      uint 0
      ∷ str none
      ∷ str none
      ∷ str none
      ∷ str none
      ∷ str none
      ∷ str none
      ∷ uint 0
      ∷ uint 0
      ∷ [];
  extra_values = [];
}

-- `ch->id`
abbrev pub id_of : List Value → ℕ
id_of (uint n ∷ values) = n
id_of (str s ∷ values) = 0
id_of [] = 0

-- `ch->id = id`
abbrev pub with_id : ℕ → List Value → List Value
with_id id [] = []
with_id id (v ∷ values) = uint id ∷ values

-- the value of an entry, NULL where there is none
abbrev pub value_of : Option AttrEntry → Option Bytes
value_of none = none
value_of (some at) = some at.value

-- DOMAIN_CHARACTER, and ID_MAX
abbrev pub domain_character : Bytes
domain_character = codes "chars"

abbrev pub id_max : ℕ
id_max = 32767

-- what the check at the start comes to: a pool, a return of 0, or a use of a character that was freed
pub data Preflight : Type 0 where
  passed : List Extent → Preflight
  refused : Preflight
  crashed : Preflight

module _ (strtoul : Bytes → ℕ × Bytes) where
  -- `value_set`: what it returns and what it leaves
  pub value_set : Bytes → Value → ℕ × Value
  value_set value (str old) = (1, str (some value))
  value_set value (uint old) =
      let r = strtoul value in
      if head value == 0
      then (0, uint old)
      else if head r.1 == 0
      then (1, uint (r.0 % 2 ^ 32))
      else (0, uint (r.0 % 2 ^ 32))

  -- the loop of `character_attr_set`; `none` where no entry of the table has the name
  pub set_in : List Bytes → List Value → Bytes → Bytes → Option (ℕ × List Value)
  unfolding value_set
  set_in [] values name value = none
  set_in (n ∷ names) [] name value = none
  set_in (n ∷ names) (v ∷ values) name value =
      if same_text name n
      then some ((value_set value v).0, (value_set value v).1 ∷ values)
      else elim (set_in names values name value) [ none ↦ none | some r ↦ some (r.0, v ∷ r.1) ]

  -- the rest of `character_attr_set`
  pub set_extra : Character → Bytes → Bytes → Option (ℕ × List Value) → ℕ × Character
  set_extra ch name value (some r) = (r.0, record ch { dirty_fl = true; values = r.1 })
  set_extra ch name value none =
      let p = parse_attr name value ch.extra_values in
      let dirty = if p.0 == 0 then ch.dirty_fl else true in
      (p.0, record ch { dirty_fl = dirty; extra_values = p.1 })

  -- `character_attr_set`
  pub character_attr_set : Character → Bytes → Bytes → ℕ × Character
  unfolding set_in set_extra
  character_attr_set ch name value = set_extra ch name value (set_in attrinfo ch.values name value)

  set_next : (Character → Option Character) → ℕ × Character → Option Character
  set_next rest (res, ch) = if res == 0 then none else rest ch

  -- the loop of `character_load`
  pub load_values : List (Bytes × Bytes) → Character → Option Character
  unfolding set_next
  load_values [] ch = some ch
  load_values ((name, value) ∷ fields) ch =
      set_next (load_values fields) (character_attr_set ch name value)

  pub check_id : ℕ → Option Character → Option Character
  check_id character_id none = none
  check_id character_id (some ch) = if id_of ch.values == character_id then some ch else none

  pub load_file : ℕ → ℕ → ℕ → Option Bytes → Option Character
  unfolding check_id
  load_file rounds fuel character_id none = none
  load_file rounds fuel character_id (some text) =
      check_id character_id (load_values (read_fields rounds fuel (read_begin text)).0 no_values)

-- what the calls of the C library in a `character_save` come to: whether the temporary file can be opened and
-- closed, removed and renamed, what a failed close leaves in it, and those of each pair
pub record SaveCalls : Type 0 where
  pub opens : Bool
  pub closes : Bool
  pub removes : Bool
  pub renames : Bool
  pub lost : Bytes
  pub pairs : ℕ → PairCalls

module _ (decimal : ℕ → Bytes) where
  -- `value_get`; `none` is NULL
  pub value_get : Value → Option Bytes
  value_get (str s) = s
  value_get (uint n) = some (decimal n)

  -- the loop of `character_attr_get`
  pub get_in : List Bytes → List Value → Bytes → Option (Option Bytes)
  unfolding value_get
  get_in [] values name = none
  get_in (n ∷ names) [] name = none
  get_in (n ∷ names) (v ∷ values) name =
      if same_text name n then some (value_get v) else get_in names values name

  pub get_extra : List AttrEntry → Bytes → Option (Option Bytes) → Option Bytes
  get_extra al name (some s) = s
  get_extra al name none = value_of (attr_find al name)

  -- `character_attr_get`
  pub character_attr_get : Character → Bytes → Option Bytes
  unfolding get_in get_extra
  character_attr_get ch name = get_extra ch.extra_values name (get_in attrinfo ch.values name)

  -- what the loop over the table in `character_save` writes
  abbrev pub value_field : Bytes → Value → List (Bytes × Bytes)
  value_field name (uint n) = (name, decimal n) ∷ []
  value_field name (str s) = optional name s

  pub value_fields : List Bytes → List Value → List (Bytes × Bytes)
  value_fields [] values = []
  value_fields (n ∷ names) [] = []
  value_fields (n ∷ names) (v ∷ values) = value_field n v ++ value_fields names values

  pub character_fields : Character → List (Bytes × Bytes)
  unfolding value_fields
  character_fields ch = value_fields attrinfo ch.values ++ map attr_field ch.extra_values

  save_end : Character → Bool × Disk → ℕ × (Character × Disk)
  save_end ch (success, disk) =
      if success then (1, (record ch { dirty_fl = false }, disk)) else (0, (ch, disk))

  save_to : Character → SaveCalls → Option WriteHandle × Disk → ℕ × (Character × Disk)
  unfolding save_end
  save_to ch calls (none, disk) = (0, (ch, disk))
  save_to ch calls (some h, disk) = save_end ch (
      write_end calls.closes calls.removes calls.renames calls.lost
        (write_pairs calls.pairs 0 h (character_fields ch)) disk)

  -- `character_save`; what each call of the C library comes to is an argument
  pub character_save : SaveCalls → Character → Disk → ℕ × (Character × Disk)
  unfolding save_to
  character_save calls ch disk =
      if ch.dirty_fl
      then save_to ch calls
          (write_begin calls.opens domain_character (decimal (id_of ch.values)) disk)
      else (1, (ch, disk))

  -- `character_new` with a number from the pool
  new_with :
      (Character → Disk → ℕ × (Character × Disk))
      → Disk
      → Option ℕ × List Extent
      → Option Character × (List Extent × Disk)
  new_with save disk (none, pool) = (none, (pool, disk))
  new_with save disk (some id, pool) =
      let ch : Character = record no_values {
        values = with_id id no_values.values;
        dirty_fl = true;
      } in
      let saved = save ch disk in (some saved.1.0, (pool, saved.1.1))

  -- `character_new`: the character, `none` for NULL, and the pool and the files that are left
  pub character_new :
      Bool → SaveCalls → List Extent → Disk → Option Character × (List Extent × Disk)
  unfolding new_with
  character_new memory calls pool disk =
      if memory then new_with (character_save calls) disk (alloc pool 1) else (none, (pool, disk))

module _ (decimal : ℕ → Bytes) (strtoul strtoul10 : Bytes → ℕ × Bytes) (rounds fuel : ℕ) where
  -- `character_load`; `none` is NULL
  pub character_load : ℕ → Disk → Option Character
  unfolding load_file
  character_load character_id disk =
      if character_id == 0
      then none
      else load_file strtoul rounds fuel character_id
          (disk (makepath domain_character (decimal character_id)))

  -- the end of a round of `character_preflight`: what `freelist_thwack` returned
  thwacked : (List Extent → Preflight) → Outcome (Bool × List Extent) → Preflight
  thwacked next died = crashed
  thwacked next (ok (taken, pool)) = if taken then next pool else refused

  -- a character that was loaded for the number; after the message about a number that does not match,
  -- the code goes on with the character that it has freed
  checked : (List Extent → Preflight) → ℕ → List Extent → Option Character → Preflight
  unfolding thwacked
  checked next character_id pool none = refused
  checked next character_id pool (some ch) =
      if id_of ch.values == character_id
      then thwacked next (thwack true pool (id_of ch.values) 1)
      else crashed

  -- the loop of `character_preflight` over the names of the files
  pub preflight_loop : List Bytes → Disk → List Extent → Preflight
  unfolding checked
  preflight_loop [] disk pool = passed pool
  preflight_loop (name ∷ names) disk pool =
      let r = strtoul10 name in
      let next =
        checked (preflight_loop names disk) (r.0 % 2 ^ 32) pool
          (character_load (r.0 % 2 ^ 32) disk) in
      if head r.1 == 0 then next else refused

  -- `character_preflight`: whether the directory can be opened, and its entries
  pub character_preflight : Bool → List Entry → Disk → List Extent → Preflight
  unfolding preflight_loop
  character_preflight opens entries disk pool =
      if opens then preflight_loop (iterate (length entries + 1) entries) disk pool else refused

  start : Bool → (List Extent → Preflight) → Outcome (Option (List Extent)) → Preflight
  start domain check died = crashed
  start domain check (ok none) = refused
  start domain check (ok (some pool)) = if domain then check pool else refused

  -- `character_initialize`: whether there is memory for the pool and whether `fdb_domain_init` succeeds
  pub character_initialize : Bool → Bool → Bool → List Entry → Disk → Preflight
  unfolding start character_preflight
  character_initialize memory domain opens entries disk =
      start domain (character_preflight opens entries disk) (new memory true 1 id_max)
