-- ===== src/Room.antt =====
-- Rooms, src/room/room.c: a record of the file database, loaded into a record of values and saved from it.
-- Room/Cache is the list of loaded rooms. `decimal` is what `%u` prints, `strtoul` as in Attr; no allocation
-- fails, nor does printing to a file. The fields of a file are read on fuel, `rounds` fields of at most
-- `fuel` bytes.
pub mod Saved
pub mod Cache
mod Tests
use boris.Prelude.{
  ℕ, Bool, true, false, Option, none, some, List, [], ◌∷◌, ◌++◌, map, ◌==◌, if◌then◌else◌, Bytes,
  codes, same_text,
}
use boris.Attr.{AttrEntry, attr_find, parse_attr, parse_str, parse_uint}
use boris.Fdb.Read.{read_begin}
use boris.Fdb.Record.{read_fields}
use boris.Fdb.Write.{Disk, WriteHandle, makepath, write_begin, write_end}
use boris.Fdb.Write.Atomic.{write_fields}

-- `struct room`, less the links and the count of the cache
pub record Room : Type 0 where
  pub dirty_fl : Bool
  pub id : ℕ
  pub name_short : Option Bytes
  pub name_long : Option Bytes
  pub desc_short : Option Bytes
  pub desc_long : Option Bytes
  pub owner : Option Bytes
  pub creator : Option Bytes
  pub extra_values : List AttrEntry

-- what `calloc` gives
abbrev pub no_values : Room
no_values = record {
  dirty_fl = false;
  id = 0;
  name_short = none;
  name_long = none;
  desc_short = none;
  desc_long = none;
  owner = none;
  creator = none;
  extra_values = [];
}

-- the end of `room_attr_set`: a value that was set makes the room dirty
abbrev set_dirty : ℕ → Room → ℕ × Room
set_dirty res r = (res, if res == 0 then r else record r { dirty_fl = true })

-- DOMAIN_ROOM
abbrev pub domain_room : Bytes
domain_room = codes "rooms"

-- the value of a field, if it is written
abbrev pub optional : Bytes → Option Bytes → List (Bytes × Bytes)
optional name none = []
optional name (some value) = (name, value) ∷ []

abbrev pub attr_field : AttrEntry → Bytes × Bytes
attr_field at = (at.name, at.value)

module _ (decimal : ℕ → Bytes) (strtoul : Bytes → ℕ × Bytes) where
  -- `room_attr_set`
  pub room_attr_set : Room → Bytes → Bytes → ℕ × Room
  room_attr_set r name value =
      if same_text (codes "id") name
      then (let p = parse_uint strtoul value r.id in set_dirty p.0 (record r { id = p.1 }))
      else if same_text (codes "name.short") name
      then (let p = parse_str value in set_dirty p.0 (record r { name_short = p.1 }))
      else if same_text (codes "name.long") name
      then (let p = parse_str value in set_dirty p.0 (record r { name_long = p.1 }))
      else if same_text (codes "desc.short") name
      then (let p = parse_str value in set_dirty p.0 (record r { desc_short = p.1 }))
      else if same_text (codes "desc.long") name
      then (let p = parse_str value in set_dirty p.0 (record r { desc_long = p.1 }))
      else if same_text (codes "creator") name
      then (let p = parse_str value in set_dirty p.0 (record r { creator = p.1 }))
      else if same_text (codes "owner") name
      then (let p = parse_str value in set_dirty p.0 (record r { owner = p.1 }))
      else let p = parse_attr name value r.extra_values in
        set_dirty p.0 (record r { extra_values = p.1 })

  -- `room_attr_get`; `none` is NULL
  pub room_attr_get : Room → Bytes → Option Bytes
  room_attr_get r name =
      if same_text (codes "id") name
      then some (decimal r.id)
      else if same_text (codes "name.short") name
      then r.name_short
      else if same_text (codes "name.long") name
      then r.name_long
      else if same_text (codes "desc.short") name
      then r.desc_short
      else if same_text (codes "desc.long") name
      then r.desc_long
      else if same_text (codes "creator") name
      then r.creator
      else if same_text (codes "owner") name
      then r.owner
      else elim (attr_find r.extra_values name) [ none ↦ none | some at ↦ some at.value ]

  set_next : (Room → Option Room) → ℕ × Room → Option Room
  set_next rest (res, r) = if res == 0 then none else rest r

  -- the loop of `room_load`
  pub load_values : List (Bytes × Bytes) → Room → Option Room
  unfolding set_next
  load_values [] r = some r
  load_values ((name, value) ∷ fields) r =
      set_next (load_values fields) (room_attr_set r name value)

  check_id : ℕ → Option Room → Option Room
  check_id room_id none = none
  check_id room_id (some r) = if r.id == 0 then none else if r.id == room_id then some r else none

  load_file : ℕ → ℕ → ℕ → Option Bytes → Option Room
  unfolding check_id
  load_file rounds fuel room_id none = none
  load_file rounds fuel room_id (some text) =
      check_id room_id (load_values (read_fields rounds fuel (read_begin text)).0 no_values)

  -- `room_load`; `none` is NULL
  pub room_load : ℕ → ℕ → ℕ → Disk → Option Room
  unfolding load_file
  room_load rounds fuel room_id disk =
      if room_id == 0
      then none
      else load_file rounds fuel room_id (disk (makepath domain_room (decimal room_id)))

  -- what `room_save` writes
  pub room_fields : Room → List (Bytes × Bytes)
  room_fields r =
      (codes "id", decimal r.id)
      ∷ (optional (codes "name.short") r.name_short
          ++ (optional (codes "name.long") r.name_long
              ++ (optional (codes "desc.short") r.desc_short
                  ++ (optional (codes "desc.long") r.desc_long
                      ++ (optional (codes "owner") r.owner
                          ++ (optional (codes "creator") r.creator
                              ++ map attr_field r.extra_values))))))

  save_end : Room → Bool × Disk → ℕ × (Room × Disk)
  save_end r (ok, disk) = if ok then (1, (record r { dirty_fl = false }, disk)) else (0, (r, disk))

  save_to : Room → Bool → Bool → Bool → Option WriteHandle × Disk → ℕ × (Room × Disk)
  unfolding save_end
  save_to r closes removes renames (none, disk) = (0, (r, disk))
  save_to r closes removes renames (some h, disk) =
      save_end r (write_end closes removes renames [] (write_fields h (room_fields r)) disk)

  -- `room_save`; whether each call of the C library succeeds is an argument
  pub room_save : Bool → Bool → Bool → Bool → Room → Disk → ℕ × (Room × Disk)
  unfolding save_to
  room_save opens closes removes renames r disk =
      if r.dirty_fl
      then if r.id == 0
        then (0, (r, disk))
        else save_to r closes removes renames (write_begin opens domain_room (decimal r.id) disk)
      else (1, (r, disk))
