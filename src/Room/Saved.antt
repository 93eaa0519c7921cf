-- ===== src/Room/Saved.antt =====
-- A room that is saved is loaded again.
use boris.Prelude.{
  ◌-◌, ℕ, suc, ◌^◌, ◌≤◌, ◌<◌, ◌≡◌, ◌≢◌, ◌∙◌, sym, refl, ap, true, false, Option, none, some, List,
  [], ◌∷◌, ◌++◌, map, append_assoc, append-nil, arith, ◌==◌, Bytes, codes, head, length, All,
  IsText, same_text,
}
use boris.Fdb.Record.{IsField, Fits, read_fields, read_fields-record_text}
use boris.Fdb.Read.{read_begin}
use boris.Fdb.Write.{Disk, WriteHandle, makepath, makepath_tmp, write_begin, write_end}
use boris.Fdb.Write.Atomic.{record_text, write_fields, write_transaction}
use boris.Attr.{AttrEntry, attr_find, attr_add, parse_attr, parse_str, parse_uint}
use boris.Room.{
  Room, no_values, domain_room, optional, attr_field, room_attr_set, load_values, set_next,
  check_id, room_fields, room_save, room_load, load_file, save_to, save_end,
}

-- what the program relies on in the C library: `strtoul` reads what `%u` prints
pub record Numerals (decimal : ℕ → Bytes) (strtoul : Bytes → ℕ × Bytes) : Type 0 where
  pub reads_back : (n : ℕ) → n < 2 ^ 32 → strtoul (decimal n) ≡ (n, [])
  pub text : (n : ℕ) → IsText (decimal n)
  pub starts : (n : ℕ) → head (decimal n) ≢ 0
  pub short : (n : ℕ) → n < 2 ^ 32 → length (decimal n) ≤ 10

-- a name of no value but an extra one
abbrev pub IsExtra : Bytes → Type 0
IsExtra name =
    (same_text (codes "id") name ≡ false)
    × (same_text (codes "name.short") name ≡ false)
    × (same_text (codes "name.long") name ≡ false)
    × (same_text (codes "desc.short") name ≡ false)
    × (same_text (codes "desc.long") name ≡ false)
    × (same_text (codes "creator") name ≡ false)
    × (same_text (codes "owner") name ≡ false)

-- no name stands twice in `more`, or in `al` and `more`
unfoldable pub IsFresh : List AttrEntry → List AttrEntry → Type 0
IsFresh al [] = Unit {0}
IsFresh al (at ∷ more) = (attr_find al at.name ≡ none) × IsFresh (al ++ at ∷ []) more

number_read :
    (decimal : ℕ → Bytes) (strtoul : Bytes → ℕ × Bytes) (library : Numerals decimal strtoul) (n : ℕ)
    → n < 2 ^ 32
    → parse_uint strtoul (decimal n) 0 ≡ (1, n)
unfolding parse_uint
number_read decimal strtoul library n h =
    let back = library.reads_back n h in
    let started : (head (decimal n) == 0) ≡ false = ground (arith, library.starts n) in
    rw (started, back) (ground arith)

added :
    (at : AttrEntry) (al : List AttrEntry)
    → attr_find al at.name ≡ none
    → attr_add al at.name at.value ≡ (1, al ++ at ∷ [])
unfolding attr_add
added at al e = ground arith

parsed :
    (at : AttrEntry) (al : List AttrEntry)
    → attr_find al at.name ≡ none
    → attr_add al at.name at.value ≡ (1, al ++ at ∷ [])
    → parse_attr at.name at.value al ≡ (1, al ++ at ∷ [])
unfolding parse_attr
parsed at al e f = ground arith

module _ (decimal : ℕ → Bytes) (strtoul : Bytes → ℕ × Bytes) where
  load_name_short :
      (v : Option Bytes) (rest : List (Bytes × Bytes)) (r : Room)
      → r.name_short ≡ none
      → r.dirty_fl ≡ true
      → load_values decimal strtoul (optional (codes "name.short") v ++ rest) r
        ≡ load_values decimal strtoul rest (record r { name_short = v })
  unfolding load_values room_attr_set same_text parse_str
  load_name_short none rest r e d =
      ap (λ x. load_values decimal strtoul rest (record r { name_short = x })) e
  load_name_short (some v) rest r e d =
      ap (λ x. load_values decimal strtoul rest (record r { name_short = some v; dirty_fl = x }))
        (sym d)

  load_name_long :
      (v : Option Bytes) (rest : List (Bytes × Bytes)) (r : Room)
      → r.name_long ≡ none
      → r.dirty_fl ≡ true
      → load_values decimal strtoul (optional (codes "name.long") v ++ rest) r
        ≡ load_values decimal strtoul rest (record r { name_long = v })
  unfolding load_values room_attr_set same_text parse_str
  load_name_long none rest r e d =
      ap (λ x. load_values decimal strtoul rest (record r { name_long = x })) e
  load_name_long (some v) rest r e d =
      ap (λ x. load_values decimal strtoul rest (record r { name_long = some v; dirty_fl = x }))
        (sym d)

  load_desc_short :
      (v : Option Bytes) (rest : List (Bytes × Bytes)) (r : Room)
      → r.desc_short ≡ none
      → r.dirty_fl ≡ true
      → load_values decimal strtoul (optional (codes "desc.short") v ++ rest) r
        ≡ load_values decimal strtoul rest (record r { desc_short = v })
  unfolding load_values room_attr_set same_text parse_str
  load_desc_short none rest r e d =
      ap (λ x. load_values decimal strtoul rest (record r { desc_short = x })) e
  load_desc_short (some v) rest r e d =
      ap (λ x. load_values decimal strtoul rest (record r { desc_short = some v; dirty_fl = x }))
        (sym d)

  load_desc_long :
      (v : Option Bytes) (rest : List (Bytes × Bytes)) (r : Room)
      → r.desc_long ≡ none
      → r.dirty_fl ≡ true
      → load_values decimal strtoul (optional (codes "desc.long") v ++ rest) r
        ≡ load_values decimal strtoul rest (record r { desc_long = v })
  unfolding load_values room_attr_set same_text parse_str
  load_desc_long none rest r e d =
      ap (λ x. load_values decimal strtoul rest (record r { desc_long = x })) e
  load_desc_long (some v) rest r e d =
      ap (λ x. load_values decimal strtoul rest (record r { desc_long = some v; dirty_fl = x }))
        (sym d)

  load_owner :
      (v : Option Bytes) (rest : List (Bytes × Bytes)) (r : Room)
      → r.owner ≡ none
      → r.dirty_fl ≡ true
      → load_values decimal strtoul (optional (codes "owner") v ++ rest) r
        ≡ load_values decimal strtoul rest (record r { owner = v })
  unfolding load_values room_attr_set same_text parse_str
  load_owner none rest r e d = ap (λ x. load_values decimal strtoul rest (record r { owner = x })) e
  load_owner (some v) rest r e d =
      ap (λ x. load_values decimal strtoul rest (record r { owner = some v; dirty_fl = x })) (sym d)

  load_creator :
      (v : Option Bytes) (rest : List (Bytes × Bytes)) (r : Room)
      → r.creator ≡ none
      → r.dirty_fl ≡ true
      → load_values decimal strtoul (optional (codes "creator") v ++ rest) r
        ≡ load_values decimal strtoul rest (record r { creator = v })
  unfolding load_values room_attr_set same_text parse_str
  load_creator none rest r e d =
      ap (λ x. load_values decimal strtoul rest (record r { creator = x })) e
  load_creator (some v) rest r e d =
      ap (λ x. load_values decimal strtoul rest (record r { creator = some v; dirty_fl = x }))
        (sym d)

  set_extra :
      (r : Room) (at : AttrEntry)
      → IsExtra at.name
      → attr_find r.extra_values at.name ≡ none
      → room_attr_set decimal strtoul r at.name at.value
        ≡ (1, record r { extra_values = r.extra_values ++ at ∷ []; dirty_fl = true })
  unfolding room_attr_set
  set_extra r at x e =
      let add : attr_add r.extra_values at.name at.value ≡ (1, r.extra_values ++ at ∷ []) =
        added at r.extra_values e in
      let p : parse_attr at.name at.value r.extra_values ≡ (1, r.extra_values ++ at ∷ []) =
        parsed at r.extra_values e add in
      rw (x.0, x.1, x.2, x.3, x.4, x.5, x.6, p) refl

  load_extra :
      (more : List AttrEntry) (r : Room)
      → All (λ at. IsExtra at.name) more
      → IsFresh r.extra_values more
      → r.dirty_fl ≡ true
      → load_values decimal strtoul (map attr_field more) r
        ≡ some (record r { extra_values = r.extra_values ++ more })
  unfolding load_values set_next IsFresh
  load_extra [] r x f d =
      ap (λ al. some (record r { extra_values = al })) (sym (append-nil r.extra_values))
  load_extra (at ∷ more) r x f d =
      let r' : Room = record r { extra_values = r.extra_values ++ at ∷ []; dirty_fl = true } in
      ap (set_next decimal strtoul (load_values decimal strtoul (map attr_field more)))
        (set_extra r at (x.0) (f.0))
      ∙ load_extra more r' (x.1) (f.1) refl
      ∙ ap (λ al. some (record r { extra_values = al; dirty_fl = true }))
          (append_assoc r.extra_values (at ∷ []) more)
      ∙ ap (λ b. some (record r { extra_values = r.extra_values ++ at ∷ more; dirty_fl = b }))
          (sym d)

  -- a room of which all values can be saved
  pub record IsSavable (r : Room) : Type 0 where
    pub numbered : (0 < r.id) × (r.id < 2 ^ 32)
    pub fields : All IsField (room_fields decimal strtoul r)
    pub extra : All (λ at. IsExtra at.name) r.extra_values
    pub distinct : IsFresh [] r.extra_values

  module _ (library : Numerals decimal strtoul) (r : Room) (savable : IsSavable r) where
    load_id :
        (rest : List (Bytes × Bytes))
        → load_values decimal strtoul ((codes "id", decimal r.id) ∷ rest) no_values
          ≡ load_values decimal strtoul rest (record no_values { id = r.id; dirty_fl = true })
    unfolding load_values room_attr_set same_text set_next
    load_id rest =
        let p : parse_uint strtoul (decimal r.id) 0 ≡ (1, r.id) =
          number_read decimal strtoul library r.id (savable.numbered.1) in
        rw p refl

    load_fields :
        load_values decimal strtoul (room_fields decimal strtoul r) no_values
        ≡ some (record r { dirty_fl = true })
    unfolding room_fields
    load_fields =
        let s0 : Room = record no_values { id = r.id; dirty_fl = true } in
        let s1 : Room = record s0 { name_short = r.name_short } in
        let s2 : Room = record s1 { name_long = r.name_long } in
        let s3 : Room = record s2 { desc_short = r.desc_short } in
        let s4 : Room = record s3 { desc_long = r.desc_long } in
        let s5 : Room = record s4 { owner = r.owner } in
        let s6 : Room = record s5 { creator = r.creator } in
        load_id _
        ∙ load_name_short r.name_short _ s0 refl refl
        ∙ load_name_long r.name_long _ s1 refl refl
        ∙ load_desc_short r.desc_short _ s2 refl refl
        ∙ load_desc_long r.desc_long _ s3 refl refl
        ∙ load_owner r.owner _ s4 refl refl
        ∙ load_creator r.creator _ s5 refl refl
        ∙ load_extra r.extra_values s6 savable.extra savable.distinct refl

    begins :
        (disk : Disk)
        → r.dirty_fl ≡ true
        → room_save decimal strtoul true true true true r disk
          ≡ save_to decimal strtoul r true true true
              (write_begin true domain_room (decimal r.id) disk)
    unfolding room_save
    begins disk dirty = ground (arith, savable.numbered.0)

    room_saved :
        (disk : Disk)
        → r.dirty_fl ≡ true
        → (h : WriteHandle) (opened saved : Disk)
        → write_begin true domain_room (decimal r.id) disk ≡ (some h, opened)
        → write_end true true true [] (write_fields h (room_fields decimal strtoul r)) opened
          ≡ (true, saved)
        → room_save decimal strtoul true true true true r disk
          ≡ (1, (record r { dirty_fl = false }, saved))
    unfolding save_to save_end
    room_saved disk dirty h opened saved e f =
        begins disk dirty
        ∙ ap (save_to decimal strtoul r true true true) e
        ∙ ap (save_end decimal strtoul r) f

    same_id :
        check_id decimal strtoul r.id (some (record r { dirty_fl = true }))
        ≡ some (record r { dirty_fl = true })
    unfolding check_id
    same_id = ground (arith, savable.numbered.0)

    finds :
        (rounds fuel : ℕ) (disk : Disk)
        → room_load decimal strtoul rounds fuel r.id disk
          ≡ load_file decimal strtoul rounds fuel r.id (disk (makepath domain_room (decimal r.id)))
    unfolding room_load
    finds rounds fuel disk = ground (arith, savable.numbered.0)

    room_loaded :
        (fuel : ℕ) (disk : Disk)
        → r.dirty_fl ≡ true
        → disk (makepath domain_room (decimal r.id))
          ≡ some (record_text (room_fields decimal strtoul r))
        → let rounds = suc (length (room_fields decimal strtoul r)) in
          (read_fields rounds fuel (read_begin (record_text (room_fields decimal strtoul r)))).0
            ≡ room_fields decimal strtoul r
          → room_load decimal strtoul rounds fuel r.id disk ≡ some r
    unfolding load_file
    room_loaded fuel disk dirty file fields =
        let rounds : ℕ = suc (length (room_fields decimal strtoul r)) in
        finds rounds fuel disk
        ∙ ap (load_file decimal strtoul rounds fuel r.id) file
        ∙ ap (λ fs. check_id decimal strtoul r.id (load_values decimal strtoul fs no_values)) fields
        ∙ ap (check_id decimal strtoul r.id) load_fields
        ∙ same_id
        ∙ ap (λ d. some (record r { dirty_fl = d })) (sym dirty)

    -- A room that has changes and can be saved, in lines no longer than the fuel of a call or
    -- 2 ^ 30 - 4096 bytes, is saved by `room_save`, if no call of the C library fails, and `room_load` then gives it back, marked as changed, from the disk that is left. No file
    -- but the room's and its temporary one changes.
    pub room_load-room_save :
        (fuel : ℕ) (disk : Disk)
        → r.dirty_fl ≡ true
        → 0 < fuel
        → fuel ≤ 2 ^ 30 - 4096
        → Fits fuel (room_fields decimal strtoul r)
        → (saved : Disk) × (room_save decimal strtoul true true true true r disk
            ≡ (1, (record r { dirty_fl = false }, saved)))
          × (room_load decimal strtoul
                (suc (length (room_fields decimal strtoul r)))
                fuel
                r.id
                saved
              ≡ some r)
          × ((p : Bytes)
              → p ≢ makepath domain_room (decimal r.id)
              → p ≢ makepath_tmp domain_room (decimal r.id)
              → saved p ≡ disk p)
    room_load-room_save fuel disk dirty pos small fits =
        let t =
          write_transaction domain_room (decimal r.id) (room_fields decimal strtoul r) disk
            (omega (arith, library.short r.id (savable.numbered.1))) in
        let fields =
          read_fields-record_text fuel (room_fields decimal strtoul r) pos small savable.fields
            fits in
        (
          t.2,
          room_saved disk dirty (t.0) (t.1) (t.2) (t.3) (t.4),
          room_loaded fuel (t.2) dirty (t.5) (fields.0),
          t.7,
        )
