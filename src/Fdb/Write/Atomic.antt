-- ===== src/Fdb/Write/Atomic.antt =====
-- A record changes all at once or not at all.
use boris.Prelude.{
  ℕ, suc, bytes_eq, bytes_eq_refl, bytes_eq_sound, append-nil, append_assoc, length-take, List, ◌⊎◌,
  ◌+◌, ◌≤◌, ◌≡◌, ◌≢◌, refl, ap, ◌∙◌, Bool, true, false, none, some, [], ◌∷◌, ◌++◌, arith, length,
  length-append, Bytes, codes, Bool-cases, inl, inr, Option,
}
use boris.Fdb.Write.{
  Disk, store, makepath, makepath_tmp, WriteHandle, write_begin, PairCalls, write_pair, write_pairs,
  write_end, path_max,
}
use boris.Fdb.Text.{format_pair}

bytes_eq_ne : (a b : Bytes) → a ≢ b → bytes_eq a b ≡ false
bytes_eq_ne a b h = elim (Bool-cases (bytes_eq a b)) [
  | inl e ↦ absurd (h (bytes_eq_sound a b e))
  | inr e ↦ e
]

store_same : (disk : Disk) (p : Bytes) (c : Option Bytes) → store disk p c p ≡ c
unfolding store
store_same disk p c = rw (bytes_eq_refl p)

store_other : (disk : Disk) (p q : Bytes) (c : Option Bytes) → q ≢ p → store disk p c q ≡ disk q
unfolding store
store_other disk p q c h = elim (Bool-cases (bytes_eq q p)) [
  | inl e ↦ absurd (h (bytes_eq_sound q p e))
  | inr e ↦ rw e
]

-- The names of a record and of its temporary file differ, where neither is cut at `PATH_MAX`.
makepath_tmp-ne :
    (domain id : Bytes)
    → length domain + length id + 10 ≤ path_max
    → makepath domain id ≢ makepath_tmp domain id
unfolding makepath makepath_tmp
makepath_tmp-ne domain id h e = omega (
  arith,
  ap length e,
  length-take path_max (codes "data/" ++ (domain ++ (codes "/" ++ id))),
  length-take path_max (codes "data/" ++ (domain ++ (codes "/" ++ (id ++ codes ".tmp")))),
  length-append domain (codes "/" ++ id),
  length-append domain (codes "/" ++ (id ++ codes ".tmp")),
  length-append id (codes ".tmp"),
)

-- the handle of an open record, whose names are not cut
pub record IsOpen (h : WriteHandle) : Type 0 where
  pub tmp : h.filename_tmp ≡ makepath_tmp h.domain h.id
  pub short : length h.domain + length h.id + 10 ≤ path_max

IsOpen-ne : (h : WriteHandle) → IsOpen h → makepath h.domain h.id ≢ h.filename_tmp
IsOpen-ne h v e = makepath_tmp-ne h.domain h.id v.short (e ∙ v.tmp)

-- Whatever the calls of the C library return, `fdb_write_end` on an open record either succeeds: then
-- no error was flagged, the record is exactly what was written and the temporary file is gone; or it
-- fails, and the record is what it was. No file but these two changes.
pub write_end_atomic :
    (fclose remove rename : Bool) (lost : Bytes) (h : WriteHandle) (disk : Disk)
    → IsOpen h
    → (((write_end fclose remove rename lost h disk).0 ≡ true)
          × (h.error_fl ≡ false)
          × ((write_end fclose remove rename lost h disk).1 (makepath h.domain h.id)
              ≡ some h.written)
          × ((write_end fclose remove rename lost h disk).1 h.filename_tmp ≡ none)
        ⊎ ((write_end fclose remove rename lost h disk).0 ≡ false)
          × ((write_end fclose remove rename lost h disk).1 (makepath h.domain h.id)
              ≡ disk (makepath h.domain h.id)))
      × ((p : Bytes)
          → p ≢ h.filename_tmp
          → p ≢ makepath h.domain h.id
          → (write_end fclose remove rename lost h disk).1 p ≡ disk p)
unfolding write_end store
write_end_atomic closing remove rename lost h disk v =
    let file = makepath h.domain h.id in
    (
      ground (
        arith,
        bytes_eq_refl file,
        bytes_eq_refl h.filename_tmp,
        bytes_eq_ne file h.filename_tmp (IsOpen-ne h v),
      ),
      λ p ne ne'. ground (arith, bytes_eq_ne p h.filename_tmp ne, bytes_eq_ne p file ne'),
    )

-- no other file changes, whatever the handle is
pub write_end_elsewhere :
    (fclose remove rename : Bool) (lost : Bytes) (h : WriteHandle) (disk : Disk) (p : Bytes)
    → p ≢ h.filename_tmp
    → p ≢ makepath h.domain h.id
    → (write_end fclose remove rename lost h disk).1 p ≡ disk p
unfolding write_end store
write_end_elsewhere closing remove rename lost h disk p ne ne' =
    let file = makepath h.domain h.id in
    ground (arith, bytes_eq_ne p h.filename_tmp ne, bytes_eq_ne p file ne')

pub store_elsewhere :
    (disk : Disk) (path p : Bytes) (c : Option Bytes) → p ≢ path → store disk path c p ≡ disk p
unfolding store
store_elsewhere disk path p c ne = rw (bytes_eq_ne p path ne) refl

-- A handle from `fdb_write_begin` is open.
write_begin-IsOpen :
    (domain id : Bytes) (disk : Disk) (h : WriteHandle)
    → length domain + length id + 10 ≤ path_max
    → (write_begin true domain id disk).0 ≡ some h
    → IsOpen h
unfolding write_begin
write_begin-IsOpen domain id disk h short e = ground arith

-- the calls of `fdb_write_pair` for the fields of a record, when none fails
pub write_fields : WriteHandle → List (Bytes × Bytes) → WriteHandle
write_fields h [] = h
write_fields h ((name, value) ∷ fields) =
    write_fields (write_pair true true [] h name value).0 fields

-- the pairs go to the handle's own temporary file
pub record SameFile (h h' : WriteHandle) : Type 0 where
  pub tmp : h'.filename_tmp ≡ h.filename_tmp
  pub domain : h'.domain ≡ h.domain
  pub id : h'.id ≡ h.id

write_pair-SameFile :
    (malloc fprintf : Bool) (lost : Bytes) (h : WriteHandle) (name value : Bytes)
    → SameFile h (write_pair malloc fprintf lost h name value).0
unfolding write_pair
write_pair-SameFile malloc fprintf lost h name value = record {
  tmp = ground arith;
  domain = ground arith;
  id = ground arith;
}

pub write_pairs-SameFile :
    (calls : ℕ → PairCalls) (i : ℕ) (h : WriteHandle) (fields : List (Bytes × Bytes))
    → SameFile h (write_pairs calls i h fields)
unfolding write_pairs
write_pairs-SameFile calls i h [] = record { tmp = refl; domain = refl; id = refl }
write_pairs-SameFile calls i h ((name, value) ∷ fields) =
    let c = calls i in
    let first = write_pair-SameFile c.malloc c.fprintf c.lost h name value in
    let rest =
      write_pairs-SameFile calls (suc i) (write_pair c.malloc c.fprintf c.lost h name value).0
        fields in
    record {
      tmp = rest.tmp ∙ first.tmp;
      domain = rest.domain ∙ first.domain;
      id = rest.id ∙ first.id;
    }

-- the text of a record
unfoldable pub record_text : List (Bytes × Bytes) → Bytes
record_text [] = []
record_text ((name, value) ∷ fields) = format_pair name value ++ record_text fields

write_pair_ok :
    (h : WriteHandle) (name value : Bytes)
    → h.error_fl ≡ false
    → write_pair true true [] h name value
      ≡ (record h { written = h.written ++ format_pair name value }, true)
unfolding write_pair
write_pair_ok h name value e = rw e

pub write_fields_lem :
    (h : WriteHandle) (fields : List (Bytes × Bytes))
    → h.error_fl ≡ false
    → write_fields h fields ≡ record h { written = h.written ++ record_text fields }
unfolding write_fields record_text
write_fields_lem h [] e = rw append-nil
write_fields_lem h ((name, value) ∷ fields) e =
    let line = format_pair name value in
    ap (λ r. write_fields r.0 fields) (write_pair_ok h name value e)
    ∙ write_fields_lem (record h { written = h.written ++ line }) fields e
    ∙ ap (λ w. record h { written = w }) (append_assoc h.written line (record_text fields))

-- A transaction in which no call fails: `fdb_write_begin`, a `fdb_write_pair` for each field and
-- `fdb_write_end` report success, the record then holds the lines of the fields in order, and no other
-- file changes but the temporary one, which is gone.
pub write_transaction :
    (domain id : Bytes) (fields : List (Bytes × Bytes)) (disk : Disk)
    → length domain + length id + 10 ≤ path_max
    → (h : WriteHandle) × (opened : Disk) × (saved : Disk) × (write_begin true domain id disk
        ≡ (some h, opened))
      × (write_end true true true [] (write_fields h fields) opened ≡ (true, saved))
      × (saved (makepath domain id) ≡ some (record_text fields))
      × (saved (makepath_tmp domain id) ≡ none)
      × ((p : Bytes) → p ≢ makepath domain id → p ≢ makepath_tmp domain id → saved p ≡ disk p)
unfolding write_begin write_end
write_transaction domain id fields disk short =
    let tmp = makepath_tmp domain id in
    let h : WriteHandle = record {
      written = [];
      filename_tmp = tmp;
      domain = domain;
      id = id;
      error_fl = false;
    } in
    let opened = store disk tmp (some []) in
    let closed = store opened tmp (some (record_text fields)) in
    let file = makepath domain id in
    let distinct : bytes_eq file tmp ≡ false =
      bytes_eq_ne file tmp (makepath_tmp-ne domain id short) in
    (
      h,
      opened,
      store (store closed file (closed tmp)) tmp none,
      refl,
      rw (write_fields_lem h fields refl),
      unfold store in ground (arith, bytes_eq_refl file, bytes_eq_refl tmp, distinct),
      unfold store in rw (bytes_eq_refl tmp),
      λ p ne ne'. unfold store in ground (arith, bytes_eq_ne p file ne, bytes_eq_ne p tmp ne'),
    )
