-- ===== src/Fdb/Directory.antt =====
-- Listing the records of a domain. What `readdir` returns is a list of names, each with what `stat`
-- says of it.
pub mod Names
use boris.Prelude.{
  bytes_eq, zero, ◌<◌, Option-cases, inl, inr, sym, ap, ◌∙◌, ℕ, ◌≡◌, refl, Bool, true, false, not,
  ◌&&◌, Option, none, some, List, [], ◌∷◌, ltb, ◌==◌, ◌-◌, if◌then◌else◌, length, drop, head, Bytes,
  codes, arith, suc,
}

-- `fdb_istempname`
unfoldable pub istempname : Bytes → Bool
istempname filename =
    ltb 4 (length filename) && bytes_eq (drop (length filename - 4) filename) (codes ".tmp")

-- what `stat` finds
pub data Stat : Type 0 where
  failed regular other : Stat

pub record Entry : Type 0 where
  pub d_name : Bytes
  pub stat : Stat

-- the last byte, NUL of an empty name
unfoldable pub last : Bytes → ℕ
last [] = 0
last (c ∷ []) = c
last (c ∷ d ∷ s) = last (d ∷ s)

abbrev pub is_regular : Stat → Bool
is_regular regular = true
is_regular failed = false
is_regular other = false

-- the tests that send `fdb_iterator_next` to the next entry
unfoldable pub is_skipped : Entry → Bool
is_skipped de =
    if head de.d_name == b'.'
    then true
    else if istempname de.d_name
    then true
    else if not (head de.d_name == 0) && (last de.d_name == b'~')
    then true
    else not (is_regular de.stat)

-- `fdb_iterator_next`: the id, `none` at the end, and the entries that are left
unfoldable pub iterator_next : List Entry → Option Bytes × List Entry
iterator_next [] = (none, [])
iterator_next (de ∷ entries) =
    let next = iterator_next entries in if is_skipped de then next else (some de.d_name, entries)

-- a client's loop over the records
unfoldable pub iterate : ℕ → List Entry → List Bytes
iterate zero entries = []
iterate (suc rounds) entries =
    let (id, rest) = iterator_next entries in
    elim id [ none ↦ [] | some name ↦ name ∷ iterate rounds rest ]

-- the names that the tests let pass
unfoldable pub record_names : List Entry → List Bytes
record_names [] = []
record_names (de ∷ entries) =
    if is_skipped de then record_names entries else de.d_name ∷ record_names entries

next_none : (entries : List Entry) → (iterator_next entries).0 ≡ none → record_names entries ≡ []
unfolding iterator_next record_names
next_none [] e = refl
next_none (de ∷ entries) e = ground (arith, next_none entries)

next_some :
    (entries : List Entry) (name : Bytes)
    → (iterator_next entries).0 ≡ some name
    → (record_names entries ≡ name ∷ record_names (iterator_next entries).1)
      × (length (iterator_next entries).1 < length entries)
unfolding iterator_next record_names
next_some [] name e = cc
next_some (de ∷ entries) name e = ground (arith, next_some entries name)

-- given a round for each entry and one more
pub iterate-record_names :
    (rounds : ℕ) (entries : List Entry)
    → length entries < rounds
    → iterate rounds entries ≡ record_names entries
unfolding iterate
iterate-record_names zero entries h = absurd (omega arith)
iterate-record_names (suc rounds) entries h = elim (Option-cases (iterator_next entries).0) [
  | inl e ↦ rw (e, iterate) (sym (next_none entries e))
  | inr (name, e) ↦
      let (names, shorter) = next_some entries name e in
      rw (e, iterate)
        (ap (◌∷◌ name) (iterate-record_names rounds (iterator_next entries).1 (omega arith))
          ∙ sym names)
]
