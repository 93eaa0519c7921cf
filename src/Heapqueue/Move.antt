-- ===== src/Heapqueue/Move.antt =====
-- One round of a loop over the heap: the entry at `from` moves to the hole at `to`, and the hole is where
-- it was. Both loops are described by the array in which the hole holds `v`, the key to be placed.
use boris.Prelude.{
  occurrences, occurrences-set, ℕ, ◌<◌, ◌≡◌, ◌≢◌, List, arith, length, length-set, set, ◌==◌,
  if◌then◌else◌,
}
use boris.Heapqueue.{key}
use boris.Heapqueue.Order.{IsHeap, key-set}

-- the first `len` entries are in order, and are the keys of `before`
pub record IsSettled (len : ℕ) (before heap : List ℕ) : Type 0 where
  pub ordered : IsHeap len heap
  pub kept : (x : ℕ) → occurrences heap len x ≡ occurrences before len x
  pub size : length heap ≡ length before

abbrev pub moved : List ℕ → ℕ → ℕ → ℕ → List ℕ
moved heap to from v = set (set heap to (key heap from)) from v

module _ (heap : List ℕ) (to from v : ℕ) (inside_to : to < length heap)
    (inside_from : from < length heap) where
  pub key-moved :
      (j : ℕ)
      → key (moved heap to from v) j
        ≡ (if from == j then v else if to == j then key heap from else key heap j)
  key-moved j = ground (
    arith,
    key-set heap to j (key heap from),
    key-set (set heap to (key heap from)) from j v,
    length-set heap to (key heap from),
  )

  pub occurrences-moved :
      (len x : ℕ)
      → to ≢ from
      → to < len
      → from < len
      → occurrences (moved heap to from v) len x ≡ occurrences (set heap to v) len x
  occurrences-moved len x ne h k = ground (
    arith,
    key-set heap to from (key heap from),
    length-set heap to (key heap from),
    occurrences-set (set heap to (key heap from)) len from v x,
    occurrences-set heap len to (key heap from) x,
    occurrences-set heap len to v x,
  )

  pub IsSettled-moved :
      {len : ℕ} {after : List ℕ}
      → to ≢ from
      → to < len
      → from < len
      → IsSettled len (moved heap to from v) after
      → IsSettled len (set heap to v) after
  IsSettled-moved {len} ne h k s = record {
    ordered = s.ordered;
    kept = λ x. omega (arith, s.kept x, occurrences-moved len x ne h k);
    size = omega (
      arith,
      s.size,
      length-set heap to v,
      length-set heap to (key heap from),
      length-set (set heap to (key heap from)) from v,
    );
  }
