-- ===== src/Heapqueue/Order.antt =====
-- The heap order, and the entries that a loop over the heap leaves alone.
use boris.Prelude.{
  ℕ, zero, suc, ◌≤◌, ◌<◌, ◌≡◌, refl, ◌≢◌, List, arith, length, set, get_or-set, ◌==◌, if◌then◌else◌,
}
use boris.Heapqueue.{Elm, entry, outside, key, deref, parent}

-- no entry of the first `len` is smaller than its parent
abbrev pub IsHeap : ℕ → List ℕ → Type 0
IsHeap len heap = (c : ℕ) → 0 < c → c < len → key heap (parent c) ≤ key heap c

-- `elm` is no entry of the first `len`
abbrev pub IsBeyond : ℕ → Elm → Type 0
IsBeyond len (entry n) = len ≤ n
IsBeyond len (outside d) = Unit {0}

-- the children of `i` are not smaller than the parent of `i`
abbrev pub IsBridged : ℕ → List ℕ → ℕ → Type 0
IsBridged len heap i =
    (c : ℕ) → c < len → parent c ≡ i → 0 < i → 0 < c → key heap (parent i) ≤ key heap c

-- only the edge above `i` may be out of order
pub record IsHeapBelow (len : ℕ) (heap : List ℕ) (i : ℕ) : Type 0 where
  pub edges : (c : ℕ) → 0 < c → c < len → c ≢ i → key heap (parent c) ≤ key heap c
  pub bridged : IsBridged len heap i

-- only the edges below `i` may be out of order
pub record IsHeapAbove (len : ℕ) (heap : List ℕ) (i : ℕ) : Type 0 where
  pub edges : (c : ℕ) → 0 < c → c < len → parent c ≢ i → key heap (parent c) ≤ key heap c
  pub bridged : IsBridged len heap i

pub key-set :
    (heap : List ℕ) (i j v : ℕ)
    → i < length heap
    → key (set heap i v) j ≡ (if i == j then v else key heap j)
key-set heap i j v h = get_or-set heap i j v 0 h

pub deref-set :
    (len : ℕ) (heap : List ℕ) (i v : ℕ) (elm : Elm)
    → i < len
    → len ≤ length heap
    → IsBeyond len elm
    → deref (set heap i v) elm ≡ deref heap elm
deref-set len heap i v (entry n) h k b = ground (arith, key-set heap i n v)
deref-set len heap i v (outside d) h k b = refl

root_least_below :
    (rounds len : ℕ) (heap : List ℕ) (i : ℕ)
    → IsHeap len heap
    → i < rounds
    → i < len
    → key heap 0 ≤ key heap i
root_least_below zero len heap i v h k = absurd (omega arith)
root_least_below (suc rounds) len heap i v h k =
    ground (arith, v i, root_least_below rounds len heap (parent i) v)

-- the root is the least of all entries
pub root_least :
    (len : ℕ) (heap : List ℕ) (i : ℕ) → IsHeap len heap → i < len → key heap 0 ≤ key heap i
root_least len heap i v h = root_least_below (suc i) len heap i v (omega arith) h
