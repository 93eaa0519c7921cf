-- ===== src/Heapqueue.antt =====
-- The priority queue of src/common.c, `heapqueue_enqueue` to `heapqueue_cancel`: a binary heap in a fixed
-- array, `heap`, of which the first `heap_len` entries are in use. An entry is its key `d`, the one field
-- of `struct heapqueue_elm`. An access outside the array is `none`. The indices that the loops compute
-- stay below 2 * 512 + 2, and do not wrap.
pub mod Order
pub mod Contents
pub mod Move
pub mod Up
pub mod Down
pub mod Operations
pub mod Cancel
pub mod Sequences
mod Tests
use boris.Prelude.{
  ℕ, zero, suc, ◌+◌, ◌-◌, ◌*◌, ◌/◌, Bool, true, ◌&&◌, ◌||◌, Option, none, some, List, ltb, ◌==◌,
  if◌then◌else◌, length, get_or, set,
}

-- the static variables `heap` and `heap_len`
pub record Heapqueue : Type 0 where
  pub heap : List ℕ
  pub heap_len : ℕ

-- `&heap[n]`, or the address of an entry outside of the heap
pub data Elm : Type 0 where
  entry : ℕ → Elm
  outside : ℕ → Elm

-- `heap[i].d`
abbrev pub key : List ℕ → ℕ → ℕ
key heap i = get_or heap i 0

-- `elm->d`, as it is when it is read
abbrev pub deref : List ℕ → Elm → ℕ
deref heap (entry n) = key heap n
deref heap (outside d) = d

-- HEAPQUEUE_LEFT, HEAPQUEUE_RIGHT and HEAPQUEUE_PARENT
abbrev pub left : ℕ → ℕ
left i = 2 * i + 1

abbrev pub right : ℕ → ℕ
right i = 2 * i + 2

abbrev pub parent : ℕ → ℕ
parent i = (i - 1) / 2

-- the smaller of the two children, or the only one
abbrev pub smaller_child : List ℕ → ℕ → ℕ → ℕ
smaller_child heap heap_len i =
    if ltb (left i + 1) heap_len && ltb (key heap (left i + 1)) (key heap (left i))
    then left i + 1
    else left i

-- `heapqueue_ll_siftdown`: the position of the hole, and the array. The hole moves on in each round, so
-- that `heap_len` rounds are enough.
pub siftdown : ℕ → List ℕ → ℕ → ℕ → Elm → ℕ × List ℕ
siftdown zero heap heap_len i elm = (i, heap)
siftdown (suc rounds) heap heap_len i elm =
    let child = smaller_child heap heap_len i in
    let rest = siftdown rounds (set heap i (key heap child)) heap_len child elm in
    if ltb (left i) heap_len
    then if ltb (key heap child) (deref heap elm) then rest else (i, heap)
    else (i, heap)

-- `heapqueue_ll_siftup`: the hole moves back in each round, so that `i` rounds are enough.
pub siftup : ℕ → List ℕ → ℕ → Elm → ℕ × List ℕ
siftup zero heap i elm = (i, heap)
siftup (suc rounds) heap i elm =
    let rest = siftup rounds (set heap i (key heap (parent i))) (parent i) elm in
    if ltb 0 i && ltb (deref heap elm) (key heap (parent i)) then rest else (i, heap)

-- `heap[i] = *elm`
abbrev pub fill : Elm → ℕ × List ℕ → List ℕ
fill elm (i, heap) = set heap i (deref heap elm)

-- `heapqueue_enqueue`. The assertion that the heap has room is off.
pub heapqueue_enqueue : Heapqueue → ℕ → Option Heapqueue
heapqueue_enqueue q elm =
    if ltb q.heap_len (length q.heap)
    then some (record {
      heap = fill (outside elm) (siftup q.heap_len q.heap q.heap_len (outside elm));
      heap_len = q.heap_len + 1;
    })
    else none

-- `heapqueue_dequeue`: the entry removed, if there is one
pub heapqueue_dequeue : Heapqueue → Option ℕ × Heapqueue
heapqueue_dequeue q =
    let last = q.heap_len - 1 in
    if q.heap_len == 0 then (none, q) else (
      some (key q.heap 0),
      record {
        heap = fill (entry last) (siftdown last q.heap last 0 (entry last));
        heap_len = last;
      },
    )

-- where the hole goes in `heapqueue_cancel`, `len` being the new length
abbrev pub cancel_hole : List ℕ → ℕ → ℕ → ℕ × List ℕ
cancel_hole heap len i =
    let last = key heap len in
    let up = siftup i (set heap i (key heap (parent i))) (parent i) (entry len) in
    let down_right = siftdown len (set heap i (key heap (right i))) len (right i) (entry len) in
    let down_left = siftdown len (set heap i (key heap (left i))) len (left i) (entry len) in
    if ltb 0 i && ltb last (key heap (parent i))
    then up
    else if ltb (right i) len && (ltb (key heap (right i)) last || ltb (key heap (left i)) last)
    then if ltb (key heap (right i)) (key heap (left i)) then down_right else down_left
    else if ltb (left i) len && ltb (key heap (left i)) last
    then down_left
    else (i, heap)

-- `heapqueue_cancel`: the entry removed at `i`. The assertions on `i` and the length are off.
pub heapqueue_cancel : Heapqueue → ℕ → Option (ℕ × Heapqueue)
heapqueue_cancel q i =
    let len = q.heap_len - 1 in
    if ltb i (length q.heap) && ltb 0 q.heap_len
    then some (
      key q.heap i,
      record { heap = fill (entry len) (cancel_hole q.heap len i); heap_len = len },
    )
    else none
