-- ===== src/Heapqueue/Cancel.antt =====
-- `heapqueue_cancel`: the last entry takes the place of the one at `i`, and moves up or down from there.
use mathlib.Core.Path.{fun_ext}
use boris.Prelude.{
  occurrences, replaced, false, Bool-cases, inl, inr, ℕ, suc, ◌+◌, ◌-◌, ◌≤◌, ◌<◌, ◌≡◌, refl, ap,
  List, arith, length, length-set, set, ltb, ◌&&◌, ◌∙◌, some,
}
use boris.Heapqueue.{
  Heapqueue, entry, key, parent, siftdown, siftup, fill, cancel_hole, heapqueue_cancel,
}
use boris.Heapqueue.Order.{IsHeap, key-set}
use boris.Heapqueue.Contents.{contents, add}
use boris.Heapqueue.Move.{IsSettled}
use boris.Heapqueue.Up.{siftup_settles}
use boris.Heapqueue.Down.{siftdown_settles}
use boris.Heapqueue.Operations.{IsValid}

module _ (heap : List ℕ) (len i : ℕ) (order : IsHeap (suc len) heap) (h : i < len)
    (k : suc len ≤ length heap) where
  -- the first move up, which the handler makes itself, is a round of the loop
  cancel_hole-up :
      0 < i
      → key heap len < key heap (parent i)
      → cancel_hole heap len i ≡ siftup (suc i) heap i (entry len)
  unfolding siftup
  cancel_hole-up pos up = ground arith

  -- so is the first move down
  cancel_hole-down :
      (ltb 0 i && ltb (key heap len) (key heap (parent i))) ≡ false
      → cancel_hole heap len i ≡ siftdown (suc len) heap len i (entry len)
  unfolding siftdown
  cancel_hole-down stay = ground arith

  cancel_hole-IsSettled_inside :
      IsSettled len (set heap i (key heap len)) (fill (entry len) (cancel_hole heap len i))
  cancel_hole-IsSettled_inside =
      let last : ℕ = key heap len in
      let was = λ (j : ℕ). key-set heap i j last (omega arith) in
      elim (Bool-cases (ltb 0 i && ltb last (key heap (parent i)))) [
        | inl up ↦ rw (cancel_hole-up (ground arith) (ground arith)) (
            siftup_settles (suc i) len heap i last (entry len) (omega arith) h (omega arith)
              (omega arith) refl
              (record {
                edges = λ c p r ne. ground (arith, was c, was (parent c), order c, order i);
                bridged = λ c p e t r. ground (arith, was c, was (parent i), order c, order i);
              }))
        | inr stay ↦ rw (cancel_hole-down stay) (
            siftdown_settles (suc len) len heap i last (entry len) (omega arith) h (omega arith)
              (omega arith) refl
              (record {
                edges = λ c p r ne. ground (arith, was c, was (parent c), order c);
                bridged = λ c p e t r. ground (arith, was c, was (parent i), order c, order i);
              }))
      ]

-- cutting out the last entry moves nothing
cancel_hole-last :
    (heap : List ℕ) (len : ℕ) → IsHeap (suc len) heap → cancel_hole heap len len ≡ (len, heap)
cancel_hole-last heap len order = ground (arith, order len)

cancel_hole-IsSettled :
    (heap : List ℕ) (len i : ℕ)
    → IsHeap (suc len) heap
    → i < suc len
    → suc len ≤ length heap
    → IsSettled len (set heap i (key heap len)) (fill (entry len) (cancel_hole heap len i))
cancel_hole-IsSettled heap len i order h k = elim (Bool-cases (ltb i len)) [
  | inl lt ↦ cancel_hole-IsSettled_inside heap len i order (ground arith) k
  | inr ge ↦
      let e : i ≡ len = ground arith in
      rw (e, cancel_hole-last heap len order)
        (record {
          ordered = λ c p r. ground (
            arith,
            order c,
            key-set heap len c (key heap len) k,
            key-set heap len (parent c) (key heap len) k,
          );
          kept = λ x. refl;
          size = refl;
        })
]

-- `heapqueue_cancel` of an entry of a queue that does not fill its array, as its assertion asks, takes out its key, once, and keeps the heap in order and
-- the size of the array.
pub cancel_correct :
    (q : Heapqueue) (i : ℕ)
    → IsValid q
    → i < q.heap_len
    → q.heap_len < length q.heap
    → (q' : Heapqueue) × (heapqueue_cancel q i ≡ some (key q.heap i, q'))
      × IsValid q'
      × (contents q ≡ add (key q.heap i) (contents q'))
      × (q.heap_len ≡ q'.heap_len + 1)
      × (length q'.heap ≡ length q.heap)
unfolding heapqueue_cancel
cancel_correct q i v h room =
    let len : ℕ = q.heap_len - 1 in
    let last : ℕ = key q.heap len in
    let after : List ℕ = fill (entry len) (cancel_hole q.heap len i) in
    let e : q.heap_len ≡ suc len = omega arith in
    let k : suc len ≤ length q.heap = omega (arith, v.fits) in
    let s : IsSettled len (set q.heap i last) after =
      cancel_hole-IsSettled q.heap len i (λ c p r. v.ordered c p (omega arith)) (omega arith) k in
    (
      record { heap = after; heap_len = len },
      ground arith,
      record { fits = omega (arith, s.size, length-set q.heap i last); ordered = s.ordered },
      fun_ext (λ x.
          ap (λ (n : ℕ). occurrences q.heap n x) e
          ∙ omega (arith, s.kept x, replaced q.heap len i x (omega arith) k)),
      omega arith,
      omega (arith, s.size, length-set q.heap i last),
    )
