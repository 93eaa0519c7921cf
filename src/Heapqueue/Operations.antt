-- ===== src/Heapqueue/Operations.antt =====
-- The operations of the queue against what it holds.
use mathlib.Core.Path.{fun_ext}
use boris.Prelude.{
  replaced, occurrences, occurrences-set_outside, occurrences_pos, occurrences_bound, Bool-cases,
  inl, inr, ℕ, suc, ◌+◌, ◌-◌, ◌≤◌, ◌<◌, ◌≡◌, refl, ap, List, arith, length, length-set, set, ltb,
  ◌∙◌, some,
}
use boris.Heapqueue.{
  Heapqueue, entry, outside, key, parent, siftdown, siftup, fill, heapqueue_enqueue,
  heapqueue_dequeue,
}
use boris.Heapqueue.Order.{IsHeap, key-set, root_least}
use boris.Heapqueue.Contents.{contents, add, IsLeast}
use boris.Heapqueue.Move.{IsSettled}
use boris.Heapqueue.Up.{siftup_settles}
use boris.Heapqueue.Down.{siftdown_settles}

-- the heap fits the array and is in order
pub record IsValid (q : Heapqueue) : Type 0 where
  pub fits : q.heap_len ≤ length q.heap
  pub ordered : IsHeap q.heap_len q.heap

-- As long as the array has room, `heapqueue_enqueue` adds the key to what the queue holds, and keeps the
-- heap in order and the size of the array.
pub enqueue_correct :
    (q : Heapqueue) (d : ℕ)
    → IsValid q
    → q.heap_len < length q.heap
    → (q' : Heapqueue) × (heapqueue_enqueue q d ≡ some q')
      × IsValid q'
      × (contents q' ≡ add d (contents q))
      × (q'.heap_len ≡ q.heap_len + 1)
      × (length q'.heap ≡ length q.heap)
unfolding heapqueue_enqueue occurrences
enqueue_correct q d v room =
    let n : ℕ = q.heap_len in
    let was = λ (j : ℕ). key-set q.heap n j d room in
    let s : IsSettled (suc n) (set q.heap n d) (fill (outside d) (siftup n q.heap n (outside d))) =
      siftup_settles n (suc n) q.heap n d (outside d) (omega arith) (omega arith) (omega arith) tt
        refl
        (record {
          edges = λ c p r ne. ground (arith, was c, was (parent c), v.ordered c);
          bridged = λ c p r t u. absurd (omega arith);
        }) in
    let q' : Heapqueue = record {
      heap = fill (outside d) (siftup n q.heap n (outside d));
      heap_len = suc n;
    } in
    (
      q',
      ground arith,
      record { fits = omega (arith, s.size, length-set q.heap n d); ordered = s.ordered },
      fun_ext (λ x. ground (arith, s.kept x, occurrences-set_outside q.heap n n d x, was n)),
      omega arith,
      omega (arith, s.size, length-set q.heap n d),
    )

dequeue_settles :
    (q : Heapqueue)
    → IsValid q
    → 0 < q.heap_len
    → let len = q.heap_len - 1 in
      IsSettled len
        (set q.heap 0 (key q.heap len))
        (fill (entry len) (siftdown len q.heap len 0 (entry len)))
unfolding siftdown occurrences
dequeue_settles q v h = elim (Bool-cases (ltb 1 q.heap_len)) [
  | inl more ↦
      let len : ℕ = q.heap_len - 1 in
      let was = λ (j : ℕ). key-set q.heap 0 j (key q.heap len) (omega (arith, v.fits)) in
      siftdown_settles len len q.heap 0 (key q.heap len) (entry len) (omega arith) (ground arith)
        (omega (arith, v.fits)) (omega arith) refl
        (record {
          edges = λ c p r ne. ground (arith, was c, was (parent c), v.ordered c);
          bridged = λ c p e t. absurd (omega arith);
        })
  | inr one ↦
      let e : q.heap_len ≡ 1 = ground arith in
      rw e (record { ordered = λ c p r. absurd (omega arith); kept = λ x. refl; size = refl })
]

-- `heapqueue_dequeue` of a queue that is not empty takes out a least key, once, and keeps the heap in
-- order and the size of the array.
pub dequeue_correct :
    (q : Heapqueue)
    → IsValid q
    → 0 < q.heap_len
    → (d : ℕ) × (q' : Heapqueue) × (heapqueue_dequeue q ≡ (some d, q'))
      × IsValid q'
      × IsLeast d (contents q)
      × (contents q ≡ add d (contents q'))
      × (q.heap_len ≡ q'.heap_len + 1)
      × (length q'.heap ≡ length q.heap)
unfolding heapqueue_dequeue
dequeue_correct q v some_left =
    let len : ℕ = q.heap_len - 1 in
    let last : ℕ = key q.heap len in
    let after : List ℕ = fill (entry len) (siftdown len q.heap len 0 (entry len)) in
    let room : 0 < length q.heap = omega (arith, v.fits) in
    let s : IsSettled len (set q.heap 0 last) after = dequeue_settles q v some_left in
    let q' : Heapqueue = record { heap = after; heap_len = len } in
    let e : q.heap_len ≡ suc len = omega arith in
    (
      key q.heap 0,
      q',
      ground arith,
      record {
        fits = omega (arith, s.size, length-set q.heap 0 last, v.fits);
        ordered = s.ordered;
      },
      (
        occurrences_pos q.heap q.heap_len 0 some_left,
        λ x.
            occurrences_bound q.heap q.heap_len (key q.heap 0) x
              (λ i p. root_least q.heap_len q.heap i v.ordered p),
      ),
      fun_ext (λ x.
          ap (λ (n : ℕ). occurrences q.heap n x) e
          ∙ omega (arith, s.kept x, replaced q.heap len 0 x (omega arith) (omega (arith, v.fits)))),
      omega arith,
      omega (arith, s.size, length-set q.heap 0 last),
    )
