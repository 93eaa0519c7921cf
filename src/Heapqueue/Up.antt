-- ===== src/Heapqueue/Up.antt =====
-- `heapqueue_ll_siftup`: the hole moves towards the root until its parent is not larger than the key.
use boris.Prelude.{
  false, Bool-cases, inl, inr, ℕ, zero, suc, ◌≤◌, ◌<◌, ◌≡◌, refl, List, arith, length, length-set,
  set, ltb, ◌&&◌, ◌∙◌,
}
use boris.Heapqueue.{Elm, key, deref, parent, siftup, fill}
use boris.Heapqueue.Order.{IsBeyond, IsHeapBelow, key-set, deref-set}
use boris.Heapqueue.Move.{IsSettled, moved, key-moved, IsSettled-moved}

-- a round of the loop in which the parent is larger than `v`
moved_up-IsHeapBelow :
    (len : ℕ) (heap : List ℕ) (i v : ℕ)
    → i < len
    → len ≤ length heap
    → 0 < i
    → v < key heap (parent i)
    → IsHeapBelow len (set heap i v) i
    → IsHeapBelow len (moved heap i (parent i) v) (parent i)
moved_up-IsHeapBelow len heap i v h k pos below s =
    let was = λ (j : ℕ). key-set heap i j v (omega arith) in
    let at = λ (j : ℕ). key-moved heap i (parent i) v (omega arith) (omega arith) j in
    record {
      edges = λ c p q ne. ground (
        arith,
        at c,
        at (parent c),
        was c,
        was (parent c),
        was (parent i),
        s.edges c,
        s.edges (parent i),
        s.bridged c,
      );
      bridged = λ c p q r t. ground (
        arith,
        at c,
        at (parent (parent i)),
        was c,
        was (parent c),
        was (parent i),
        was (parent (parent i)),
        s.edges c,
        s.edges (parent i),
      );
    }

-- where the loop stops, the hole can be filled
set-IsSettled :
    (len : ℕ) (heap : List ℕ) (i v : ℕ)
    → i < len
    → len ≤ length heap
    → (ltb 0 i && ltb v (key heap (parent i))) ≡ false
    → IsHeapBelow len (set heap i v) i
    → IsSettled len (set heap i v) (set heap i v)
set-IsSettled len heap i v h k stop s =
    let was = λ (j : ℕ). key-set heap i j v (omega arith) in
    record {
      ordered = λ c p q. ground (arith, s.edges c, was c, was (parent c));
      kept = λ x. refl;
      size = refl;
    }

pub siftup_settles :
    (rounds len : ℕ) (heap : List ℕ) (i v : ℕ) (elm : Elm)
    → i ≤ rounds
    → i < len
    → len ≤ length heap
    → IsBeyond len elm
    → deref heap elm ≡ v
    → IsHeapBelow len (set heap i v) i
    → IsSettled len (set heap i v) (fill elm (siftup rounds heap i elm))
unfolding siftup
siftup_settles zero len heap i v elm f h k b e s =
    rw e (set-IsSettled len heap i v h k (ground arith) s)
siftup_settles (suc rounds) len heap i v elm f h k b e s =
    let heap' : List ℕ = set heap i (key heap (parent i)) in
    elim (Bool-cases (ltb 0 i && ltb v (key heap (parent i)))) [
      | inl more ↦
          rw (e, more)
            (IsSettled-moved heap i (parent i) v (omega arith) (omega arith) (λ eq. ground arith) h
              (omega arith)
              (siftup_settles rounds len heap' (parent i) v elm (ground arith) (omega arith)
                (omega (arith, length-set heap i (key heap (parent i)))) b
                (deref-set len heap i (key heap (parent i)) elm h k b ∙ e)
                (moved_up-IsHeapBelow len heap i v h k (ground arith) (ground arith) s)))
      | inr done ↦ rw (e, done) (rw e (set-IsSettled len heap i v h k done s))
    ]
