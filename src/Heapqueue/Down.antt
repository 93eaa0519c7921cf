-- ===== src/Heapqueue/Down.antt =====
-- `heapqueue_ll_siftdown`: the hole moves to the smaller child until neither is smaller than the key.
use boris.Prelude.{
  false, Bool, Bool-cases, inl, inr, ℕ, zero, suc, ◌+◌, ◌≤◌, ◌<◌, ◌≡◌, ◌⊎◌, ◌*◌, refl, List, arith,
  length, length-set, set, ltb, ◌&&◌, ◌∙◌,
}
use boris.Heapqueue.{Elm, key, deref, left, parent, smaller_child, siftdown, fill}
use boris.Heapqueue.Order.{IsBeyond, IsHeapAbove, key-set, deref-set}
use boris.Heapqueue.Move.{IsSettled, moved, key-moved, IsSettled-moved}

-- the test of the loop, and the one that ends it
abbrev goes_on : List ℕ → ℕ → ℕ → ℕ → Bool
goes_on heap len i v = ltb (left i) len && ltb (key heap (smaller_child heap len i)) v

-- `child` is the child of `i` that is not larger than the other
record IsSmaller (len : ℕ) (heap : List ℕ) (i child : ℕ) : Type 0 where
  inside : child < len
  below : (child ≡ 2 * i + 1) ⊎ (child ≡ 2 * i + 2)
  least : (c : ℕ) → 0 < c → c < len → parent c ≡ i → key heap child ≤ key heap c

smaller_child_lem :
    (len : ℕ) (heap : List ℕ) (i : ℕ)
    → left i < len
    → IsSmaller len heap i (smaller_child heap len i)
smaller_child_lem len heap i h = record {
  inside = ground arith;
  below = ground arith;
  least = λ c p q e. elim (child_cases c p e) [ inl l ↦ ground arith | inr r ↦ ground arith ];
}
  where
    child_cases : (c : ℕ) → 0 < c → parent c ≡ i → (c ≡ left i) ⊎ (c ≡ left i + 1)
    child_cases c p e = omega arith

moved_down-IsHeapAbove :
    (len : ℕ) (heap : List ℕ) (i child v : ℕ)
    → len ≤ length heap
    → IsSmaller len heap i child
    → key heap child < v
    → IsHeapAbove len (set heap i v) i
    → IsHeapAbove len (moved heap i child v) child
moved_down-IsHeapAbove len heap i child v k m above s =
    let was = λ (j : ℕ). key-set heap i j v (omega (arith, m.inside, m.below)) in
    let at = λ (j : ℕ).
      key-moved heap i child v (omega (arith, m.inside, m.below)) (omega (arith, m.inside)) j in
    record {
      edges = λ c p q ne. ground (
        arith,
        m.below,
        m.inside,
        at c,
        at (parent c),
        was c,
        was (parent c),
        s.edges c,
        s.bridged child,
        m.least c,
        was child,
      );
      bridged = λ c p q r t.
          ground
            (arith, m.below, m.inside, at c, at (parent child), was c, was (parent c), s.edges c);
    }

set-IsSettled :
    (len : ℕ) (heap : List ℕ) (i v : ℕ)
    → i < len
    → len ≤ length heap
    → goes_on heap len i v ≡ false
    → IsHeapAbove len (set heap i v) i
    → IsSettled len (set heap i v) (set heap i v)
set-IsSettled len heap i v h k stop s =
    let was = λ (j : ℕ). key-set heap i j v (omega arith) in
    record {
      ordered = λ c p q. elim (Bool-cases (ltb (left i) len)) [
        | inl l ↦ ground (
          arith,
          s.edges c,
          was c,
          was (parent c),
          (smaller_child_lem len heap i (ground arith)).least c,
        )
        | inr l ↦ ground (arith, s.edges c, was c, was (parent c))
      ];
      kept = λ x. refl;
      size = refl;
    }

pub siftdown_settles :
    (rounds len : ℕ) (heap : List ℕ) (i v : ℕ) (elm : Elm)
    → len ≤ i + rounds
    → i < len
    → len ≤ length heap
    → IsBeyond len elm
    → deref heap elm ≡ v
    → IsHeapAbove len (set heap i v) i
    → IsSettled len (set heap i v) (fill elm (siftdown rounds heap len i elm))
unfolding siftdown
siftdown_settles zero len heap i v elm f h k b e s = absurd (omega arith)
siftdown_settles (suc rounds) len heap i v elm f h k b e s =
    let child : ℕ = smaller_child heap len i in
    let heap' : List ℕ = set heap i (key heap child) in
    elim (Bool-cases (ltb (left i) len)) [
      | inl l ↦
          let m : IsSmaller len heap i child = smaller_child_lem len heap i (ground arith) in
          elim (Bool-cases (ltb (key heap child) v)) [
            | inl more ↦
                rw (e, l, more)
                  (IsSettled-moved heap i child v (omega arith) (omega (arith, m.inside))
                    (λ eq. omega (arith, m.below, eq)) h m.inside
                    (siftdown_settles rounds len heap' child v elm (omega (arith, m.below)) m.inside
                      (omega (arith, length-set heap i (key heap child))) b
                      (deref-set len heap i (key heap child) elm h k b ∙ e)
                      (moved_down-IsHeapAbove len heap i child v k m (ground arith) s)))
            | inr done ↦
                rw (e, l, done) (rw e (set-IsSettled len heap i v h k (rw (l, done) refl) s))
          ]
      | inr done ↦ rw (e, done) (rw e (set-IsSettled len heap i v h k (rw done refl) s))
    ]
