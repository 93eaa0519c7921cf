-- ===== src/Heapqueue/Sequences.antt =====
-- Sequences of calls, against the priority queue that a caller has in mind: a multiset of keys from which
-- a least one is taken.
use mathlib.Core.Path.{subst}
use boris.Prelude.{
  occurrences, sym, ◌==◌, Bool-cases, inl, inr, ℕ, ◌<◌, ◌≡◌, refl, ap, List, [], ◌∷◌, arith, length,
  none, some, Option,
}
use boris.Heapqueue.{Heapqueue, key, heapqueue_enqueue, heapqueue_dequeue, heapqueue_cancel}
use boris.Heapqueue.Contents.{Contents, contents, add, IsLeast}
use boris.Heapqueue.Operations.{IsValid, enqueue_correct, dequeue_correct}
use boris.Heapqueue.Cancel.{cancel_correct}

pub data Call : Type 0 where
  enqueue : ℕ → Call
  dequeue : Call
  cancel : ℕ → Call

-- what a caller sees of a call
pub data Event : Type 0 where
  entered : ℕ → Event
  taken : ℕ → Event
  nothing : Event
  cancelled : ℕ → Event

-- the abstract queue
pub data Step : Contents → Event → Contents → Type 0 where
  enters : (m : Contents) (d : ℕ) → Step m (entered d) (add d m)
  takes : (m m' : Contents) (d : ℕ) → IsLeast d m → m ≡ add d m' → Step m (taken d) m'
  is_empty : (m : Contents) → ((x : ℕ) → m x ≡ 0) → Step m nothing m
  cancels : (m m' : Contents) (d : ℕ) → m ≡ add d m' → Step m (cancelled d) m'

pub data Trace : Contents → List Event → Contents → Type 0 where
  done : (m : Contents) → Trace m [] m
  next :
      {m m' m'' : Contents} {e : Event} {es : List Event}
      → Step m e m'
      → Trace m' es m''
      → Trace m (e ∷ es) m''

unfoldable pub taken_out : Option ℕ × Heapqueue → Event × Heapqueue
taken_out (none, q) = (nothing, q)
taken_out (some d, q) = (taken d, q)

unfoldable pub call : Call → Heapqueue → Option (Event × Heapqueue)
call (enqueue d) q = elim (heapqueue_enqueue q d) [ none ↦ none | some q' ↦ some (entered d, q') ]
call dequeue q = some (taken_out (heapqueue_dequeue q))
call (cancel i) q = elim (heapqueue_cancel q i) [
  | none ↦ none
  | some (d, q') ↦ some (cancelled d, q')
]

unfoldable pub perform : List Call → Heapqueue → Option (List Event × Heapqueue)
perform [] q = some ([], q)
perform (c ∷ cs) q = elim (call c q) [
  | none ↦ none
  | some (e, q') ↦ elim (perform cs q') [ none ↦ none | some (es, q'') ↦ some (e ∷ es, q'') ]
]

-- what the assertions of a call ask for
abbrev pub Allowed : Call → Heapqueue → Type 0
Allowed (enqueue d) q = q.heap_len < length q.heap
Allowed dequeue q = Unit {0}
Allowed (cancel i) q = (i < q.heap_len) × (q.heap_len < length q.heap)

abbrev pub After : Option (Event × Heapqueue) → (Heapqueue → Type 0) → Type 0
After none P = Unit {0}
After (some (e, q)) P = P q

-- each call of the sequence is allowed where it is made
unfoldable pub AllAllowed : List Call → Heapqueue → Type 0
AllAllowed [] q = Unit {0}
AllAllowed (c ∷ cs) q = Allowed c q × After (call c q) (AllAllowed cs)

Refined : Heapqueue → Option (Event × Heapqueue) → Type 0
Refined q r =
    (e : Event) × (q' : Heapqueue) × (r ≡ some (e, q'))
    × IsValid q'
    × Step (contents q) e (contents q')

call_refines : (c : Call) (q : Heapqueue) → IsValid q → Allowed c q → Refined q (call c q)
unfolding call Refined taken_out heapqueue_dequeue occurrences
call_refines (enqueue d) q v h =
    let r = enqueue_correct q d v h in
    let st : Step (contents q) (entered d) (contents r.0) =
      subst (λ m. Step (contents q) (entered d) m) (sym (r.3)) (enters (contents q) d) in
    (entered d, r.0, ground (arith, r.1), r.2, st)
call_refines dequeue q v h = elim (Bool-cases (q.heap_len == 0)) [
  | inl none_left ↦ (
    nothing,
    q,
    ground arith,
    v,
    is_empty (contents q)
        (λ x. let e : q.heap_len ≡ 0 = ground arith in ap (λ (n : ℕ). occurrences q.heap n x) e),
  )
  | inr some_left ↦
      let r = dequeue_correct q v (ground arith) in
      (
        taken r.0,
        r.1,
        ap (λ p. some (taken_out p)) (r.2),
        r.3,
        takes (contents q) (contents r.1) r.0 (r.4) (r.5),
      )
]
call_refines (cancel i) q v h =
    let r = cancel_correct q i v h.0 h.1 in
    (
      cancelled (key q.heap i),
      r.0,
      ground (arith, r.1),
      r.2,
      cancels (contents q) (contents r.0) (key q.heap i) (r.3),
    )

perform_next :
    (c : Call) (cs : List Call) (q q' q'' : Heapqueue) (e : Event) (es : List Event)
    → call c q ≡ some (e, q')
    → perform cs q' ≡ some (es, q'')
    → perform (c ∷ cs) q ≡ some (e ∷ es, q'')
unfolding perform
perform_next c cs q q' q'' e es h k = ground arith

-- Whatever sequence of calls is made of a queue in order, each call returns, the queue stays in order,
-- and the results are those of a multiset of keys from which `heapqueue_dequeue` takes a least one. Keys
-- are entered only while the array has room, and only entries of a queue that does not fill it are cancelled.
pub perform_refines :
    (cs : List Call) (q : Heapqueue)
    → IsValid q
    → AllAllowed cs q
    → (es : List Event) × (q' : Heapqueue) × (perform cs q ≡ some (es, q'))
      × IsValid q'
      × Trace (contents q) es (contents q')
unfolding perform AllAllowed Refined
perform_refines [] q v a = ([], q, refl, v, done (contents q))
perform_refines (c ∷ cs) q v a =
    let r : Refined q (call c q) = call_refines c q v (a.0) in
    let t = perform_refines cs (r.1) (r.3) (subst (λ o. After o (AllAllowed cs)) (r.2) (a.1)) in
    (r.0 ∷ t.0, t.1, perform_next c cs q (r.1) (t.1) (r.0) (t.0) (r.2) (t.2), t.3, next (r.4) (t.4))
