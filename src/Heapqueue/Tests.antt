-- ===== src/Heapqueue/Tests.antt =====
-- The queue at work on small arrays, and its theorems there.
use boris.Prelude.{
  ℕ, zero, suc, ◌+◌, ◌<◌, ◌≤◌, ◌≡◌, refl, List, [], ◌∷◌, arith, length, none, some, replicate,
}
use boris.Heapqueue.{
  Heapqueue, key, parent, heapqueue_enqueue, heapqueue_dequeue, heapqueue_cancel, siftup, siftdown,
}
use boris.Heapqueue.Contents.{contents, add}
use boris.Heapqueue.Operations.{IsValid}
use boris.Heapqueue.Cancel.{cancel_correct}
use boris.Heapqueue.Sequences.{
  taken_out, Call, enqueue, dequeue, cancel, Event, entered, taken, nothing, cancelled, Trace, call,
  perform, AllAllowed, perform_refines,
}

abbrev empty : Heapqueue
empty = record { heap = replicate 8 0; heap_len = 0 }

abbrev four : Heapqueue
four = record { heap = 2 ∷ 5 ∷ 3 ∷ 9 ∷ 0 ∷ 0 ∷ []; heap_len = 4 }

abbrev calls : List Call
calls = enqueue 5 ∷ enqueue 2 ∷ enqueue 9 ∷ cancel 0 ∷ dequeue ∷ dequeue ∷ dequeue ∷ []

calls_run :
    perform calls empty
    ≡ some (
      entered 5 ∷ entered 2 ∷ entered 9 ∷ cancelled 2 ∷ taken 5 ∷ taken 9 ∷ nothing ∷ [],
      record { heap = 9 ∷ 9 ∷ 9 ∷ 0 ∷ 0 ∷ 0 ∷ 0 ∷ 0 ∷ []; heap_len = 0 },
    )
unfolding perform call taken_out heapqueue_enqueue heapqueue_dequeue heapqueue_cancel siftup
    siftdown
calls_run = refl

full : heapqueue_enqueue (record { heap = 1 ∷ []; heap_len = 1 }) 7 ≡ none
unfolding heapqueue_enqueue
full = refl

four_order : (c : ℕ) → 0 < c → c < 4 → key four.heap (parent c) ≤ key four.heap c
four_order zero p h = omega arith
four_order (suc zero) p h = omega arith
four_order (suc (suc zero)) p h = omega arith
four_order (suc (suc (suc zero))) p h = omega arith
four_order (suc (suc (suc (suc c)))) p h = absurd (omega arith)

four-IsValid : IsValid four
four-IsValid = record { fits = omega arith; ordered = four_order }

cancel_correct_example :
    (q' : Heapqueue) × (heapqueue_cancel four 1 ≡ some (5, q'))
    × IsValid q'
    × (contents four ≡ add 5 (contents q'))
    × (4 ≡ q'.heap_len + 1)
    × (length q'.heap ≡ 6)
cancel_correct_example = cancel_correct four 1 four-IsValid (omega arith) (omega arith)

calls_allowed : AllAllowed calls empty
unfolding AllAllowed call taken_out heapqueue_enqueue heapqueue_dequeue heapqueue_cancel siftup
    siftdown
calls_allowed = omega arith

perform_refines_example :
    (es : List Event) × (q' : Heapqueue) × (perform calls empty ≡ some (es, q'))
    × IsValid q'
    × Trace (contents empty) es (contents q')
perform_refines_example =
    perform_refines calls empty
      (record { fits = omega arith; ordered = λ c p h. absurd (omega arith) }) calls_allowed
