-- ===== src/StackVm/Slice/Sound.antt =====
-- A slice of a sound machine never does anything undefined.
use boris.Prelude.{
  ℕ, zero, suc, ◌≤◌, ◌<◌, ◌≡◌, ap, sym, Bool, true, false, Option, none, some, List, [], ◌∷◌, arith,
  All, length, get_elem?, get_elem?-none, add32,
}
use boris.StackVm.Machine.{Flag, Op, Vm, Run, ok, aborted, undefined, check_code_bounds, is_outside}
use boris.StackVm.Machine.Sound.{
  IsSound, Ends, Safe, Safe-pure, Safe-bind, Safe-get_psp, Passes, check_at, is_outside-false,
  registers-IsSound,
}
use boris.StackVm.Memory.Sound.{Safe-dread4}
use boris.StackVm.Instructions.{Flow, next, finish, give_way, Env}
use boris.StackVm.Instructions.Sound.{AllRespect}
use boris.StackVm.Floats.{Floats}
use boris.StackVm.Exec.Sound.{may_fault, exec-Safe}
use boris.StackVm.Slice.{
  Slice, finished, not_finished, failed, died, faulted, out_of_fuel, dump_offsets, dump, dumped,
  fetched, step, leave_loop, after_step, round, run_slice,
}

-- What a slice leaves behind has the property, and the slice did nothing undefined.
abbrev pub SliceEnds : (Vm → Type 0) → Slice → Type 0
SliceEnds P (finished vm) = P vm
SliceEnds P (not_finished vm) = P vm
SliceEnds P (failed vm) = P vm
SliceEnds P died = Unit
SliceEnds P faulted = ⊥
SliceEnds P out_of_fuel = Unit

-- no instruction of the program is STORE1, DIVI, MODI or a shift
abbrev pub IsTame : List Op → Type 0
IsTame = All (λ i. may_fault i.op ≡ false)

IsTame-at :
    (code : List Op) (n : ℕ) (i : Op)
    → IsTame code
    → get_elem? code n ≡ some i
    → may_fault i.op ≡ false
IsTame-at [] n i h e = grind arith
IsTame-at (x ∷ xs) zero i h e = grind (arith, h.0)
IsTame-at (x ∷ xs) (suc n) i h e = IsTame-at xs n i h.1 e

module _ (floats : Floats) (code : List Op) (s : List Flag) where
  Safe-dump : (offsets : List ℕ) → Safe (IsSound code s) (dump offsets)
  unfolding dump
  Safe-dump [] = Safe-pure tt
  Safe-dump (i ∷ is) =
      Safe-bind _ _ (Safe-get_psp code s)
        (λ psp. Safe-bind _ _ (Safe-dread4 code s (add32 psp i)) (λ _. Safe-dump is))

  dumped_at : (r : Run Unit) → Ends (IsSound code s) r → SliceEnds (IsSound code s) (dumped r)
  dumped_at (ok a vm) v = v
  dumped_at aborted v = v
  dumped_at undefined v = v

  by_status :
      (t : List Flag) (x y : Slice)
      → SliceEnds (IsSound code s) x
      → SliceEnds (IsSound code s) y
      → SliceEnds (IsSound code s) (elim t [ [] ↦ x | _ ∷ _ ↦ y ])
  by_status [] x y p q = p
  by_status (f ∷ t) x y p q = q

  leave_loop_at : (vm : Vm) → IsSound code s vm → SliceEnds (IsSound code s) (leave_loop floats vm)
  unfolding leave_loop
  leave_loop_at vm v =
      by_status vm.status _ _ v
        (dumped_at (dump dump_offsets vm) ((Safe-dump dump_offsets).at vm v))

  fetched_at :
      (env : Option Env) (o : Option Op) (pc : ℕ) (vm : Vm)
      → get_elem? code pc ≡ o
      → pc < length code
      → AllRespect code s env
      → IsTame code
      → IsSound code s vm
      → Ends (IsSound code s) (fetched floats env o vm)
  fetched_at env none pc vm e h r t v = absurd (get_elem?-none code pc h e)
  fetched_at env (some i) pc vm e h r t v =
      (exec-Safe floats code s env i r (IsTame-at code pc i t e)).at vm v

  step_at :
      (env : Option Env) (vm : Vm)
      → vm.pc ≤ vm.code_mask
      → AllRespect code s env
      → IsTame code
      → IsSound code s vm
      → Ends (IsSound code s) (step floats env vm)
  unfolding step
  step_at env vm h r t v =
      fetched_at env (get_elem? vm.code vm.pc) vm.pc (record vm { pc = add32 vm.pc 1 })
        (ap (λ c. get_elem? c vm.pc) (sym v.code_same)) (omega (arith, v.code_len, h)) r t
        (registers-IsSound code s vm vm.yield (add32 vm.pc 1) vm.psp v)

  after_step_at :
      (r : Run Flow) (rest : Vm → Slice)
      → Ends (IsSound code s) r
      → ((vm : Vm) → IsSound code s vm → SliceEnds (IsSound code s) (rest vm))
      → SliceEnds (IsSound code s) (after_step floats r rest)
  after_step_at (ok next vm) rest v g = g vm v
  after_step_at (ok finish vm) rest v g = v
  after_step_at (ok give_way vm) rest v g = v
  after_step_at aborted rest v g = v
  after_step_at undefined rest v g = v

  round_at :
      (env : Option Env) (b : Run Bool) (rest : Vm → Slice)
      → Passes code s (λ vm. vm.pc ≤ vm.code_mask) b
      → AllRespect code s env
      → IsTame code
      → ((vm : Vm) → IsSound code s vm → SliceEnds (IsSound code s) (rest vm))
      → SliceEnds (IsSound code s) (round floats env b rest)
  round_at env (ok true vm) rest p r t g = leave_loop_at vm p
  round_at env (ok false vm) rest p r t g =
      after_step_at (step floats env vm) rest (step_at env vm p.1 r t p.0) g
  round_at env aborted rest p r t g = p
  round_at env undefined rest p r t g = p

  check_pc_at :
      (vm : Vm)
      → IsSound code s vm
      → Passes code s (λ vm'. vm'.pc ≤ vm'.code_mask) (check_code_bounds vm.pc vm)
  unfolding check_code_bounds
  check_pc_at vm v =
      check_at code s (λ vm'. vm'.pc ≤ vm'.code_mask) (is_outside vm.code_mask vm.pc) vm
        (is_outside-false vm.code_mask vm.pc) v

  -- A slice of a program without STORE1, DIVI, MODI, shifts and CVFI, begun on a sound machine with any
  -- number of instructions to go, never does what C leaves undefined: no access is outside the code,
  -- the stack or the heap. Where it ends, the machine is sound, its program is the same and no error
  -- has been cleared. The system calls are supposed to leave a sound machine sound.
  pub run_slice-Sound :
      (fuel : ℕ) (env : Option Env) (vm : Vm)
      → AllRespect code s env
      → IsTame code
      → IsSound code s vm
      → SliceEnds (IsSound code s) (run_slice floats fuel env vm)
  unfolding run_slice
  run_slice-Sound zero env vm r t v = tt
  run_slice-Sound (suc fuel) env vm r t v =
      by_status vm.status _ _
        (round_at env (check_code_bounds vm.pc vm) (run_slice floats fuel env) (check_pc_at vm v) r
          t (λ vm' v'. run_slice-Sound fuel env vm' r t v'))
        (leave_loop_at vm v)
