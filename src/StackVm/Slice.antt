-- ===== src/StackVm/Slice.antt =====
-- `vm_run_slice`: the loop over instructions. It runs on fuel, one unit to an instruction: a script need
-- not end.

pub mod Sound
use boris.Prelude.{
  ℕ, zero, suc, ◌-◌, Bool, true, false, Option, none, some, List, [], ◌∷◌, get_elem?, u32_mod,
  add32,
}
use boris.StackVm.Machine.{
  Vm, Op, M, Run, ok, aborted, undefined, ◌>>=◌, ◌>>◌, skip, undefined_behaviour, get_psp,
  check_code_bounds,
}
use boris.StackVm.Memory.{dread4}
use boris.StackVm.Floats.{Floats}
use boris.StackVm.Instructions.{Flow, next, finish, give_way, Env}
use boris.StackVm.Exec.{exec}

-- What a slice returns: 1, 0 or -1, unless it ends the process or is undefined.
pub data Slice : Type 0 where
  finished : Vm → Slice
  not_finished : Vm → Slice
  failed : Vm → Slice
  died : Slice
  faulted : Slice
  out_of_fuel : Slice

-- the words that an error prints, from 16 bytes below the stack pointer to 20 above it
abbrev pub dump_offsets : List ℕ
dump_offsets =
    (u32_mod - 16) ∷ (u32_mod - 12) ∷ (u32_mod - 8) ∷ (u32_mod - 4) ∷ 0 ∷ 4 ∷ 8 ∷ 12 ∷ 16 ∷ 20 ∷ []

pub dump : List ℕ → M (Unit {0})
dump [] = skip
dump (i ∷ is) = get_psp >>= (λ psp. dread4 (add32 psp i) >> dump is)

abbrev pub dumped : Run (Unit {0}) → Slice
dumped (ok _ vm) = failed vm
dumped aborted = died
dumped undefined = faulted

module _ (floats : Floats) where
  abbrev pub fetched : Option Env → Option Op → M Flow
  fetched env none = undefined_behaviour
  fetched env (some i) = exec floats env i

  -- one round of the loop, behind its tests: `op = &vm->code[vm->pc++]`
  unfoldable pub step : Option Env → M Flow
  step env vm = fetched env (get_elem? vm.code vm.pc) (record vm { pc = add32 vm.pc 1 })

  -- behind the loop
  pub leave_loop : Vm → Slice
  leave_loop vm = elim vm.status [ [] ↦ not_finished vm | _ ∷ _ ↦ dumped (dump dump_offsets vm) ]

  abbrev pub after_step : Run Flow → (Vm → Slice) → Slice
  after_step (ok next vm) rest = rest vm
  after_step (ok finish vm) rest = finished vm
  after_step (ok give_way vm) rest = not_finished vm
  after_step aborted rest = died
  after_step undefined rest = faulted

  abbrev pub round : Option Env → Run Bool → (Vm → Slice) → Slice
  round env (ok true vm) rest = leave_loop vm
  round env (ok false vm) rest = after_step (step env vm) rest
  round env aborted rest = died
  round env undefined rest = faulted

  -- `vm_run_slice`, of at most `fuel` instructions
  unfoldable pub run_slice : ℕ → Option Env → Vm → Slice
  run_slice zero env vm = out_of_fuel
  run_slice (suc fuel) env vm = elim vm.status [
    | [] ↦ round env (check_code_bounds vm.pc vm) (run_slice fuel env)
    | _ ∷ _ ↦ leave_loop vm
  ]
