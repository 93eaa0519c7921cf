-- ===== src/StackVm/Exec/Sound.antt =====
-- Every instruction, but for STORE1, DIVI, MODI, the shifts and CVFI, keeps the machine sound.
use boris.Prelude.{ℕ, ◌≡◌, Bool, true, false, ◌||◌, Option, List, ◌==◌, if◌then◌else◌, arith}
use boris.StackVm.Machine.{Flag, Op, Vm, M, stack_underflow, fail, opop}
use boris.StackVm.Machine.Sound.{
  IsSound, Ends, Safe, Safe-pure, Safe-bind, Safe-if, Safe-error_set, Safe-set_pc, Safe-opush,
  Safe-opop, Safe-fail,
}
use boris.StackVm.Instructions.{Env}
use boris.StackVm.Instructions.Sound.{
  AllRespect, Safe-control, Safe-branch, Safe-memory, Safe-unary_word, Safe-binary_arithmetic,
  Safe-binary_bitwise,
}
use boris.StackVm.Floats.{Floats}
use boris.StackVm.Exec.{opopf, branch_floats, compute_floats, exec}

-- STORE1, DIVI, MODI, LSH, RSHI, RSHU and CVFI, which can do what C leaves undefined
abbrev pub may_fault : ℕ → Bool
may_fault op =
    (op == 0x1e)
    || (op == 0x28)
    || (op == 0x2a)
    || (op == 0x32)
    || (op == 0x33)
    || (op == 0x34)
    || (op == 0x3b)

module _ (floats : Floats) (code : List Op) (s : List Flag) where
  pop_at :
      (b : Bool) (vm : Vm)
      → IsSound code s vm
      → Ends (IsSound code s) (if b then fail stack_underflow floats.nan vm else opop vm)
  pop_at true vm v = (Safe-fail code s stack_underflow floats.nan).at vm v
  pop_at false vm v = (Safe-opop code s).at vm v

  Safe-opopf : Safe (IsSound code s) (opopf floats)
  unfolding opopf
  Safe-opopf = record { at = λ vm v. pop_at (vm.op_stack == 0) vm v }

  Safe-if_not :
      {A : Type 0} (b : Bool) (m n : M A)
      → b ≡ false
      → Safe (IsSound code s) n
      → Safe (IsSound code s) (if b then m else n)
  Safe-if_not true m n e p = absurd (cc)
  Safe-if_not false m n e p = p

  ruleset rules = (
    Safe-pure, Safe-bind, Safe-if, Safe-error_set, Safe-set_pc, Safe-opush, Safe-opop, Safe-opopf,
  )

  Safe-branch_floats : (op param : ℕ) → Safe (IsSound code s) (branch_floats floats op param)
  unfolding branch_floats
  Safe-branch_floats op param = search rules depth 12

  Safe-compute_floats : (op : ℕ) → Safe (IsSound code s) (compute_floats floats op)
  unfolding compute_floats
  Safe-compute_floats op = search rules depth 16

  exec_cases :
      (env : Option Env) (i : Op)
      → AllRespect code s env
      → i.op == 0x1e ≡ false
      → i.op == 0x28 ≡ false
      → i.op == 0x2a ≡ false
      → i.op == 0x32 ≡ false
      → i.op == 0x33 ≡ false
      → i.op == 0x34 ≡ false
      → i.op == 0x3b ≡ false
      → Safe (IsSound code s) (exec floats env i)
  unfolding exec
  exec_cases env i r a b c d e f g =
      search
        (
          rules, Safe-if_not, Safe-control, Safe-branch, Safe-branch_floats, Safe-unary_word,
          Safe-compute_floats, Safe-memory, Safe-binary_arithmetic, Safe-binary_bitwise,
        )
        depth 16

  -- On a sound machine, an instruction other than STORE1, DIVI, MODI, the shifts and CVFI does nothing
  -- that C leaves undefined, and where it returns, the machine is sound with the same program and no error
  -- cleared. The system calls are supposed to leave a sound machine sound.
  pub exec-Safe :
      (env : Option Env) (i : Op)
      → AllRespect code s env
      → may_fault i.op ≡ false
      → Safe (IsSound code s) (exec floats env i)
  exec-Safe env i r h =
      exec_cases env i r (ground arith) (ground arith) (ground arith) (ground arith) (ground arith)
        (ground arith) (ground arith)
