-- ===== src/StackVm/Instructions/Sound.antt =====
-- The instructions do nothing undefined, but for STORE1, DIVI, MODI and the shifts.
use boris.Prelude.{
  ℕ, ◌+◌, ◌-◌, ◌≤◌, ◌≡◌, refl, Bool, true, false, Option, none, some, List, [], ◌∷◌, ◌==◌,
  if◌then◌else◌, arith, get_elem?, u32_mod,
}
use boris.StackVm.Machine.{Flag, Op, Vm, Run, M, ◌>>=◌, ◌>>◌, set_pc, check_code_bounds}
use boris.StackVm.Machine.Sound.{
  IsSound, Ends, Safe, Safe-pure, Safe-bind, Safe-if, Safe-error_set, Safe-get_pc, Safe-get_psp,
  Safe-set_pc, Safe-set_psp, Safe-opush, Safe-opop, Safe-check, Checks-check_code_bounds,
  stack-IsSound, registers-IsSound,
}
use boris.StackVm.Memory.Sound.{Safe-dread4, Safe-dread2, Safe-dread1, Safe-dwrite4, Safe-dwrite2}
use boris.StackVm.Arith.{Computed, word, math, no_instruction, arithmetic, bitwise, unary}
use boris.StackVm.Arith
use boris.StackVm.Arith.Defined.{
  IsDefined, unary-IsDefined, arithmetic-IsDefined, bitwise-IsDefined,
}
use boris.StackVm.Instructions.{
  done, abort, vm_leave, Syscall, Env, set_op_stack, after_syscall, call_entry, vm_env_call,
  set_yield, unless_yield, system_call, call, leave, control, branch, memory, push_computed,
  binary_arithmetic, binary_bitwise, unary_word,
}

module _ (code : List Op) (s : List Flag) where
  -- every system call of the table leaves a sound machine sound
  abbrev pub Respects : Env → Type 0
  Respects env =
      (n : ℕ) (sc : Syscall) (vm : Vm)
      → get_elem? env n ≡ some (some sc)
      → IsSound code s vm
      → IsSound code s (sc vm)

  Safe-check_code : (n : ℕ) → Safe (IsSound code s) (check_code_bounds n)
  Safe-check_code n =
      Safe-check code s (λ vm. n ≤ vm.code_mask) (check_code_bounds n)
        (Checks-check_code_bounds code s n)

  Safe-abort : {A : Type 0} → Safe (IsSound code s) (abort {A = A})
  unfolding abort
  Safe-abort = record { at = λ vm v. tt }

  ruleset rules = (
    Safe-pure, Safe-bind, Safe-if, Safe-error_set, Safe-get_pc, Safe-get_psp, Safe-set_pc,
    Safe-set_psp, Safe-opush, Safe-opop, Safe-dread4, Safe-dread2, Safe-dread1, Safe-dwrite4,
    Safe-dwrite2, Safe-check_code, Safe-abort,
  )

  Safe-vm_leave : (n : ℕ) → Safe (IsSound code s) (vm_leave n)
  unfolding vm_leave
  Safe-vm_leave n = search rules depth 12

  pub Safe-branch : (op param : ℕ) → Safe (IsSound code s) (branch op param)
  unfolding branch
  Safe-branch op param = search rules depth 12

  -- the first branch is safe, or never taken
  Safe-unless :
      {A : Type 0} (b : Bool) (m n : M A)
      → b ≡ false
      → Safe (IsSound code s) n
      → Safe (IsSound code s) (if b then m else n)
  Safe-unless true m n h p = ground arith
  Safe-unless false m n h p = p

  -- STORE1 excepted
  pub Safe-memory : (op param : ℕ) → op == 0x1e ≡ false → Safe (IsSound code s) (memory op param)
  unfolding memory
  Safe-memory op param h = search (rules, Safe-unless, h) depth 16

  Safe-push : (c : Computed) → IsDefined c → Safe (IsSound code s) (push_computed c)
  Safe-push (word w) h = search rules depth 12
  Safe-push math h = search rules depth 12
  Safe-push Arith.undefined h = absurd (h refl)
  Safe-push no_instruction h = search rules depth 12

  pub Safe-unary_word : (op : ℕ) → Safe (IsSound code s) (unary_word op)
  unfolding unary_word
  Safe-unary_word op =
      Safe-bind _ _ (Safe-opop code s) (λ a. Safe-push (unary op a) (unary-IsDefined op a))

  pub Safe-binary_arithmetic :
      (op : ℕ)
      → op == 0x28 ≡ false
      → op == 0x2a ≡ false
      → Safe (IsSound code s) (binary_arithmetic op)
  unfolding binary_arithmetic
  Safe-binary_arithmetic op h k = Safe-bind _ _ (Safe-opop code s) (λ a.
      Safe-bind _ _ (Safe-opop code s)
        (λ b. Safe-push (arithmetic op a b) (arithmetic-IsDefined op a b h k)))

  pub Safe-binary_bitwise :
      (op : ℕ)
      → op == 0x32 ≡ false
      → op == 0x33 ≡ false
      → op == 0x34 ≡ false
      → Safe (IsSound code s) (binary_bitwise op)
  unfolding binary_bitwise
  Safe-binary_bitwise op h k l = Safe-bind _ _ (Safe-opop code s) (λ a.
      Safe-bind _ _ (Safe-opop code s)
        (λ b. Safe-push (bitwise op a b) (bitwise-IsDefined op a b h k l)))

  status_at :
      {A : Type 0} (t : List Flag) (x y : Run A)
      → Ends (IsSound code s) x
      → Ends (IsSound code s) y
      → Ends (IsSound code s) (elim t [ [] ↦ x | _ ∷ _ ↦ y ])
  status_at [] x y p q = p
  status_at (f ∷ t) x y p q = q

  set_op_stack_at :
      {A : Type 0} (n : ℕ) (m : M A) (vm : Vm)
      → n ≤ 1024
      → Safe (IsSound code s) m
      → IsSound code s vm
      → Ends (IsSound code s) ((set_op_stack n >> m) vm)
  unfolding ◌>>=◌
  set_op_stack_at n m vm h p v =
      p.at (record vm { op_stack = n }) (stack-IsSound code s vm vm.stack n v.stack_len h v)

  if-Ends :
      {A : Type 0} (b : Bool) (x y : Run A)
      → Ends (IsSound code s) x
      → Ends (IsSound code s) y
      → Ends (IsSound code s) (if b then x else y)
  if-Ends true x y p q = p
  if-Ends false x y p q = q

  after_syscall_at :
      (n : ℕ) (vm : Vm) → n ≤ 1024 → IsSound code s vm → Ends (IsSound code s) (after_syscall n vm)
  unfolding after_syscall
  after_syscall_at n vm h v =
      status_at vm.status _ _
        (if-Ends (vm.op_stack == n + 1) _ _
          ((Safe-bind _ _ (Safe-vm_leave 0) (λ _. Safe-pure false)).at vm v)
          (set_op_stack_at n _ vm h (search (rules, Safe-vm_leave) depth 12) v))
        v

  call_entry_at :
      (env : Env) (n : ℕ) (o : Option (Option Syscall)) (vm : Vm)
      → get_elem? env n ≡ o
      → Respects env
      → IsSound code s vm
      → Ends (IsSound code s) (call_entry o vm)
  call_entry_at env n none vm e r v = v
  call_entry_at env n (some none) vm e r v = v
  call_entry_at env n (some (some sc)) vm e r v =
      after_syscall_at vm.op_stack (sc vm) v.stack_top (r n sc vm e v)

  Safe-call_env : (env : Env) (a : ℕ) → Respects env → Safe (IsSound code s) (vm_env_call env a)
  unfolding vm_env_call
  Safe-call_env env a r = record {
    at = λ vm v. call_entry_at env (u32_mod - 1 - a) (get_elem? env (u32_mod - 1 - a)) vm refl r v;
  }

  Safe-set_yield : (b : Bool) → Safe (IsSound code s) (set_yield b)
  unfolding set_yield
  Safe-set_yield b = record { at = λ vm v. registers-IsSound code s vm b vm.pc vm.psp v }

  Safe-go_back : (n : ℕ) → Safe (IsSound code s) (set_pc n >> done)
  Safe-go_back n = search rules depth 12

  Safe-unless_yield : (n : ℕ) → Safe (IsSound code s) (unless_yield n)
  unfolding unless_yield
  Safe-unless_yield n = record { at = λ vm v. if-Ends vm.yield _ _ v ((Safe-go_back n).at vm v) }

  -- of the table, if there is one
  abbrev pub AllRespect : Option Env → Type 0
  AllRespect none = Unit
  AllRespect (some env) = Respects env

  Safe-system_call :
      (env : Option Env) (a n : ℕ) → AllRespect env → Safe (IsSound code s) (system_call env a n)
  unfolding system_call
  Safe-system_call none a n r = search rules depth 12
  Safe-system_call (some env) a n r = Safe-bind _ _ (Safe-set_yield false) (λ _.
      Safe-bind _ _ (Safe-call_env env a r) (λ failed. search (rules, Safe-unless_yield) depth 12))

  Safe-call : (env : Option Env) → AllRespect env → Safe (IsSound code s) (call env)
  unfolding call
  Safe-call env r = search (rules, Safe-system_call env, r) depth 16

  Safe-leave : (n : ℕ) → Safe (IsSound code s) (leave n)
  unfolding leave
  Safe-leave n = search (rules, Safe-vm_leave) depth 12

  pub Safe-control :
      (env : Option Env) (op param : ℕ)
      → AllRespect env
      → Safe (IsSound code s) (control env op param)
  unfolding control
  Safe-control env op param r = search (rules, Safe-leave, Safe-call) depth 20
