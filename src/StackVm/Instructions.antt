-- ===== src/StackVm/Instructions.antt =====
-- The instructions of `vm_run_slice` on words and memory, by groups of opcodes. The environment is `vm->env`: the table of
-- system calls, each a function on the machine, or no table.
pub mod Sound
use boris.Prelude.{
  ℕ, ◌+◌, ◌-◌, ◌%◌, Bool, true, false, Option, none, some, List, [], ◌∷◌, ltb, ◌==◌, if◌then◌else◌,
  get_elem?, u32_mod, add32, sub32,
}
use boris.StackVm.Machine.{
  Vm, M, ok, aborted, ◌>>=◌, ◌>>◌, pure, skip, error_set, undefined_behaviour, get_pc, set_pc,
  get_psp, set_psp, opush, opop, check_code_bounds, invalid_opcode, math_error, bad_environment,
  bad_syscall,
}
use boris.StackVm.Memory.{dwrite4, dwrite2, dwrite1, dread4, dread2, dread1}
use boris.StackVm.Arith.{
  Computed, word, math, no_instruction, arithmetic, bitwise, unary, compares, is_negative,
}
use boris.StackVm.Arith

-- where the loop goes behind an instruction: on, out with 1 (finished), or out with 0 (yielding)
pub data Flow : Type 0 where
  next finish give_way : Flow

abbrev pub done : M Flow
done = pure next

pub abort : {A : Type 0} → M A
abort vm = aborted

-- `vm_leave`: true for 1. The build has its assertion off (`NDEBUG`).
unfoldable pub vm_leave : ℕ → M Bool
vm_leave local_size = do
  psp ← get_psp
  set_psp (add32 psp local_size)
  pc ← dread4 (add32 psp local_size)
  set_pc pc
  pure (pc == u32_mod - 1)

abbrev pub Syscall : Type 0
Syscall = Vm → Vm

abbrev pub Env : Type 0
Env = List (Option Syscall)

abbrev pub set_op_stack : ℕ → M (Unit {0})
set_op_stack n vm = ok tt (record vm { op_stack = n })

-- behind a system call: true for -1
pub after_syscall : ℕ → M Bool
after_syscall old_stack vm = elim vm.status [
  | [] ↦
      if vm.op_stack == old_stack + 1
      then (vm_leave 0 >> pure false) vm
      else (set_op_stack old_stack >> (opush 0 >> (vm_leave 0 >> pure false))) vm
  | _ ∷ _ ↦ ok true vm
]

abbrev pub call_entry : Option (Option Syscall) → M Bool
call_entry none vm = ok true vm
call_entry (some none) vm = ok true vm
call_entry (some (some sc)) vm = after_syscall vm.op_stack (sc vm)

-- `vm_env_call`, of the system call with the negative number `a`: entry -1 - a of the table
pub vm_env_call : Env → ℕ → M Bool
vm_env_call env a = call_entry (get_elem? env (u32_mod - 1 - a))

pub set_yield : Bool → M (Unit {0})
set_yield b vm = ok tt (record vm { yield = b })

pub unless_yield : ℕ → M Flow
unless_yield old_pc vm = if vm.yield then ok give_way vm else (set_pc old_pc >> done) vm

-- CALL, at a negative address
pub system_call : Option Env → ℕ → ℕ → M Flow
system_call none a old_pc = do error_set bad_environment; set_pc old_pc; done
system_call (some env) a old_pc = do
  set_yield false
  failed ← vm_env_call env a
  if failed then error_set bad_syscall else skip
  unless_yield old_pc

-- 0x05 CALL
pub call : Option Env → M Flow
call env = do
  psp ← get_psp
  dwrite4 (add32 psp 4) psp
  pc ← get_pc
  dwrite4 psp pc
  a ← opop
  let far = do set_pc 0xdeadbeef; system_call env a pc
  let near = do set_pc a; check_code_bounds a; done
  if is_negative a then far else near

unfoldable pub leave : ℕ → M Flow
leave local_size = do last ← vm_leave local_size; if last then pure finish else done

-- 0x00 to 0x0a: UNDEF IGNORE BREAK ENTER LEAVE CALL PUSH POP CONST LOCAL JUMP
unfoldable pub control : Option Env → ℕ → ℕ → M Flow
control env op param =
    if ltb op 2
    then done
    else if op == 0x02
    then abort
    else if op == 0x03
    then get_psp >>= (λ psp. set_psp (sub32 psp param) >> done)
    else if op == 0x04
    then leave param
    else if op == 0x05
    then call env
    else if op == 0x06
    then opush 0 >> done
    else if op == 0x07
    then opop >> done
    else if op == 0x08
    then opush param >> done
    else if op == 0x09
    then get_psp >>= (λ psp. opush (add32 psp param) >> done)
    else opop >>= (λ a. set_pc a >> (check_code_bounds a >> done))

-- 0x0b to 0x14
pub branch : ℕ → ℕ → M Flow
branch op param = do a ← opop; b ← opop; if compares op a b then set_pc param else skip; done

-- 0x1b to 0x22: LOAD1 LOAD2 LOAD4 STORE1 STORE2 STORE4 ARG BLOCK_COPY
pub memory : ℕ → ℕ → M Flow
memory op param =
    if op == 0x1b
    then opop >>= (λ a. dread1 a >>= (λ b. opush b >> done))
    else if op == 0x1c
    then opop >>= (λ a. dread2 a >>= (λ b. opush b >> done))
    else if op == 0x1d
    then opop >>= (λ a. dread4 a >>= (λ b. opush b >> done))
    else if op == 0x1e
    then opop >>= (λ a. opop >>= (λ b. dwrite1 b (a % 256) >> done))
    else if op == 0x1f
    then opop >>= (λ a. opop >>= (λ b. dwrite2 b (a % 65536) >> done))
    else if op == 0x20
    then opop >>= (λ a. opop >>= (λ b. dwrite4 b a >> done))
    else if op == 0x21
    then opop >>= (λ a. get_psp >>= (λ psp. dwrite4 (add32 psp param) a >> done))
    else opop >> (opop >> abort)

abbrev pub push_computed : Computed → M Flow
push_computed (word w) = opush w >> done
push_computed math = error_set math_error >> done
push_computed Arith.undefined = undefined_behaviour
push_computed no_instruction = error_set invalid_opcode >> done

unfoldable pub binary_arithmetic : ℕ → M Flow
binary_arithmetic op = do a ← opop; b ← opop; push_computed (arithmetic op a b)

pub binary_bitwise : ℕ → M Flow
binary_bitwise op = do a ← opop; b ← opop; push_computed (bitwise op a b)

pub unary_word : ℕ → M Flow
unary_word op = do a ← opop; push_computed (unary op a)
