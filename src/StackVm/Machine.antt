-- ===== src/StackVm/Machine.antt =====
-- `struct vm` and the commands that act on it. A `vmword_t` is a number below 2 ^ 32.

pub mod Sound
use boris.Prelude.{
  ℕ, ◌+◌, ◌-◌, ◌/◌, Bool, true, false, Option, none, some, List, ◌∷◌, ltb, ◌==◌, if◌then◌else◌,
  get_elem?, set,
}

-- the bits of `vm->status`
pub data Flag : Type 0 where
  invalid_opcode stack_underflow stack_overflow out_of_bounds math_error : Flag
  unaligned bad_environment bad_syscall abort_flag : Flag

-- `struct vm_op`
pub record Op : Type 0 where
  pub op : ℕ
  pub param : ℕ

-- `struct vm`, less its environment, its name and `extra`. The heap is its bytes; `status` lists the
-- bits that have been set, so that `[]` is 0.
pub record Vm : Type 0 where
  pub yield : Bool
  pub code : List Op
  pub code_mask : ℕ
  pub heap : List ℕ
  pub heap_mask : ℕ
  pub status : List Flag
  pub pc : ℕ
  pub psp : ℕ
  pub stack_bottom : ℕ
  pub stack : List ℕ
  pub op_stack : ℕ

-- A command returns, ends the process by `abort()`, or does what C leaves undefined.
pub data Run {ℓ} (A : Type ℓ) : Type ℓ where
  ok : A → Vm → Run A
  aborted : Run A
  undefined : Run A

abbrev pub M : Type 0 → Type 0
M A = Vm → Run A

abbrev pub and_then : {A B : Type 0} → Run A → (A → M B) → Run B
and_then (ok a vm) f = f a vm
and_then aborted f = aborted
and_then undefined f = undefined

module _ {A B : Type 0} where
  infixl 5 ◌>>=◌ ◌>>◌
  unfoldable pub ◌>>=◌ : M A → (A → M B) → M B
  ◌>>=◌ m f vm = and_then (m vm) f

  abbrev pub ◌>>◌ : M A → M B → M B
  m >> n = m >>= λ _. n

unfoldable pub pure : {A : Type 0} → A → M A
pure a vm = ok a vm

abbrev pub skip : M (Unit {0})
skip = pure tt

unfoldable pub undefined_behaviour : {A : Type 0} → M A
undefined_behaviour vm = undefined

-- `vm_error_set`
unfoldable pub error_set : Flag → M (Unit {0})
error_set flag vm = ok tt (record vm { status = flag ∷ vm.status })

abbrev pub fail : {A : Type 0} → Flag → A → M A
fail flag val = error_set flag >> pure val

unfoldable pub get_pc : M ℕ
get_pc vm = ok vm.pc vm

unfoldable pub set_pc : ℕ → M (Unit {0})
set_pc n vm = ok tt (record vm { pc = n })

unfoldable pub get_psp : M ℕ
get_psp vm = ok vm.psp vm

unfoldable pub set_psp : ℕ → M (Unit {0})
set_psp n vm = ok tt (record vm { psp = n })

abbrev pub vm_stack_size : ℕ
vm_stack_size = 1024

-- `opush`
unfoldable pub opush : ℕ → M (Unit {0})
opush val vm =
    if ltb vm.op_stack vm_stack_size
    then ok tt (record vm { stack = set vm.stack vm.op_stack val; op_stack = vm.op_stack + 1 })
    else error_set stack_overflow vm

abbrev pub word_of : Option ℕ → M ℕ
word_of none vm = undefined
word_of (some w) vm = ok w vm

-- `opop`
unfoldable pub opop : M ℕ
opop vm =
    if vm.op_stack == 0
    then fail stack_underflow 0xdeadbeef vm
    else word_of (get_elem? vm.stack (vm.op_stack - 1)) (record vm { op_stack = vm.op_stack - 1 })

-- `ofs & ~mask`, for a mask 2 ^ k - 1: whether `ofs` has a bit above those of the mask
abbrev pub is_outside : ℕ → ℕ → Bool
is_outside mask ofs = if ofs / (mask + 1) == 0 then false else true

-- `check_code_bounds`
unfoldable pub check_code_bounds : ℕ → M Bool
check_code_bounds ofs vm =
    if is_outside vm.code_mask ofs then fail out_of_bounds true vm else ok false vm

-- `check_data_bounds`: true for -1
unfoldable pub check_data_bounds : ℕ → M Bool
check_data_bounds ofs vm =
    if is_outside vm.heap_mask ofs then fail out_of_bounds true vm else ok false vm

-- `check_stack_bounds`
unfoldable pub check_stack_bounds : M Bool
check_stack_bounds vm =
    if ltb vm.psp vm.stack_bottom then ok true vm else check_data_bounds vm.psp vm
