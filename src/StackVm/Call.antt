-- ===== src/StackVm/Call.antt =====
-- Calls of a script's functions by the server, and the accessors of a running machine, src/stackvm/stackvm.c.

pub mod Arguments
use boris.Prelude.{ℕ, ◌+◌, ◌*◌, List, [], ◌∷◌, length, add32, sub32, mul32, u32_mod, ◌-◌}
use boris.StackVm.Machine.{
  Vm, M, ok, ◌>>=◌, ◌>>◌, pure, error_set, abort_flag, get_psp, set_psp, set_pc, check_stack_bounds,
  skip,
}
use boris.StackVm.Memory.{dwrite4, dread4}

-- `arg_write`
pub arg_write : ℕ → ℕ → M (Unit {0})
arg_write i val = do psp ← get_psp; dwrite4 (add32 (add32 psp 8) (mul32 i 4)) val

-- `prepare_call`
pub prepare_call : ℕ → ℕ → M (Unit {0})
prepare_call entry nr_args = do
  set_pc entry
  psp ← get_psp
  set_psp (sub32 psp (add32 8 (mul32 4 nr_args)))
  check_stack_bounds
  frame ← get_psp
  dwrite4 frame (u32_mod - 1)
  dwrite4 (add32 frame 4) (sub32 psp 8)

-- the loop over the arguments, from the `i`-th on
pub store_args : ℕ → List ℕ → M (Unit {0})
unfolding arg_write
store_args i [] = skip
store_args i (a ∷ args) = arg_write i a >> store_args (i + 1) args

-- `vm_call_array`
pub vm_call_array : ℕ → List ℕ → M (Unit {0})
vm_call_array entry args = prepare_call entry (length args) >> store_args 0 args

-- `vm_arg`
pub vm_arg : ℕ → M ℕ
vm_arg num = do psp ← get_psp; dread4 (add32 (add32 psp 8) (mul32 num 4))
