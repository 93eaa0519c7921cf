-- ===== src/StackVm/Exec.antt =====
-- The instructions on floats, and the `switch` over all instructions.

pub mod Sound
use boris.Prelude.{ℕ, Bool, ◌||◌, not, Option, ltb, ◌==◌, if◌then◌else◌}
use boris.StackVm.Machine.{
  Op, M, ◌>>=◌, ◌>>◌, skip, error_set, fail, set_pc, opush, opop, word_of, invalid_opcode,
  stack_underflow,
}
use boris.StackVm.Floats.{Floats}
use boris.StackVm.Instructions.{
  Flow, done, Env, control, branch, memory, unary_word, binary_arithmetic, binary_bitwise,
}

-- The instructions on floats, over the host's operations.
module _ (floats : Floats) where
  -- `opopf`
  pub opopf : M ℕ
  opopf vm = if vm.op_stack == 0 then fail stack_underflow floats.nan vm else opop vm

  -- 0x15 to 0x1a, whether the branch is taken: EQF NEF LTF LEF GTF GEF
  pub compares_floats : ℕ → ℕ → ℕ → Bool
  compares_floats op af bf =
      if op == 0x15
      then floats.eq bf af
      else if op == 0x16
      then not (floats.eq bf af)
      else if op == 0x17
      then floats.lt bf af
      else if op == 0x18
      then floats.le bf af
      else if op == 0x19
      then floats.lt af bf
      else floats.le af bf

  pub branch_floats : ℕ → ℕ → M Flow
  branch_floats op param = do
    af ← opopf
    bf ← opopf
    if compares_floats op af bf then set_pc param else skip
    done

  -- 0x35 to 0x3a: NEGF ADDF SUBF DIVF MULF CVIF
  pub compute_floats : ℕ → M Flow
  compute_floats op =
      if op == 0x35
      then opopf >>= (λ af. opush (floats.neg af) >> done)
      else if op == 0x36
      then opopf >>= (λ af. opopf >>= (λ bf. opush (floats.add bf af) >> done))
      else if op == 0x37
      then opopf >>= (λ af. opopf >>= (λ bf. opush (floats.sub bf af) >> done))
      else if op == 0x38
      then opopf >>= (λ af. opopf >>= (λ bf. opush (floats.div bf af) >> done))
      else if op == 0x39
      then opopf >>= (λ af. opopf >>= (λ bf. opush (floats.mul bf af) >> done))
      else opop >>= (λ a. opush (floats.of_word a) >> done)

  -- 0x3b: CVFI
  pub float_to_word : M Flow
  float_to_word = opopf >>= (λ af. word_of (floats.to_word af) >>= (λ a. opush a >> done))

  -- the `switch` of `vm_run_slice`
  unfoldable pub exec : Option Env → Op → M Flow
  exec env i =
      if ltb i.op 0x0b
      then control env i.op i.param
      else if ltb i.op 0x15
      then branch i.op i.param
      else if ltb i.op 0x1b
      then branch_floats i.op i.param
      else if ltb i.op 0x23
      then memory i.op i.param
      else if ltb i.op 0x26 || (i.op == 0x31)
      then unary_word i.op
      else if ltb i.op 0x2e
      then binary_arithmetic i.op
      else if ltb i.op 0x35
      then binary_bitwise i.op
      else if ltb i.op 0x3b
      then compute_floats i.op
      else if i.op == 0x3b
      then float_to_word
      else error_set invalid_opcode >> done
