-- ===== src/StackVm/Tests.antt =====
-- Programs of the stack machine on concrete machines.
use Prim.Native.Nat.{bit_and}
use boris.Prelude.{
  ℕ, ◌-◌, ◌≡◌, refl, true, false, Option, some, none, List, [], ◌∷◌, ◌++◌, arith, length-replicate,
  get_elem?, replicate,
}
use boris.StackVm.Machine.{
  Op, Vm, ok, ◌>>=◌, pure, error_set, get_psp, set_psp, set_pc, opush, opop, check_code_bounds,
  check_data_bounds,
}
use boris.StackVm.Machine.Sound.{IsSound, Safe, same}
use boris.StackVm.Memory.{dread4, check_both, load_word}
use boris.StackVm.Code.{make_mask, load_code, op_break, roundup_pow2}
use boris.StackVm.Code.Mask.{IsMask, make_mask_lem}
use boris.StackVm.Code.Documented.{no_operand, word, Fits, segment, load_code-segment}
use boris.StackVm.Floats.{Floats}
use boris.StackVm.Exec.{exec}
use boris.StackVm.Arith.{arithmetic}
use boris.StackVm.Instructions.{control, leave, vm_leave, binary_arithmetic}
use boris.StackVm.Exec.Sound.{exec-Safe}
use boris.StackVm.Call.{vm_call_array, vm_arg}
use boris.StackVm.Call.Arguments.{vm_call_array-vm_arg}
use boris.StackVm.Slice.{Slice, finished, step, run_slice}
use boris.StackVm.Slice.Sound.{SliceEnds, run_slice-Sound}

abbrev instruction : ℕ → ℕ → Op
instruction op param = record { op = op; param = param }

-- CONST 2, CONST 3, ADD, LEAVE 0
abbrev add_program : List Op
add_program = instruction 0x08 2 ∷ instruction 0x08 3 ∷ instruction 0x26 0 ∷ instruction 0x04 0 ∷ []

-- a machine whose return address is -1
abbrev ready : Vm
ready = record {
  yield = false;
  code = add_program;
  code_mask = 3;
  heap = replicate 60 0 ++ replicate 4 255;
  heap_mask = 63;
  status = [];
  pc = 0;
  psp = 60;
  stack_bottom = 0;
  stack = replicate 1024 0;
  op_stack = 0;
}

ready-IsSound : IsSound add_program [] ready
ready-IsSound = record {
  stack_len = length-replicate {A = ℕ} 1024 0;
  stack_top = omega arith;
  heap_len = refl;
  heap_words = refl;
  heap_fits = omega arith;
  code_same = refl;
  code_len = refl;
  grown = same;
}

-- some host's operations, on the bits alone
abbrev host : Floats
host = record {
  nan = 0x7fc00000;
  eq = λ a b. true;
  lt = λ a b. false;
  le = λ a b. true;
  neg = λ a. a;
  add = λ a b. bit_and a b;
  sub = λ a b. bit_and a b;
  div = λ a b. bit_and a b;
  mul = λ a b. bit_and a b;
  of_word = λ a. a;
  to_word = λ a. some a;
}

-- the first word of the operand stack of a program that has finished
abbrev answer : Slice → Option ℕ
answer (finished vm) = get_elem? vm.stack 0
answer _ = none

add_program_test : answer (run_slice host 10 none ready) ≡ some 5
unfolding run_slice step exec control leave vm_leave binary_arithmetic arithmetic dread4 check_both
    load_word ◌>>=◌ pure error_set get_psp set_psp set_pc opush opop check_code_bounds
    check_data_bounds
add_program_test = refl

run_slice-Sound_example : SliceEnds (IsSound add_program []) (run_slice host 10 none ready)
run_slice-Sound_example =
    run_slice-Sound host add_program [] 10 none ready tt (refl, (refl, (refl, (refl, tt))))
      ready-IsSound

exec-Safe_example : Safe (IsSound add_program []) (exec host none (instruction 0x26 0))
exec-Safe_example = exec-Safe host add_program [] none (instruction 0x26 0) tt refl

load_code-segment_example :
    load_code (segment add_program) ≡ some (add_program ++ replicate (roundup_pow2 4 - 4) op_break)
unfolding Fits
load_code-segment_example =
    load_code-segment add_program
      (
        record {
          operand = word;
          listed = refl;
          fits = omega arith;
          other = λ e. absurd (omega (arith, e));
        },
        (
          record {
            operand = word;
            listed = refl;
            fits = omega arith;
            other = λ e. absurd (omega (arith, e));
          },
          (
            record {
              operand = no_operand;
              listed = refl;
              fits = refl;
              other = λ e. absurd (omega (arith, e));
            },
            (
              record {
                operand = word;
                listed = refl;
                fits = omega arith;
                other = λ e. absurd (omega (arith, e));
              },
              tt,
            ),
          ),
        ),
      )
      (omega arith)

make_mask_lem_example : (m : ℕ) × (make_mask 64 5 ≡ some m) × IsMask 5 m
make_mask_lem_example = make_mask_lem 5 (omega arith)

vm_call_array-vm_arg_example :
    (vm' : Vm) × (vm_call_array 2 (7 ∷ 9 ∷ []) ready ≡ ok tt vm')
    × (vm'.pc ≡ 2)
    × (vm'.psp ≡ 44)
    × (vm'.status ≡ [])
    × (vm_arg 1 vm' ≡ ok 9 vm')
    × (vm_leave 0 vm' ≡ ok true (record vm' { pc = 0xffffffff }))
vm_call_array-vm_arg_example =
    vm_call_array-vm_arg add_program [] ready 2 44 (7 ∷ 9 ∷ []) 1 9 ready-IsSound refl (omega arith)
      refl (omega arith, (omega arith, tt)) refl
