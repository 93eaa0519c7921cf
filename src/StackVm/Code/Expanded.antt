-- ===== src/StackVm/Code/Expanded.antt =====
-- `vm_load` reads back the instructions that a code segment is made of.
use boris.Prelude.{
  ℕ, zero, suc, ◌+◌, ◌-◌, ◌/◌, ◌%◌, ◌≤◌, ◌<◌, ◌≡◌, refl, sym, ap, ◌∙◌, false, some, List, [], ◌∷◌,
  ◌++◌, append_assoc, ◌==◌, if◌then◌else◌, length, length-append, get_or, drop, replicate, All,
  add32, u32_mod, Bytes, arith,
}
use boris.StackVm.Machine.{Op}
use boris.StackVm.Code.{
  opcode_length, count_loop, count_instructions, op_param, checked_length, expand, load_code,
  op_break, roundup_pow2,
}

-- the bytes of a parameter, of an instruction of `len` bytes
unfoldable pub param_bytes : ℕ → ℕ → Bytes
param_bytes len p =
    if len == 5
    then p % 256 ∷ p / 256 % 256 ∷ p / 65536 % 256 ∷ p / 16777216 ∷ []
    else if len == 2
    then p ∷ []
    else []

abbrev pub op_bytes : Op → Bytes
op_bytes i = i.op ∷ param_bytes (opcode_length i.op) i.param

-- the code segment of a program
unfoldable pub assemble : List Op → Bytes
assemble [] = []
assemble (i ∷ is) = op_bytes i ++ assemble is

-- an instruction with an opcode that exists, and no more of a parameter than it has room for
pub data IsInstruction (i : Op) : Type 0 where
  plain : opcode_length i.op ≡ 1 → i.param ≡ 0 → IsInstruction i
  short : opcode_length i.op ≡ 2 → i.param < 256 → IsInstruction i
  long : opcode_length i.op ≡ 5 → i.param < u32_mod → IsInstruction i

suc-plus : (m k : ℕ) → suc m + k ≡ suc (m + k)
suc-plus m k = omega arith

get_or-skip : (pre xs : Bytes) (k : ℕ) → get_or (pre ++ xs) (length pre + k) 0 ≡ get_or xs k 0
get_or-skip [] xs k = ap (λ n. get_or xs n 0) (omega arith)
get_or-skip (x ∷ pre) xs k =
    ap (λ n. get_or (x ∷ pre ++ xs) n 0) (suc-plus (length pre) k) ∙ get_or-skip pre xs k

drop-skip : (pre xs : Bytes) → drop (length pre) (pre ++ xs) ≡ xs
drop-skip [] xs = refl
drop-skip (x ∷ pre) xs = drop-skip pre xs

length-op_bytes : (i : Op) → IsInstruction i → length (op_bytes i) ≡ opcode_length i.op
unfolding param_bytes
length-op_bytes i (plain e h) = ground (arith, e)
length-op_bytes i (short e h) = ground (arith, e)
length-op_bytes i (long e h) = ground (arith, e)

opcode_length-ne : (i : Op) → IsInstruction i → opcode_length i.op == 0 ≡ false
opcode_length-ne i (plain e h) = ground (arith, e)
opcode_length-ne i (short e h) = ground (arith, e)
opcode_length-ne i (long e h) = ground (arith, e)

-- `op_param` undoes `param_bytes`
op_param-param_bytes :
    (pre rest : Bytes) (i : Op)
    → IsInstruction i
    → op_param (pre ++ (op_bytes i ++ rest)) (length pre) (opcode_length i.op) ≡ i.param
unfolding param_bytes op_param
op_param-param_bytes pre rest i (plain e h) = ground (arith, e)
op_param-param_bytes pre rest i (short e h) =
    ground (arith, e, get_or-skip pre (op_bytes i ++ rest) 1)
op_param-param_bytes pre rest i (long e h) = ground (
  arith,
  e,
  get_or-skip pre (op_bytes i ++ rest) 1,
  get_or-skip pre (op_bytes i ++ rest) 2,
  get_or-skip pre (op_bytes i ++ rest) 3,
  get_or-skip pre (op_bytes i ++ rest) 4,
)

checked_length-op_bytes :
    (pre rest : Bytes) (i : Op)
    → IsInstruction i
    → checked_length (pre ++ (op_bytes i ++ rest)) (length pre) ≡ some (opcode_length i.op)
unfolding checked_length
checked_length-op_bytes pre rest i h = ground (
  arith,
  get_or-skip pre (op_bytes i ++ rest) 0,
  length-append pre (op_bytes i ++ rest),
  length-append (op_bytes i) rest,
  length-op_bytes i h,
  opcode_length-ne i h,
)

-- the rest of the loop, from behind the instruction `i`
behind_op :
    (pre rest : Bytes) (i : Op) (n : ℕ)
    → IsInstruction i
    → expand n (length pre + opcode_length i.op) (pre ++ (op_bytes i ++ rest))
      ≡ expand n (length (pre ++ op_bytes i)) ((pre ++ op_bytes i) ++ rest)
behind_op pre rest i n h =
    ap (λ l. expand n l (pre ++ (op_bytes i ++ rest)))
      (omega (arith, length-append pre (op_bytes i), length-op_bytes i h))
    ∙ ap (expand n (length (pre ++ op_bytes i))) (sym (append_assoc pre (op_bytes i) rest))

get_op : (pre rest : Bytes) (i : Op) → get_or (pre ++ (op_bytes i ++ rest)) (length pre) 0 ≡ i.op
get_op pre rest i =
    ap (λ n. get_or (pre ++ (op_bytes i ++ rest)) n 0) (omega arith)
    ∙ get_or-skip pre (op_bytes i ++ rest) 0

expand_op :
    (pre rest : Bytes) (i : Op) (n : ℕ) (ops : List Op)
    → IsInstruction i
    → expand n (length (pre ++ op_bytes i)) ((pre ++ op_bytes i) ++ rest) ≡ some ops
    → expand (suc n) (length pre) (pre ++ (op_bytes i ++ rest)) ≡ some (i ∷ ops)
unfolding expand
expand_op pre rest i n ops h e = rw (
  checked_length-op_bytes pre rest i h,
  behind_op pre rest i n h,
  e,
  get_op pre rest i,
  op_param-param_bytes pre rest i h,
)

expand_at :
    (pre : Bytes) (ops : List Op)
    → All IsInstruction ops
    → expand (length ops) (length pre) (pre ++ assemble ops) ≡ some ops
unfolding assemble expand
expand_at pre [] h = refl
expand_at pre (i ∷ is) h =
    expand_op pre (assemble is) i (length is) is h.0 (expand_at (pre ++ op_bytes i) is h.1)

drop-op_bytes :
    (i : Op) (rest : Bytes)
    → IsInstruction i
    → drop (opcode_length i.op) (op_bytes i ++ rest) ≡ rest
drop-op_bytes i rest h =
    ap (λ n. drop n (op_bytes i ++ rest)) (sym (length-op_bytes i h)) ∙ drop-skip (op_bytes i) rest

count_op :
    (fuel total : ℕ) (i : Op) (rest : Bytes)
    → IsInstruction i
    → count_loop (suc fuel) (op_bytes i ++ rest) total ≡ count_loop fuel rest (add32 total 1)
unfolding count_loop
count_op fuel total i rest h = ground (
  arith,
  drop-op_bytes i rest h,
  opcode_length-ne i h,
  length-op_bytes i h,
  length-append (op_bytes i) rest,
)

count_at :
    (fuel total : ℕ) (ops : List Op)
    → All IsInstruction ops
    → length (assemble ops) ≤ fuel
    → total + length ops < u32_mod
    → count_loop fuel (assemble ops) total ≡ total + length ops
unfolding count_loop assemble
count_at zero total [] h le lt = omega arith
count_at (suc fuel) total [] h le lt = omega arith
count_at zero total (i ∷ is) h le lt = absurd (omega arith)
count_at (suc fuel) total (i ∷ is) h le lt =
    count_op fuel total i (assemble is) h.0
    ∙ count_at fuel (add32 total 1) is h.1
        (omega (arith, le, length-append (op_bytes i) (assemble is))) (omega (arith, lt))
    ∙ omega (arith, lt)

-- The count of a code segment made of instructions is how many they are, if an `unsigned` can hold it.
pub count_instructions-assemble :
    (ops : List Op)
    → All IsInstruction ops
    → length ops < u32_mod
    → count_instructions (assemble ops) ≡ length ops
unfolding count_instructions
count_instructions-assemble ops h lt =
    count_at (length (assemble ops)) 0 ops h (omega arith) (omega (arith, lt)) ∙ omega arith

-- Loading the code segment made of a list of instructions gives back these instructions in order, each
-- with its parameter, and BREAK behind them up to the size of the code. Each instruction is supposed to
-- have an opcode that exists and a parameter that fits it, and an `unsigned` to hold their number.
pub load_code-assemble :
    (ops : List Op)
    → All IsInstruction ops
    → length ops < u32_mod
    → load_code (assemble ops)
      ≡ some (ops ++ replicate (roundup_pow2 (length ops) - length ops) op_break)
unfolding load_code
load_code-assemble ops h lt = rw (count_instructions-assemble ops h lt, expand_at [] ops h)
