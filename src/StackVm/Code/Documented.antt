-- ===== src/StackVm/Code/Documented.antt =====
-- The code segment as src/stackvm/stackvm.txt describes it: which operand each opcode has.
use boris.Prelude.{
  ℕ, zero, suc, ◌+◌, ◌/◌, ◌%◌, ◌<◌, ◌-◌, ◌≡◌, ◌≢◌, refl, sym, ap, ◌∙◌, Bool, true, ◌||◌, ◌&&◌,
  Option, none, some, List, [], ◌∷◌, ◌++◌, ◌==◌, length, get_elem?, replicate, All, u32_mod, Bytes,
  arith,
}
use boris.StackVm.Machine.{Op}
use boris.StackVm.Code.{opcode_length, load_code, op_break, roundup_pow2}
use boris.StackVm.Code.Expanded.{
  param_bytes, op_bytes, assemble, IsInstruction, plain, short, long, load_code-assemble,
}

-- nothing, a byte (`b`), or a word (`x` and `j`)
pub data Operand : Type 0 where
  no_operand : Operand
  byte : Operand
  word : Operand

-- the operands of the instructions, from 00 on
abbrev pub instruction_set : List Operand
instruction_set =
    no_operand ∷ no_operand ∷ no_operand ∷ word ∷ word ∷ no_operand ∷ no_operand ∷ no_operand ∷ word
    ∷ word ∷ no_operand ∷ word ∷ word ∷ word ∷ word ∷ word ∷ word ∷ word ∷ word ∷ word ∷ word ∷ word
    ∷ word ∷ word ∷ word ∷ word ∷ word ∷ no_operand ∷ no_operand ∷ no_operand ∷ no_operand
    ∷ no_operand ∷ no_operand ∷ byte ∷ word ∷ no_operand ∷ no_operand ∷ no_operand ∷ no_operand
    ∷ no_operand ∷ no_operand ∷ no_operand ∷ no_operand ∷ no_operand ∷ no_operand ∷ no_operand
    ∷ no_operand ∷ no_operand ∷ no_operand ∷ no_operand ∷ no_operand ∷ no_operand ∷ no_operand
    ∷ no_operand ∷ no_operand ∷ no_operand ∷ no_operand ∷ no_operand ∷ no_operand ∷ no_operand ∷ []

-- the bytes of an operand
unfoldable pub operand_bytes : Operand → ℕ → Bytes
operand_bytes no_operand p = []
operand_bytes byte p = p ∷ []
operand_bytes word p = p % 256 ∷ p / 256 % 256 ∷ p / 65536 % 256 ∷ p / 16777216 ∷ []

-- the numbers that an operand can be; an instruction without one has 0 in its place
unfoldable pub Fits : Operand → ℕ → Type 0
Fits no_operand p = p ≡ 0
Fits byte p = p < 256
Fits word p = p < u32_mod

pub operand_length : Operand → ℕ
operand_length no_operand = 1
operand_length byte = 2
operand_length word = 5

-- the lengths from the opcode `op` on are those of `opcode_length`, but for BLOCK_COPY
agrees : ℕ → List Operand → Bool
agrees op [] = true
agrees op (o ∷ os) = ((op == 0x22) || (opcode_length op == operand_length o)) && agrees (suc op) os

agrees-at :
    (os : List Operand) (first k : ℕ) (o : Operand)
    → agrees first os ≡ true
    → get_elem? os k ≡ some o
    → first + k ≢ 0x22
    → opcode_length (first + k) ≡ operand_length o
unfolding agrees
agrees-at [] first k o h at ne = cc
agrees-at (p ∷ os) first zero o h at ne =
    let same : p ≡ o = cc in
    let e : first ≡ first + 0 = omega arith in
    let here : opcode_length first ≡ operand_length p = ground (arith, ne, e) in
    ap opcode_length (sym e) ∙ here ∙ ap operand_length same
agrees-at (p ∷ os) first (suc k) o h at ne =
    let e : first + suc k ≡ suc first + k = omega arith in
    ap opcode_length e ∙ agrees-at os (suc first) k o (ground arith) at (λ f. ne (e ∙ f))

instruction_set-agrees : agrees 0 instruction_set ≡ true
unfolding agrees operand_length opcode_length
instruction_set-agrees = refl

opcode_length-documented :
    (op : ℕ) (o : Operand)
    → get_elem? instruction_set op ≡ some o
    → op ≢ 0x22
    → opcode_length op ≡ operand_length o
opcode_length-documented op o at ne =
    ap opcode_length (omega arith)
    ∙ agrees-at instruction_set 0 op o instruction_set-agrees at (λ e. ne (omega (arith, e)))

-- an instruction of the set, but for BLOCK_COPY, whose operand fits
pub record IsDocumented (i : Op) : Type 0 where
  pub operand : Operand
  pub listed : get_elem? instruction_set i.op ≡ some operand
  pub fits : Fits operand i.param
  pub other : i.op ≢ 0x22

-- the bytes of an instruction: its opcode and its operand
unfoldable pub operand_of : Option Operand → ℕ → Bytes
operand_of none p = []
operand_of (some o) p = operand_bytes o p

abbrev pub instruction_bytes : Op → Bytes
instruction_bytes i = i.op ∷ operand_of (get_elem? instruction_set i.op) i.param

-- the code segment of a program
unfoldable pub segment : List Op → Bytes
segment [] = []
segment (i ∷ is) = instruction_bytes i ++ segment is

fits-IsInstruction :
    (i : Op) (o : Operand)
    → opcode_length i.op ≡ operand_length o
    → Fits o i.param
    → IsInstruction i
unfolding operand_length Fits
fits-IsInstruction i no_operand e h = plain e h
fits-IsInstruction i byte e h = short e h
fits-IsInstruction i word e h = long e h

documented-IsInstruction : (i : Op) → IsDocumented i → IsInstruction i
documented-IsInstruction i d =
    fits-IsInstruction i d.operand (opcode_length-documented i.op d.operand d.listed d.other) d.fits

param_bytes_operand : (o : Operand) (p : ℕ) → param_bytes (operand_length o) p ≡ operand_bytes o p
unfolding operand_length operand_bytes param_bytes
param_bytes_operand no_operand p = refl
param_bytes_operand byte p = refl
param_bytes_operand word p = refl

op_bytes_documented : (i : Op) → IsDocumented i → op_bytes i ≡ instruction_bytes i
unfolding operand_of
op_bytes_documented i d =
    ap (λ n. i.op ∷ param_bytes n i.param)
      (opcode_length-documented i.op d.operand d.listed d.other)
    ∙ ap (λ l. i.op ∷ l) (param_bytes_operand d.operand i.param)
    ∙ ap (λ o. i.op ∷ operand_of o i.param) (sym d.listed)

assemble-segment : (ops : List Op) → All IsDocumented ops → assemble ops ≡ segment ops
unfolding assemble segment
assemble-segment [] d = refl
assemble-segment (i ∷ is) d =
    ap (λ l. l ++ assemble is) (op_bytes_documented i d.0)
    ∙ ap (λ l. instruction_bytes i ++ l) (assemble-segment is d.1)

documented : (ops : List Op) → All IsDocumented ops → All IsInstruction ops
documented [] d = tt
documented (i ∷ is) d = (documented-IsInstruction i d.0, documented is d.1)

-- Loading the code segment that the list of instructions in src/stackvm/stackvm.txt makes of a program gives
-- back its instructions in order, each with its operand, and BREAK behind them up to the size of the
-- code. Each instruction is supposed to be in that list, but for BLOCK_COPY, with an operand that fits,
-- and an `unsigned` to hold their number.
pub load_code-segment :
    (ops : List Op)
    → All IsDocumented ops
    → length ops < u32_mod
    → load_code (segment ops)
      ≡ some (ops ++ replicate (roundup_pow2 (length ops) - length ops) op_break)
load_code-segment ops d lt =
    ap load_code (sym (assemble-segment ops d)) ∙ load_code-assemble ops (documented ops d) lt
