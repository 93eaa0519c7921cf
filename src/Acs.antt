-- ===== src/Acs.antt =====
-- src/acs.c: access strings such as `s6fA|fB`, checked against a level and a set of flags.
pub mod Meaning
mod Tests
use boris.Prelude.{
  ℕ, zero, suc, ◌+◌, ◌-◌, ◌*◌, ◌/◌, ◌%◌, ◌^◌, Bool, true, false, Option, none, some, List, [], ◌∷◌,
  ltb, leb, ◌==◌, if◌then◌else◌, length, u32_mod, Bytes, between, isdigit, isspace, tolower, head,
  drop, skip_space,
}

-- `struct acs_info`
pub record AcsInfo : Type 0 where
  pub level : ℕ
  pub flags : ℕ

-- `acs_init`
pub acs_init : ℕ → ℕ → AcsInfo
acs_init level flags = record { level = if leb level 255 then level else 255; flags = flags }

-- the digits at the front, read behind the number `n`, and the text behind them
pub digits_value : ℕ → Bytes → ℕ × Bytes
digits_value n [] = (n, [])
digits_value n (c ∷ s) =
    let more = digits_value (n * 10 + (c - b'0')) s in if isdigit c then more else (n, c ∷ s)

-- the greatest `unsigned long`
abbrev pub ulong_max : ℕ
ulong_max = 2 ^ 64 - 1

-- a number out of range is ULONG_MAX, whatever its sign
abbrev pub signed_value : Bool → ℕ → ℕ
signed_value negative n =
    if ltb ulong_max n then ulong_max else if negative then (2 ^ 64 - n) % 2 ^ 64 else n

-- the digits at `digits`; without any, the number is 0 and the end is the start of the text, `s`
abbrev pub number_at : Bytes → Bool → Bytes → ℕ × Bytes
number_at s negative digits =
    if isdigit (head digits)
    then (signed_value negative (digits_value 0 digits).0, (digits_value 0 digits).1)
    else (0, s)

-- `strtoul(s, &endptr, 10)`: the value, and the text from `endptr`
pub strtoul : Bytes → ℕ × Bytes
strtoul s =
    let t = skip_space s in
    if head t == b'-'
    then number_at s true (drop 1 t)
    else if head t == b'+'
    then number_at s false (drop 1 t)
    else number_at s false t

-- the text behind the next `|`
pub next_or : Bytes → Option Bytes
next_or [] = none
next_or (c ∷ s) = if c == b'|' then some s else next_or s

-- C leaves a shift by the width or more undefined, and the flags 6 to 9 shift so: `shifted` is what
-- the host makes of it.
module _ (shifted : ℕ → ℕ → ℕ) where
  -- bit `i` of `ai->flags`
  abbrev pub flag_bit : AcsInfo → ℕ → Bool
  flag_bit ai i = (if ltb i 32 then ai.flags / 2 ^ i else shifted ai.flags i) % 2 == 1

  -- `acs_testflag`
  pub acs_testflag : AcsInfo → ℕ → Bool
  acs_testflag ai flag =
      if between b'a' b'z' (tolower flag)
      then flag_bit ai (tolower flag - b'a')
      else if between b'0' b'9' (tolower flag)
      then flag_bit ai (tolower flag - b'0' + 26)
      else false

  -- The loop of `acs_check`. It takes a byte at least each time, so the length of the string is enough
  -- fuel. The number needs no digit: `endptr` is compared with the start of the whole string, which it
  -- never is.
  pub check : ℕ → AcsInfo → Bytes → Bool
  check fuel ai [] = true
  check zero ai (c ∷ s) = false
  check (suc fuel) ai (c ∷ s) =
      let (level, rest) = strtoul s in
      let enough = check fuel ai rest in
      let next = check fuel ai (drop 1 s) in
      let did_not_pass : Bool = elim (next_or s) [ none ↦ false | some t ↦ check fuel ai t ] in
      if c == b's'
      then if ltb ai.level level then did_not_pass else enough
      else if c == b'f'
      then if acs_testflag ai (head s) then next else did_not_pass
      else c == b'|'

  -- `acs_check`
  pub acs_check : AcsInfo → Bytes → Bool
  acs_check ai s = check (length s) ai s
