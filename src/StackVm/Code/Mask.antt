-- ===== src/StackVm/Code/Mask.antt =====
-- `make_mask` gives the least mask of ones that covers a length.
use native.Mathlib.Nat.{two-pow-succ, pow-le-pow_right}
use boris.Prelude.{
  ℕ, zero, suc, ◌+◌, ◌*◌, ◌%◌, ◌^◌, none, some, ◌≤◌, ◌<◌, ◌≡◌, ◌⊎◌, inl, inr, refl, ap, ◌∙◌, true,
  false, Bool-cases, ltb, arith,
}
use boris.StackVm.Code.{mask_loop, make_mask}

-- `ret` is a power of two less one that covers `len`, and the next smaller one does not
pub record IsMask (len ret : ℕ) : Type 0 where
  pub bits : ℕ
  pub ones : ret + 1 ≡ 2 ^ bits
  pub covers : len ≤ ret + 1
  pub least : (ret ≡ 0) ⊎ (ret + 1 < 2 * len)

doubled : (ret k : ℕ) → ret + 1 ≡ 2 ^ k → ret * 2 + 1 + 1 ≡ 2 ^ suc k
doubled ret k h = omega (arith, two-pow-succ k)

power_le : (k : ℕ) → k ≤ 63 → 2 ^ k ≤ 2 ^ 63
power_le k h = pow-le-pow_right {n = 2} (omega arith) h

-- a `size_t` that is not doubled past its bits
unwrapped : (n : ℕ) → n < 2 ^ 64 → n % 2 ^ 64 ≡ n
unwrapped n h = omega (arith, h)

mask_again :
    (rounds ret next len : ℕ)
    → ltb ((ret + 1) % 2 ^ 64) len ≡ true
    → (ret * 2 + 1) % 2 ^ 64 ≡ next
    → mask_loop (suc rounds) ret len ≡ mask_loop rounds next len
unfolding mask_loop
mask_again rounds ret next len h e = rw h (ap (λ n. mask_loop rounds n len) e)

mask_stops :
    (rounds ret len : ℕ)
    → ltb ((ret + 1) % 2 ^ 64) len ≡ false
    → mask_loop (suc rounds) ret len ≡ some ret
unfolding mask_loop
mask_stops rounds ret len h = rw h refl

mask_loop_lem :
    (rounds ret k len : ℕ)
    → ret + 1 ≡ 2 ^ k
    → k + rounds ≡ 63
    → len ≤ 2 ^ 63
    → (ret ≡ 0) ⊎ (ret + 1 < 2 * len)
    → (m : ℕ) × (mask_loop (suc rounds) ret len ≡ some m) × IsMask len m
mask_loop_lem zero ret k len ones e le least =
    let last : k ≡ 63 = omega (arith, e) in
    let top : 2 ^ k ≡ 2 ^ 63 = ap (λ n. 2 ^ n) last in
    let same : (ret + 1) % 2 ^ 64 ≡ ret + 1 = unwrapped (ret + 1) (omega (arith, ones, top)) in
    let enough : ltb (ret + 1) len ≡ false = ground (arith, ones, top, le) in
    (
      ret,
      mask_stops 0 ret len (ap (λ n. ltb n len) same ∙ enough),
      record { bits = k; ones = ones; covers = omega (arith, ones, top, le); least = least },
    )
mask_loop_lem (suc rounds) ret k len ones e le least =
    let small : 2 ^ k ≤ 2 ^ 63 = power_le k (omega (arith, e)) in
    let same : (ret + 1) % 2 ^ 64 ≡ ret + 1 = unwrapped (ret + 1) (omega (arith, ones, small)) in
    elim (Bool-cases (ltb (ret + 1) len)) [
      | inl h ↦
          let next : (ret * 2 + 1) % 2 ^ 64 ≡ ret * 2 + 1 =
            unwrapped (ret * 2 + 1) (omega (arith, ones, small)) in
          let below : ret + 1 < len = ground arith in
          let r =
            mask_loop_lem rounds (ret * 2 + 1) (suc k) len (doubled ret k ones) (omega (arith, e))
              le (inr (omega (arith, below))) in
          (
            r.0,
            mask_again (suc rounds) ret (ret * 2 + 1) len (ap (λ n. ltb n len) same ∙ h) next ∙ r.1,
            r.2,
          )
      | inr h ↦ (
        ret,
        mask_stops (suc rounds) ret len (ap (λ n. ltb n len) same ∙ h),
        record { bits = k; ones = ones; covers = ground arith; least = least },
      )
    ]

-- For a length up to 2 ^ 63, 64 rounds of the loop are enough, and the mask that `make_mask` returns is a
-- power of two less one. It covers the length, and it is 0 or the mask with a bit less does not.
pub make_mask_lem : (len : ℕ) → len ≤ 2 ^ 63 → (m : ℕ) × (make_mask 64 len ≡ some m) × IsMask len m
unfolding make_mask
make_mask_lem len h = mask_loop_lem 63 0 0 len refl refl h (inl refl)

-- a longer one keeps the loop going for ever, since `ret + 1` wraps to 0
endless_at :
    (rounds ret k len : ℕ)
    → ret + 1 ≡ 2 ^ k
    → k ≤ 64
    → 2 ^ 63 < len
    → mask_loop rounds ret len ≡ none
unfolding mask_loop
endless_at zero ret k len ones e le = refl
endless_at (suc rounds) ret k len ones e le = elim (Bool-cases (ltb k 64)) [
  | inl h ↦
      let small : 2 ^ k ≤ 2 ^ 63 = power_le k (ground arith) in
      let same : (ret + 1) % 2 ^ 64 ≡ ret + 1 = unwrapped (ret + 1) (omega (arith, ones, small)) in
      let next : (ret * 2 + 1) % 2 ^ 64 ≡ ret * 2 + 1 =
        unwrapped (ret * 2 + 1) (omega (arith, ones, small)) in
      let more : ltb (ret + 1) len ≡ true = ground (arith, ones, small, le) in
      mask_again rounds ret (ret * 2 + 1) len (ap (λ n. ltb n len) same ∙ more) next
      ∙ (endless_at rounds (ret * 2 + 1) (suc k) len (doubled ret k ones) (ground arith) le)
  | inr h ↦
      let full : k ≡ 64 = ground arith in
      let top : 2 ^ k ≡ 2 ^ 64 = ap (λ n. 2 ^ n) full in
      let none_left : (ret + 1) % 2 ^ 64 ≡ 0 = omega (arith, ones, top) in
      let next : (ret * 2 + 1) % 2 ^ 64 ≡ ret = omega (arith, ones, top) in
      let more : ltb 0 len ≡ true = ground (arith, le) in
      mask_again rounds ret ret len (ap (λ n. ltb n len) none_left ∙ more) next
      ∙ (endless_at rounds ret k len ones e le)
]

make_mask_endless : (rounds len : ℕ) → 2 ^ 63 < len → make_mask rounds len ≡ none
unfolding make_mask
make_mask_endless rounds len h = endless_at rounds 0 0 len refl (omega arith) h
