-- ===== src/StackVm/Memory/RoundTrip.antt =====
-- What is read back from the heap, and the write that does not stay inside it.
use native.Mathlib.Nat.{div-eq_of_lt}
use boris.Prelude.{
  ℕ, zero, suc, ◌+◌, ◌*◌, ◌/◌, ◌%◌, ◌≤◌, ◌<◌, ◌≡◌, ◌≢◌, refl, ap, ◌∙◌, true, false, List, [], ◌∷◌,
  ◌==◌, if◌then◌else◌, arith, length, length-set, set, get_or, add32, u32_mod,
}
use boris.StackVm.Machine.{
  Flag, Op, Vm, ok, undefined, ◌>>=◌, ◌>>◌, and_then, pure, error_set, check_data_bounds,
  is_outside,
}
use boris.StackVm.Machine.Sound.{IsSound, heap-IsSound}
use boris.StackVm.Memory.{
  in_heap, set_word, word_at, load_word, store_word, store_byte, check_both, dwrite4, dwrite1,
  dread4,
}

get_or-set_self : (xs : List ℕ) (i v : ℕ) → i < length xs → get_or (set xs i v) i 0 ≡ v
get_or-set_self [] i v h = absurd (omega arith)
get_or-set_self (x ∷ xs) zero v h = refl
get_or-set_self (x ∷ xs) (suc i) v h = get_or-set_self xs i v (omega arith)

pub get_or-set_ne : (xs : List ℕ) (i j v : ℕ) → i ≢ j → get_or (set xs i v) j 0 ≡ get_or xs j 0
get_or-set_ne [] i j v h = refl
get_or-set_ne (x ∷ xs) zero zero v h = absurd (h refl)
get_or-set_ne (x ∷ xs) zero (suc j) v h = refl
get_or-set_ne (x ∷ xs) (suc i) zero v h = refl
get_or-set_ne (x ∷ xs) (suc i) (suc j) v h = get_or-set_ne xs i j v (λ e. h (ap suc e))

word_of_bytes :
    (w : ℕ)
    → w < u32_mod
    → w % 256 + 256 * (w / 256 % 256) + 65536 * (w / 65536 % 256) + 16777216 * (w / 16777216 % 256)
      ≡ w
word_of_bytes w h = omega (arith, h)

-- of four bytes written next to each other, the one at `j`
byte_back :
    (heap : List ℕ) (ofs a b c d : ℕ)
    → ofs + 4 ≤ length heap
    → let h = set (set (set (set heap ofs a) (ofs + 1) b) (ofs + 2) c) (ofs + 3) d in
      (get_or h ofs 0 ≡ a)
      × (get_or h (ofs + 1) 0 ≡ b)
      × (get_or h (ofs + 2) 0 ≡ c)
      × (get_or h (ofs + 3) 0 ≡ d)
byte_back heap ofs a b c d le =
    let h0 : List ℕ = set heap ofs a in
    let h1 : List ℕ = set h0 (ofs + 1) b in
    let h2 : List ℕ = set h1 (ofs + 2) c in
    let l0 : length h0 ≡ length heap = length-set heap ofs a in
    let l1 : length h1 ≡ length h0 = length-set h0 (ofs + 1) b in
    let l2 : length h2 ≡ length h1 = length-set h1 (ofs + 2) c in
    (
      get_or-set_ne h2 (ofs + 3) ofs d (λ e. absurd (omega (arith, e)))
          ∙ get_or-set_ne h1 (ofs + 2) ofs c (λ e. absurd (omega (arith, e)))
          ∙ get_or-set_ne h0 (ofs + 1) ofs b (λ e. absurd (omega (arith, e)))
          ∙ get_or-set_self heap ofs a (omega (arith, le)),
      get_or-set_ne h2 (ofs + 3) (ofs + 1) d (λ e. absurd (omega (arith, e)))
          ∙ get_or-set_ne h1 (ofs + 2) (ofs + 1) c (λ e. absurd (omega (arith, e)))
          ∙ get_or-set_self h0 (ofs + 1) b (omega (arith, le, l0)),
      get_or-set_ne h2 (ofs + 3) (ofs + 2) d (λ e. absurd (omega (arith, e)))
          ∙ get_or-set_self h1 (ofs + 2) c (omega (arith, le, l0, l1)),
      get_or-set_self h2 (ofs + 3) d (omega (arith, le, l0, l1, l2)),
    )

-- a word written is read back
pub word_at-set_word :
    (heap : List ℕ) (ofs w : ℕ)
    → ofs + 4 ≤ length heap
    → w < u32_mod
    → word_at (set_word heap ofs w) ofs ≡ w
word_at-set_word heap ofs w le lt =
    let b =
      byte_back heap ofs (w % 256) (w / 256 % 256) (w / 65536 % 256) (w / 16777216 % 256) le in
    omega (arith, b.0, b.1, b.2, b.3, word_of_bytes w lt)

outside_quotient : (q : ℕ) → q ≡ 0 → (if q == 0 then false else true) ≡ false
outside_quotient q h = ground arith

inside : (mask ofs : ℕ) → ofs ≤ mask → is_outside mask ofs ≡ false
inside mask ofs h =
    outside_quotient (ofs / (mask + 1)) (div-eq_of_lt {n = ofs} {m = mask + 1} (omega (arith, h)))

pub check_in : (vm : Vm) (ofs : ℕ) → ofs ≤ vm.heap_mask → check_data_bounds ofs vm ≡ ok false vm
unfolding check_data_bounds
check_in vm ofs h = rw (inside vm.heap_mask ofs h)

check_both_in :
    (vm : Vm) (ofs : ℕ)
    → ofs ≤ vm.heap_mask
    → add32 ofs 3 ≤ vm.heap_mask
    → check_both ofs 3 vm ≡ ok false vm
unfolding check_both ◌>>=◌
check_both_in vm ofs h k = rw (check_in vm ofs h, check_in vm (add32 ofs 3) k)

-- an aligned word inside the heap
pub record Aligned (vm : Vm) (ofs : ℕ) : Type 0 where
  low : ofs ≤ vm.heap_mask
  high : add32 ofs 3 ≤ vm.heap_mask
  at_four : (ofs % 4 == 0) ≡ true
  fits : in_heap ofs 4 vm ≡ true

pub dread4_in : (vm : Vm) (ofs : ℕ) → Aligned vm ofs → dread4 ofs vm ≡ ok (word_at vm.heap ofs) vm
unfolding dread4 load_word ◌>>=◌
dread4_in vm ofs a = rw (check_both_in vm ofs a.low a.high, a.at_four, a.fits)

pub dwrite4_in :
    (vm : Vm) (ofs val : ℕ)
    → Aligned vm ofs
    → dwrite4 ofs val vm ≡ ok tt (record vm { heap = set_word vm.heap ofs val })
unfolding dwrite4 store_word ◌>>=◌
dwrite4_in vm ofs val a = rw (check_both_in vm ofs a.low a.high, a.at_four, a.fits)

pub aligned :
    (code : List Op) (s : List Flag) (vm : Vm) (ofs : ℕ)
    → IsSound code s vm
    → ofs ≤ vm.heap_mask
    → ofs % 4 ≡ 0
    → Aligned vm ofs
aligned code s vm ofs v h a = record {
  low = h;
  high = omega (arith, h, a, v.heap_words, v.heap_fits);
  at_four = ground arith;
  fits = ground (arith, v.heap_len, v.heap_words);
}

pub length-set_word : (heap : List ℕ) (ofs w : ℕ) → length (set_word heap ofs w) ≡ length heap
length-set_word heap ofs w = simp length-set

-- A word written at an aligned offset inside the heap of a sound machine is read back from there, and
-- neither access sets an error or changes anything but the four bytes of the heap.
dread4-dwrite4 :
    (code : List Op) (s : List Flag) (vm : Vm) (ofs val : ℕ)
    → IsSound code s vm
    → ofs ≤ vm.heap_mask
    → ofs % 4 ≡ 0
    → val < u32_mod
    → (dwrite4 ofs val >> dread4 ofs) vm ≡ ok val (record vm { heap = set_word vm.heap ofs val })
unfolding ◌>>=◌
dread4-dwrite4 code s vm ofs val v h a lt =
    let vm' : Vm = record vm { heap = set_word vm.heap ofs val } in
    let al : Aligned vm ofs = aligned code s vm ofs v h a in
    let al' : Aligned vm' ofs =
      aligned code s vm' ofs
        (heap-IsSound code s vm (set_word vm.heap ofs val) (length-set_word vm.heap ofs val) v) h
        a in
    ap (λ r. and_then r (λ _. dread4 ofs)) (dwrite4_in vm ofs val al)
    ∙ dread4_in vm' ofs al'
    ∙ ap (λ w. ok w vm')
        (word_at-set_word vm.heap ofs val (omega (arith, h, a, v.heap_len, v.heap_words)) lt)

-- STORE1 at an address above the heap of a sound machine writes outside the array: the test of
-- `dwrite1` sets an error and the write is done all the same.
dwrite1-outside :
    (code : List Op) (s : List Flag) (vm : Vm) (ofs val : ℕ)
    → IsSound code s vm
    → vm.heap_mask < ofs
    → dwrite1 ofs val vm ≡ undefined
unfolding dwrite1 store_byte ◌>>=◌ check_data_bounds error_set pure
dwrite1-outside code s vm ofs val v h = ground (arith, v.heap_len)
