-- ===== src/StackVm/Memory/Sound.antt =====
-- Reads and writes of the heap stay inside it, but for `dwrite1`.
use boris.Prelude.{
  ℕ, ◌≤◌, ◌≡◌, refl, ◌%◌, Bool, true, false, List, ◌==◌, if◌then◌else◌, arith, length, length-set,
  add32,
}
use boris.StackVm.Machine.{
  Flag, Op, Vm, ok, undefined, M, ◌>>=◌, and_then, pure, fail, error_set, out_of_bounds, unaligned,
  check_data_bounds, is_outside,
}
use boris.StackVm.Memory.{
  in_heap, set_word, word_at, load_word, store_word, load_half, store_half, load_byte, check_both,
  dwrite4, dwrite2, dread4, dread2, dread1,
}
use boris.StackVm.Machine.Sound.{
  IsSound, Ends, Safe, Safe-pure, Safe-error_set, Safe-fail, Safe-checked, Passes, Checks, check_at,
  Checks-check_data_bounds, is_outside-false, heap-IsSound, error-IsSound,
}

module _ (code : List Op) (s : List Flag) where
  both_at :
      (Q : Vm → Type 0) (b : Bool) (ofs : ℕ) (vm : Vm)
      → (b ≡ false → Q vm)
      → IsSound code s vm
      → Passes code s Q (
          and_then
            (if b then fail out_of_bounds true vm else ok false vm)
            (λ bad. if bad then pure true else check_data_bounds ofs))
  unfolding ◌>>=◌ error_set pure check_data_bounds
  both_at Q true ofs vm q v = error-IsSound code s out_of_bounds vm v
  both_at Q false ofs vm q v = check_at code s Q (is_outside vm.heap_mask ofs) vm (λ _. q refl) v

  Checks-check_both : (ofs n : ℕ) → Checks code s (λ vm. ofs ≤ vm.heap_mask) (check_both ofs n)
  unfolding check_both ◌>>=◌ check_data_bounds
  Checks-check_both ofs n = record {
    at = λ vm v.
        both_at (λ vm. ofs ≤ vm.heap_mask) (is_outside vm.heap_mask ofs) (add32 ofs n) vm
          (is_outside-false vm.heap_mask ofs) v;
  }

  ok_if :
      {A : Type 0} (b : Bool) (a : A) (vm : Vm)
      → b ≡ true
      → IsSound code s vm
      → Ends (IsSound code s) (if b then ok a vm else undefined)
  ok_if true a vm h v = v
  ok_if false a vm h v = ground arith

  if_at :
      {A : Type 0} (b : Bool) (m n : M A) (vm : Vm)
      → (b ≡ true → Ends (IsSound code s) (m vm))
      → Ends (IsSound code s) (n vm)
      → Ends (IsSound code s) ((if b then m else n) vm)
  if_at true m n vm p q = p refl
  if_at false m n vm p q = q

  fits4 :
      (ofs : ℕ) (vm : Vm)
      → IsSound code s vm
      → ofs ≤ vm.heap_mask
      → ofs % 4 == 0 ≡ true
      → in_heap ofs 4 vm ≡ true
  fits4 ofs vm v h e = ground (arith, v.heap_len, v.heap_words)

  fits2 :
      (ofs : ℕ) (vm : Vm)
      → IsSound code s vm
      → ofs ≤ vm.heap_mask
      → ofs % 2 == 0 ≡ true
      → in_heap ofs 2 vm ≡ true
  fits2 ofs vm v h e = ground (arith, v.heap_len, v.heap_words)

  fits1 : (ofs : ℕ) (vm : Vm) → IsSound code s vm → ofs ≤ vm.heap_mask → in_heap ofs 1 vm ≡ true
  fits1 ofs vm v h = ground (arith, v.heap_len)

  length-set_word : (heap : List ℕ) (ofs val : ℕ) → length (set_word heap ofs val) ≡ length heap
  length-set_word heap ofs val = simp length-set

  pub Safe-dread4 : (ofs : ℕ) → Safe (IsSound code s) (dread4 ofs)
  unfolding dread4 load_word
  Safe-dread4 ofs =
      Safe-checked code s (λ vm. ofs ≤ vm.heap_mask) (check_both ofs 3) _ (Checks-check_both ofs 3)
        (Safe-fail code s out_of_bounds 0xdeadbeef)
        (λ vm v h.
          if_at (ofs % 4 == 0) (load_word ofs) (fail unaligned 0xdeadbeef) vm
            (λ e. ok_if (in_heap ofs 4 vm) (word_at vm.heap ofs) vm (fits4 ofs vm v h e) v)
            ((Safe-fail code s unaligned 0xdeadbeef).at vm v))

  pub Safe-dread2 : (ofs : ℕ) → Safe (IsSound code s) (dread2 ofs)
  unfolding dread2 load_half
  Safe-dread2 ofs =
      Safe-checked code s (λ vm. ofs ≤ vm.heap_mask) (check_both ofs 1) _ (Checks-check_both ofs 1)
        (Safe-fail code s out_of_bounds 0xdead)
        (λ vm v h.
          if_at (ofs % 2 == 0) (load_half ofs) (fail unaligned 0xbeef) vm
            (λ e. ok_if (in_heap ofs 2 vm) _ vm (fits2 ofs vm v h e) v)
            ((Safe-fail code s unaligned 0xbeef).at vm v))

  pub Safe-dread1 : (ofs : ℕ) → Safe (IsSound code s) (dread1 ofs)
  unfolding dread1 load_byte
  Safe-dread1 ofs =
      Safe-checked code s (λ vm. ofs ≤ vm.heap_mask) (check_data_bounds ofs) _
        (Checks-check_data_bounds code s ofs) (Safe-fail code s out_of_bounds 0xde)
        (λ vm v h. ok_if (in_heap ofs 1 vm) _ vm (fits1 ofs vm v h) v)

  store_if :
      (b : Bool) (heap : List ℕ) (vm : Vm)
      → b ≡ true
      → length heap ≡ length vm.heap
      → IsSound code s vm
      → Ends (IsSound code s) (if b then ok tt (record vm { heap = heap }) else undefined)
  store_if true heap vm h len v = heap-IsSound code s vm heap len v
  store_if false heap vm h len v = ground arith

  pub Safe-dwrite4 : (ofs val : ℕ) → Safe (IsSound code s) (dwrite4 ofs val)
  unfolding dwrite4 store_word
  Safe-dwrite4 ofs val =
      Safe-checked code s (λ vm. ofs ≤ vm.heap_mask) (check_both ofs 3) _ (Checks-check_both ofs 3)
        (Safe-pure tt)
        (λ vm v h.
          if_at (ofs % 4 == 0) (store_word ofs val) (error_set unaligned) vm
            (λ e.
              store_if (in_heap ofs 4 vm) (set_word vm.heap ofs val) vm (fits4 ofs vm v h e)
                (length-set_word vm.heap ofs val) v)
            ((Safe-error_set code s unaligned).at vm v))

  pub Safe-dwrite2 : (ofs val : ℕ) → Safe (IsSound code s) (dwrite2 ofs val)
  unfolding dwrite2 store_half
  Safe-dwrite2 ofs val =
      Safe-checked code s (λ vm. ofs ≤ vm.heap_mask) (check_both ofs 1) _ (Checks-check_both ofs 1)
        (Safe-pure tt)
        (λ vm v h.
          if_at (ofs % 2 == 0) (store_half ofs val) (error_set unaligned) vm
            (λ e. store_if (in_heap ofs 2 vm) _ vm (fits2 ofs vm v h e) (simp length-set) v)
            ((Safe-error_set code s unaligned).at vm v))
