-- ===== src/StackVm/Call/Arguments.antt =====
-- The arguments that the server passes are those that the script's function finds.
use boris.Prelude.{
  ℕ, zero, suc, ◌+◌, ◌-◌, ◌*◌, ◌/◌, ◌%◌, ◌≤◌, ◌<◌, ◌≡◌, refl, ap, ◌∙◌, Bool, ◌==◌, true, some, List,
  [], ◌∷◌, All, arith, length, set, get_or, get_elem?, add32, sub32, mul32, u32_mod,
}
use boris.StackVm.Machine.{
  Flag, Op, Vm, Run, M, ok, ◌>>=◌, ◌>>◌, and_then, pure, get_psp, set_psp, set_pc,
  check_stack_bounds,
}
use boris.StackVm.Machine.Sound.{IsSound, heap-IsSound, registers-IsSound}
use boris.StackVm.Memory.{set_word, word_at, dwrite4, dread4}
use boris.StackVm.Memory.RoundTrip.{
  aligned, dread4_in, dwrite4_in, word_at-set_word, get_or-set_ne, length-set_word, check_in,
}
use boris.StackVm.Instructions.{vm_leave}
use boris.StackVm.Call.{arg_write, prepare_call, store_args, vm_call_array, vm_arg}

-- the heap with words written one behind another
write_words : List ℕ → ℕ → List ℕ → List ℕ
write_words heap ofs [] = heap
write_words heap ofs (a ∷ args) = write_words (set_word heap ofs a) (ofs + 4) args

length-write_words :
    (heap : List ℕ) (ofs : ℕ) (args : List ℕ) → length (write_words heap ofs args) ≡ length heap
unfolding write_words
length-write_words heap ofs [] = refl
length-write_words heap ofs (a ∷ args) =
    length-write_words (set_word heap ofs a) (ofs + 4) args ∙ length-set_word heap ofs a

-- a byte below a word is not touched by it
get_or-set_word :
    (heap : List ℕ) (ofs w j : ℕ) → j < ofs → get_or (set_word heap ofs w) j 0 ≡ get_or heap j 0
get_or-set_word heap ofs w j lt =
    let h0 : List ℕ = set heap ofs (w % 256) in
    let h1 : List ℕ = set h0 (ofs + 1) (w / 256 % 256) in
    let h2 : List ℕ = set h1 (ofs + 2) (w / 65536 % 256) in
    get_or-set_ne h2 (ofs + 3) j (w / 16777216 % 256) (λ e. absurd (omega (arith, e, lt)))
    ∙ get_or-set_ne h1 (ofs + 2) j (w / 65536 % 256) (λ e. absurd (omega (arith, e, lt)))
    ∙ get_or-set_ne h0 (ofs + 1) j (w / 256 % 256) (λ e. absurd (omega (arith, e, lt)))
    ∙ get_or-set_ne heap ofs j (w % 256) (λ e. absurd (omega (arith, e, lt)))

get_or-write_words :
    (heap : List ℕ) (ofs j : ℕ) (args : List ℕ)
    → j < ofs
    → get_or (write_words heap ofs args) j 0 ≡ get_or heap j 0
unfolding write_words
get_or-write_words heap ofs j [] lt = refl
get_or-write_words heap ofs j (a ∷ args) lt =
    get_or-write_words (set_word heap ofs a) (ofs + 4) j args (omega (arith, lt))
    ∙ get_or-set_word heap ofs a j lt

word_at-write_words :
    (heap : List ℕ) (ofs low : ℕ) (args : List ℕ)
    → low + 4 ≤ ofs
    → word_at (write_words heap ofs args) low ≡ word_at heap low
word_at-write_words heap ofs low args le =
    rw
      (
        get_or-write_words heap ofs low args (omega (arith, le)),
        get_or-write_words heap ofs (low + 1) args (omega (arith, le)),
        get_or-write_words heap ofs (low + 2) args (omega (arith, le)),
        get_or-write_words heap ofs (low + 3) args (omega (arith, le)),
      )
      refl

-- the words that were written are read back
word_at-write_words_nth :
    (heap : List ℕ) (ofs i a : ℕ) (args : List ℕ)
    → ofs + 4 * length args ≤ length heap
    → All (λ x. x < u32_mod) args
    → get_elem? args i ≡ some a
    → word_at (write_words heap ofs args) (ofs + 4 * i) ≡ a
unfolding write_words
word_at-write_words_nth heap ofs i a [] le words at = cc
word_at-write_words_nth heap ofs zero a (b ∷ args) le words at =
    let same : b ≡ a = cc in
    ap (word_at (write_words (set_word heap ofs b) (ofs + 4) args)) (omega arith)
    ∙ word_at-write_words (set_word heap ofs b) (ofs + 4) ofs args (omega arith)
    ∙ word_at-set_word heap ofs b (omega (arith, le)) words.0
    ∙ same
word_at-write_words_nth heap ofs (suc i) a (b ∷ args) le words at =
    ap (word_at (write_words (set_word heap ofs b) (ofs + 4) args)) (omega arith)
    ∙ word_at-write_words_nth (set_word heap ofs b) (ofs + 4) i a args
        (omega (arith, le, length-set_word heap ofs b)) words.1 at

-- the offset of an argument does not wrap
place : (psp i : ℕ) → psp + 8 + 4 * i < u32_mod → add32 (add32 psp 8) (mul32 i 4) ≡ psp + 8 + 4 * i
place psp i lt = omega (arith, lt)

module _ (code : List Op) (s : List Flag) where
  arg_write_in :
      (vm : Vm) (i val : ℕ)
      → IsSound code s vm
      → vm.psp + 8 + 4 * i ≤ vm.heap_mask
      → vm.psp % 4 ≡ 0
      → arg_write i val vm ≡ ok tt (record vm { heap = set_word vm.heap (vm.psp + 8 + 4 * i) val })
  unfolding arg_write ◌>>=◌ get_psp
  arg_write_in vm i val v le al =
      ap (λ o. dwrite4 o val vm) (place vm.psp i (omega (arith, le, v.heap_fits)))
      ∙ dwrite4_in vm (vm.psp + 8 + 4 * i) val
          (aligned code s vm (vm.psp + 8 + 4 * i) v le (omega (arith, al)))

  store_args_in :
      (vm : Vm) (i : ℕ) (args : List ℕ)
      → IsSound code s vm
      → vm.psp + 8 + 4 * (i + length args) ≤ vm.heap_mask + 1
      → vm.psp % 4 ≡ 0
      → store_args i args vm
        ≡ ok tt (record vm { heap = write_words vm.heap (vm.psp + 8 + 4 * i) args })
  unfolding store_args ◌>>=◌ write_words pure
  store_args_in vm i [] v le al = refl
  store_args_in vm i (a ∷ args) v le al =
      let ofs : ℕ = vm.psp + 8 + 4 * i in
      let vm' : Vm = record vm { heap = set_word vm.heap ofs a } in
      ap (λ r. and_then r (λ _. store_args (i + 1) args))
        (arg_write_in vm i a v (omega (arith, le)) al)
      ∙ store_args_in vm' (i + 1) args
          (heap-IsSound code s vm (set_word vm.heap ofs a) (length-set_word vm.heap ofs a) v)
          (omega (arith, le)) al
      ∙ ap (λ o. ok tt (record vm { heap = write_words (set_word vm.heap ofs a) o args }))
          (omega arith)

  check_stack_in :
      (vm : Vm) (m : Vm → Run (Unit {0}))
      → vm.psp ≤ vm.heap_mask
      → (check_stack_bounds >> m) vm ≡ m vm
  unfolding check_stack_bounds ◌>>=◌
  check_stack_in vm m le = ground (arith, check_in vm vm.psp le)

  -- the machine with the frame of a call
  abbrev framed : Vm → ℕ → ℕ → ℕ → Vm
  framed vm entry frame n = record vm {
    pc = entry;
    psp = frame;
    heap = set_word (set_word vm.heap frame (u32_mod - 1)) (frame + 4) (frame + 4 * n);
  }

  framed-IsSound :
      (vm : Vm) (entry frame n : ℕ) → IsSound code s vm → IsSound code s (framed vm entry frame n)
  framed-IsSound vm entry frame n v =
      let h : List ℕ = set_word vm.heap frame (u32_mod - 1) in
      heap-IsSound code s (record vm { pc = entry; psp = frame })
        (set_word h (frame + 4) (frame + 4 * n))
        (length-set_word h (frame + 4) (frame + 4 * n)
          ∙ length-set_word vm.heap frame (u32_mod - 1))
        (registers-IsSound code s vm vm.yield entry frame v)

  -- the words that `prepare_call` writes
  abbrev write_frame : ℕ → M (Unit {0})
  write_frame old = get_psp >>= λ frame. dwrite4 frame (u32_mod - 1) >> dwrite4 (add32 frame 4) old

  prepare_call_in :
      (vm : Vm) (entry frame n : ℕ)
      → IsSound code s vm
      → frame + (8 + 4 * n) ≡ vm.psp
      → vm.psp ≤ vm.heap_mask + 1
      → vm.psp % 4 ≡ 0
      → prepare_call entry n vm ≡ ok tt (framed vm entry frame n)
  unfolding prepare_call ◌>>=◌ get_psp set_psp set_pc
  prepare_call_in vm entry frame n v room le al =
      let at : sub32 vm.psp (add32 8 (mul32 4 n)) ≡ frame = omega (arith, room, le, v.heap_fits) in
      let old : sub32 vm.psp 8 ≡ frame + 4 * n = omega (arith, room, le, v.heap_fits) in
      let second : add32 frame 4 ≡ frame + 4 = omega (arith, room, le, v.heap_fits) in
      let vm1 : Vm = record vm { pc = entry; psp = frame } in
      let vm2 : Vm = record vm1 { heap = set_word vm.heap frame (u32_mod - 1) } in
      let v1 : IsSound code s vm1 = registers-IsSound code s vm vm.yield entry frame v in
      let v2 : IsSound code s vm2 =
        heap-IsSound code s vm1 (set_word vm.heap frame (u32_mod - 1))
          (length-set_word vm.heap frame (u32_mod - 1)) v1 in
      let at_four : frame % 4 ≡ 0 = omega (arith, room, al) in
      ap
        (λ p.
          (check_stack_bounds >> write_frame (sub32 vm.psp 8)) (record vm { pc = entry; psp = p }))
        at
      ∙ check_stack_in vm1 (write_frame (sub32 vm.psp 8)) (omega (arith, room, le))
      ∙ ap (λ o. write_frame o vm1) old
      ∙ ap (λ r. and_then r (λ _. dwrite4 (add32 frame 4) (frame + 4 * n)))
          (dwrite4_in vm1 frame (u32_mod - 1)
            (aligned code s vm1 frame v1 (omega (arith, room, le)) at_four))
      ∙ ap (λ o. dwrite4 o (frame + 4 * n) vm2) second
      ∙ dwrite4_in vm2 (frame + 4) (frame + 4 * n)
          (aligned code s vm2 (frame + 4) v2 (omega (arith, room, le)) (omega (arith, at_four)))

  vm_arg_in :
      (vm : Vm) (i : ℕ)
      → IsSound code s vm
      → vm.psp + 8 + 4 * i ≤ vm.heap_mask
      → vm.psp % 4 ≡ 0
      → vm_arg i vm ≡ ok (word_at vm.heap (vm.psp + 8 + 4 * i)) vm
  unfolding vm_arg ◌>>=◌ get_psp
  vm_arg_in vm i v le al =
      ap (λ o. dread4 o vm) (place vm.psp i (omega (arith, le, v.heap_fits)))
      ∙ dread4_in vm (vm.psp + 8 + 4 * i)
          (aligned code s vm (vm.psp + 8 + 4 * i) v le (omega (arith, al)))

  vm_leave_in :
      (vm : Vm)
      → IsSound code s vm
      → vm.psp ≤ vm.heap_mask
      → vm.psp % 4 ≡ 0
      → word_at vm.heap vm.psp ≡ u32_mod - 1
      → vm_leave 0 vm ≡ ok true (record vm { pc = u32_mod - 1 })
  unfolding vm_leave ◌>>=◌ get_psp set_psp set_pc pure
  vm_leave_in vm v le al at =
      let leave : ℕ → Run Bool = λ psp.
        (dread4 psp >>= λ pc. set_pc pc >> pure (pc == u32_mod - 1)) (record vm { psp = psp }) in
      let end : ℕ → Run Bool = λ pc. ok (pc == u32_mod - 1) (record vm { pc = pc }) in
      let still : add32 vm.psp 0 ≡ vm.psp = omega (arith, le, v.heap_fits) in
      ap leave still
      ∙ ap (λ r. and_then r (λ pc. set_pc pc >> pure (pc == u32_mod - 1)))
          (dread4_in vm vm.psp (aligned code s vm vm.psp v le al))
      ∙ ap end at

-- the return address below the frame's other words
word_at_frame :
    (heap : List ℕ) (frame old : ℕ) (args : List ℕ)
    → frame + 4 ≤ length heap
    → word_at
        (write_words
          (set_word (set_word heap frame (u32_mod - 1)) (frame + 4) old)
          (frame + 8)
          args)
        frame
      ≡ u32_mod - 1
unfolding write_words
word_at_frame heap frame old args le =
    let h : List ℕ = set_word heap frame (u32_mod - 1) in
    word_at-write_words (set_word h (frame + 4) old) (frame + 8) frame args (omega arith)
    ∙ word_at-write_words h (frame + 4) frame (old ∷ []) (omega arith)
    ∙ word_at-set_word heap frame (u32_mod - 1) le (omega arith)

nth_lt : {A : Type 0} (xs : List A) (i : ℕ) (a : A) → get_elem? xs i ≡ some a → i < length xs
nth_lt [] i a h = cc
nth_lt (x ∷ xs) zero a h = omega arith
nth_lt (x ∷ xs) (suc i) a h = let le : i < length xs = nth_lt xs i a h in omega (arith, le)

-- On a sound machine whose program stack is aligned, inside the heap and has room for the frame of a call,
-- `vm_call_array` sets no error, moves the stack down by the frame and goes to `entry`; `vm_arg` finds each
-- argument, and a LEAVE from there ends the run.
pub vm_call_array-vm_arg :
    (code : List Op) (s : List Flag) (vm : Vm) (entry frame : ℕ) (args : List ℕ) (i a : ℕ)
    → IsSound code s vm
    → vm.psp % 4 ≡ 0
    → vm.psp ≤ vm.heap_mask + 1
    → frame + (8 + 4 * length args) ≡ vm.psp
    → All (λ x. x < u32_mod) args
    → get_elem? args i ≡ some a
    → (vm' : Vm) × (vm_call_array entry args vm ≡ ok tt vm')
      × (vm'.pc ≡ entry)
      × (vm'.psp ≡ frame)
      × (vm'.status ≡ vm.status)
      × (vm_arg i vm' ≡ ok a vm')
      × (vm_leave 0 vm' ≡ ok true (record vm' { pc = u32_mod - 1 }))
unfolding vm_call_array ◌>>=◌
vm_call_array-vm_arg code s vm entry frame args i a v al le room words at =
    let n : ℕ = length args in
    let vm1 : Vm = framed code s vm entry frame n in
    let v1 : IsSound code s vm1 = framed-IsSound code s vm entry frame n v in
    let heap : List ℕ = write_words vm1.heap (frame + 8) args in
    let vm' : Vm = record vm1 { heap = heap } in
    let v' : IsSound code s vm' =
      heap-IsSound code s vm1 heap (length-write_words vm1.heap (frame + 8) args) v1 in
    let below : i < n = nth_lt args i a at in
    let four : frame % 4 ≡ 0 = omega (arith, room, al) in
    (
      vm',
      ap (λ r. and_then r (λ _. store_args 0 args))
            (prepare_call_in code s vm entry frame n v room le al)
          ∙ store_args_in code s vm1 0 args v1 (omega (arith, room, le)) four
          ∙ ap (λ o. ok tt (record vm1 { heap = write_words vm1.heap o args })) (omega arith),
      refl,
      refl,
      refl,
      vm_arg_in code s vm' i v' (omega (arith, room, le, below)) four
          ∙ ap (λ w. ok w vm')
              (word_at-write_words_nth vm1.heap (frame + 8) i a args
                (omega (arith, room, le, v1.heap_len)) words at),
      vm_leave_in code s vm' v' (omega (arith, room, le)) four
          (word_at_frame vm.heap frame (frame + 4 * n) args (omega (arith, room, le, v.heap_len))),
    )
