-- ===== src/StackVm/Machine/Sound.antt =====
-- What keeps every access of the machine inside its arrays.
use boris.Prelude.{
  ℕ, ◌+◌, ◌-◌, ◌%◌, ◌≤◌, ◌<◌, ◌≡◌, refl, Bool, true, false, Option, none, some, List, ◌∷◌, arith,
  length, length-set, ltb, ◌==◌, ◌∙◌, set, get_elem?, get_elem?-none, u32_mod, if◌then◌else◌,
}
use boris.StackVm.Machine.{
  Flag, Op, Vm, Run, ok, aborted, undefined, M, ◌>>=◌, and_then, pure, error_set, get_pc, set_pc,
  get_psp, set_psp, opush, opop, word_of, is_outside, check_code_bounds, check_data_bounds,
  out_of_bounds, fail, vm_stack_size, stack_overflow, stack_underflow,
}

-- `t` is `s` with more errors set
pub data Grows (s : List Flag) : List Flag → Type 0 where
  same : Grows s s
  more : {t : List Flag} (f : Flag) → Grows s t → Grows s (f ∷ t)

-- A machine with the program `code`, whose arrays have the sizes that the masks say, and on which the
-- errors `s` have been set, if none other.
pub record IsSound (code : List Op) (s : List Flag) (vm : Vm) : Type 0 where
  pub stack_len : length vm.stack ≡ 1024
  pub stack_top : vm.op_stack ≤ 1024
  pub heap_len : length vm.heap ≡ vm.heap_mask + 1
  pub heap_words : (vm.heap_mask + 1) % 4 ≡ 0
  pub heap_fits : vm.heap_mask < u32_mod
  pub code_same : vm.code ≡ code
  pub code_len : length code ≡ vm.code_mask + 1
  pub grown : Grows s vm.status

-- The command does nothing undefined, and the machine has the property afterwards.
abbrev pub Ends : {A : Type 0} → (Vm → Type 0) → Run A → Type 0
Ends P (ok a vm) = P vm
Ends P aborted = Unit
Ends P undefined = ⊥

pub record Safe {A : Type 0} (P : Vm → Type 0) (m : M A) : Type 0 where
  pub at : (vm : Vm) → P vm → Ends P (m vm)

module _ {P : Vm → Type 0} where
  pub Safe-pure : {A : Type 0} (a : A) → Safe P (pure a)
  unfolding pure
  Safe-pure a = record { at = λ vm v. v }

  pub Safe-if :
      {A : Type 0} (b : Bool) (m n : M A) → Safe P m → Safe P n → Safe P (if b then m else n)
  Safe-if true m n p q = p
  Safe-if false m n p q = q

  and_then-Ends :
      {A B : Type 0} (r : Run A) (f : A → M B)
      → Ends P r
      → ((a : A) → Safe P (f a))
      → Ends P (and_then r f)
  and_then-Ends (ok a vm) f v g = (g a).at vm v
  and_then-Ends aborted f v g = v
  and_then-Ends undefined f v g = v

  pub Safe-bind :
      {A B : Type 0} (m : M A) (f : A → M B)
      → Safe P m
      → ((a : A) → Safe P (f a))
      → Safe P (m >>= f)
  unfolding ◌>>=◌
  Safe-bind m f p g = record { at = λ vm v. and_then-Ends (m vm) f (p.at vm v) g }

-- a mask bounds what is not outside it
pub is_outside-false : (mask ofs : ℕ) → is_outside mask ofs ≡ false → ofs ≤ mask
is_outside-false mask ofs h = ground arith

module _ (code : List Op) (s : List Flag) where
  -- a change of the status alone
  pub error-IsSound :
      (f : Flag) (vm : Vm)
      → IsSound code s vm
      → IsSound code s (record vm { status = f ∷ vm.status })
  error-IsSound f vm v = record {
    stack_len = v.stack_len;
    stack_top = v.stack_top;
    heap_len = v.heap_len;
    heap_words = v.heap_words;
    heap_fits = v.heap_fits;
    code_same = v.code_same;
    code_len = v.code_len;
    grown = more f v.grown;
  }

  -- a change of the registers alone
  pub registers-IsSound :
      (vm : Vm) (yield : Bool) (pc psp : ℕ)
      → IsSound code s vm
      → IsSound code s (record vm { yield = yield; pc = pc; psp = psp })
  registers-IsSound vm yield pc psp v = record {
    stack_len = v.stack_len;
    stack_top = v.stack_top;
    heap_len = v.heap_len;
    heap_words = v.heap_words;
    heap_fits = v.heap_fits;
    code_same = v.code_same;
    code_len = v.code_len;
    grown = v.grown;
  }

  -- a change of the operand stack that keeps its size
  pub stack-IsSound :
      (vm : Vm) (stack : List ℕ) (n : ℕ)
      → length stack ≡ 1024
      → n ≤ 1024
      → IsSound code s vm
      → IsSound code s (record vm { stack = stack; op_stack = n })
  stack-IsSound vm stack n len top v = record {
    stack_len = len;
    stack_top = top;
    heap_len = v.heap_len;
    heap_words = v.heap_words;
    heap_fits = v.heap_fits;
    code_same = v.code_same;
    code_len = v.code_len;
    grown = v.grown;
  }

  -- a change of the heap that keeps its size
  pub heap-IsSound :
      (vm : Vm) (heap : List ℕ)
      → length heap ≡ length vm.heap
      → IsSound code s vm
      → IsSound code s (record vm { heap = heap })
  heap-IsSound vm heap len v = record {
    stack_len = v.stack_len;
    stack_top = v.stack_top;
    heap_len = len ∙ v.heap_len;
    heap_words = v.heap_words;
    heap_fits = v.heap_fits;
    code_same = v.code_same;
    code_len = v.code_len;
    grown = v.grown;
  }

  pub Safe-error_set : (f : Flag) → Safe (IsSound code s) (error_set f)
  unfolding error_set
  Safe-error_set f = record { at = error-IsSound f }

  pub Safe-fail : {A : Type 0} (f : Flag) (a : A) → Safe (IsSound code s) (fail f a)
  Safe-fail f a = Safe-bind (error_set f) (λ _. pure a) (Safe-error_set f) (λ _. Safe-pure a)

  pub Safe-get_pc : Safe (IsSound code s) get_pc
  unfolding get_pc
  Safe-get_pc = record { at = λ vm v. v }

  pub Safe-get_psp : Safe (IsSound code s) get_psp
  unfolding get_psp
  Safe-get_psp = record { at = λ vm v. v }

  pub Safe-set_pc : (n : ℕ) → Safe (IsSound code s) (set_pc n)
  unfolding set_pc
  Safe-set_pc n = record { at = λ vm v. registers-IsSound vm vm.yield n vm.psp v }

  pub Safe-set_psp : (n : ℕ) → Safe (IsSound code s) (set_psp n)
  unfolding set_psp
  Safe-set_psp n = record { at = λ vm v. registers-IsSound vm vm.yield vm.pc n v }

  push_at :
      (vm : Vm) (val : ℕ) (b : Bool)
      → ltb vm.op_stack vm_stack_size ≡ b
      → IsSound code s vm
      → Ends (IsSound code s) (
          if b
          then ok tt
              (record vm { stack = set vm.stack vm.op_stack val; op_stack = vm.op_stack + 1 })
          else error_set stack_overflow vm)
  unfolding error_set
  push_at vm val true h v =
      stack-IsSound vm (set vm.stack vm.op_stack val) (vm.op_stack + 1)
        (length-set vm.stack vm.op_stack val ∙ v.stack_len) (ground arith) v
  push_at vm val false h v = error-IsSound stack_overflow vm v

  pub Safe-opush : (val : ℕ) → Safe (IsSound code s) (opush val)
  unfolding opush
  Safe-opush val = record { at = λ vm v. push_at vm val (ltb vm.op_stack vm_stack_size) refl v }

  pop_at :
      (vm : Vm) (b : Bool) (w : Option ℕ)
      → vm.op_stack == 0 ≡ b
      → get_elem? vm.stack (vm.op_stack - 1) ≡ w
      → IsSound code s vm
      → Ends (IsSound code s) (
          if b
          then fail stack_underflow 0xdeadbeef vm
          else word_of w (record vm { op_stack = vm.op_stack - 1 }))
  pop_at vm true w h e v = (Safe-fail stack_underflow 0xdeadbeef).at vm v
  pop_at vm false (some w) h e v =
      stack-IsSound vm vm.stack (vm.op_stack - 1) v.stack_len (ground (arith, v.stack_top)) v
  pop_at vm false none h e v =
      absurd
        (get_elem?-none vm.stack (vm.op_stack - 1) (ground (arith, v.stack_top, v.stack_len)) e)

  pub Safe-opop : Safe (IsSound code s) opop
  unfolding opop
  Safe-opop = record {
    at = λ vm v. pop_at vm (vm.op_stack == 0) (get_elem? vm.stack (vm.op_stack - 1)) refl refl v;
  }

  -- The test is safe, and where it passes, `Q` holds.
  abbrev pub Passes : (Vm → Type 0) → Run Bool → Type 0
  Passes Q (ok false vm) = IsSound code s vm × Q vm
  Passes Q (ok true vm) = IsSound code s vm
  Passes Q aborted = Unit
  Passes Q undefined = ⊥

  pub record Checks (Q : Vm → Type 0) (m : M Bool) : Type 0 where
    pub at : (vm : Vm) → IsSound code s vm → Passes Q (m vm)

  passed :
      {A : Type 0} (Q : Vm → Type 0) (r : Run Bool) (f : Bool → M A)
      → Passes Q r
      → Safe (IsSound code s) (f true)
      → ((vm : Vm) → IsSound code s vm → Q vm → Ends (IsSound code s) (f false vm))
      → Ends (IsSound code s) (and_then r f)
  passed Q (ok false vm) f p g h = h vm p.0 p.1
  passed Q (ok true vm) f p g h = g.at vm p
  passed Q aborted f p g h = tt
  passed Q undefined f p g h = p

  -- what is behind a test need be safe only where the test passed
  pub Safe-checked :
      {A : Type 0} (Q : Vm → Type 0) (m : M Bool) (f : Bool → M A)
      → Checks Q m
      → Safe (IsSound code s) (f true)
      → ((vm : Vm) → IsSound code s vm → Q vm → Ends (IsSound code s) (f false vm))
      → Safe (IsSound code s) (m >>= f)
  unfolding ◌>>=◌
  Safe-checked Q m f c g h = record { at = λ vm v. passed Q (m vm) f (c.at vm v) g h }

  pub check_at :
      (Q : Vm → Type 0) (b : Bool) (vm : Vm)
      → (b ≡ false → Q vm)
      → IsSound code s vm
      → Passes Q (if b then fail out_of_bounds true vm else ok false vm)
  unfolding ◌>>=◌ error_set pure
  check_at Q true vm q v = error-IsSound out_of_bounds vm v
  check_at Q false vm q v = (v, q refl)

  pub Checks-check_data_bounds :
      (ofs : ℕ) → Checks (λ vm. ofs ≤ vm.heap_mask) (check_data_bounds ofs)
  unfolding check_data_bounds
  Checks-check_data_bounds ofs = record {
    at = λ vm v.
        check_at (λ vm. ofs ≤ vm.heap_mask) (is_outside vm.heap_mask ofs) vm
          (is_outside-false vm.heap_mask ofs) v;
  }

  pub Checks-check_code_bounds :
      (ofs : ℕ) → Checks (λ vm. ofs ≤ vm.code_mask) (check_code_bounds ofs)
  unfolding check_code_bounds
  Checks-check_code_bounds ofs = record {
    at = λ vm v.
        check_at (λ vm. ofs ≤ vm.code_mask) (is_outside vm.code_mask ofs) vm
          (is_outside-false vm.code_mask ofs) v;
  }

  check-Ends : (Q : Vm → Type 0) (r : Run Bool) → Passes Q r → Ends (IsSound code s) r
  check-Ends Q (ok false vm) p = p.0
  check-Ends Q (ok true vm) p = p
  check-Ends Q aborted p = p
  check-Ends Q undefined p = p

  -- a test by itself
  pub Safe-check : (Q : Vm → Type 0) (m : M Bool) → Checks Q m → Safe (IsSound code s) m
  Safe-check Q m c = record { at = λ vm v. check-Ends Q (m vm) (c.at vm v) }
