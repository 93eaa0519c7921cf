-- ===== src/Acs/Meaning.antt =====
-- An access string is a list of alternatives, each a list of terms, and passes where all terms of one
-- alternative hold.
use boris.Prelude.{
  ℕ, zero, suc, ◌+◌, ◌-◌, ◌*◌, ◌≤◌, ◌<◌, ◌≡◌, refl, ap, ◌∙◌, Bool, true, false, ◌&&◌, ◌||◌, Option,
  none, some, List, [], ◌∷◌, ◌++◌, ltb, leb, ◌==◌, if◌then◌else◌, arith, All, length, length-append,
  Bytes, isdigit, isspace, head, skip_space,
}
use boris.Acs.{
  AcsInfo, acs_testflag, number_at, signed_value, digits_value, ulong_max, strtoul, next_or, check,
  acs_check,
}

-- a level, in decimal digits, or a flag
pub data Term : Type 0 where
  level : ℕ → Bytes → Term
  flag : ℕ → Term

-- digits and nothing else, of a number that fits an `unsigned long`; and no flag `|`
unfoldable pub IsTerm : Term → Type 0
IsTerm (level c ds) =
    All (λ d. isdigit d ≡ true) (c ∷ ds) × ((digits_value 0 (c ∷ ds)).0 ≤ ulong_max)
IsTerm (flag c) = c == b'|' ≡ false

pub term_text : Term → Bytes
term_text (level c ds) = b's' ∷ c ∷ ds
term_text (flag c) = b'f' ∷ c ∷ []

-- the string of the alternative `ts` and of those behind it, with `|` between them
pub text : List Term → List (List Term) → Bytes
text [] [] = []
text [] (ts ∷ alts) = b'|' ∷ text ts alts
text (t ∷ ts) alts = term_text t ++ text ts alts

module _ (shifted : ℕ → ℕ → ℕ) where
  pub holds : AcsInfo → Term → Bool
  holds ai (level c ds) = leb (digits_value 0 (c ∷ ds)).0 ai.level
  holds ai (flag c) = acs_testflag shifted ai c

  pub all_hold : AcsInfo → List Term → Bool
  all_hold ai [] = true
  all_hold ai (t ∷ ts) = holds ai t && all_hold ai ts

  pub any_holds : AcsInfo → List (List Term) → Bool
  any_holds ai [] = false
  any_holds ai (ts ∷ alts) = all_hold ai ts || any_holds ai alts

  -- where the digits end
  digits_value-append :
      (n : ℕ) (ds rest : Bytes)
      → All (λ d. isdigit d ≡ true) ds
      → isdigit (head rest) ≡ false
      → digits_value n (ds ++ rest) ≡ ((digits_value n ds).0, rest)
  unfolding digits_value
  digits_value-append n [] [] h e = refl
  digits_value-append n [] (c ∷ rest) h e = rw e
  digits_value-append n (d ∷ ds) rest h e =
      rw h.0 (digits_value-append (n * 10 + (d - 48)) ds rest h.1 e)

  strtoul-digit :
      (c : ℕ) (s : Bytes) → isdigit c ≡ true → strtoul (c ∷ s) ≡ number_at (c ∷ s) false (c ∷ s)
  unfolding strtoul skip_space
  strtoul-digit c s h =
      let space : isspace c ≡ false = ground (arith, h) in
      let minus : c == b'-' ≡ false = ground (arith, h) in
      let plus : c == b'+' ≡ false = ground (arith, h) in rw (space, minus, plus)

  in_range : (n : ℕ) → n ≤ ulong_max → signed_value false n ≡ n
  in_range n h = ground arith

  strtoul-digits :
      (c : ℕ) (ds rest : Bytes)
      → All (λ d. isdigit d ≡ true) (c ∷ ds)
      → (digits_value 0 (c ∷ ds)).0 ≤ ulong_max
      → isdigit (head rest) ≡ false
      → strtoul (c ∷ (ds ++ rest)) ≡ ((digits_value 0 (c ∷ ds)).0, rest)
  strtoul-digits c ds rest h small e =
      strtoul-digit c (ds ++ rest) h.0
      ∙ rw
          (h.0, digits_value-append 0 (c ∷ ds) rest h e, in_range (digits_value 0 (c ∷ ds)).0 small)

  -- no term has a `|` in it
  next_or-digits :
      (ds rest : Bytes) → All (λ d. isdigit d ≡ true) ds → next_or (ds ++ rest) ≡ next_or rest
  unfolding next_or
  next_or-digits [] rest h = refl
  next_or-digits (d ∷ ds) rest h =
      let other : d == b'|' ≡ false = ground (arith, h.0) in rw other (next_or-digits ds rest h.1)

  next_or-term_text :
      (t : Term) (rest : Bytes) → IsTerm t → next_or (term_text t ++ rest) ≡ next_or rest
  unfolding next_or term_text IsTerm
  next_or-term_text (level c ds) rest h = next_or-digits (c ∷ ds) rest h.0
  next_or-term_text (flag c) rest h = rw h

  -- the next alternative, or none
  next_text : List (List Term) → Option Bytes
  next_text [] = none
  next_text (ts ∷ alts) = some (text ts alts)

  next_or-text :
      (ts : List Term) (alts : List (List Term))
      → All IsTerm ts
      → next_or (text ts alts) ≡ next_text alts
  unfolding next_or text next_text
  next_or-text [] [] h = refl
  next_or-text [] (ts ∷ alts) h = refl
  next_or-text (t ∷ ts) alts h = next_or-term_text t (text ts alts) h.0 ∙ next_or-text ts alts h.1

  -- no digit behind a term
  head-text : (ts : List Term) (alts : List (List Term)) → isdigit (head (text ts alts)) ≡ false
  unfolding text term_text
  head-text [] [] = refl
  head-text [] (ts ∷ alts) = refl
  head-text (level c ds ∷ ts) alts = refl
  head-text (flag c ∷ ts) alts = refl

  -- `acs_check` goes on at the next alternative, if there is one
  abbrev passed : ℕ → AcsInfo → Option Bytes → Bool
  passed fuel ai none = false
  passed fuel ai (some t) = check shifted fuel ai t

  level_if :
      (l v : ℕ) (other here : Bool)
      → (if ltb l v then other else here) ≡ (if leb v l then here else other)
  level_if l v other here = ground arith

  pass_or :
      (hold other here all any : Bool)
      → here ≡ (all || any)
      → other ≡ any
      → (if hold then here else other) ≡ ((hold && all) || any)
  pass_or true other here all any p q = p
  pass_or false other here all any p q = q

  passed-text :
      (fuel : ℕ) (ai : AcsInfo) (s : Bytes) (alts : List (List Term))
      → next_or s ≡ next_text alts
      → passed fuel ai (next_text alts) ≡ any_holds ai alts
      → passed fuel ai (next_or s) ≡ any_holds ai alts
  passed-text fuel ai s alts e p = ap (passed fuel ai) e ∙ p

  elim_passed :
      (fuel : ℕ) (ai : AcsInfo) (o : Option Bytes)
      → elim o [ none ↦ false | some t ↦ check shifted fuel ai t ] ≡ passed fuel ai o
  elim_passed fuel ai none = refl
  elim_passed fuel ai (some t) = refl

  check_term :
      (fuel : ℕ) (ai : AcsInfo) (t : Term) (ts : List Term) (alts : List (List Term))
      → IsTerm t
      → All IsTerm ts
      → check shifted fuel ai (text ts alts) ≡ (all_hold ai ts || any_holds ai alts)
      → passed fuel ai (next_text alts) ≡ any_holds ai alts
      → check shifted (suc fuel) ai (text (t ∷ ts) alts)
        ≡ ((holds ai t && all_hold ai ts) || any_holds ai alts)
  unfolding text check term_text holds IsTerm next_or
  check_term fuel ai (level c ds) ts alts h hs here other =
      let rest : Bytes = c ∷ (ds ++ text ts alts) in
      let v : ℕ = (digits_value 0 (c ∷ ds)).0 in
      let failed : Bool = elim (next_or rest) [ none ↦ false | some t ↦ check shifted fuel ai t ] in
      ap (λ r. if ltb ai.level r.0 then failed else check shifted fuel ai r.1)
        (strtoul-digits c ds (text ts alts) h.0 h.1 (head-text ts alts))
      ∙ level_if ai.level v failed (check shifted fuel ai (text ts alts))
      ∙ pass_or (leb v ai.level) failed (check shifted fuel ai (text ts alts)) (all_hold ai ts)
          (any_holds ai alts) here
          (elim_passed fuel ai (next_or rest)
            ∙ passed-text fuel ai rest alts (next_or-text (level c ds ∷ ts) alts (h, hs)) other)
  check_term fuel ai (flag c) ts alts h hs here other =
      let rest : Bytes = c ∷ text ts alts in
      let failed : Bool = elim (next_or rest) [ none ↦ false | some t ↦ check shifted fuel ai t ] in
      pass_or (acs_testflag shifted ai c) failed (check shifted fuel ai (text ts alts))
        (all_hold ai ts) (any_holds ai alts) here
        (elim_passed fuel ai (next_or rest)
          ∙ passed-text fuel ai rest alts (next_or-text (flag c ∷ ts) alts (h, hs)) other)

  length-behind :
      (ts us : List Term) (alts : List (List Term))
      → length (text us alts) < length (text ts (us ∷ alts))
  unfolding text
  length-behind [] us alts = omega arith
  length-behind (t ∷ ts) us alts =
      omega (arith, length-behind ts us alts, length-append (term_text t) (text ts (us ∷ alts)))

  length-term_text : (t : Term) → 0 < length (term_text t)
  unfolding term_text
  length-term_text (level c ds) = omega arith
  length-term_text (flag c) = omega arith

  length-cons :
      (t : Term) (ts : List Term) (alts : List (List Term))
      → length (text ts alts) < length (text (t ∷ ts) alts)
  unfolding text
  length-cons t ts alts =
      omega (arith, length-append (term_text t) (text ts alts), length-term_text t)

  check-text :
      (fuel : ℕ) (ai : AcsInfo) (ts : List Term) (alts : List (List Term))
      → All IsTerm ts
      → All (All IsTerm) alts
      → length (text ts alts) ≤ fuel
      → check shifted fuel ai (text ts alts) ≡ (all_hold ai ts || any_holds ai alts)
  unfolding text check all_hold any_holds next_text
  check-text fuel ai [] [] h k le = refl
  check-text zero ai [] (us ∷ alts) h k le = absurd (omega arith)
  check-text (suc fuel) ai [] (us ∷ alts) h k le = refl
  check-text zero ai (t ∷ ts) alts h k le = absurd (omega (arith, length-cons t ts alts, le))
  check-text (suc fuel) ai (t ∷ ts) [] h k le =
      check_term fuel ai t ts [] h.0 h.1
        (check-text fuel ai ts [] h.1 tt (omega (arith, length-cons t ts [], le))) refl
  check-text (suc fuel) ai (t ∷ ts) (us ∷ alts) h k le =
      check_term fuel ai t ts (us ∷ alts) h.0 h.1
        (check-text fuel ai ts (us ∷ alts) h.1 k (omega (arith, length-cons t ts (us ∷ alts), le)))
        (check-text fuel ai us alts k.0 k.1 (omega (arith, length-behind (t ∷ ts) us alts, le)))

  -- A string made of alternatives, each a list of levels and flags, passes exactly where all the terms of
  -- one alternative hold. Each level is supposed to be written in digits that an `unsigned long` holds,
  -- and no flag to be `|`.
  pub acs_check-text :
      (ai : AcsInfo) (ts : List Term) (alts : List (List Term))
      → All IsTerm ts
      → All (All IsTerm) alts
      → acs_check shifted ai (text ts alts) ≡ any_holds ai (ts ∷ alts)
  unfolding acs_check any_holds
  acs_check-text ai ts alts h k = check-text (length (text ts alts)) ai ts alts h k (omega arith)
