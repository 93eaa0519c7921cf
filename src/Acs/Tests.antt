-- ===== src/Acs/Tests.antt =====
-- Access strings on a concrete user.
use boris.Prelude.{ℕ, ◌≡◌, refl, true, false, List, [], ◌∷◌, arith, codes, skip_space}
use boris.Acs.{AcsInfo, acs_check, acs_testflag, check, strtoul, digits_value, next_or}
use boris.Acs.Meaning.{Term, level, flag, IsTerm, text, any_holds, acs_check-text}

abbrev four : AcsInfo
four = record { level = 4; flags = 2 }

-- a host that shifts everything out
abbrev host : ℕ → ℕ → ℕ
host flags i = 0

-- the strings of `acs_test`
needs_more_test : acs_check host four (codes "s6fA") ≡ false
unfolding acs_check check strtoul digits_value next_or skip_space
needs_more_test = refl

second_test : acs_check host four (codes "s8|s2fB") ≡ true
unfolding acs_check check strtoul digits_value next_or acs_testflag skip_space
second_test = refl

-- a level without a digit is 0
no_digit_test : acs_check host four (codes "s") ≡ true
unfolding acs_check check strtoul skip_space
no_digit_test = refl

-- `s6fA|s2`
abbrev first_terms : List Term
first_terms = level 54 [] ∷ flag 65 ∷ []

abbrev second_terms : List Term
second_terms = level 50 [] ∷ []

acs_check-text_example :
    acs_check host four (text first_terms (second_terms ∷ []))
    ≡ any_holds host four (first_terms ∷ second_terms ∷ [])
unfolding IsTerm digits_value
acs_check-text_example =
    acs_check-text host four first_terms (second_terms ∷ []) (((refl, tt), omega arith), (refl, tt))
      ((((refl, tt), omega arith), tt), tt)
