-- ===== src/Shvar/Tests.antt =====
-- Variables in texts.
use boris.Prelude.{
  ◌≡◌, refl, false, true, Option, none, some, [], ◌∷◌, ◌==◌, if◌then◌else◌, arith, Bytes, codes,
}
use boris.Shvar.{shvar_eval, shvar_loop}
use boris.Shvar.Expand.{
  plain, dollar, braces, parens, IsPiece, piece_source, piece_text, expanded, piece_value,
  shvar_eval-expanded,
}

-- the variable `a` is `one`
abbrev one : Bytes → Option Bytes
one [] = none
one (c ∷ s) = if c == 97 then some (codes "one") else none

unfinished :
    shvar_eval 20 (codes "x${a") none
    ≡ some (record { text = codes "x${a"; ended = true; result = 0 })
unfolding shvar_eval shvar_loop
unfinished = refl

too_long :
    shvar_eval 2 (codes "x$a") (some one)
    ≡ some (record { text = codes "x"; ended = false; result = 0 })
unfolding shvar_eval shvar_loop
too_long = refl

full : shvar_eval 2 (codes "xy") none ≡ none
unfolding shvar_eval shvar_loop
full = refl

shvar_eval-expanded_example :
    shvar_eval 20 (codes "x${a}$$$(b)") (some one)
    ≡ some (record { text = codes "xone$"; ended = true; result = 1 })
unfolding piece_source piece_text expanded piece_value IsPiece
shvar_eval-expanded_example =
    shvar_eval-expanded one (plain 120 ∷ braces (codes "a") ∷ dollar ∷ parens (codes "b") ∷ []) 20
      (
        (λ e. absurd (omega (arith, e))),
        (
          (((λ e. absurd (omega (arith, e))), tt), omega arith),
          (tt, ((((λ e. absurd (omega (arith, e))), tt), omega arith), tt)),
        ),
      )
      (omega arith)
