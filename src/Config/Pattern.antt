-- ===== src/Config/Pattern.antt =====
-- `util_fnmatch` against what a shell pattern means.
use boris.Prelude.{
  ℕ, ◌≡◌, ◌≢◌, refl, Bool, true, false, ◌&&◌, ◌||◌, [], ◌∷◌, arith, ◌==◌, if◌then◌else◌, Bytes,
  head, Bool-cases, inl, inr,
}
use boris.Config.{same_byte, star_loop, util_fnmatch}

abbrev pub is_empty : Bytes → Bool
is_empty [] = true
is_empty (c ∷ s) = false

-- does some end of the string match?
unfoldable pub some_end : (Bytes → Bool) → Bytes → Bool
some_end matches [] = matches []
some_end matches (c ∷ s) = matches (c ∷ s) || some_end matches s

-- `*` stands for any bytes and `?` for one; any other byte stands for itself
unfoldable pub shell_match : Bool → Bytes → Bytes → Bool
unfolding some_end
shell_match fold [] s = is_empty s
shell_match fold (c ∷ p) [] = (c == b'*') && shell_match fold p []
shell_match fold (c ∷ p) (d ∷ s) =
    if c == b'*'
    then some_end (shell_match fold p) (d ∷ s)
    else ((c == b'?') || same_byte fold d c) && shell_match fold p s

-- a byte that a pattern means something by that `util_fnmatch` knows
abbrev pub IsKnown : ℕ → Type 0
IsKnown c = (c ≢ 0) × (c ≢ b'[') × (c ≢ b']') × (c ≢ 92)

-- neither brackets nor backslashes, and no `*` is followed by another or by `?`
unfoldable pub IsSimple : Bytes → Type 0
IsSimple [] = Unit {0}
IsSimple (c ∷ p) = IsKnown c × (c ≡ b'*' → (head p ≢ b'*') × (head p ≢ b'?')) × IsSimple p

some_end_empty : (s : Bytes) → some_end is_empty s ≡ true
unfolding some_end
some_end_empty [] = refl
some_end_empty (c ∷ s) = some_end_empty s

module _ (fold : Bool) where
  ends_alike : (s : Bytes) → some_end (shell_match fold []) s ≡ some_end is_empty s
  unfolding some_end shell_match
  ends_alike [] = refl
  ends_alike (d ∷ s) = ends_alike s

  star_loop_lem :
      (n : ℕ) (p : Bytes) (matches : Bytes → Bool)
      → n ≢ b'*'
      → n ≢ b'?'
      → ((s : Bytes) → matches s ≡ shell_match fold (n ∷ p) s)
      → (s : Bytes) → star_loop fold n matches s ≡ some_end (shell_match fold (n ∷ p)) s
  unfolding star_loop some_end shell_match
  star_loop_lem n p matches h k same [] = ground arith
  star_loop_lem n p matches h k same (d ∷ s) =
      ground (arith, same (d ∷ s), star_loop_lem n p matches h k same s)

  -- On a pattern without brackets and backslashes in which no `*` is followed by another or by `?`,
  -- `util_fnmatch` finds a match exactly
  -- when the string is what the pattern stands for: any bytes for each `*`, one for each `?`, and its own
  -- byte, or with UTIL_FNM_CASEFOLD its other case, for each other byte.
  pub fnmatch-shell_match :
      (p s : Bytes) → IsSimple p → util_fnmatch fold p s ≡ shell_match fold p s
  unfolding util_fnmatch shell_match IsSimple
  fnmatch-shell_match [] [] h = refl
  fnmatch-shell_match [] (d ∷ s) h = refl
  fnmatch-shell_match (c ∷ []) [] h = ground arith
  fnmatch-shell_match (c ∷ []) (d ∷ s) h =
      ground (arith, some_end_empty (d ∷ s), ends_alike (d ∷ s), fnmatch-shell_match [] s (h.2))
  fnmatch-shell_match (c ∷ n ∷ p) [] h = ground (arith, fnmatch-shell_match (n ∷ p) [] (h.2))
  fnmatch-shell_match (c ∷ n ∷ p) (d ∷ s) h = elim (Bool-cases (c == b'*')) [
    | inl star ↦
        let apart = h.1 (ground arith) in
        rw star (
          ground (
            arith,
            star_loop_lem n p (util_fnmatch fold (n ∷ p)) (apart.0) (apart.1)
                (λ t. fnmatch-shell_match (n ∷ p) t (h.2)) (d ∷ s),
          ))
    | inr other ↦ ground (arith, fnmatch-shell_match (n ∷ p) s (h.2))
  ]
