-- ===== src/Config/Line.antt =====
-- Lines of a configuration file: what is written is read back.
use boris.Prelude.{
  ℕ, ◌≡◌, ◌≢◌, ◌∙◌, sym, refl, ap, false, some, [], ◌∷◌, ◌++◌, append_assoc, arith, Bytes, head,
  isspace, All, All-append, IsBlank, strip_right_ends, strip_right_blank, strip_right_space,
  strip_right_solid, skip_space_blank, IsSolid, skip_space, strip_right,
}
use boris.Config.{
  directive, strip_comment, cut_at, end_quote, read_value, split_directive, read_directive,
}

-- a byte of a name: none that ends it, starts a comment or a quote, or is stripped
abbrev pub IsPlain : ℕ → Type 0
IsPlain c =
    (isspace c ≡ false) × (c ≢ 0) × (c ≢ b'#') × (c ≢ b'/') × (c ≢ b'=') × (c ≢ b'"') × (c ≢ 39)

-- a byte of a value in quotes
abbrev pub IsQuotable : ℕ → Type 0
IsQuotable c = c ≢ b'"'

strip_comment-plain :
    (id rest : Bytes) → All IsPlain id → strip_comment 0 (id ++ rest) ≡ id ++ strip_comment 0 rest
unfolding strip_comment
strip_comment-plain [] rest h = refl
strip_comment-plain (c ∷ id) rest h = ground (arith, strip_comment-plain id rest (h.1))

strip_comment-quoted :
    (value rest : Bytes)
    → All IsQuotable value
    → strip_comment b'"' (value ++ rest) ≡ value ++ strip_comment b'"' rest
unfolding strip_comment
strip_comment-quoted [] rest h = refl
strip_comment-quoted (c ∷ value) rest h = ground (arith, strip_comment-quoted value rest (h.1))

cut_at-append :
    (d : ℕ) (front rest : Bytes)
    → All (λ c. c ≢ d) front
    → cut_at d (front ++ d ∷ rest) ≡ some (front, rest)
unfolding cut_at
cut_at-append d [] rest h = ground arith
cut_at-append d (c ∷ front) rest h = ground (arith, cut_at-append d front rest (h.1))

strip_comment-blank :
    (pad rest : Bytes) → IsBlank pad → strip_comment 0 (pad ++ rest) ≡ pad ++ strip_comment 0 rest
unfolding strip_comment
strip_comment-blank [] rest h = refl
strip_comment-blank (c ∷ pad) rest h = ground (arith, strip_comment-blank pad rest (h.1))

opened : (s : Bytes) → strip_comment 0 (b'=' ∷ s) ≡ b'=' ∷ strip_comment 0 s
unfolding strip_comment
opened s = refl

quoted : (s : Bytes) → strip_comment 0 (b'"' ∷ s) ≡ b'"' ∷ strip_comment b'"' s
unfolding strip_comment
quoted s = refl

closed : (s : Bytes) → strip_comment b'"' (b'"' ∷ s) ≡ b'"' ∷ strip_comment 0 s
unfolding strip_comment
closed s = refl

-- a name and a value in quotes, with white space round the `=`, and what follows the second quote
abbrev pub setting : Bytes → Bytes → Bytes → Bytes → Bytes → Bytes
setting id pad pad' value tail = id ++ (pad ++ b'=' ∷ (pad' ++ b'"' ∷ (value ++ b'"' ∷ tail)))

IsPlain-All : (id : Bytes) → All IsPlain id → All (λ c. c ≢ b'=') id
IsPlain-All [] h = tt
IsPlain-All (c ∷ id) h = (h.0.4, IsPlain-All id (h.1))

IsPlain-IsSolid : (id : Bytes) → All IsPlain id → All IsSolid id
IsPlain-IsSolid [] h = tt
IsPlain-IsSolid (c ∷ id) h = (h.0.0, IsPlain-IsSolid id (h.1))

IsBlank-All : (pad : Bytes) → IsBlank pad → All (λ c. c ≢ b'=') pad
IsBlank-All [] h = tt
IsBlank-All (c ∷ pad) h = (λ e. ground arith, IsBlank-All pad (h.1))

setting_starts :
    (id pad pad' value : Bytes)
    → All IsPlain id
    → IsBlank pad
    → head (setting id pad pad' value []) ≢ 0
setting_starts [] [] pad' value h k e = absurd (omega (arith, e))
setting_starts [] (c ∷ pad) pad' value h k e = ground arith
setting_starts (c ∷ id) pad pad' value h k e = ground arith

module _ (id pad pad' value tail : Bytes) (name : All IsPlain id) (blank_pad : IsBlank pad)
    (blank_pad' : IsBlank pad') (quotable : All IsQuotable value) where
  strip_comment-setting :
      strip_comment 0 (setting id pad pad' value tail)
      ≡ setting id pad pad' value (strip_comment 0 tail)
  strip_comment-setting =
      strip_comment-plain id (pad ++ b'=' ∷ (pad' ++ b'"' ∷ (value ++ b'"' ∷ tail))) name
      ∙ ap (λ s. id ++ s)
          (strip_comment-blank pad (b'=' ∷ (pad' ++ b'"' ∷ (value ++ b'"' ∷ tail))) blank_pad
            ∙ ap (λ s. pad ++ s)
                (opened (pad' ++ b'"' ∷ (value ++ b'"' ∷ tail))
                  ∙ ap (λ s. b'=' ∷ s)
                      (strip_comment-blank pad' (b'"' ∷ (value ++ b'"' ∷ tail)) blank_pad'
                        ∙ ap (λ s. pad' ++ s)
                            (quoted (value ++ b'"' ∷ tail)
                              ∙ ap (λ s. b'"' ∷ s)
                                  (strip_comment-quoted value (b'"' ∷ tail) quotable
                                    ∙ ap (λ s. value ++ s) (closed tail))))))

  regrouped :
      (t : Bytes)
      → setting id pad pad' value t ≡ (id ++ (pad ++ b'=' ∷ (pad' ++ b'"' ∷ value))) ++ b'"' ∷ t
  regrouped t = simp append_assoc

  strip_right-setting :
      (t : Bytes)
      → strip_right t ≡ []
      → strip_right (setting id pad pad' value t) ≡ setting id pad pad' value []
  strip_right-setting t ends =
      ap strip_right (regrouped t)
      ∙ strip_right_ends (id ++ (pad ++ b'=' ∷ (pad' ++ b'"' ∷ value))) b'"' t refl ends
      ∙ sym (regrouped [])

  id-lacks : All (λ c. c ≢ b'=') (id ++ pad)
  id-lacks = All-append (λ c. c ≢ b'=') id pad (IsPlain-All id name) (IsBlank-All pad blank_pad)

  strip_right-id : strip_right (id ++ pad) ≡ id
  strip_right-id =
      strip_right_space id pad (strip_right_blank pad blank_pad)
      ∙ strip_right_solid id (IsPlain-IsSolid id name)

  split_setting : split_directive (cut_at b'=' (setting id pad pad' value [])) ≡ directive id value
  unfolding split_directive read_value end_quote skip_space
  split_setting =
      let cut : cut_at b'=' (setting id pad pad' value [])
          ≡ some (id ++ pad, pad' ++ b'"' ∷ (value ++ b'"' ∷ [])) =
        ap (cut_at b'=') (sym (append_assoc id pad (b'=' ∷ (pad' ++ b'"' ∷ (value ++ b'"' ∷ [])))))
        ∙ cut_at-append b'=' (id ++ pad) (pad' ++ b'"' ∷ (value ++ b'"' ∷ [])) id-lacks in
      rw
        (
          cut,
          strip_right-id,
          skip_space_blank pad' (b'"' ∷ (value ++ b'"' ∷ [])) blank_pad',
          cut_at-append b'"' value [] quotable,
        )
        refl

  -- A setting that is written with its value in quotes is read back, whatever white space stands round
  -- the `=` and whatever comment follows: the name has no white space, quote, `=`, `#` or `/` in it, and
  -- the value no double quote.
  pub read_directive-setting :
      strip_right (strip_comment 0 tail) ≡ []
      → read_directive (setting id pad pad' value tail) ≡ directive id value
  unfolding read_directive
  read_directive-setting ends =
      let line : Bytes = setting id pad pad' value [] in
      let e : strip_right (strip_comment 0 (setting id pad pad' value tail)) ≡ line =
        ap strip_right strip_comment-setting ∙ strip_right-setting (strip_comment 0 tail) ends in
      rw e (ground (arith, setting_starts id pad pad' value name blank_pad, split_setting))
