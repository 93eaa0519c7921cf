-- ===== src/Character/Values.antt =====
-- The values of a character: what is set is read back, and nothing else changes.
use boris.Prelude.{
  ℕ, ◌%◌, ◌^◌, ◌≡◌, ◌∙◌, sym, refl, ap, Bool-cases, inl, inr, true, false, Option, none, some, List,
  [], ◌∷◌, ◌++◌, if◌then◌else◌, Bytes, same_text, same_text_refl, not_both, Option-cases, bytes_eq,
  bytes_eq_refl, bytes_eq_sound, arith,
}
use mathlib.Core.Path.{subst}
use boris.Attr.{AttrEntry, attr_find, attr_add, replace_value, parse_attr}
use boris.Character.{
  value_of, Value, uint, str, Character, attrinfo, value_set, set_in, set_extra, character_attr_set,
  value_get, get_in, get_extra, character_attr_get,
}

same_text-bytes_eq : (a b : Bytes) → same_text a b ≡ false → bytes_eq a b ≡ false
same_text-bytes_eq a b h = elim (Bool-cases (bytes_eq a b)) [
  | inr e ↦ e
  | inl e ↦
      let bad : true ≡ false =
        sym (same_text_refl a) ∙ ap (same_text a) (bytes_eq_sound a b e) ∙ h in
      absurd (cc)
]

found_added :
    (al : List AttrEntry) (name value : Bytes)
    → attr_find al name ≡ none
    → value_of (attr_find (al ++ (record { name = name; value = value }) ∷ []) name) ≡ some value
unfolding attr_find
found_added [] name value h = rw (bytes_eq_refl name) refl
found_added (at ∷ al) name value h = ground (arith, found_added al name value)

found_replaced :
    (al : List AttrEntry) (name value : Bytes) (at : AttrEntry)
    → attr_find al name ≡ some at
    → value_of (attr_find (replace_value al name value) name) ≡ some value
unfolding attr_find replace_value
found_replaced [] name value at h = cc
found_replaced (curr ∷ al) name value at h = ground (arith, found_replaced al name value at)

other_added :
    (al : List AttrEntry) (name value other : Bytes)
    → bytes_eq name other ≡ false
    → attr_find (al ++ (record { name = name; value = value }) ∷ []) other ≡ attr_find al other
unfolding attr_find
other_added [] name value other h = rw h refl
other_added (at ∷ al) name value other h = ground (arith, other_added al name value other)

other_replaced :
    (al : List AttrEntry) (name value other : Bytes)
    → bytes_eq name other ≡ false
    → value_of (attr_find (replace_value al name value) other) ≡ value_of (attr_find al other)
unfolding attr_find replace_value
other_replaced [] name value other h = refl
other_replaced (curr ∷ al) name value other h = elim (Bool-cases (bytes_eq curr.name name)) [
  | inl this ↦
      let same : curr.name ≡ name = bytes_eq_sound curr.name name this in
      let ne : bytes_eq curr.name other ≡ false =
        subst (λ n. bytes_eq n other ≡ false) (sym same) h in
      rw this (simp ne)
  | inr another ↦ rw another (ground (arith, other_replaced al name value other h))
]

parse_new :
    (al : List AttrEntry) (name value : Bytes)
    → attr_find al name ≡ none
    → (parse_attr name value al).1 ≡ al ++ (record { name = name; value = value }) ∷ []
unfolding parse_attr attr_add
parse_new al name value e = ground arith

parse_old :
    (al : List AttrEntry) (name value : Bytes) (at : AttrEntry)
    → attr_find al name ≡ some at
    → (parse_attr name value al).1 ≡ replace_value al name value
unfolding parse_attr
parse_old al name value at e = ground arith

-- an attribute list after `parse_attr`
parse_attr_lem :
    (al : List AttrEntry) (name value other : Bytes)
    → bytes_eq name other ≡ false
    → (value_of (attr_find (parse_attr name value al).1 name) ≡ some value)
      × (value_of (attr_find (parse_attr name value al).1 other) ≡ value_of (attr_find al other))
parse_attr_lem al name value other h = elim (Option-cases (attr_find al name)) [
  | inl e ↦
      rw (parse_new al name value e)
        (found_added al name value e, ap value_of (other_added al name value other h))
  | inr (at, e) ↦
      rw (parse_old al name value at e)
        (found_replaced al name value at e, other_replaced al name value other h)
]

module _ (strtoul : Bytes → ℕ × Bytes) (decimal : ℕ → Bytes) where
  -- how a value that was set is shown: a number as it is printed, a text as it is
  pub shown_value : Bytes → Value → Bytes
  shown_value value (uint old) = decimal ((strtoul value).0 % 2 ^ 32)
  shown_value value (str old) = value

  -- the same by the name; a name that is not in the table stands for a text
  pub shown : List Bytes → List Value → Bytes → Bytes → Bytes
  shown [] values name value = value
  shown (n ∷ names) [] name value = value
  shown (n ∷ names) (v ∷ values) name value =
      if same_text name n then shown_value value v else shown names values name value

  value_set_lem :
      (value : Bytes) (v : Value)
      → (value_set strtoul value v).0 ≡ 1
      → value_get decimal (value_set strtoul value v).1 ≡ some (shown_value value v)
  unfolding value_set value_get shown_value
  value_set_lem value (uint old) h = ground arith
  value_set_lem value (str old) h = refl

  unset :
      (names : List Bytes) (values : List Value) (name value : Bytes)
      → set_in strtoul names values name value ≡ none
      → (get_in decimal names values name ≡ none) × (shown names values name value ≡ value)
  unfolding set_in get_in shown
  unset [] values name value h = (refl, refl)
  unset (n ∷ names) [] name value h = (refl, refl)
  unset (n ∷ names) (v ∷ values) name value h = elim (Bool-cases (same_text name n)) [
    | inl found ↦ let bad = rw found at h in absurd (cc)
    | inr other ↦ elim (Option-cases (set_in strtoul names values name value)) [
      | inl e ↦ rw other (unset names values name value e)
      | inr (r, e) ↦ let bad = rw (other, e) at h in absurd (cc)
    ]
  ]

  -- the table behind a value that was set
  record WasSet (names : List Bytes) (values values' : List Value) (name value other : Bytes)
      : Type 0 where
    same : get_in decimal names values' name ≡ some (some (shown names values name value))
    others : get_in decimal names values' other ≡ get_in decimal names values other

  was_set :
      (names : List Bytes) (values : List Value) (name value other : Bytes) (r : ℕ × List Value)
      → same_text name other ≡ false
      → set_in strtoul names values name value ≡ some r
      → r.0 ≡ 1
      → WasSet names values r.1 name value other
  unfolding set_in get_in shown
  was_set [] values name value other r d h one = absurd (cc)
  was_set (n ∷ names) [] name value other r d h one = absurd (cc)
  was_set (n ∷ names) (v ∷ values) name value other r d h one =
      elim (Bool-cases (same_text name n)) [
        | inl found ↦
            let set = value_set strtoul value v in
            let q : some (set.0, set.1 ∷ values) ≡ some r = rw found at h in
            let p : (set.0, set.1 ∷ values) ≡ r = cc in
            let took : set.0 ≡ 1 = ap (λ (u : ℕ × List Value). u.0) p ∙ one in
            let apart : same_text other n ≡ false = not_both name other n found d in
            subst (λ (u : ℕ × List Value). WasSet (n ∷ names) (v ∷ values) u.1 name value other) p
              (record {
                same = rw found (ap (λ (o : Option Bytes). some o) (value_set_lem value v took));
                others = rw apart refl;
              })
        | inr another ↦ elim (Option-cases (set_in strtoul names values name value)) [
          | inl e ↦ let bad : none ≡ some r = rw (another, e) at h in absurd (cc)
          | inr (r', e) ↦
              let q : some (r'.0, v ∷ r'.1) ≡ some r = rw (another, e) at h in
              let p : (r'.0, v ∷ r'.1) ≡ r = cc in
              let ih =
                was_set names values name value other r' d e
                  (ap (λ (u : ℕ × List Value). u.0) p ∙ one) in
              subst (λ (u : ℕ × List Value). WasSet (n ∷ names) (v ∷ values) u.1 name value other) p
                (record { same = rw another ih.same; others = ground (arith, ih.others) })
        ]
      ]

  get_extra-other :
      (al al' : List AttrEntry) (other : Bytes) (o : Option (Option Bytes))
      → value_of (attr_find al other) ≡ value_of (attr_find al' other)
      → get_extra decimal al other o ≡ get_extra decimal al' other o
  unfolding get_extra
  get_extra-other al al' other none h = h
  get_extra-other al al' other (some s) h = refl

  -- A value that `character_attr_set` takes is what `character_attr_get` shows by that name: a
  -- number as it is printed, a text as it is. What it shows by a name that differs in more than case has
  -- not changed.
  pub character_attr_get-set :
      (ch : Character) (name value other : Bytes)
      → (character_attr_set strtoul ch name value).0 ≡ 1
      → same_text name other ≡ false
      → (character_attr_get decimal (character_attr_set strtoul ch name value).1 name
          ≡ some (shown attrinfo ch.values name value))
        × (character_attr_get decimal (character_attr_set strtoul ch name value).1 other
            ≡ character_attr_get decimal ch other)
  unfolding character_attr_get character_attr_set set_extra get_extra
  character_attr_get-set ch name value other h d =
      elim (Option-cases (set_in strtoul attrinfo ch.values name value)) [
        | inl e ↦
            let (nothing, text) = unset attrinfo ch.values name value e in
            let (read, kept) =
              parse_attr_lem ch.extra_values name value other (same_text-bytes_eq name other d) in
            rw (e, nothing, text)
              (
                read,
                get_extra-other (parse_attr name value ch.extra_values).1 ch.extra_values other
                    (get_in decimal attrinfo ch.values other) kept,
              )
        | inr (r, e) ↦
            let one : r.0 ≡ 1 =
              ap (λ (u : ℕ × Character). u.0) (sym (ap (set_extra strtoul ch name value) e)) ∙ h in
            let now = was_set attrinfo ch.values name value other r d e one in
            rw e (rw (now.same, now.others) (refl, refl))
      ]
