-- ===== src/Channel/Member.antt =====
-- Membership: a channel as a set that `channel_join` and `channel_part` change.
use boris.Prelude.{
  ℕ, zero, suc, ◌+◌, ◌-◌, ◌≤◌, ◌<◌, ◌≡◌, ◌≢◌, ◌⊎◌, ◌∙◌, sym, refl, ap, inl, inr, Bool, true, false,
  not, ◌&&◌, ◌||◌, none, some, List, [], ◌∷◌, ◌++◌, arith, ◌==◌, if◌then◌else◌, ltb, Bool-cases,
  get_or, set, take, length, length-set, length-take, length-append, occurrences, once,
  occurrences_pos, replaced, occurrences-append_last,
}
use boris.Channel.{
  Channel, okay, failed, find_loop, channel_find_member, channel_add_member, channel_delete_member,
  append_member, fill_hole, channel_init,
}

-- how often `cm` is a member
abbrev pub memberships : Channel → ℕ → ℕ
memberships ch cm = occurrences ch.member ch.nr_member cm

-- no one is a member twice, and the array holds all members
pub record IsValid (ch : Channel) : Type 0 where
  pub holds : ch.nr_member ≤ length ch.member
  pub single : (cm : ℕ) → memberships ch cm ≤ 1
  pub named : memberships ch 0 ≡ 0

pub init-IsValid : IsValid channel_init
unfolding occurrences
init-IsValid = record { holds = omega arith; single = λ cm. omega arith; named = refl }

absent :
    (i : ℕ) (ch : Channel) (cm : ℕ)
    → ((j : ℕ) → j < i → get_or ch.member j 0 ≢ cm)
    → occurrences ch.member (i + 0) cm ≡ 0
unfolding occurrences
absent zero ch cm f = refl
absent (suc i) ch cm f =
    let ne = f i (omega arith) in ground (arith, absent i ch cm (λ j p. f j (omega arith)))

-- what a search finds: the first of the `left` entries from `i` on
find_loop_lem :
    (left i : ℕ) (ch : Channel) (cm : ℕ)
    → ((j : ℕ) → j < i → get_or ch.member j 0 ≢ cm)
    → ((j : ℕ) × (find_loop left i ch cm ≡ some j) × (j < i + left) × (get_or ch.member j 0 ≡ cm))
      ⊎ ((find_loop left i ch cm ≡ none) × (occurrences ch.member (i + left) cm ≡ 0))
unfolding find_loop occurrences
find_loop_lem zero i ch cm before = inr (refl, absent i ch cm before)
find_loop_lem (suc left) i ch cm before = elim (Bool-cases (get_or ch.member i 0 == cm)) [
  | inl here ↦ inl (i, rw here refl, omega arith, ground arith)
  | inr other ↦
      let below : (j : ℕ) → j < i + 1 → get_or ch.member j 0 ≢ cm = λ j p e.
        elim (Bool-cases (ltb j i)) [
          | inl lt ↦ before j (ground arith) e
          | inr ge ↦
              let same : j ≡ i = ground arith in
              let e' : get_or ch.member i 0 ≡ cm =
                ap (λ (n : ℕ). get_or ch.member n 0) (sym same) ∙ e in
              ground arith
        ] in
      elim (find_loop_lem left (i + 1) ch cm below) [
        | inl r ↦ inl (r.0, rw other (r.1), omega (arith, r.2), r.3)
        | inr r ↦
            let e : i + 1 + left ≡ i + suc left = omega arith in
            inr (rw other (r.0), ap (λ (n : ℕ). occurrences ch.member n cm) (sym e) ∙ r.1)
      ]
]

pub channel_find_member_lem :
    (ch : Channel) (cm : ℕ)
    → ((i : ℕ) × (channel_find_member ch cm ≡ some i)
        × (i < ch.nr_member)
        × (get_or ch.member i 0 ≡ cm))
      ⊎ ((channel_find_member ch cm ≡ none) × (memberships ch cm ≡ 0))
unfolding channel_find_member
channel_find_member_lem ch cm =
    let r = find_loop_lem ch.nr_member 0 ch cm (λ j p. absurd (omega arith)) in
    elim r [
      | inl f ↦ inl (f.0, f.1, omega (arith, f.2), f.3)
      | inr f ↦
          let e : 0 + ch.nr_member ≡ ch.nr_member = omega arith in
          inr (f.0, ap (λ (n : ℕ). occurrences ch.member n cm) (sym e) ∙ f.1)
    ]

length-append_member :
    (n : ℕ) (xs : List ℕ) (v : ℕ) → n ≤ length xs → length (take n xs ++ v ∷ []) ≡ n + 1
length-append_member n xs v h = omega (arith, length-append (take n xs) (v ∷ []), length-take n xs)

append_member_lem :
    (ch : Channel) (cm x : ℕ)
    → IsValid ch
    → memberships (append_member ch cm) x ≡ memberships ch x + once cm x
unfolding append_member
append_member_lem ch cm x v =
    ap (λ (n : ℕ). occurrences (take ch.nr_member ch.member ++ cm ∷ []) n x) (omega arith)
    ∙ occurrences-append_last ch.member ch.nr_member cm x v.holds

append_member-IsValid :
    (ch : Channel) (cm : ℕ)
    → IsValid ch
    → memberships ch cm ≡ 0
    → cm ≢ 0
    → IsValid (append_member ch cm)
unfolding append_member
append_member-IsValid ch cm v out ne = record {
  holds = omega (arith, length-append_member ch.nr_member ch.member cm v.holds);
  single = λ x. elim (Bool-cases (cm == x)) [
    | inl same ↦
        let e : cm ≡ x = ground arith in
        let out' : memberships ch x ≡ 0 = ap (memberships ch) (sym e) ∙ out in
        ground (arith, append_member_lem ch cm x v)
    | inr other ↦ ground (arith, append_member_lem ch cm x v, v.single x)
  ];
  named = ground (arith, append_member_lem ch cm 0 v, v.named);
}

emptied : (xs ys : List ℕ) (n x : ℕ) → n ≡ 0 → occurrences xs n x ≡ occurrences ys n x
unfolding occurrences
emptied xs ys zero x e = refl
emptied xs ys (suc n) x e = absurd (omega arith)

fill_hole_lem :
    (ch : Channel) (i x : ℕ)
    → IsValid ch
    → i < ch.nr_member
    → memberships (fill_hole ch i) x + once (get_or ch.member i 0) x ≡ memberships ch x
unfolding fill_hole
fill_hole_lem ch i x v h =
    let last : ℕ = ch.nr_member - 1 in
    let e : suc last ≡ ch.nr_member = omega arith in
    let r : occurrences (set ch.member i (get_or ch.member last 0)) last x
          + once (get_or ch.member i 0) x
        ≡ memberships ch x =
      replaced ch.member last i x (omega arith) (omega (arith, v.holds))
      ∙ ap (λ (n : ℕ). occurrences ch.member n x) e in
    elim (Bool-cases (last == 0)) [
      | inl one ↦ rw one (
          ap (λ (n : ℕ). n + once (get_or ch.member i 0) x)
            (emptied [] (set ch.member i (get_or ch.member last 0)) last x (ground arith))
          ∙ r)
      | inr more ↦ rw more r
    ]

pub fill_hole-IsValid :
    (ch : Channel) (i : ℕ) → IsValid ch → i < ch.nr_member → IsValid (fill_hole ch i)
unfolding fill_hole
fill_hole-IsValid ch i v h = record {
  holds = ground (arith, v.holds, length-set ch.member i (get_or ch.member (ch.nr_member - 1) 0));
  single = λ x. omega (arith, fill_hole_lem ch i x v h, v.single x);
  named = omega (arith, fill_hole_lem ch i 0 v h, v.named);
}

-- is `cm` a member?
abbrev pub is_member : Channel → ℕ → Bool
is_member ch cm = not (memberships ch cm == 0)

pub member_pos :
    (ch : Channel) (i cm : ℕ) → i < ch.nr_member → get_or ch.member i 0 ≡ cm → 0 < memberships ch cm
member_pos ch i cm h e = omega (
  arith,
  occurrences_pos ch.member ch.nr_member i h,
  ap (λ (x : ℕ). occurrences ch.member ch.nr_member x) e,
)

join_refused :
    (memory : Bool) (ch : Channel) (cm i : ℕ)
    → cm ≢ 0
    → channel_find_member ch cm ≡ some i
    → channel_add_member memory ch cm ≡ (0, ch)
unfolding channel_add_member
join_refused memory ch cm i ne e = ground arith

join_new :
    (memory : Bool) (ch : Channel) (cm : ℕ)
    → cm ≢ 0
    → channel_find_member ch cm ≡ none
    → channel_add_member memory ch cm ≡ (if memory then (1, append_member ch cm) else (0, ch))
unfolding channel_add_member
join_new memory ch cm ne e = ground arith

added :
    (memory : Bool) (ch : Channel) (cm : ℕ)
    → IsValid ch
    → cm ≢ 0
    → memberships ch cm ≡ 0
    → let r : ℕ × Channel = if memory then (1, append_member ch cm) else (0, ch) in
      let new = memory && not (is_member ch cm) in
      IsValid (r.1)
      × (r.0 ≡ (if new then 1 else 0))
      × ((x : ℕ) → is_member (r.1) x ≡ (is_member ch x || (new && (cm == x))))
      × (new ≡ false → r.1 ≡ ch)
added true ch cm v ne out = (
  append_member-IsValid ch cm v out ne,
  ground arith,
  λ x. ground (arith, append_member_lem ch cm x v),
  λ e. ground arith,
)
added false ch cm v ne out = (v, ground arith, (λ x. ground arith), λ e. refl)

-- `channel_join` of an address that is not NULL keeps the channel well-formed: it adds exactly that
-- member and returns 1 if it is none yet and there is memory, and else changes nothing and returns 0.
pub join_correct :
    (memory : Bool) (ch : Channel) (cm : ℕ)
    → IsValid ch
    → cm ≢ 0
    → let r = channel_add_member memory ch cm in
      let new = memory && not (is_member ch cm) in
      IsValid (r.1)
      × (r.0 ≡ (if new then 1 else 0))
      × ((x : ℕ) → is_member (r.1) x ≡ (is_member ch x || (new && (cm == x))))
      × (new ≡ false → r.1 ≡ ch)
join_correct memory ch cm v ne = elim (channel_find_member_lem ch cm) [
  | inl f ↦
      let pos : 0 < memberships ch cm = member_pos ch (f.0) cm (f.2) (f.3) in
      rw (join_refused memory ch cm (f.0) ne (f.1))
        (v, ground arith, (λ x. ground arith), (λ e. refl))
  | inr f ↦ rw (join_new memory ch cm ne (f.0)) (added memory ch cm v ne (f.1))
]

pub part_found :
    (ch : Channel) (cm i : ℕ)
    → channel_find_member ch cm ≡ some i
    → channel_delete_member ch cm ≡ (okay, fill_hole ch i)
unfolding channel_delete_member
part_found ch cm i e = ground arith

part_none :
    (ch : Channel) (cm : ℕ)
    → channel_find_member ch cm ≡ none
    → channel_delete_member ch cm ≡ (failed, ch)
unfolding channel_delete_member
part_none ch cm e = ground arith

left_out :
    (ch : Channel) (i cm x : ℕ)
    → IsValid ch
    → i < ch.nr_member
    → get_or ch.member i 0 ≡ cm
    → is_member (fill_hole ch i) x ≡ (is_member ch x && not (cm == x))
left_out ch i cm x v h e =
    let r : memberships (fill_hole ch i) x + once cm x ≡ memberships ch x =
      ap (λ (c : ℕ). memberships (fill_hole ch i) x + once c x) (sym e)
      ∙ fill_hole_lem ch i x v h in
    ground (arith, v.single x)

-- `channel_part` of a member takes out exactly that member, and else changes nothing; the channel stays
-- well-formed.
pub part_correct :
    (ch : Channel) (cm : ℕ)
    → IsValid ch
    → let r = channel_delete_member ch cm in
      IsValid (r.1)
      × (r.0 ≡ (if is_member ch cm then okay else failed))
      × ((x : ℕ) → is_member (r.1) x ≡ (is_member ch x && not (cm == x)))
      × (is_member ch cm ≡ false → r.1 ≡ ch)
part_correct ch cm v = elim (channel_find_member_lem ch cm) [
  | inl f ↦
      let pos : 0 < memberships ch cm = member_pos ch (f.0) cm (f.2) (f.3) in
      let r : channel_delete_member ch cm ≡ (okay, fill_hole ch (f.0)) =
        part_found ch cm (f.0) (f.1) in
      rw r (
        fill_hole-IsValid ch (f.0) v (f.2),
        ground arith,
        (λ x. left_out ch (f.0) cm x v (f.2) (f.3)),
        (λ e. ground arith),
      )
  | inr f ↦ rw (part_none ch cm (f.0)) (
    v,
    ground arith,
    (λ x. elim (Bool-cases (cm == x)) [
      | inl same ↦
          let e : cm ≡ x = ground arith in
          let out : memberships ch x ≡ 0 = ap (memberships ch) (sym e) ∙ f.1 in ground arith
      | inr other ↦ ground arith
    ]),
    (λ e. refl),
  )
]
