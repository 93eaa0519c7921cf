-- ===== src/Channel/Broadcast.antt =====
-- Who is sent a message, and what is left of a channel that is closed.
use boris.Prelude.{
  ℕ, zero, suc, ◌+◌, ◌-◌, ◌≤◌, ◌<◌, ◌≡◌, ◌∙◌, refl, ap, inl, inr, Bool, not, ◌&&◌, some, List, [],
  ◌∷◌, map, arith, ◌==◌, if◌then◌else◌, Bool-cases, get_or, occurrences, occurrences_next, once,
  Bytes, take, All,
}
use boris.Channel.{
  Channel, okay, channel_delete_member, channel_init, fill_hole, close_loop, close_step,
  channel_close, broadcast_loop, channel_vbroadcast, is_on_list,
}
use boris.Channel.Member.{
  memberships, is_member, IsValid, channel_find_member_lem, fill_hole-IsValid, member_pos,
  part_found,
}

-- how many of the calls are made for `cm`
pub sent_to : ℕ → List (ℕ × Bytes) → ℕ
sent_to cm [] = 0
sent_to cm ((c, msg) ∷ calls) = once c cm + sent_to cm calls

null_member : (ch : Channel) (cm : ℕ) → IsValid ch → cm ≡ 0 → memberships ch cm ≡ 0
null_member ch cm v e = ap (memberships ch) e ∙ v.named

map-All :
    (msg : Bytes) (cs : List ℕ) → All (λ (call : ℕ × Bytes). call.1 ≡ msg) (map (λ c. (c, msg)) cs)
map-All msg [] = tt
map-All msg (c ∷ cs) = (refl, map-All msg cs)

module _ (sends : ℕ → Bool) (exclude_list : List ℕ) where
  -- is a member sent the messages?
  abbrev pub is_addressed : ℕ → Bool
  is_addressed cm = not (cm == 0) && sends cm && not (is_on_list cm exclude_list)

  one_call :
      (c cm : ℕ) (msg : Bytes) (rest : List ℕ)
      → sent_to cm (map (λ d. (d, msg)) (if is_addressed c then c ∷ rest else rest))
        ≡ (if is_addressed cm then once c cm else 0) + sent_to cm (map (λ d. (d, msg)) rest)
  unfolding sent_to
  one_call c cm msg rest = elim (Bool-cases (c == cm)) [
    | inl same ↦
        let e : c ≡ cm = ground arith in
        ground (arith, ap sends e, ap (λ (x : ℕ). is_on_list x exclude_list) e)
    | inr other ↦ ground arith
  ]

  broadcast_loop_lem :
      (left i : ℕ) (ch : Channel) (msg : Bytes) (cm : ℕ)
      → sent_to cm (map (λ c. (c, msg)) (broadcast_loop sends left i ch exclude_list))
          + (if is_addressed cm then occurrences ch.member i cm else 0)
        ≡ (if is_addressed cm then occurrences ch.member (i + left) cm else 0)
  unfolding broadcast_loop sent_to occurrences
  broadcast_loop_lem zero i ch msg cm = let e : i + 0 ≡ i = omega arith in rw e (omega arith)
  broadcast_loop_lem (suc left) i ch msg cm =
      let e : i + suc left ≡ i + 1 + left = omega arith in
      let ih = broadcast_loop_lem left (i + 1) ch msg cm in
      rw e (
        ground (
          arith,
          one_call (get_or ch.member i 0) cm msg
              (broadcast_loop sends left (i + 1) ch exclude_list),
          occurrences_next ch.member i cm,
        ))

  -- A broadcast to a well-formed channel succeeds. It sends each member whose `send` is set and that is not
  -- on the list one message, the text cut to 1023 bytes, and it sends nothing to anyone else.
  pub broadcast_correct :
      (ch : Channel) (text : Bytes) (cm : ℕ)
      → IsValid ch
      → let r = channel_vbroadcast sends (some ch) exclude_list text in
        (r.0 ≡ okay)
        × (sent_to cm (r.1)
            ≡ (if is_member ch cm && (sends cm && not (is_on_list cm exclude_list)) then 1 else 0))
        × All (λ (call : ℕ × Bytes). call.1 ≡ take 1023 text) (r.1)
  unfolding channel_vbroadcast occurrences
  broadcast_correct ch text cm v =
      let msg : Bytes = take 1023 text in
      let e : 0 + ch.nr_member ≡ ch.nr_member = omega arith in
      let total = broadcast_loop_lem ch.nr_member 0 ch msg cm in
      (
        refl,
        ground (
          arith,
          total,
          ap (λ (n : ℕ). occurrences ch.member n cm) e,
          v.single cm,
          null_member ch cm v,
        ),
        map-All msg (broadcast_loop sends ch.nr_member 0 ch exclude_list),
      )

close_found :
    (ch : Channel)
    → IsValid ch
    → 0 < ch.nr_member
    → (i : ℕ) × (i < ch.nr_member)
      × (channel_delete_member ch (get_or ch.member 0 0) ≡ (okay, fill_hole ch i))
close_found ch v h = elim (channel_find_member_lem ch (get_or ch.member 0 0)) [
  | inl f ↦ (f.0, f.2, part_found ch (get_or ch.member 0 0) (f.0) (f.1))
  | inr f ↦ let pos = member_pos ch 0 (get_or ch.member 0 0) h refl in absurd (omega (arith, f.1))
]

close_init : (rounds : ℕ) → close_loop rounds channel_init ≡ channel_init
unfolding close_loop
close_init zero = refl
close_init (suc rounds) = refl

fill_hole_last : (ch : Channel) (i : ℕ) → ch.nr_member ≡ 1 → fill_hole ch i ≡ channel_init
unfolding fill_hole
fill_hole_last ch i e = ground arith

fill_hole_more : (ch : Channel) (i : ℕ) → (fill_hole ch i).nr_member ≡ ch.nr_member - 1
unfolding fill_hole
fill_hole_more ch i = refl

close_round :
    (rounds : ℕ) (ch : Channel) (i : ℕ)
    → 0 < ch.nr_member
    → channel_delete_member ch (get_or ch.member 0 0) ≡ (okay, fill_hole ch i)
    → close_loop (suc rounds) ch ≡ close_loop rounds (fill_hole ch i)
unfolding close_loop
close_round rounds ch i h e = ground (arith, ap (close_step (close_loop rounds)) e)

close_empties :
    (rounds : ℕ) (ch : Channel)
    → IsValid ch
    → ch.nr_member ≤ rounds
    → 0 < ch.nr_member
    → close_loop rounds ch ≡ channel_init
close_empties zero ch v f h = absurd (omega arith)
close_empties (suc rounds) ch v f h =
    let r = close_found ch v h in
    let e : close_loop (suc rounds) ch ≡ close_loop rounds (fill_hole ch (r.0)) =
      close_round rounds ch (r.0) h (r.2) in
    elim (Bool-cases (ch.nr_member == 1)) [
      | inl one ↦
          e ∙ ap (close_loop rounds) (fill_hole_last ch (r.0) (ground arith)) ∙ close_init rounds
      | inr more ↦
          let less = fill_hole_more ch (r.0) in
          e
          ∙ close_empties rounds (fill_hole ch (r.0)) (fill_hole-IsValid ch (r.0) v (r.1))
              (omega arith) (ground arith)
    ]

-- `channel_close` of a well-formed channel with members takes every member out and frees the array.
close_correct :
    (ch : Channel)
    → IsValid ch
    → 0 < ch.nr_member
    → channel_close (some ch) ≡ (okay, some channel_init)
unfolding channel_close
close_correct ch v h = ap (λ c. (okay, some c)) (close_empties ch.nr_member ch v (omega arith) h)
