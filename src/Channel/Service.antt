-- ===== src/Channel/Service.antt =====
-- The list of public channels, whatever the calls made of the service.
use mathlib.Core.Path.{subst}
use boris.Prelude.{
  sym, ℕ, zero, suc, ◌≡◌, ◌≢◌, ◌∙◌, refl, ap, Bool, true, false, Option, none, some, List, [], ◌∷◌,
  arith, Bytes, if◌then◌else◌, same_text, Option-cases, inl, inr, ◌⊎◌,
}
use boris.Channel.{
  Channel, PublicChannel, Status, okay, failed, channel_init, channel_join, channel_part,
  channel_public_find, channel_public_add, channel_public, channel_vbroadcast, command_do_say,
}
use boris.Channel.Member.{IsValid, init-IsValid, join_correct, part_correct}

abbrev IsNamed : Option Bytes → Type 0
IsNamed none = ⊥
IsNamed (some name) = Unit {0}

-- every channel has a name, which no other has but for case, and is well-formed
pub IsSound : List PublicChannel → Type 0
IsSound [] = Unit {0}
IsSound (cp ∷ list) =
    IsNamed cp.name × IsValid cp.channel × (channel_public_find cp.name list ≡ none) × IsSound list

-- the channel at a position is replaced
pub replace_at : List PublicChannel → ℕ → (Channel → Channel) → List PublicChannel
replace_at [] i f = []
replace_at (cp ∷ list) zero f = (record cp { channel = f cp.channel }) ∷ list
replace_at (cp ∷ list) (suc i) f = cp ∷ replace_at list i f

-- a call of the service: a channel is added, or a member joins or leaves the channel at a position
pub data Step : List PublicChannel → List PublicChannel → Type 0 where
  adds :
      (memory : Bool) (name : Option Bytes) (list : List PublicChannel)
      → Step list (channel_public_add memory name list).1
  joins :
      (memory : Bool) (i cm : ℕ) (list : List PublicChannel)
      → cm ≢ 0
      → Step list (replace_at list i (λ ch. (channel_join memory ch cm).1))
  parts :
      (i cm : ℕ) (list : List PublicChannel)
      → Step list (replace_at list i (λ ch. channel_part ch cm))

pub data Reach : List PublicChannel → Type 0 where
  start : Reach []
  next : {list list' : List PublicChannel} → Reach list → Step list list' → Reach list'

find-replace_at :
    (name : Option Bytes) (list : List PublicChannel) (i : ℕ) (f : Channel → Channel)
    → channel_public_find name (replace_at list i f) ≡ channel_public_find name list
unfolding channel_public_find replace_at
find-replace_at name [] i f = refl
find-replace_at name (cp ∷ list) zero f = refl
find-replace_at name (cp ∷ list) (suc i) f = ground (arith, find-replace_at name list i f)

replace_at-IsSound :
    (list : List PublicChannel) (i : ℕ) (f : Channel → Channel)
    → ((ch : Channel) → IsValid ch → IsValid (f ch))
    → IsSound list
    → IsSound (replace_at list i f)
unfolding IsSound replace_at
replace_at-IsSound [] i f keep s = tt
replace_at-IsSound (cp ∷ list) zero f keep s = (s.0, keep cp.channel (s.1), s.2, s.3)
replace_at-IsSound (cp ∷ list) (suc i) f keep s =
    (s.0, s.1, find-replace_at cp.name list i f ∙ s.2, replace_at-IsSound list i f keep (s.3))

-- a new channel
abbrev named : Bytes → PublicChannel
named name = record { channel = channel_init; name = some name }

add_new :
    (memory : Bool) (name : Bytes) (list : List PublicChannel)
    → channel_public_find (some name) list ≡ none
    → channel_public_add memory (some name) list
      ≡ (if memory then (okay, named name ∷ list) else (failed, list))
unfolding channel_public_add
add_new memory name list e = ground arith

add_known :
    (memory : Bool) (name : Bytes) (list : List PublicChannel) (i : ℕ)
    → channel_public_find (some name) list ≡ some i
    → channel_public_add memory (some name) list ≡ (failed, list)
unfolding channel_public_add
add_known memory name list i e = ground arith

add_null :
    (memory : Bool) (list : List PublicChannel) → (channel_public_add memory none list).1 ≡ list
unfolding channel_public_add
add_null memory list = refl

added :
    (memory : Bool) (name : Bytes) (list : List PublicChannel)
    → channel_public_find (some name) list ≡ none
    → IsSound list
    → let r : Status × List PublicChannel =
        if memory then (okay, named name ∷ list) else (failed, list) in
      IsSound (r.1)
unfolding IsSound
added true name list new s = (tt, init-IsValid, new, s)
added false name list new s = s

add-IsSound :
    (memory : Bool) (name : Option Bytes) (list : List PublicChannel)
    → IsSound list
    → IsSound (channel_public_add memory name list).1
unfolding IsSound
add-IsSound memory none list s = subst (λ r. IsSound r) (sym (add_null memory list)) s
add-IsSound memory (some name) list s = elim (Option-cases (channel_public_find (some name) list)) [
  | inl new ↦ rw (add_new memory name list new) (added memory name list new s)
  | inr known ↦ rw (add_known memory name list (known.0) (known.1)) s
]

-- Whatever calls are made of the service from its start on, with or without memory, each channel has a
-- name that no other has but for case, no one is a member of a channel twice, and each member array
-- holds all members of its channel.
pub Reach-IsSound : (list : List PublicChannel) → Reach list → IsSound list
unfolding IsSound
Reach-IsSound _ start = tt
Reach-IsSound _ (next r (adds memory name list)) =
    add-IsSound memory name list (Reach-IsSound list r)
Reach-IsSound _ (next r (joins memory i cm list ne)) =
    replace_at-IsSound list i (λ ch. (channel_join memory ch cm).1)
      (λ ch v. (join_correct memory ch cm v ne).0) (Reach-IsSound list r)
Reach-IsSound _ (next r (parts i cm list)) =
    replace_at-IsSound list i (λ ch. channel_part ch cm) (λ ch v. (part_correct ch cm v).0)
      (Reach-IsSound list r)

find_null : (list : List PublicChannel) → IsSound list → channel_public_find none list ≡ none
unfolding channel_public_find IsSound
find_null [] s = refl
find_null (cp ∷ list) s = elim (Option-cases cp.name) [
  | inl no_name ↦ absurd (subst IsNamed no_name (s.0))
  | inr n ↦ rw (n.1, find_null list (s.3)) refl
]

public_null :
    (list : List PublicChannel)
    → channel_public_find none list ≡ none
    → channel_public none list ≡ none
unfolding channel_public
public_null list e = ground arith

-- No message of `command_do_say` is sent to anyone: no call of the service makes a channel without a
-- name, which is the channel that the command asks for.
say_unheard :
    (sends : ℕ → Bool) (list : List PublicChannel) (self : ℕ) (said : Bytes)
    → Reach list
    → command_do_say sends list self said ≡ []
unfolding command_do_say channel_vbroadcast
say_unheard sends list self said r =
    ap (λ ch. (channel_vbroadcast sends ch (self ∷ []) said).1)
      (public_null list (find_null list (Reach-IsSound list r)))

public_same :
    (s name : Bytes) (list : List PublicChannel)
    → same_text s name ≡ true
    → channel_public (some s) (named name ∷ list) ≡ some channel_init
unfolding channel_public channel_public_find
public_same s name list h = ground arith

public_other :
    (s name : Bytes) (list : List PublicChannel)
    → same_text s name ≡ false
    → channel_public (some s) (named name ∷ list) ≡ channel_public (some s) list
unfolding channel_public channel_public_find
public_other s name list h = ground arith

-- Adding a channel with memory, under a name that no channel has but for case, puts an empty channel of
-- that name in front, which is then found under every spelling of the name; otherwise the call fails and
-- the list stays as it is.
pub add_correct :
    (name : Bytes) (list : List PublicChannel)
    → let r = channel_public_add true (some name) list in
      ((channel_public_find (some name) list ≡ none)
        × (r.0 ≡ okay)
        × ((s : Bytes)
            → same_text s name ≡ true
            → channel_public (some s) (r.1) ≡ some channel_init)
        × ((s : Bytes)
            → same_text s name ≡ false
            → channel_public (some s) (r.1) ≡ channel_public (some s) list))
      ⊎ ((i : ℕ) × (channel_public_find (some name) list ≡ some i) × (r.0 ≡ failed) × (r.1 ≡ list))
add_correct name list = elim (Option-cases (channel_public_find (some name) list)) [
  | inl new ↦
      let e : channel_public_add true (some name) list ≡ (okay, named name ∷ list) =
        add_new true name list new in
      inl (
        new,
        ap (λ r. r.0) e,
        (λ s h. ap (λ r. channel_public (some s) r.1) e ∙ public_same s name list h),
        (λ s h. ap (λ r. channel_public (some s) r.1) e ∙ public_other s name list h),
      )
  | inr known ↦
      let e = add_known true name list (known.0) (known.1) in
      inr (known.0, known.1, ap (λ r. r.0) e, ap (λ r. r.1) e)
]
