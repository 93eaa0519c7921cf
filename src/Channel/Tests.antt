-- ===== src/Channel/Tests.antt =====
-- The channel service at work, and its theorems on small lists.
use boris.Prelude.{
  ℕ, ◌≡◌, refl, Bool, true, false, not, ◌&&◌, ◌||◌, some, List, [], ◌∷◌, arith, ◌==◌, if◌then◌else◌,
  Bytes, codes, same_text, occurrences, take, All,
}
use boris.Channel.{
  Channel, PublicChannel, okay, channel_add_member, channel_delete_member, channel_find_member,
  channel_vbroadcast, is_on_list, channel_public_find, channel_public_add, channel_initialize,
}
use boris.Channel.Member.{is_member, IsValid, join_correct}
use boris.Channel.Broadcast.{sent_to, broadcast_correct}
use boris.Channel.Service.{replace_at, adds, joins, Reach, start, next, IsSound, Reach-IsSound}

abbrev two : Channel
two = record { nr_member = 2; member = 7 ∷ 9 ∷ [] }

two-IsValid : IsValid two
unfolding occurrences
two-IsValid = record { holds = omega arith; single = λ cm. ground arith; named = refl }

joined : channel_add_member true two 4 ≡ (1, record { nr_member = 3; member = 7 ∷ 9 ∷ 4 ∷ [] })
unfolding channel_add_member channel_find_member
joined = refl

parted : channel_delete_member two 7 ≡ (okay, record { nr_member = 1; member = 9 ∷ 9 ∷ [] })
unfolding channel_delete_member channel_find_member
parted = refl

found : channel_public_find (some (codes "ooc")) (channel_initialize true) ≡ some 1
unfolding channel_public_find channel_initialize channel_public_add same_text
found = refl

everyone : ℕ → Bool
everyone cm = true

broadcast_to_two :
    channel_vbroadcast everyone (some two) (7 ∷ []) (codes "hi") ≡ (okay, (9, codes "hi") ∷ [])
unfolding channel_vbroadcast is_on_list everyone
broadcast_to_two = refl

join_correct_example :
    let r = channel_add_member true two 4 in
    let new = true && not (is_member two 4) in
    IsValid (r.1)
    × (r.0 ≡ (if new then 1 else 0))
    × ((x : ℕ) → is_member (r.1) x ≡ (is_member two x || (new && (4 == x))))
    × (new ≡ false → r.1 ≡ two)
join_correct_example = join_correct true two 4 two-IsValid (λ e. absurd (omega (arith, e)))

broadcast_correct_example :
    let r = channel_vbroadcast everyone (some two) (7 ∷ []) (codes "hi") in
    (r.0 ≡ okay)
    × (sent_to 9 (r.1)
        ≡ (if is_member two 9 && (everyone 9 && not (is_on_list 9 (7 ∷ []))) then 1 else 0))
    × All (λ (call : ℕ × Bytes). call.1 ≡ take 1023 (codes "hi")) (r.1)
broadcast_correct_example = broadcast_correct everyone (7 ∷ []) two (codes "hi") 9 two-IsValid

-- a list with one channel, which 4 has joined
abbrev one_channel : List PublicChannel
one_channel = (channel_public_add true (some (codes "OOC")) []).1

abbrev one_member : List PublicChannel
one_member = replace_at one_channel 0 (λ ch. (channel_add_member true ch 4).1)

reached : Reach one_member
reached =
    next (next start (adds true (some (codes "OOC")) []))
      (joins true 0 4 one_channel (λ e. absurd (omega (arith, e))))

Reach-IsSound_example : IsSound one_member
Reach-IsSound_example = Reach-IsSound one_member reached
