-- ===== src/Channel.antt =====
-- The channel service, src/channel/channel.c, and its use by src/task/command.c. A member is the address
-- of its `struct channel_member`, 0 for NULL; `sends cm` tells whether its `send` is set. `memory` tells
-- whether a call of the allocator succeeds. What a broadcast does is the list of calls of `send`, which
-- are taken to leave the channel as it is. `channel_add_member` is called with a channel.
pub mod Member
pub mod Broadcast
pub mod Service
mod Tests
use boris.Prelude.{
  ℕ, zero, suc, ◌+◌, ◌-◌, Bool, true, false, not, ◌&&◌, ◌||◌, Option, none, some, List, [], ◌∷◌,
  ◌++◌, map, ◌==◌, if◌then◌else◌, get_or, set, take, Bytes, codes, same_text,
}

-- OK and ERR
pub data Status : Type 0 where
  okay : Status
  failed : Status

pub record Channel : Type 0 where
  pub nr_member : ℕ
  pub member : List ℕ

pub record PublicChannel : Type 0 where
  pub channel : Channel
  pub name : Option Bytes

abbrev pub channel_init : Channel
channel_init = record { nr_member = 0; member = [] }

find_loop : ℕ → ℕ → Channel → ℕ → Option ℕ
find_loop zero i ch cm = none
find_loop (suc left) i ch cm =
    let rest = find_loop left (i + 1) ch cm in if get_or ch.member i 0 == cm then some i else rest

-- `channel_find_member`: the index in `ch->member`
pub channel_find_member : Channel → ℕ → Option ℕ
unfolding find_loop
channel_find_member ch cm = find_loop ch.nr_member 0 ch cm

append_member : Channel → ℕ → Channel
append_member ch cm = record {
  nr_member = ch.nr_member + 1;
  member = take ch.nr_member ch.member ++ cm ∷ [];
}

-- `channel_add_member`
pub channel_add_member : Bool → Channel → ℕ → ℕ × Channel
unfolding append_member
channel_add_member memory ch cm = if cm == 0 then (1, ch) else elim (channel_find_member ch cm) [
  | some i ↦ (0, ch)
  | none ↦ if memory then (1, append_member ch cm) else (0, ch)
]

pub fill_hole : Channel → ℕ → Channel
fill_hole ch i =
    let last = ch.nr_member - 1 in
    record {
      nr_member = last;
      member = if last == 0 then [] else set ch.member i (get_or ch.member last 0);
    }

-- `channel_delete_member`
pub channel_delete_member : Channel → ℕ → Status × Channel
unfolding fill_hole
channel_delete_member ch cm = elim (channel_find_member ch cm) [
  | none ↦ (failed, ch)
  | some i ↦ (okay, fill_hole ch i)
]

close_step : (Channel → Channel) → Status × Channel → Channel
close_step rest (okay, ch) = rest ch
close_step rest (failed, ch) = ch

-- the loop of `channel_close`: each round but the last takes a member out, so that `nr_member` rounds
-- are enough
pub close_loop : ℕ → Channel → Channel
unfolding close_step
close_loop zero ch = ch
close_loop (suc rounds) ch =
    let next = close_step (close_loop rounds) (channel_delete_member ch (get_or ch.member 0 0)) in
    if ch.nr_member == 0 then ch else next

pub channel_close : Option Channel → Status × Option Channel
channel_close none = (failed, none)
channel_close (some ch) = (okay, some (close_loop ch.nr_member ch))

-- `channel_join` and `channel_part`
abbrev pub channel_join : Bool → Channel → ℕ → ℕ × Channel
channel_join memory ch cm = channel_add_member memory ch cm

abbrev pub channel_part : Channel → ℕ → Channel
channel_part ch cm = (channel_delete_member ch cm).1

pub is_on_list : ℕ → List ℕ → Bool
is_on_list cm [] = false
is_on_list cm (x ∷ exclude_list) = (cm == x) || is_on_list cm exclude_list

-- CHANNEL_SEND_MAX
abbrev pub channel_send_max : ℕ
channel_send_max = 1024

module _ (sends : ℕ → Bool) where
  broadcast_loop : ℕ → ℕ → Channel → List ℕ → List ℕ
  broadcast_loop zero i ch exclude_list = []
  broadcast_loop (suc left) i ch exclude_list =
      let rest = broadcast_loop left (i + 1) ch exclude_list in
      let cm = get_or ch.member i 0 in
      if not (cm == 0) && sends cm && not (is_on_list cm exclude_list) then cm ∷ rest else rest

  -- `channel_vbroadcast`: the calls of `send`, each with its message. `text` is the text that the format
  -- and its arguments stand for, of which `scratch` takes what fits in front of its NUL.
  pub channel_vbroadcast : Option Channel → List ℕ → Bytes → Status × List (ℕ × Bytes)
  unfolding broadcast_loop
  channel_vbroadcast none exclude_list text = (failed, [])
  channel_vbroadcast (some ch) exclude_list text = (
    okay,
    map (λ cm. (cm, take (channel_send_max - 1) text))
        (broadcast_loop ch.nr_member 0 ch exclude_list),
  )

name_matches : Option Bytes → Option Bytes → Bool
name_matches (some name) (some other) = same_text name other
name_matches (some name) none = false
name_matches none (some other) = false
name_matches none none = true

-- `channel_public_find`: the position in the list
pub channel_public_find : Option Bytes → List PublicChannel → Option ℕ
unfolding name_matches
channel_public_find name [] = none
channel_public_find name (curr ∷ list) =
    if name_matches name curr.name
    then some 0
    else elim (channel_public_find name list) [ none ↦ none | some i ↦ some (suc i) ]

-- `channel_public_add`. The two calls of the allocator succeed, or one does not.
pub channel_public_add : Bool → Option Bytes → List PublicChannel → Status × List PublicChannel
channel_public_add memory none list = (failed, list)
channel_public_add memory (some name) list = elim (channel_public_find (some name) list) [
  | some i ↦ (failed, list)
  | none ↦
      if memory
      then (okay, (record { channel = channel_init; name = some name }) ∷ list)
      else (failed, list)
]

abbrev pub channel_at : List PublicChannel → ℕ → Option Channel
channel_at [] i = none
channel_at (cp ∷ list) zero = some cp.channel
channel_at (cp ∷ list) (suc i) = channel_at list i

-- `channel_public`: the channel, if there is one of that name
pub channel_public : Option Bytes → List PublicChannel → Option Channel
channel_public name list = elim (channel_public_find name list) [
  | none ↦ none
  | some i ↦ channel_at list i
]

add_all : Bool → List Bytes → List PublicChannel → List PublicChannel
add_all memory [] list = list
add_all memory (name ∷ names) list =
    add_all memory names (channel_public_add memory (some name) list).1

abbrev pub channel_names : List Bytes
channel_names =
    codes "newbie"
    ∷ codes "chat"
    ∷ codes "@mudlist"
    ∷ codes "devel"
    ∷ codes "@wiz"
    ∷ codes "OOC"
    ∷ codes "@system"
    ∷ []

-- `channel_initialize`
pub channel_initialize : Bool → List PublicChannel
unfolding add_all
channel_initialize memory = add_all memory channel_names []

-- `channel_shutdown`: each round closes the first channel of the list and takes it out.
pub channel_shutdown : List PublicChannel → List PublicChannel
channel_shutdown [] = []
channel_shutdown (cp ∷ list) = channel_shutdown list

-- `command_do_say`: what the other players are sent. `said` is the text of the message.
pub command_do_say : (ℕ → Bool) → List PublicChannel → ℕ → Bytes → List (ℕ × Bytes)
command_do_say sends list self said =
    (channel_vbroadcast sends (channel_public none list) (self ∷ []) said).1
