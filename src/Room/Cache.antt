-- ===== src/Room/Cache.antt =====
-- The list of loaded rooms, `room_get` of src/room/room.c with the macros of src/list.h. A room is an
-- address; the links and the values that `room_get` reads are functions of the address. `loads` is what
-- `room_load` returns: the address of a new room, which is on no list, or NULL.
use mathlib.Core.Path.{subst}
use boris.Prelude.{
  ℕ, zero, suc, ◌+◌, ◌≡◌, ◌≢◌, ◌∙◌, sym, refl, ap, true, Option, none, some, arith, ◌==◌,
  if◌then◌else◌, Bool-cases, inl, inr,
}

-- `room_cache`, and the rooms
pub record RoomCache : Type 0 where
  pub head : Option ℕ
  pub next : ℕ → Option ℕ
  pub id : ℕ → ℕ
  pub refcount : ℕ → ℕ

abbrev pub update {ℓ} : {A : Type ℓ} → (ℕ → A) → ℕ → A → ℕ → A
update f a v b = if b == a then v else f b

-- LIST_INSERT_HEAD, less the links back, which `room_get` does not read
abbrev pub list_insert_head : ℕ → RoomCache → RoomCache
list_insert_head elm c = record c { next = update c.next elm c.head; head = some elm }

-- the loop that looks for a room: `none` when the rounds run out, and else what `curr` is
unfoldable pub search : ℕ → RoomCache → ℕ → Option ℕ → Option (Option ℕ)
search rounds c room_id none = some none
search zero c room_id (some curr) = none
search (suc rounds) c room_id (some curr) =
    let rest = search rounds c room_id (c.next curr) in
    if c.id curr == room_id then some (some curr) else rest

-- `curr` goes to the head of the list, and is counted once more
abbrev pub hold : ℕ → RoomCache → RoomCache
hold curr c =
    let c' = list_insert_head curr c in
    record c' { refcount = update c'.refcount curr (c'.refcount curr + 1) }

load_new : ℕ → Option ℕ → RoomCache → Option ℕ × RoomCache
load_new room_id none c = (none, c)
load_new room_id (some curr) c = (some curr, hold curr (record c { id = update c.id curr room_id }))

found : ℕ → Option ℕ → Option (Option ℕ) → RoomCache → Option (Option ℕ × RoomCache)
found room_id loaded none c = none
found room_id loaded (some (some curr)) c = some (some curr, hold curr c)
found room_id loaded (some none) c = some (load_new room_id loaded c)

-- `room_get`: `none` where the loop does not end in `rounds` rounds
unfoldable pub room_get : ℕ → (ℕ → Option ℕ) → RoomCache → ℕ → Option (Option ℕ × RoomCache)
unfolding search load_new found
room_get rounds loads c room_id =
    if room_id == 0
    then some (none, c)
    else found room_id (loads room_id) (search rounds c room_id c.head) c

-- a room that is its own successor is never left
search_circles :
    (rounds : ℕ) (c : RoomCache) (a m : ℕ)
    → c.next a ≡ some a
    → c.id a ≢ m
    → search rounds c m (some a) ≡ none
unfolding search
search_circles zero c a m e ne = refl
search_circles (suc rounds) c a m e ne =
    ground (arith, search_circles rounds c a m e ne, ap (search rounds c m) e)

search-id :
    (rounds : ℕ) (c : RoomCache) (n : ℕ) (start : Option ℕ) (a : ℕ)
    → search rounds c n start ≡ some (some a)
    → c.id a ≡ n
unfolding search
search-id zero c n none a e = cc
search-id zero c n (some b) a e = cc
search-id (suc rounds) c n none a e = cc
search-id (suc rounds) c n (some b) a e = elim (Bool-cases (c.id b == n)) [
  | inl same ↦
      let h : b ≡ a = ground arith in let at : c.id b ≡ n = ground arith in ap c.id (sym h) ∙ at
  | inr other ↦ search-id rounds c n (c.next b) a (ground arith)
]

-- what `room_get` leaves: the room that it returns is the head, in front of the old one
record IsHeld (c : RoomCache) (n a : ℕ) (c' : RoomCache) : Type 0 where
  head : c'.head ≡ some a
  next : c'.next a ≡ c.head
  id : c'.id a ≡ n

update_self {ℓ} : {A : Type ℓ} (f : ℕ → A) (a : ℕ) (v : A) → update f a v a ≡ v
update_self f a v = let e : (a == a) ≡ true = ground arith in rw e refl

hold-IsHeld : (c : RoomCache) (n a : ℕ) → c.id a ≡ n → IsHeld c n a (hold a c)
hold-IsHeld c n a e = record { head = refl; next = update_self c.next a c.head; id = e }

found-IsHeld :
    (c : RoomCache) (n a : ℕ) (loaded : Option ℕ) (s : Option (Option ℕ)) (c' : RoomCache)
    → ((b : ℕ) → s ≡ some (some b) → c.id b ≡ n)
    → found n loaded s c ≡ some (some a, c')
    → IsHeld c n a c'
unfolding found load_new
found-IsHeld c n a loaded none c' f e = cc
found-IsHeld c n a none (some none) c' f e = cc
found-IsHeld c n a (some b) (some none) c' f e =
    let new : RoomCache = record c { id = update c.id b n } in
    let same : b ≡ a = cc in
    let left : hold b new ≡ c' = cc in
    subst (IsHeld c n a) left (
      subst (λ x. IsHeld c n x (hold b new)) same
        (record { head = refl; next = update_self c.next b c.head; id = update_self c.id b n }))
found-IsHeld c n a loaded (some (some b)) c' f e =
    let same : b ≡ a = cc in
    let left : hold b c ≡ c' = cc in
    subst (IsHeld c n a) left
      (subst (λ x. IsHeld c n x (hold b c)) same (hold-IsHeld c n b (f b refl)))

not_found :
    (c c' : RoomCache) (a : ℕ)
    → ◌≡◌ {A = Option (Option ℕ × RoomCache)} (some (none, c)) (some (some a, c'))
    → ⊥
not_found c c' a e = cc

room_get-IsHeld :
    (rounds : ℕ) (loads : ℕ → Option ℕ) (c : RoomCache) (n a : ℕ) (c' : RoomCache)
    → room_get rounds loads c n ≡ some (some a, c')
    → IsHeld c n a c' × (n ≢ 0)
unfolding room_get
room_get-IsHeld rounds loads c n a c' e = elim (Bool-cases (n == 0)) [
  | inl zeroth ↦ absurd (not_found c c' a (rw zeroth at e))
  | inr set ↦ (
    found-IsHeld c n a (loads n) (search rounds c n c.head) c'
        (λ b h. search-id rounds c n c.head b h) (rw set at e),
    λ z. ground arith,
  )
]

room_get_lem :
    (rounds : ℕ) (loads : ℕ → Option ℕ) (c : RoomCache) (n : ℕ)
    → n ≢ 0
    → room_get rounds loads c n ≡ found n (loads n) (search rounds c n c.head) c
unfolding room_get
room_get_lem rounds loads c n ne = ground arith

search_top :
    (rounds : ℕ) (c : RoomCache) (n a : ℕ)
    → c.id a ≡ n
    → search (suc rounds) c n (some a) ≡ some (some a)
unfolding search
search_top rounds c n a at = ground arith

same_cache :
    (a b : ℕ) (c c' : RoomCache)
    → ◌≡◌ {A = Option (Option ℕ × RoomCache)} (some (some b, c')) (some (some a, c))
    → c' ≡ c
same_cache a b c c' e = cc

no_cache :
    (b : ℕ) (c' : RoomCache) → ◌≡◌ {A = Option (Option ℕ × RoomCache)} (some (some b, c')) none → ⊥
no_cache b c' e = cc

-- a room at the head of the list is found there
get_head :
    (rounds : ℕ) (loads : ℕ → Option ℕ) (c : RoomCache) (n a b : ℕ) (c' : RoomCache)
    → c.head ≡ some a
    → c.id a ≡ n
    → n ≢ 0
    → room_get rounds loads c n ≡ some (some b, c')
    → c' ≡ hold a c
unfolding search found
get_head zero loads c n a b c' top at ne e = absurd (
    no_cache b c' (
      sym e
      ∙ room_get_lem zero loads c n ne
      ∙ ap (λ h. found n (loads n) (search zero c n h) c) top))
get_head (suc rounds) loads c n a b c' top at ne e = same_cache a b (hold a c) c' (
    sym e
    ∙ room_get_lem (suc rounds) loads c n ne
    ∙ ap (λ h. found n (loads n) (search (suc rounds) c n h) c) top
    ∙ ap (λ s. found n (loads n) s c) (search_top rounds c n a at))

-- Once `room_get` has returned a room twice in a row, its loop ends for no other room, however many
-- rounds it is given: the second call has put the room in front of itself.
pub room_get_hangs :
    (rounds rounds' rounds'' : ℕ) (loads : ℕ → Option ℕ) (c c' c'' : RoomCache) (n m a b : ℕ)
    → room_get rounds loads c n ≡ some (some a, c')
    → room_get rounds' loads c' n ≡ some (some b, c'')
    → m ≢ 0
    → m ≢ n
    → room_get rounds'' loads c'' m ≡ none
unfolding found
room_get_hangs rounds rounds' rounds'' loads c c' c'' n m a b first second ne other =
    let (held, ne') = room_get-IsHeld rounds loads c n a c' first in
    let left : c'' ≡ hold a c' = get_head rounds' loads c' n a b c'' held.head held.id ne' second in
    let round : (hold a c').next a ≡ some a = update_self c'.next a c'.head ∙ held.head in
    let circles : search rounds'' (hold a c') m (some a) ≡ none =
      search_circles rounds'' (hold a c') a m round (λ e. other (sym e ∙ held.id)) in
    ap (λ x. room_get rounds'' loads x m) left
    ∙ room_get_lem rounds'' loads (hold a c') m ne
    ∙ ap (λ s. found m (loads m) s (hold a c')) circles
