-- ===== src/Freelist.antt =====
-- src/freelist.c: a pool of number ranges as a list of extents. The linked list of `LIST_` macros is
-- a `List`, in list order; offsets and lengths are C `unsigned`, so sums wrap at 2 ^ 32. Whether
-- `malloc` succeeds is an argument. Assertions are off in the build (`NDEBUG`).
pub mod Alloc
pub mod Order
pub mod Pool
pub mod Thwack
mod Tests
use boris.Prelude.{
  ℕ, Bool, true, false, ◌&&◌, Option, none, some, List, [], ◌∷◌, ◌++◌, ltb, leb, ◌==◌,
  if◌then◌else◌, is_some, add32, sub32, Outcome, ok, died, map_ok,
}

-- `struct freelist_extent`
pub record Extent : Type 0 where
  pub length : ℕ
  pub offset : ℕ

abbrev pub extent : ℕ → ℕ → Extent
extent ofs count = record { length = count; offset = ofs }

-- `freelist_ll_new`: a new entry in front of the entries `next`, unless `malloc` fails
abbrev pub ll_new : Bool → List Extent → ℕ → ℕ → List Extent
ll_new malloc next ofs count = if malloc then extent ofs count ∷ next else next

-- `freelist_ll_isbridge`
abbrev pub is_bridge : Extent → ℕ → ℕ → Extent → Bool
is_bridge prev ofs count next =
    (add32 prev.offset prev.length == ofs) && (next.offset == add32 ofs count)

-- the loop's `last`, put back in front of the entries behind it
abbrev pub with_last : Option Extent → List Extent → List Extent
with_last none l = l
with_last (some e) l = e ∷ l

-- `last && freelist_ll_isbridge(&last->extent, ofs, count, &curr->extent)`
abbrev pub bridges : Option Extent → ℕ → ℕ → Extent → Bool
bridges none ofs count curr = false
bridges (some last) ofs count curr = is_bridge last ofs count curr

-- the three entries merged into `last`
abbrev pub merge_bridge : Option Extent → Extent → ℕ → List Extent → List Extent
merge_bridge none curr count rest = curr ∷ rest
merge_bridge (some last) curr count rest =
    record last { length = add32 last.length (add32 curr.length count) } ∷ rest

abbrev pub grow : Extent → ℕ → Extent
grow e count = record e { length = add32 e.length count }

-- what follows the loop of `freelist_pool` when it has run off the list
abbrev pub pool_end : Bool → Option Extent → ℕ → ℕ → List Extent
pool_end malloc none ofs count = ll_new malloc [] ofs count
pool_end malloc (some last) ofs count =
    if add32 last.offset last.length == ofs
    then grow last count ∷ []
    else last ∷ ll_new malloc [] ofs count

-- The loop of `freelist_pool` from `curr`, with `last` behind it; the result begins with `last`.
unfoldable pub pool_loop : Bool → Option Extent → List Extent → ℕ → ℕ → Outcome (List Extent)
pool_loop malloc last [] ofs count = ok (pool_end malloc last ofs count)
pool_loop malloc last (curr ∷ rest) ofs count =
    if ofs == curr.offset
    then died
    else if bridges last ofs count curr
    then ok (merge_bridge last curr count rest)
    else if curr.offset == add32 ofs count
    then ok (with_last last (extent ofs (add32 curr.length count) ∷ rest))
    else if is_some last && (add32 curr.offset curr.length == ofs)
    then ok (with_last last (grow curr count ∷ rest))
    else if ltb ofs curr.offset
    then if ltb curr.offset (add32 ofs count)
      then died
      else ok (with_last last (ll_new malloc (curr ∷ rest) ofs count))
    else map_ok (with_last last) (pool_loop malloc (some curr) rest ofs count)

-- `freelist_pool`
unfoldable pub pool : Bool → List Extent → ℕ → ℕ → Outcome (List Extent)
pool malloc fl ofs count = pool_loop malloc none fl ofs count

-- `freelist_new`; `none` is NULL, for a failed `malloc` of the head
unfoldable pub new : Bool → Bool → ℕ → ℕ → Outcome (Option (List Extent))
new head_malloc malloc start count =
    if head_malloc
    then if count == 0 then ok (some []) else map_ok some (pool malloc [] start count)
    else ok none

-- `curr` less its first `count` numbers; an entry with none left is freed
abbrev pub take_front : Extent → ℕ → List Extent → List Extent
take_front curr count rest =
    if sub32 curr.length count == 0
    then rest
    else extent (add32 curr.offset count) (sub32 curr.length count) ∷ rest

-- `freelist_alloc`: first fit; `none` is -1
unfoldable pub alloc : List Extent → ℕ → Option ℕ × List Extent
alloc [] count = (none, [])
alloc (curr ∷ rest) count =
    let (r, rest') = alloc rest count in
    if leb count curr.length
    then (some curr.offset, take_front curr count rest)
    else (r, curr ∷ rest')

-- case 4 of `freelist_thwack`: `curr` keeps the part in front of the range, and the part behind it
-- goes back to the pool
abbrev pub thwack_split : Bool → List Extent → Extent → List Extent → ℕ → ℕ → Outcome (List Extent)
thwack_split malloc before curr rest ofs count =
    let new_ofs = add32 ofs count in
    let new_length = sub32 (add32 curr.offset curr.length) new_ofs in
    let first = extent curr.offset (sub32 (sub32 curr.length count) new_length) in
    pool malloc (before ++ (first ∷ rest)) new_ofs new_length

-- the four cases of `freelist_thwack` at the entry that holds the range; `before` is the list in
-- front of it
unfoldable pub thwack_at : Bool → List Extent → Extent → List Extent → ℕ → ℕ → Outcome (List Extent)
thwack_at malloc before curr rest ofs count =
    if (curr.offset == ofs) && (curr.length == count)
    then ok (before ++ rest)
    else if curr.offset == ofs
    then ok (before ++ (extent (add32 curr.offset count) (sub32 curr.length count) ∷ rest))
    else if add32 curr.offset curr.length == add32 ofs count
    then ok (before ++ (extent curr.offset (sub32 curr.length count) ∷ rest))
    else thwack_split malloc before curr rest ofs count

-- The loop of `freelist_thwack`; `true` is its 1 for success.
unfoldable pub thwack_loop : Bool → List Extent → List Extent → ℕ → ℕ → Outcome (Bool × List Extent)
thwack_loop malloc before [] ofs count = ok (false, before)
thwack_loop malloc before (curr ∷ rest) ofs count =
    if leb curr.offset ofs && leb (add32 ofs count) (add32 curr.offset curr.length)
    then map_ok (λ l. (true, l)) (thwack_at malloc before curr rest ofs count)
    else thwack_loop malloc (before ++ (curr ∷ [])) rest ofs count

-- `freelist_thwack`
unfoldable pub thwack : Bool → List Extent → ℕ → ℕ → Outcome (Bool × List Extent)
thwack malloc fl ofs count = thwack_loop malloc [] fl ofs count
