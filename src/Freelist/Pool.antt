-- ===== src/Freelist/Pool.antt =====
-- `freelist_pool` and `freelist_new`: returning a range of numbers to the pool.
use boris.Prelude.{
  ℕ, ◌+◌, ◌≤◌, ◌<◌, ◌≡◌, ◌⊎◌, true, false, ◌||◌, Option, none, some, List, [], ◌∷◌, arith, u32_mod,
  Outcome, died, ok, map_ok, Returns, Returns-ok, Returns-at, Returns-map_ok,
}
use boris.Freelist.{Extent, pool_loop, pool, with_last, extent}
use boris.Freelist.Order.{IsOrdered, in_range, is_free, IsApart, total}

-- `last` ends before the range
abbrev IsBehind : Option Extent → ℕ → Type 0
IsBehind none ofs = Unit {0}
IsBehind (some e) ofs = e.offset + e.length ≤ ofs

-- extents that start behind the range's start and do not meet the range start behind it
IsOrdered-behind :
    (ofs count : ℕ) (l : List Extent)
    → IsOrdered ofs l
    → IsApart ofs count l
    → IsOrdered (ofs + count) l
IsOrdered-behind ofs count [] v a = tt
IsOrdered-behind ofs count (e ∷ l) v a = (omega arith, v.1, v.2, v.3)

IsOrdered-with_last :
    (e : Extent) (lo : ℕ) (r : Outcome (List Extent))
    → lo ≤ e.offset
    → 0 < e.length
    → e.offset + e.length < u32_mod
    → Returns (IsOrdered (e.offset + e.length)) r
    → Returns (IsOrdered lo) (map_ok (with_last (some e)) r)
IsOrdered-with_last e lo (ok l) h p q v = (h, p, q, v)
IsOrdered-with_last e lo died h p q v = v

module _ (ofs count : ℕ) (some_count : 0 < count) (fits : ofs + count < u32_mod) where
  pool_loop-IsOrdered :
      (last : Option Extent) (l : List Extent) (lo : ℕ)
      → lo ≤ ofs
      → IsOrdered lo (with_last last l)
      → IsApart ofs count (with_last last l)
      → IsBehind last ofs
      → Returns (IsOrdered lo) (pool_loop true last l ofs count)
  unfolding pool_loop
  pool_loop-IsOrdered none [] lo h v a b = ground arith
  pool_loop-IsOrdered (some e) [] lo h v a b = ground arith
  pool_loop-IsOrdered none (c ∷ l) lo h v a b = ground (
    arith,
    Returns-map_ok (IsOrdered lo) (with_last none) (pool_loop true (some c) l ofs count),
    pool_loop-IsOrdered (some c) l lo,
  )
  pool_loop-IsOrdered (some e) (c ∷ l) lo h v a b = ground (
    arith,
    IsOrdered-with_last e lo (pool_loop true (some c) l ofs count),
    IsOrdered-behind ofs count l,
    pool_loop-IsOrdered (some c) l (e.offset + e.length),
  )

-- The numbers of `l'` are those of `l` and those of the range.
abbrev pub Adds : ℕ → ℕ → List Extent → ℕ → List Extent → Type 0
Adds ofs count l n l' = is_free l' n ≡ (is_free l n || in_range ofs count n)

Adds-with_last :
    (e : Extent) (ofs count : ℕ) (l : List Extent) (n : ℕ) (r : Outcome (List Extent))
    → Returns (Adds ofs count l n) r
    → Returns (Adds ofs count (e ∷ l) n) (map_ok (with_last (some e)) r)
Adds-with_last e ofs count l n (ok l') h = ground arith
Adds-with_last e ofs count l n died h = h

module _ (ofs count : ℕ) (some_count : 0 < count) (fits : ofs + count < u32_mod) (n : ℕ) where
  pool_loop-Adds :
      (last : Option Extent) (l : List Extent) (lo : ℕ)
      → IsOrdered lo (with_last last l)
      → IsApart ofs count (with_last last l)
      → IsBehind last ofs
      → Returns (Adds ofs count (with_last last l) n) (pool_loop true last l ofs count)
  unfolding pool_loop
  pool_loop-Adds none [] lo v a b = ground arith
  pool_loop-Adds (some e) [] lo v a b = ground arith
  pool_loop-Adds none (c ∷ l) lo v a b = ground (
    arith,
    Returns-map_ok (Adds ofs count (c ∷ l) n) (with_last none)
        (pool_loop true (some c) l ofs count),
    pool_loop-Adds (some c) l lo,
  )
  pool_loop-Adds (some e) (c ∷ l) lo v a b = ground (
    arith,
    Adds-with_last e ofs count (c ∷ l) n (pool_loop true (some c) l ofs count),
    pool_loop-Adds (some c) l (e.offset + e.length),
  )

total-with_last :
    (e : Extent) (m : ℕ) (r : Outcome (List Extent))
    → Returns (λ l'. total l' ≡ m) r
    → Returns (λ l'. total l' ≡ e.length + m) (map_ok (with_last (some e)) r)
total-with_last e m (ok l') h = omega arith
total-with_last e m died h = h

module _ (ofs count : ℕ) (some_count : 0 < count) (fits : ofs + count < u32_mod) where
  pool_loop-total :
      (last : Option Extent) (l : List Extent) (lo : ℕ)
      → IsOrdered lo (with_last last l)
      → IsApart ofs count (with_last last l)
      → IsBehind last ofs
      → Returns
          (λ l'. total l' ≡ total (with_last last l) + count)
          (pool_loop true last l ofs count)
  unfolding pool_loop
  pool_loop-total none [] lo v a b = ground arith
  pool_loop-total (some e) [] lo v a b = ground arith
  pool_loop-total none (c ∷ l) lo v a b = ground (
    arith,
    Returns-map_ok (λ l'. total l' ≡ total (c ∷ l) + count) (with_last none)
        (pool_loop true (some c) l ofs count),
    pool_loop-total (some c) l lo,
  )
  pool_loop-total (some e) (c ∷ l) lo v a b = ground (
    arith,
    total-with_last e (total (c ∷ l) + count) (pool_loop true (some c) l ofs count),
    pool_loop-total (some c) l (e.offset + e.length),
  )

-- Pooling a range that meets no extent, with memory for an entry: the call returns, the list stays in
-- order, its numbers are the old ones and those of the range, and there are `count` more of them.
pub pool_correct :
    (fl : List Extent) (ofs count : ℕ)
    → IsOrdered 0 fl
    → 0 < count
    → ofs + count < u32_mod
    → IsApart ofs count fl
    → (fl' : List Extent) × (pool true fl ofs count ≡ ok fl')
      × IsOrdered 0 fl'
      × ((n : ℕ) → is_free fl' n ≡ (is_free fl n || in_range ofs count n))
      × (total fl' ≡ total fl + count)
unfolding pool
pool_correct fl ofs count v p q a =
    let (fl', e, ordered) =
      Returns-ok (IsOrdered 0) (pool true fl ofs count)
        (pool_loop-IsOrdered ofs count p q none fl 0 (omega arith) v a tt) in
    (
      fl',
      e,
      ordered,
      λ n. Returns-at (Adds ofs count fl n) e (pool_loop-Adds ofs count p q n none fl 0 v a tt),
      Returns-at (λ l'. total l' ≡ total fl + count) e
          (pool_loop-total ofs count p q none fl 0 v a tt),
    )

no_memory_with_last :
    (e : Extent) (l : List Extent) (r s : Outcome (List Extent))
    → (r ≡ ok l) ⊎ (r ≡ s)
    → (map_ok (with_last (some e)) r ≡ ok (e ∷ l))
      ⊎ (map_ok (with_last (some e)) r ≡ map_ok (with_last (some e)) s)
no_memory_with_last e l r s h = ground arith

pool_loop_no_memory :
    (last : Option Extent) (l : List Extent) (ofs count : ℕ)
    → (pool_loop false last l ofs count ≡ ok (with_last last l))
      ⊎ (pool_loop false last l ofs count ≡ pool_loop true last l ofs count)
unfolding pool_loop
pool_loop_no_memory none [] ofs count = ground arith
pool_loop_no_memory (some e) [] ofs count = ground arith
pool_loop_no_memory none (c ∷ l) ofs count =
    ground (arith, pool_loop_no_memory (some c) l ofs count)
pool_loop_no_memory (some e) (c ∷ l) ofs count =
    ground (arith, pool_loop_no_memory (some c) l ofs count)

-- When `malloc` fails, a call of `freelist_pool` leaves the list as it was or does just what it does
-- when `malloc` succeeds, on every input.
pool_no_memory :
    (fl : List Extent) (ofs count : ℕ)
    → (pool false fl ofs count ≡ ok fl) ⊎ (pool false fl ofs count ≡ pool true fl ofs count)
unfolding pool
pool_no_memory fl ofs count = pool_loop_no_memory none fl ofs count

-- A range that begins where the first of two extents ends, and ends before the second begins, gets an
-- entry of its own: it is not merged with the first extent.
pool_unmerged :
    (e c : Extent) (fl : List Extent) (ofs count : ℕ)
    → IsOrdered 0 (e ∷ c ∷ fl)
    → 0 < count
    → e.offset + e.length ≡ ofs
    → ofs + count < c.offset
    → pool true (e ∷ c ∷ fl) ofs count ≡ ok (e ∷ extent ofs count ∷ c ∷ fl)
unfolding pool pool_loop
pool_unmerged e c fl ofs count v p h g = ground arith
