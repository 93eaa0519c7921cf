-- ===== src/Freelist/Tests.antt =====
-- The pool of number ranges on concrete lists.
use boris.Prelude.{
  ℕ, ◌+◌, ◌<◌, ◌≡◌, refl, inl, inr, true, ◌&&◌, ◌||◌, not, some, List, [], ◌∷◌, arith, u32_mod, ok,
  died,
}
use boris.Freelist.{Extent, extent, pool, pool_loop, alloc, thwack, thwack_loop, thwack_at}
use boris.Freelist.Order.{IsOrdered, in_range, is_free, IsApart, total}
use boris.Freelist.Pool.{pool_correct}
use boris.Freelist.Alloc.{alloc_correct, pool-alloc}
use boris.Freelist.Thwack.{thwack_correct}

abbrev two_extents : List Extent
two_extents = extent 1 4 ∷ extent 10 5 ∷ []

two_extents-IsOrdered : IsOrdered 0 two_extents
two_extents-IsOrdered =
    (omega arith, omega arith, omega arith, (omega arith, omega arith, omega arith, tt))

-- the range between the two extents bridges them
bridge_test : pool true two_extents 5 5 ≡ ok (extent 1 14 ∷ [])
unfolding pool pool_loop
bridge_test = refl

-- what is in the pool already cannot be returned to it
died_test : pool true two_extents 8 3 ≡ died
unfolding pool pool_loop
died_test = refl

alloc_test : alloc two_extents 5 ≡ (some 10, extent 1 4 ∷ [])
unfolding alloc
alloc_test = refl

split_test : thwack true two_extents 11 2 ≡ ok (true, extent 1 4 ∷ extent 10 1 ∷ extent 13 2 ∷ [])
unfolding thwack thwack_loop thwack_at pool pool_loop
split_test = refl

pool_correct_example :
    (fl' : List Extent) × (pool true two_extents 5 3 ≡ ok fl')
    × IsOrdered 0 fl'
    × ((n : ℕ) → is_free fl' n ≡ (is_free two_extents n || in_range 5 3 n))
    × (total fl' ≡ total two_extents + 3)
pool_correct_example =
    pool_correct two_extents 5 3 two_extents-IsOrdered (omega arith) (omega arith)
      (inr (omega arith), (inl (omega arith), tt))

alloc_correct_example :
    IsOrdered 0 (alloc two_extents 3).1
    × IsApart 1 3 (alloc two_extents 3).1
    × (1 + 3 < u32_mod)
    × ((n : ℕ) → is_free two_extents n ≡ (is_free (alloc two_extents 3).1 n || in_range 1 3 n))
    × (total two_extents ≡ total (alloc two_extents 3).1 + 3)
unfolding alloc
alloc_correct_example = alloc_correct two_extents 3 1 (omega arith) two_extents-IsOrdered refl

pool-alloc_example :
    (fl' : List Extent) × (pool true (alloc two_extents 3).1 1 3 ≡ ok fl')
    × IsOrdered 0 fl'
    × ((n : ℕ) → is_free fl' n ≡ is_free two_extents n)
    × (total fl' ≡ total two_extents)
unfolding alloc
pool-alloc_example = pool-alloc two_extents 3 1 (omega arith) two_extents-IsOrdered refl

thwack_correct_example :
    (fl' : List Extent) × (thwack true two_extents 11 2 ≡ ok (true, fl'))
    × IsOrdered 0 fl'
    × ((n : ℕ) → is_free fl' n ≡ (is_free two_extents n && not (in_range 11 2 n)))
thwack_correct_example =
    thwack_correct two_extents 11 2 (omega arith) (omega arith) two_extents-IsOrdered refl
