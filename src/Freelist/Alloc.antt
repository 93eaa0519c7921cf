-- ===== src/Freelist/Alloc.antt =====
-- `freelist_alloc`: first fit.
use boris.Prelude.{
  sym, ◌∙◌, ok, ◌↔◌, ℕ, ◌+◌, ◌≤◌, ◌<◌, ◌≡◌, refl, ◌||◌, none, some, List, [], ◌∷◌, arith, u32_mod,
  All, true,
}
use boris.Freelist.{Extent, alloc, pool}
use boris.Freelist.Pool.{pool_correct}
use boris.Freelist.Order.{
  IsOrdered, in_range, is_free, IsApart, IsApart-below, IsOrdered-mono, total,
}

alloc-IsOrdered :
    (count lo : ℕ) (fl : List Extent)
    → 0 < count
    → IsOrdered lo fl
    → IsOrdered lo (alloc fl count).1
unfolding alloc
alloc-IsOrdered count lo [] h v = tt
alloc-IsOrdered count lo (c ∷ fl) h v = ground (
  arith,
  alloc-IsOrdered count (c.offset + c.length) fl,
  IsOrdered-mono lo (c.offset + c.length) fl,
)

alloc_ge :
    (count lo : ℕ) (fl : List Extent) (ofs : ℕ)
    → IsOrdered lo fl
    → (alloc fl count).0 ≡ some ofs
    → lo ≤ ofs
unfolding alloc
alloc_ge count lo [] ofs v e = ground arith
alloc_ge count lo (c ∷ fl) ofs v e = ground (arith, alloc_ge count (c.offset + c.length) fl ofs)

alloc-IsApart :
    (count lo : ℕ) (fl : List Extent) (ofs : ℕ)
    → 0 < count
    → IsOrdered lo fl
    → (alloc fl count).0 ≡ some ofs
    → IsApart ofs count (alloc fl count).1
unfolding alloc
alloc-IsApart count lo [] ofs h v e = tt
alloc-IsApart count lo (c ∷ fl) ofs h v e = ground (
  arith,
  alloc-IsApart count (c.offset + c.length) fl ofs,
  alloc_ge count (c.offset + c.length) fl ofs,
  IsApart-below ofs count (c.offset + c.length) fl,
)

alloc-is_free :
    (count lo : ℕ) (fl : List Extent) (ofs n : ℕ)
    → 0 < count
    → IsOrdered lo fl
    → (alloc fl count).0 ≡ some ofs
    → is_free fl n ≡ (is_free (alloc fl count).1 n || in_range ofs count n)
unfolding alloc
alloc-is_free count lo [] ofs n h v e = ground arith
alloc-is_free count lo (c ∷ fl) ofs n h v e =
    ground (arith, alloc-is_free count (c.offset + c.length) fl ofs n)

alloc_fits :
    (count lo : ℕ) (fl : List Extent) (ofs : ℕ)
    → IsOrdered lo fl
    → (alloc fl count).0 ≡ some ofs
    → ofs + count < u32_mod
unfolding alloc
alloc_fits count lo [] ofs v e = ground arith
alloc_fits count lo (c ∷ fl) ofs v e = ground (arith, alloc_fits count (c.offset + c.length) fl ofs)

alloc-total :
    (count lo : ℕ) (fl : List Extent) (ofs : ℕ)
    → 0 < count
    → IsOrdered lo fl
    → (alloc fl count).0 ≡ some ofs
    → total fl ≡ total (alloc fl count).1 + count
unfolding alloc
alloc-total count lo [] ofs h v e = ground arith
alloc-total count lo (c ∷ fl) ofs h v e =
    ground (arith, alloc-total count (c.offset + c.length) fl ofs)

-- A successful allocation from a list in order keeps the list in order, takes exactly the range
-- `ofs .. ofs + count` out of the pool, which was free before and which no extent meets afterwards,
-- and leaves `count` fewer numbers.
pub alloc_correct :
    (fl : List Extent) (count ofs : ℕ)
    → 0 < count
    → IsOrdered 0 fl
    → (alloc fl count).0 ≡ some ofs
    → IsOrdered 0 (alloc fl count).1
      × IsApart ofs count (alloc fl count).1
      × (ofs + count < u32_mod)
      × ((n : ℕ) → is_free fl n ≡ (is_free (alloc fl count).1 n || in_range ofs count n))
      × (total fl ≡ total (alloc fl count).1 + count)
alloc_correct fl count ofs h v e = (
  alloc-IsOrdered count 0 fl h v,
  alloc-IsApart count 0 fl ofs h v e,
  alloc_fits count 0 fl ofs v e,
  λ n. alloc-is_free count 0 fl ofs n h v e,
  alloc-total count 0 fl ofs h v e,
)

-- An allocation fails exactly when every extent is too short, on every list, and then the list is as
-- it was.
pub alloc_fails :
    (fl : List Extent) (count : ℕ)
    → (((alloc fl count).0 ≡ none) ↔ All (λ e. e.length < count) fl)
      × ((alloc fl count).0 ≡ none → (alloc fl count).1 ≡ fl)
unfolding alloc
alloc_fails [] count = ((λ _. tt, λ _. refl), λ _. refl)
alloc_fails (c ∷ fl) count =
    let ((to, from), same) = alloc_fails fl count in ground (arith, to, from, same)

-- Returning an allocated range to the pool, with memory for an entry, gives back the free numbers
-- from before the allocation.
pub pool-alloc :
    (fl : List Extent) (count ofs : ℕ)
    → 0 < count
    → IsOrdered 0 fl
    → (alloc fl count).0 ≡ some ofs
    → (fl' : List Extent) × (pool true (alloc fl count).1 ofs count ≡ ok fl')
      × IsOrdered 0 fl'
      × ((n : ℕ) → is_free fl' n ≡ is_free fl n)
      × (total fl' ≡ total fl)
pool-alloc fl count ofs h v e =
    let (ordered, apart, fits, taken, fewer) = alloc_correct fl count ofs h v e in
    let (fl', run, ordered', added, more) =
      pool_correct (alloc fl count).1 ofs count ordered h fits apart in
    (fl', run, ordered', λ n. added n ∙ sym (taken n), omega arith)
