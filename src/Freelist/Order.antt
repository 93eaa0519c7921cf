-- ===== src/Freelist/Order.antt =====
-- The well-formed list of extents, and the numbers that it holds.
use boris.Prelude.{
  ℕ, ◌+◌, ◌≤◌, ◌<◌, ◌≡◌, refl, ◌⊎◌, inl, Bool, false, ◌&&◌, ◌||◌, List, [], ◌∷◌, arith, ltb, leb,
  u32_mod, All,
}
use boris.Freelist.{Extent}

-- Extents that are not empty, in order, without overlap, from `lo` to below 2 ^ 32.
abbrev pub IsOrdered : ℕ → List Extent → Type 0
IsOrdered lo [] = Unit {0}
IsOrdered lo (e ∷ l) =
    (lo ≤ e.offset)
    × (0 < e.length)
    × (e.offset + e.length < u32_mod)
    × IsOrdered (e.offset + e.length) l

-- `n` is one of the `count` numbers from `ofs`
abbrev pub in_range : ℕ → ℕ → ℕ → Bool
in_range ofs count n = leb ofs n && ltb n (ofs + count)

-- the abstract view: `n` is in the pool
abbrev pub is_free : List Extent → ℕ → Bool
is_free [] n = false
is_free (e ∷ l) n = in_range e.offset e.length n || is_free l n

-- no extent meets the range
abbrev pub IsApart : ℕ → ℕ → List Extent → Type 0
IsApart ofs count = All (λ e. (ofs + count ≤ e.offset) ⊎ (e.offset + e.length ≤ ofs))

pub IsOrdered-mono : (lo hi : ℕ) (l : List Extent) → lo ≤ hi → IsOrdered hi l → IsOrdered lo l
IsOrdered-mono lo hi [] h v = tt
IsOrdered-mono lo hi (e ∷ l) h v = (omega arith, v.1, v.2, v.3)

-- nothing below the first extent is free
pub is_free_below : (lo n : ℕ) (l : List Extent) → IsOrdered lo l → n < lo → is_free l n ≡ false
is_free_below lo n [] v h = refl
is_free_below lo n (e ∷ l) v h = ground (arith, is_free_below (e.offset + e.length) n l v.3)

-- a range below the first extent meets none
pub IsApart-below :
    (ofs count lo : ℕ) (l : List Extent) → ofs + count ≤ lo → IsOrdered lo l → IsApart ofs count l
IsApart-below ofs count lo [] h v = tt
IsApart-below ofs count lo (e ∷ l) h v =
    (inl (omega arith), IsApart-below ofs count (e.offset + e.length) l (omega arith) v.3)

-- how many numbers the pool holds
abbrev pub total : List Extent → ℕ
total [] = 0
total (e ∷ l) = e.length + total l
