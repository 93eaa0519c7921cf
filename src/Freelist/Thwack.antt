-- ===== src/Freelist/Thwack.antt =====
-- `freelist_thwack`: taking a given range out of the pool.
use mathlib.Core.Bool.{◌||◌}
use boris.Prelude.{
  ◌==◌, ℕ, ◌+◌, ◌-◌, ◌≤◌, ◌<◌, ◌≡◌, refl, ◌∙◌, Bool, true, false, not, ◌&&◌, List, [], ◌∷◌, ◌++◌,
  arith, u32_mod, leb, inl, inr, Bool-cases, ok, append_assoc, append-nil, All-append, add32, sub32,
}
use boris.Freelist.{Extent, extent, thwack_at, thwack_split, thwack_loop, thwack, pool}
use boris.Freelist.Order.{IsOrdered, in_range, is_free, IsApart, IsApart-below, IsOrdered-mono}
use boris.Freelist.Pool.{pool_correct}

-- one extent holds the whole range
abbrev pub holds_range : ℕ → ℕ → List Extent → Bool
holds_range ofs count [] = false
holds_range ofs count (e ∷ l) =
    (leb e.offset ofs && leb (ofs + count) (e.offset + e.length)) || holds_range ofs count l

-- where the extents end
abbrev last_end : ℕ → List Extent → ℕ
last_end lo [] = lo
last_end lo (e ∷ l) = last_end (e.offset + e.length) l

IsOrdered-append :
    (lo : ℕ) (b l : List Extent)
    → IsOrdered lo b
    → IsOrdered (last_end lo b) l
    → IsOrdered lo (b ++ l)
IsOrdered-append lo [] l v w = w
IsOrdered-append lo (e ∷ b) l v w =
    (v.0, v.1, v.2, IsOrdered-append (e.offset + e.length) b l v.3 w)

IsOrdered-left : (lo : ℕ) (b l : List Extent) → IsOrdered lo (b ++ l) → IsOrdered lo b
IsOrdered-left lo [] l v = tt
IsOrdered-left lo (e ∷ b) l v = (v.0, v.1, v.2, IsOrdered-left (e.offset + e.length) b l v.3)

IsOrdered-right : (lo : ℕ) (b l : List Extent) → IsOrdered lo (b ++ l) → IsOrdered (last_end lo b) l
IsOrdered-right lo [] l v = v
IsOrdered-right lo (e ∷ b) l v = IsOrdered-right (e.offset + e.length) b l v.3

is_free-append : (b l : List Extent) (n : ℕ) → is_free (b ++ l) n ≡ (is_free b n || is_free l n)
is_free-append [] l n = refl
is_free-append (e ∷ b) l n = ground (arith, is_free-append b l n)

le-last_end : (lo : ℕ) (b : List Extent) → IsOrdered lo b → lo ≤ last_end lo b
le-last_end lo [] v = omega arith
le-last_end lo (e ∷ b) v = omega (arith, le-last_end (e.offset + e.length) b v.3)

-- extents that end before the range do not meet it
IsApart-left :
    (ofs count lo : ℕ) (b : List Extent)
    → IsOrdered lo b
    → last_end lo b ≤ ofs
    → IsApart ofs count b
IsApart-left ofs count lo [] v h = tt
IsApart-left ofs count lo (e ∷ b) v h = (
  inr (omega (arith, le-last_end (e.offset + e.length) b v.3)),
  IsApart-left ofs count (e.offset + e.length) b v.3 h,
)

IsApart-false :
    (ofs count n : ℕ) (l : List Extent)
    → IsApart ofs count l
    → in_range ofs count n ≡ true
    → is_free l n ≡ false
IsApart-false ofs count n [] a h = refl
IsApart-false ofs count n (e ∷ l) a h = ground (arith, IsApart-false ofs count n l a.1)

-- `l'` has the numbers of `l` that are not in the range.
abbrev pub Removes : ℕ → ℕ → List Extent → ℕ → List Extent → Type 0
Removes ofs count l n l' = is_free l' n ≡ (is_free l n && not (in_range ofs count n))

-- An entry `c` that holds the range, with the entries around it.
module _ (before : List Extent) (c : Extent) (rest : List Extent) (ofs count : ℕ)
    (some_count : 0 < count) (starts : c.offset ≤ ofs) (ends : ofs + count ≤ c.offset + c.length)
    (v : IsOrdered 0 (before ++ (c ∷ rest))) where
  left : IsOrdered 0 before
  left = IsOrdered-left 0 before (c ∷ rest) v

  right : IsOrdered (last_end 0 before) (c ∷ rest)
  right = IsOrdered-right 0 before (c ∷ rest) v

  left-IsApart : IsApart c.offset c.length before
  left-IsApart = IsApart-left c.offset c.length 0 before left right.0

  right-IsApart : IsApart c.offset c.length rest
  right-IsApart = IsApart-below c.offset c.length (c.offset + c.length) rest (omega arith) right.3

  swap_right : (l : List Extent) → IsOrdered (last_end 0 before) l → IsOrdered 0 (before ++ l)
  swap_right l w = IsOrdered-append 0 before l left w

  -- The entries of `l` stand for what is left of `c`.
  swap_right-Removes :
      (l : List Extent) (n : ℕ)
      → is_free l n ≡ (is_free (c ∷ rest) n && not (in_range ofs count n))
      → Removes ofs count (before ++ (c ∷ rest)) n (before ++ l)
  swap_right-Removes l n e = ground (
    arith,
    is_free-append before l n,
    is_free-append before (c ∷ rest) n,
    IsApart-false c.offset c.length n before left-IsApart,
  )

  -- Nothing in the split wraps around.
  thwack_split_numbers :
      thwack_split true before c rest ofs count
      ≡ pool true
          (before ++ (extent c.offset (ofs - c.offset) ∷ rest))
          (ofs + count)
          (c.offset + c.length - (ofs + count))
  thwack_split_numbers =
      let top : c.offset + c.length < u32_mod = right.2 in
      let e : add32 ofs count ≡ ofs + count = omega arith in
      let f : sub32 (add32 c.offset c.length) (ofs + count) ≡ c.offset + c.length - (ofs + count) =
        omega arith in
      let g : sub32 (sub32 c.length count) (c.offset + c.length - (ofs + count)) ≡ ofs - c.offset =
        omega arith in
      rw (e, f, g)

  thwack_split_lem :
      c.offset < ofs
      → ofs + count < c.offset + c.length
      → (fl' : List Extent) × (thwack_split true before c rest ofs count ≡ ok fl')
        × IsOrdered 0 fl'
        × ((n : ℕ) → Removes ofs count (before ++ (c ∷ rest)) n fl')
  thwack_split_lem inside inside' =
      let top : c.offset + c.length < u32_mod = right.2 in
      let starts_at : last_end 0 before ≤ c.offset = right.0 in
      let first_fits : c.offset + (ofs - c.offset) < u32_mod = omega arith in
      let cut = before ++ (extent c.offset (ofs - c.offset) ∷ rest) in
      let rest_count : ℕ = c.offset + c.length - (ofs + count) in
      let kept : IsOrdered 0 cut = swap_right (extent c.offset (ofs - c.offset) ∷ rest) (
        right.0,
        omega arith,
        first_fits,
        IsOrdered-mono _ (c.offset + c.length) rest (omega arith) right.3,
      ) in
      let apart : IsApart (ofs + count) rest_count cut =
        All-append _ before (extent c.offset (ofs - c.offset) ∷ rest)
          (IsApart-left (ofs + count) rest_count 0 before left (omega arith))
          (
            inr (omega arith),
            IsApart-below (ofs + count) rest_count (c.offset + c.length) rest (omega arith) right.3,
          ) in
      let (fl', run, ordered, added, _) =
        pool_correct cut (ofs + count) rest_count kept (omega arith) (omega arith) apart in
      (
        fl',
        thwack_split_numbers ∙ run,
        ordered,
        λ n. ground (
          arith,
          added n,
          is_free-append before (extent c.offset (ofs - c.offset) ∷ rest) n,
          is_free-append before (c ∷ rest) n,
          IsApart-false c.offset c.length n before left-IsApart,
          IsApart-false c.offset c.length n rest right-IsApart,
        ),
      )

  thwack_at_lem :
      (fl' : List Extent) × (thwack_at true before c rest ofs count ≡ ok fl')
      × IsOrdered 0 fl'
      × ((n : ℕ) → Removes ofs count (before ++ (c ∷ rest)) n fl')
  unfolding thwack_at
  thwack_at_lem =
      let top : c.offset + c.length < u32_mod = right.2 in
      elim (Bool-cases ((c.offset == ofs) && (c.length == count))) [
        | inl whole ↦ (
          before ++ rest,
          rw whole,
          swap_right rest
              (IsOrdered-mono _ (c.offset + c.length) rest (omega (arith, right.0)) right.3),
          λ n.
              swap_right-Removes rest n
                (ground (arith, IsApart-false c.offset c.length n rest right-IsApart)),
        )
        | inr part ↦ elim (Bool-cases (c.offset == ofs)) [
          | inl head ↦
              let l = extent (add32 c.offset count) (sub32 c.length count) ∷ rest in
              (
                before ++ l,
                rw (part, head),
                swap_right l (ground (arith, right.0, right.3)),
                λ n.
                    swap_right-Removes l n
                      (ground (arith, IsApart-false c.offset c.length n rest right-IsApart)),
              )
          | inr later ↦ elim (Bool-cases (add32 c.offset c.length == add32 ofs count)) [
            | inl tail ↦
                let l = extent c.offset (sub32 c.length count) ∷ rest in
                (
                  before ++ l,
                  rw (part, later, tail),
                  swap_right l (
                      ground (
                        arith,
                        right.0,
                        right.3,
                        IsOrdered-mono (c.offset + sub32 c.length count) (c.offset + c.length) rest,
                      )),
                  λ n.
                      swap_right-Removes l n
                        (ground (arith, IsApart-false c.offset c.length n rest right-IsApart)),
                )
            | inr middle ↦ rw (part, later, middle) (thwack_split_lem (ground arith) (ground arith))
          ]
        ]
      ]

thwack_loop_hit :
    (before l : List Extent) (ofs count : ℕ)
    → 0 < count
    → ofs + count < u32_mod
    → IsOrdered 0 (before ++ l)
    → holds_range ofs count l ≡ true
    → (fl' : List Extent) × (thwack_loop true before l ofs count ≡ ok (true, fl'))
      × IsOrdered 0 fl'
      × ((n : ℕ) → Removes ofs count (before ++ l) n fl')
unfolding thwack_loop
thwack_loop_hit before [] ofs count p q v h = cc
thwack_loop_hit before (c ∷ l) ofs count p q v h =
    let top : c.offset + c.length < u32_mod = (IsOrdered-right 0 before (c ∷ l) v).2 in
    let wrap : add32 ofs count ≡ ofs + count = omega arith in
    let wrap' : add32 c.offset c.length ≡ c.offset + c.length = omega arith in
    elim (Bool-cases (leb c.offset ofs && leb (ofs + count) (c.offset + c.length))) [
      | inl here ↦
          let (fl', run, ordered, removed) =
            thwack_at_lem before c l ofs count p (ground arith) (ground arith) v in
          (fl', rw (wrap, wrap', here, run), ordered, removed)
      | inr not_here ↦
          let (fl', run, ordered, removed) =
            thwack_loop_hit (before ++ (c ∷ [])) l ofs count p q
              (rw (append_assoc before (c ∷ []) l) v) (ground arith) in
          (
            fl',
            rw (wrap, wrap', not_here) run,
            ordered,
            λ n. rw (append_assoc before (c ∷ []) l) at (removed n),
          )
    ]

thwack_loop_miss :
    (malloc : Bool) (before l : List Extent) (ofs count : ℕ)
    → ofs + count < u32_mod
    → IsOrdered 0 (before ++ l)
    → holds_range ofs count l ≡ false
    → thwack_loop malloc before l ofs count ≡ ok (false, before ++ l)
unfolding thwack_loop
thwack_loop_miss malloc before [] ofs count q v h = rw append-nil
thwack_loop_miss malloc before (c ∷ l) ofs count q v h =
    let top : c.offset + c.length < u32_mod = (IsOrdered-right 0 before (c ∷ l) v).2 in
    ground (
      arith,
      append_assoc before (c ∷ []) l,
      thwack_loop_miss malloc (before ++ (c ∷ [])) l ofs count q
          (rw (append_assoc before (c ∷ []) l) v),
    )

-- Taking a range that one extent of a list in order holds, with memory for an entry: the call returns
-- success, the list stays in order, and exactly the numbers of the range have left the pool.
pub thwack_correct :
    (fl : List Extent) (ofs count : ℕ)
    → 0 < count
    → ofs + count < u32_mod
    → IsOrdered 0 fl
    → holds_range ofs count fl ≡ true
    → (fl' : List Extent) × (thwack true fl ofs count ≡ ok (true, fl'))
      × IsOrdered 0 fl'
      × ((n : ℕ) → is_free fl' n ≡ (is_free fl n && not (in_range ofs count n)))
unfolding thwack
thwack_correct fl ofs count p q v h = thwack_loop_hit [] fl ofs count p q v h

-- Where no extent of a list in order holds the whole range, the call reports failure and changes
-- nothing.
pub thwack_fails :
    (malloc : Bool) (fl : List Extent) (ofs count : ℕ)
    → ofs + count < u32_mod
    → IsOrdered 0 fl
    → holds_range ofs count fl ≡ false
    → thwack malloc fl ofs count ≡ ok (false, fl)
unfolding thwack
thwack_fails malloc fl ofs count q v h = thwack_loop_miss malloc [] fl ofs count q v h
