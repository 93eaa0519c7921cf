-- ===== src/User/Table.antt =====
-- The well-formed table of users: no two users have one name or one number, and no number in use is free.
use boris.Prelude.{
  ℕ, ◌≡◌, ◌≢◌, ◌∙◌, sym, refl, ap, true, false, Option, none, some, List, [], ◌∷◌, arith,
  Bool-cases, inl, inr, Bytes, same_text, All,
}
use boris.Freelist.{Extent, alloc}
use boris.Freelist.Order.{IsOrdered, is_free, IsApart}
use boris.Freelist.Alloc.{alloc_correct}
use boris.User.{User, UserdbEntry, Users, user_illegal, is_listed, forget}

-- `id` is not the number of the user of an entry
abbrev pub IsOther : ℕ → Option User → Type 0
IsOther id none = Unit {0}
IsOther id (some u) = id ≢ u.id

-- no entry has a user with the number `id`
abbrev pub IsUnused : ℕ → List UserdbEntry → Type 0
IsUnused id = All (λ e. IsOther id e.u)

-- the number of the user of an entry is not free
abbrev pub IsKept : List Extent → Option User → Type 0
IsKept pool none = Unit {0}
IsKept pool (some u) = is_free pool u.id ≡ false

abbrev pub IsAlone : Option User → List UserdbEntry → Type 0
IsAlone none list = Unit {0}
IsAlone (some u) list = IsUnused u.id list

unfoldable pub IsTable : List Extent → List UserdbEntry → Type 0
IsTable pool [] = Unit {0}
IsTable pool (e ∷ list) =
    (user_illegal e.cached_username ≡ false)
    × (is_listed list e.cached_username ≡ false)
    × IsKept pool e.u
    × IsAlone e.u list
    × IsTable pool list

pub record IsSound (db : Users) : Type 0 where
  pub pool : IsOrdered 0 db.user_id_freelist
  pub table : IsTable db.user_id_freelist db.user_list

true-ne-false : true ≡ false → ⊥
true-ne-false e = cc

IsKept-mono :
    (pool pool' : List Extent) (u : Option User)
    → ((n : ℕ) → is_free pool n ≡ false → is_free pool' n ≡ false)
    → IsKept pool u
    → IsKept pool' u
IsKept-mono pool pool' none f k = tt
IsKept-mono pool pool' (some u) f k = f u.id k

free-IsOther :
    (pool : List Extent) (u : Option User) (id : ℕ)
    → is_free pool id ≡ true
    → IsKept pool u
    → IsOther id u
free-IsOther pool none id h k = tt
free-IsOther pool (some u) id h k =
    λ same. absurd (true-ne-false (sym h ∙ ap (is_free pool) same ∙ k))

-- fewer free numbers
IsTable-mono :
    (pool pool' : List Extent) (list : List UserdbEntry)
    → ((n : ℕ) → is_free pool n ≡ false → is_free pool' n ≡ false)
    → IsTable pool list
    → IsTable pool' list
unfolding IsTable
IsTable-mono pool pool' [] f t = tt
IsTable-mono pool pool' (e ∷ list) f t =
    (t.0, t.1, IsKept-mono pool pool' e.u f (t.2), t.3, IsTable-mono pool pool' list f (t.4))

-- a free number is no user's
free-IsUnused :
    (pool : List Extent) (list : List UserdbEntry) (id : ℕ)
    → is_free pool id ≡ true
    → IsTable pool list
    → IsUnused id list
unfolding IsTable
free-IsUnused pool [] id h t = tt
free-IsUnused pool (e ∷ list) id h t =
    (free-IsOther pool e.u id h (t.2), free-IsUnused pool list id h (t.4))

pub apart-not_free : (id : ℕ) (pool : List Extent) → IsApart id 1 pool → is_free pool id ≡ false
apart-not_free id [] a = refl
apart-not_free id (e ∷ pool) a = ground (arith, apart-not_free id pool)

-- an entry that loses its user
pub forget-listed :
    (list : List UserdbEntry) (name other : Bytes)
    → is_listed (forget list name) other ≡ is_listed list other
unfolding is_listed forget
forget-listed [] name other = refl
forget-listed (e ∷ list) name other = ground (arith, forget-listed list name other)

forget-IsUnused :
    (list : List UserdbEntry) (name : Bytes) (id : ℕ)
    → IsUnused id list
    → IsUnused id (forget list name)
unfolding forget
forget-IsUnused [] name id h = tt
forget-IsUnused (e ∷ list) name id h = elim (Bool-cases (same_text e.cached_username name)) [
  | inl same ↦ rw same (tt, h.1)
  | inr other ↦ rw other (h.0, forget-IsUnused list name id (h.1))
]

forget-IsAlone :
    (u : Option User) (list : List UserdbEntry) (name : Bytes)
    → IsAlone u list
    → IsAlone u (forget list name)
forget-IsAlone none list name h = tt
forget-IsAlone (some u) list name h = forget-IsUnused list name u.id h

pub forget-IsTable :
    (pool : List Extent) (list : List UserdbEntry) (name : Bytes)
    → IsTable pool list
    → IsTable pool (forget list name)
unfolding IsTable forget
forget-IsTable pool [] name t = tt
forget-IsTable pool (e ∷ list) name t = elim (Bool-cases (same_text e.cached_username name)) [
  | inl same ↦ rw same (t.0, t.1, tt, tt, t.4)
  | inr other ↦ rw other (
    t.0,
    forget-listed list name e.cached_username ∙ t.1,
    t.2,
    forget-IsAlone e.u list name (t.3),
    forget-IsTable pool list name (t.4),
  )
]

-- taking a number off the pool
module _ (pool : List Extent) (list : List UserdbEntry) (id : ℕ) (ordered : IsOrdered 0 pool)
    (table : IsTable pool list) (taken : (alloc pool 1).0 ≡ some id) where
  id-is_free : is_free pool id ≡ true
  id-is_free = let a = alloc_correct pool 1 id (omega arith) ordered taken in ground (arith, a.3 id)

  pub pool-IsTable : IsTable (alloc pool 1).1 list
  pool-IsTable =
      let a = alloc_correct pool 1 id (omega arith) ordered taken in
      IsTable-mono pool (alloc pool 1).1 list (λ n h. ground (arith, a.3 n)) table

  -- a new entry, with a new name and that number
  pub added-IsTable :
      (u : User)
      → u.id ≡ id
      → user_illegal u.username ≡ false
      → is_listed list u.username ≡ false
      → IsTable (alloc pool 1).1 ((record { cached_username = u.username; u = some u }) ∷ list)
  unfolding IsTable
  added-IsTable u e legal new =
      let a = alloc_correct pool 1 id (omega arith) ordered taken in
      (
        legal,
        new,
        ap (is_free (alloc pool 1).1) e ∙ apart-not_free id (alloc pool 1).1 (a.1),
        rw e (free-IsUnused pool list id id-is_free table),
        pool-IsTable,
      )
