-- ===== src/Character/Numbers.antt =====
-- The pool of numbers after the check of all characters at the start.
use boris.Prelude.{
  ℕ, ◌+◌, ◌%◌, ◌^◌, ◌<◌, ◌≡◌, ◌∙◌, sym, refl, ap, Bool-cases, inl, inr, Bool, true, false, not,
  ◌&&◌, ◌||◌, Option, none, some, List, [], ◌∷◌, ◌==◌, if◌then◌else◌, length, All, head, Bytes,
  Outcome, ok, died, map_ok, u32_mod, arith,
}
use mathlib.Core.Path.{subst}
use boris.Freelist.{Extent, thwack, new, pool}
use boris.Freelist.Order.{IsOrdered, in_range, is_free}
use boris.Freelist.Pool.{pool_correct}
use boris.Freelist.Thwack.{holds_range, thwack_correct, thwack_fails}
use boris.Fdb.Directory.{Entry, record_names, iterate-record_names}
use boris.Fdb.Write.{Disk}
use boris.Character.{
  Character, Preflight, passed, refused, crashed, id_max, id_of, thwacked, checked, preflight_loop,
  character_load, character_preflight, character_initialize, start,
}

-- the number that a file's name stands for
abbrev pub number_of : (Bytes → ℕ × Bytes) → Bytes → ℕ
number_of strtoul10 name = (strtoul10 name).0 % 2 ^ 32

-- `n` is the number of one of the files
unfoldable pub has_number : (Bytes → ℕ × Bytes) → ℕ → List Bytes → Bool
has_number strtoul10 n [] = false
has_number strtoul10 n (name ∷ names) =
    (number_of strtoul10 name == n) || has_number strtoul10 n names

-- no two files have one number
abbrev pub IsDistinct : (Bytes → ℕ × Bytes) → List Bytes → Type 0
IsDistinct strtoul10 [] = Unit {0}
IsDistinct strtoul10 (name ∷ names) =
    (has_number strtoul10 (number_of strtoul10 name) names ≡ false) × IsDistinct strtoul10 names

holds_range-is_free : (n : ℕ) (fl : List Extent) → holds_range n 1 fl ≡ true → is_free fl n ≡ true
holds_range-is_free n [] h = cc
holds_range-is_free n (e ∷ fl) h = ground (arith, holds_range-is_free n fl)

in_range-one : (n m : ℕ) → in_range n 1 m ≡ (n == m)
in_range-one n m = ground arith

-- a number was taken
taken_one :
    (fl fl' : List Extent) (n : ℕ)
    → n + 1 < u32_mod
    → IsOrdered 0 fl
    → thwack true fl n 1 ≡ ok (true, fl')
    → (is_free fl n ≡ true)
      × IsOrdered 0 fl'
      × ((m : ℕ) → is_free fl' m ≡ (is_free fl m && not (n == m)))
taken_one fl fl' n small v e = elim (Bool-cases (holds_range n 1 fl)) [
  | inl held ↦
      let (fl1, run, ordered, free) = thwack_correct fl n 1 (omega arith) small v held in
      let same : fl1 ≡ fl' = cc in
      (
        holds_range-is_free n fl held,
        subst (λ (l : List Extent). IsOrdered 0 l) same ordered,
        λ m.
            subst (λ (l : List Extent). is_free l m ≡ (is_free fl m && not (n == m))) same
              (free m ∙ ap (λ b. is_free fl m && not b) (in_range-one n m)),
      )
  | inr missed ↦ let no = thwack_fails true fl n 1 small v missed in absurd (cc)
]

module _ (strtoul strtoul10 : Bytes → ℕ × Bytes) (decimal : ℕ → Bytes) (rounds fuel : ℕ)
    (disk : Disk) where
  thwacked-passed :
      (next : List Extent → Preflight) (r : Outcome (Bool × List Extent)) (pool : List Extent)
      → thwacked decimal strtoul strtoul10 rounds fuel next r ≡ passed pool
      → (fl : List Extent) × (r ≡ ok (true, fl)) × (next fl ≡ passed pool)
  unfolding thwacked
  thwacked-passed next died pool e = absurd (cc)
  thwacked-passed next (ok (true, fl)) pool e = (fl, refl, e)
  thwacked-passed next (ok (false, fl)) pool e = absurd (cc)

  checked-passed :
      (next : List Extent → Preflight) (n : ℕ) (fl : List Extent) (loaded : Option Character)
      (pool : List Extent)
      → checked decimal strtoul strtoul10 rounds fuel next n fl loaded ≡ passed pool
      → (fl' : List Extent) × (thwack true fl n 1 ≡ ok (true, fl')) × (next fl' ≡ passed pool)
  unfolding checked
  checked-passed next n fl none pool e = absurd (cc)
  checked-passed next n fl (some ch) pool e = elim (Bool-cases (id_of ch.values == n)) [
    | inl match ↦
        let same : id_of ch.values ≡ n = ground arith in
        let r = thwacked-passed next (thwack true fl (id_of ch.values) 1) pool (rw match at e) in
        (r.0, subst (λ k. thwack true fl k 1 ≡ ok (true, r.0)) same r.1, r.2)
    | inr other ↦ let bad : crashed ≡ passed pool = rw other at e in absurd (cc)
  ]

  fresh :
      (names : List Bytes) (fl : List Extent) (n : ℕ) (b : Bool)
      → is_free fl n ≡ (b && not (n == n))
      → (has_number strtoul10 n names ≡ true → is_free fl n ≡ true)
      → has_number strtoul10 n names ≡ false
  fresh names fl n b gone listed = elim (Bool-cases (has_number strtoul10 n names)) [
    | inr e ↦ e
    | inl e ↦ let free = listed e in ground (arith, gone, free)
  ]

  -- what is left of the pool behind the loop
  record Loaded (names : List Bytes) (fl pool : List Extent) : Type 0 where
    ordered : IsOrdered 0 pool
    free : (m : ℕ) → is_free pool m ≡ (is_free fl m && not (has_number strtoul10 m names))
    distinct : IsDistinct strtoul10 names
    were_free : (m : ℕ) → has_number strtoul10 m names ≡ true → is_free fl m ≡ true

  preflight_loop-Loaded :
      (names : List Bytes) (fl pool : List Extent)
      → All (λ name. number_of strtoul10 name + 1 < u32_mod) names
      → IsOrdered 0 fl
      → preflight_loop decimal strtoul strtoul10 rounds fuel names disk fl ≡ passed pool
      → Loaded names fl pool
  unfolding preflight_loop has_number
  preflight_loop-Loaded [] fl pool small v e =
      let same : fl ≡ pool = cc in
      record {
        ordered = subst (λ (l : List Extent). IsOrdered 0 l) same v;
        free = λ m.
            subst (λ (l : List Extent). is_free l m ≡ (is_free fl m && true)) same (ground arith);
        distinct = tt;
        were_free = λ m h. cc;
      }
  preflight_loop-Loaded (name ∷ names) fl pool small v e =
      elim (Bool-cases (head (strtoul10 name).1 == 0)) [
        | inr letters ↦ let bad : refused ≡ passed pool = rw letters at e in absurd (cc)
        | inl number ↦
            let n = number_of strtoul10 name in
            let (fl', run, more) =
              checked-passed (preflight_loop decimal strtoul strtoul10 rounds fuel names disk) n fl
                (character_load decimal strtoul strtoul10 rounds fuel n disk) pool
                (rw number at e) in
            let (was, v', gone) = taken_one fl fl' n (small.0) v run in
            let ih = preflight_loop-Loaded names fl' pool (small.1) v' more in
            record {
              ordered = ih.ordered;
              free = λ m. ground (arith, ih.free m, gone m);
              distinct = (fresh names fl' n (is_free fl n) (gone n) (ih.were_free n), ih.distinct);
              were_free = λ m h. ground (arith, ih.were_free m, gone m, h);
            }
      ]

  started :
      (domain opens : Bool) (entries : List Entry) (fl pool : List Extent)
      → All (λ name. number_of strtoul10 name + 1 < u32_mod) (record_names entries)
      → IsOrdered 0 fl
      → (if domain
          then character_preflight decimal strtoul strtoul10 rounds fuel opens entries disk fl
          else refused)
        ≡ passed pool
      → Loaded (record_names entries) fl pool
  unfolding character_preflight
  started false opens entries fl pool small v e = absurd (cc)
  started true false entries fl pool small v e = absurd (cc)
  started true true entries fl pool small v e =
      preflight_loop-Loaded (record_names entries) fl pool small v
        (rw (iterate-record_names (length entries + 1) entries (omega arith)) at e)

  start_pool :
      (fl : List Extent) → pool true [] 1 id_max ≡ ok fl → new true true 1 id_max ≡ ok (some fl)
  unfolding new
  start_pool fl e = ap (map_ok some) e

  start_none : new false true 1 id_max ≡ ok none
  unfolding new
  start_none = refl

  -- The check of all characters passes only where every file has a number of its own from 1 to
  -- ID_MAX, and then exactly the other numbers from 1 to ID_MAX are free, and the pool is in order.
  -- The names of the files are taken to stand for numbers below 2 ^ 32 - 1.
  pub character_initialize-Numbered :
      (memory domain opens : Bool) (entries : List Entry) (pool : List Extent)
      → All (λ name. number_of strtoul10 name + 1 < u32_mod) (record_names entries)
      → character_initialize decimal strtoul strtoul10 rounds fuel memory domain opens entries disk
        ≡ passed pool
      → IsOrdered 0 pool
        × IsDistinct strtoul10 (record_names entries)
        × ((n : ℕ)
            → has_number strtoul10 n (record_names entries) ≡ true
            → in_range 1 id_max n ≡ true)
        × ((n : ℕ)
            → is_free pool n
              ≡ (in_range 1 id_max n && not (has_number strtoul10 n (record_names entries))))
  unfolding character_initialize start
  character_initialize-Numbered false domain opens entries fl small e =
      let bad : refused ≡ passed fl = rw start_none at e in absurd (cc)
  character_initialize-Numbered true domain opens entries fl small e =
      let (fl0, run, ordered, free, size) =
        pool_correct [] 1 id_max tt (omega arith) (omega arith) tt in
      let began = rw (start_pool fl0 run) at e in
      let loaded = started domain opens entries fl0 fl small ordered began in
      (
        loaded.ordered,
        loaded.distinct,
        λ n h. sym (free n) ∙ loaded.were_free n h,
        λ n.
            loaded.free n
            ∙ ap (λ b. b && not (has_number strtoul10 n (record_names entries))) (free n),
      )
