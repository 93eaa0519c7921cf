-- ===== src/Character/New.antt =====
-- A new character takes no other character's number and touches no other character's file.
use boris.Prelude.{
  ℕ, ◌^◌, ◌≤◌, ◌<◌, ◌≡◌, ◌≢◌, ◌∙◌, sym, refl, ap, Bool, true, false, ◌||◌, Option, none, some, List,
  [], ◌∷◌, ◌++◌, ◌==◌, if◌then◌else◌, length, length-append, drop, take_all, All, Bytes, codes,
  isdigit, arith,
}
use mathlib.Core.Path.{subst}
use boris.Freelist.{Extent, alloc}
use boris.Freelist.Order.{IsOrdered, in_range, is_free}
use boris.Freelist.Alloc.{alloc_correct}
use boris.Fdb.Write.{
  Disk, WriteHandle, makepath, makepath_tmp, write_begin, write_pairs, write_end, store,
}
use boris.Fdb.Write.Atomic.{write_pairs-SameFile, write_end_elsewhere, store_elsewhere}
use boris.User.Table.{apart-not_free}
use boris.Character.{
  Character, no_values, id_of, with_id, id_max, domain_character, character_fields, character_save,
  SaveCalls, save_to, save_end, new_with, character_new,
}
use boris.Character.Numbers.{has_number}

-- what the program relies on in the C library: `%u` prints digits, ten at most, and other digits for
-- another number
pub record Decimal (decimal : ℕ → Bytes) : Type 0 where
  pub digits : (n : ℕ) → All (λ c. isdigit c ≡ true) (decimal n)
  pub short : (n : ℕ) → n < 2 ^ 32 → length (decimal n) ≤ 10
  pub injective : (m n : ℕ) → m < 2 ^ 32 → n < 2 ^ 32 → decimal m ≡ decimal n → m ≡ n

-- what holds of both branches
if_both :
    {A : Type 0} (P : A → Type 0) (test : Bool) (x y : A) → P x → P y → P (if test then x else y)
if_both P true x y f g = f
if_both P false x y f g = g

not_digits : (l : Bytes) → All (λ c. isdigit c ≡ true) (l ++ codes ".tmp") → ⊥
not_digits [] h = let bad : false ≡ true = h.0 in absurd (cc)
not_digits (c ∷ l) h = not_digits l h.1

module _ (decimal : ℕ → Bytes) (library : Decimal decimal) where
  path_of : ℕ → Bytes
  path_of n = makepath domain_character (decimal n)

  -- the paths of two characters differ
  path_ne :
      (m n : ℕ)
      → m < 2 ^ 32
      → n < 2 ^ 32
      → m ≢ n
      → makepath domain_character (decimal m) ≢ makepath domain_character (decimal n)
  unfolding makepath
  path_ne m n hm hn ne e =
      let cut = ap (drop 11) e in
      let same : decimal m ≡ decimal n =
        sym (take_all 4084 (decimal m) (omega (arith, library.short m hm)))
        ∙ cut
        ∙ take_all 4084 (decimal n) (omega (arith, library.short n hn)) in
      ne (library.injective m n hm hn same)

  -- the path of a character is the temporary path of none
  path_tmp_ne :
      (m n : ℕ)
      → m < 2 ^ 32
      → n < 2 ^ 32
      → makepath domain_character (decimal m) ≢ makepath_tmp domain_character (decimal n)
  unfolding makepath makepath_tmp
  path_tmp_ne m n hm hn e =
      let cut = ap (drop 11) e in
      let tmp : Bytes = decimal n ++ codes ".tmp" in
      let same : decimal m ≡ tmp =
        sym (take_all 4084 (decimal m) (omega (arith, library.short m hm)))
        ∙ cut
        ∙ take_all 4084 tmp
            (omega (arith, library.short n hn, length-append (decimal n) (codes ".tmp"))) in
      not_digits (decimal n)
        (subst (λ (l : Bytes). All (λ c. isdigit c ≡ true) l) same (library.digits m))

  save_end-disk : (ch : Character) (r : Bool × Disk) → (save_end decimal ch r).1.1 ≡ r.1
  unfolding save_end
  save_end-disk ch (true, disk) = refl
  save_end-disk ch (false, disk) = refl

  save_end-values :
      (ch : Character) (r : Bool × Disk) → (save_end decimal ch r).1.0.values ≡ ch.values
  unfolding save_end
  save_end-values ch (true, disk) = refl
  save_end-values ch (false, disk) = refl

  save_to-values :
      (ch : Character) (calls : SaveCalls) (r : Option WriteHandle × Disk)
      → (save_to decimal ch calls r).1.0.values ≡ ch.values
  unfolding save_to
  save_to-values ch calls (none, disk) = refl
  save_to-values ch calls (some h, disk) = save_end-values ch _

  save-values :
      (calls : SaveCalls) (ch : Character) (disk : Disk)
      → (character_save decimal calls ch disk).1.0.values ≡ ch.values
  unfolding character_save
  save-values calls ch disk =
      if_both (λ (r : ℕ × (Character × Disk)). r.1.0.values ≡ ch.values) ch.dirty_fl _ _
        (save_to-values ch calls _) refl

  save_to-elsewhere :
      (calls : SaveCalls) (opens : Bool) (ch : Character) (disk : Disk) (id p : Bytes)
      → p ≢ makepath domain_character id
      → p ≢ makepath_tmp domain_character id
      → (save_to decimal ch calls (write_begin opens domain_character id disk)).1.1 p ≡ disk p
  unfolding save_to write_begin
  save_to-elsewhere calls false ch disk id p ne ne' = refl
  save_to-elsewhere calls true ch disk id p ne ne' =
      let tmp = makepath_tmp domain_character id in
      let h : WriteHandle = record {
        written = [];
        filename_tmp = tmp;
        domain = domain_character;
        id = id;
        error_fl = false;
      } in
      let opened = store disk tmp (some []) in
      let h' = write_pairs calls.pairs 0 h (character_fields decimal ch) in
      let own = write_pairs-SameFile calls.pairs 0 h (character_fields decimal ch) in
      ap (λ (d : Disk). d p)
        (save_end-disk ch (write_end calls.closes calls.removes calls.renames calls.lost h' opened))
      ∙ write_end_elsewhere calls.closes calls.removes calls.renames calls.lost h' opened p
          (λ e. ne' (e ∙ own.tmp))
          (λ e.
            ne
              (e ∙ (ap (λ d. makepath d h'.id) own.domain ∙ ap (makepath domain_character) own.id)))
      ∙ store_elsewhere disk tmp p (some []) ne'

  -- saving a character changes no file but its own and the temporary one, whatever fails
  save_elsewhere :
      (calls : SaveCalls) (ch : Character) (disk : Disk) (p : Bytes)
      → p ≢ makepath domain_character (decimal (id_of ch.values))
      → p ≢ makepath_tmp domain_character (decimal (id_of ch.values))
      → (character_save decimal calls ch disk).1.1 p ≡ disk p
  unfolding character_save
  save_elsewhere calls ch disk p ne ne' =
      if_both (λ (r : ℕ × (Character × Disk)). r.1.1 p ≡ disk p) ch.dirty_fl _ _
        (save_to-elsewhere calls calls.opens ch disk (decimal (id_of ch.values)) p ne ne') refl

  -- what `new_with` leaves, given the number
  module _ (calls : SaveCalls) (disk : Disk) (id : ℕ) (pool : List Extent) (ch : Character) where
    made :
        (new_with decimal (character_save decimal calls) disk (some id, pool)).0 ≡ some ch
        → id_of ch.values ≡ id
    unfolding new_with
    made e =
        let fresh : Character = record no_values {
          values = with_id id no_values.values;
          dirty_fl = true;
        } in
        let same : (character_save decimal calls fresh disk).1.0 ≡ ch = cc in
        ap (λ (c : Character). id_of c.values) (sym same) ∙ ap id_of (save-values calls fresh disk)

    made_elsewhere :
        (n : ℕ)
        → n < 2 ^ 32
        → id < 2 ^ 32
        → n ≢ id
        → (new_with decimal (character_save decimal calls) disk (some id, pool)).1.1
            (makepath domain_character (decimal n))
          ≡ disk (makepath domain_character (decimal n))
    unfolding new_with
    made_elsewhere n hn hid ne =
        save_elsewhere calls
          (record no_values { values = with_id id no_values.values; dirty_fl = true }) disk
          (makepath domain_character (decimal n)) (path_ne n id hn hid ne) (path_tmp_ne n id hn hid)

  -- a number that no file has is taken out of the pool, and the files of the others stay
  pub Fresh :
      (strtoul10 : Bytes → ℕ × Bytes)
      → List Bytes
      → List Extent
      → Disk
      → ℕ
      → List Extent × Disk
      → Type 0
  Fresh strtoul10 names pool disk id after =
      (in_range 1 id_max id ≡ true)
      × (has_number strtoul10 id names ≡ false)
      × IsOrdered 0 after.0
      × ((n : ℕ) → is_free pool n ≡ (is_free after.0 n || (n == id)))
      × (is_free after.0 id ≡ false)
      × ((n : ℕ)
          → n < 2 ^ 32
          → n ≢ id
          → after.1 (makepath domain_character (decimal n))
            ≡ disk (makepath domain_character (decimal n)))

  allocated :
      (calls : SaveCalls) (pool : List Extent) (disk : Disk) (strtoul10 : Bytes → ℕ × Bytes)
      (names : List Bytes) (ch : Character) (r : Option ℕ × List Extent)
      → alloc pool 1 ≡ r
      → IsOrdered 0 pool
      → ((n : ℕ)
          → is_free pool n ≡ true
          → (in_range 1 id_max n ≡ true) × (has_number strtoul10 n names ≡ false))
      → (new_with decimal (character_save decimal calls) disk r).0 ≡ some ch
      → Fresh strtoul10 names pool disk
          (id_of ch.values)
          (new_with decimal (character_save decimal calls) disk r).1
  unfolding new_with Fresh
  allocated calls pool disk strtoul10 names ch (none, left) a v only e = absurd (cc)
  allocated calls pool disk strtoul10 names ch (some id, left) a v only e =
      let got : (alloc pool 1).0 ≡ some id = ap (λ (q : Option ℕ × List Extent). q.0) a in
      let rest : (alloc pool 1).1 ≡ left = ap (λ (q : Option ℕ × List Extent). q.1) a in
      let (ordered, apart, fits, free, size) = alloc_correct pool 1 id (omega arith) v got in
      let was : is_free pool id ≡ true = ground (arith, free id) in
      let (range, unlisted) = only id was in
      let same = made calls disk id left ch e in
      rw same (
        range,
        unlisted,
        subst (λ (l : List Extent). IsOrdered 0 l) rest ordered,
        λ n.
            subst (λ (l : List Extent). is_free pool n ≡ (is_free l n || (n == id))) rest
              (ground (arith, free n)),
        subst (λ (l : List Extent). is_free l id ≡ false) rest
            (apart-not_free id (alloc pool 1).1 apart),
        λ n hn ne. made_elsewhere calls disk id left ch n hn (ground (arith, range)) ne,
      )

  -- `character_new`, if it makes a character, whatever calls of the C library fail in saving it: the number is from 1 to
  -- ID_MAX and of no character that has a file, the pool has lost exactly it, and the files of all
  -- other numbers are untouched. The pool is what the check at the start left, less what was
  -- taken since: no number of a file is free.
  pub character_new-Fresh :
      (memory : Bool) (calls : SaveCalls) (pool : List Extent) (disk : Disk)
      (strtoul10 : Bytes → ℕ × Bytes) (names : List Bytes) (ch : Character)
      → IsOrdered 0 pool
      → ((n : ℕ)
          → is_free pool n ≡ true
          → (in_range 1 id_max n ≡ true) × (has_number strtoul10 n names ≡ false))
      → (character_new decimal memory calls pool disk).0 ≡ some ch
      → Fresh strtoul10 names pool disk
          (id_of ch.values)
          (character_new decimal memory calls pool disk).1
  unfolding character_new
  character_new-Fresh false calls pool disk strtoul10 names ch v only e = absurd (cc)
  character_new-Fresh true calls pool disk strtoul10 names ch v only e =
      allocated calls pool disk strtoul10 names ch (alloc pool 1) refl v only e
