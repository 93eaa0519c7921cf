-- ===== src/Fdb/Directory/Names.antt =====
-- Which entries of a directory are records.
use boris.Prelude.{
  ℕ, ◌+◌, ◌-◌, ◌<◌, ◌≡◌, ◌≢◌, refl, sym, ap, ◌∙◌, true, false, not, ◌&&◌, List, [], ◌∷◌, ◌++◌,
  Bool-cases, inl, inr, ltb, ◌==◌, length, length-append, take, drop, take-append-drop,
  drop-append_self, head, bytes_eq, bytes_eq_refl, bytes_eq_sound, All, Bytes, codes, arith,
}
use boris.Fdb.Directory.{
  Stat, regular, failed, other, Entry, istempname, last, is_regular, is_skipped, iterate,
  record_names, iterate-record_names,
}

-- a regular file whose name does not begin with a dot, nor end in `.tmp` or `~`
pub record IsRecord (de : Entry) : Type 0 where
  pub regular_file : de.stat ≡ regular
  pub shown : (rest : Bytes) → de.d_name ≢ codes "." ++ rest
  pub permanent : (rest : Bytes) → de.d_name ≢ rest ++ codes ".tmp"
  pub original : (rest : Bytes) → de.d_name ≢ rest ++ codes "~"

-- the names of the records among the entries of a directory, in order
pub data Names : List Entry → List Bytes → Type 0 where
  nothing : Names [] []
  a_record :
      {entries : List Entry} {names : List Bytes} (de : Entry)
      → IsRecord de
      → Names entries names
      → Names (de ∷ entries) (de.d_name ∷ names)
  no_record :
      {entries : List Entry} {names : List Bytes} (de : Entry)
      → (IsRecord de → ⊥)
      → Names entries names
      → Names (de ∷ entries) names

last-append : (rest : Bytes) (c : ℕ) → last (rest ++ (c ∷ [])) ≡ c
unfolding last
last-append [] c = refl
last-append (d ∷ []) c = refl
last-append (d ∷ e ∷ rest) c = last-append (e ∷ rest) c

-- the part in front of the last byte
last_split : (c : ℕ) (s : Bytes) → (rest : Bytes) × (c ∷ s ≡ rest ++ (last (c ∷ s) ∷ []))
unfolding last
last_split c [] = ([], refl)
last_split c (d ∷ s) = let r = last_split d s in (c ∷ r.0, ap (λ (l : Bytes). c ∷ l) r.1)

istempname-append : (c : ℕ) (rest : Bytes) → istempname ((c ∷ rest) ++ codes ".tmp") ≡ true
unfolding istempname
istempname-append c rest =
    let n : length (rest ++ codes ".tmp") ≡ length rest + 4 = length-append rest (codes ".tmp") in
    let long : ltb 4 (length ((c ∷ rest) ++ codes ".tmp")) ≡ true = ground (arith, n) in
    let end : drop (length ((c ∷ rest) ++ codes ".tmp") - 4) ((c ∷ rest) ++ codes ".tmp")
        ≡ codes ".tmp" =
      drop-append_self (c ∷ rest) (codes ".tmp") (length ((c ∷ rest) ++ codes ".tmp") - 4)
        (omega (arith, n)) in
    rw (long, end) (bytes_eq_refl (codes ".tmp"))

hidden : (s : Bytes) → (head s == b'.') ≡ true → (rest : Bytes) × (s ≡ codes "." ++ rest)
hidden [] h = absurd (ground arith)
hidden (c ∷ s) h = let e : c ≡ 46 = ground arith in (s, ap (λ (d : ℕ). d ∷ s) e)

temporary : (s : Bytes) → istempname s ≡ true → (rest : Bytes) × (s ≡ rest ++ codes ".tmp")
unfolding istempname
temporary s h =
    let n : ℕ = length s - 4 in
    let same : bytes_eq (drop n s) (codes ".tmp") ≡ true = ground arith in
    (
      take n s,
      sym (take-append-drop n s)
          ∙ ap (λ t. take n s ++ t) (bytes_eq_sound (drop n s) (codes ".tmp") same),
    )

backup :
    (s : Bytes)
    → (not (head s == 0) && (last s == b'~')) ≡ true
    → (rest : Bytes) × (s ≡ rest ++ codes "~")
backup [] h = absurd (ground arith)
backup (c ∷ s) h =
    let (rest, e) = last_split c s in
    let tilde : last (c ∷ s) ≡ 126 = ground arith in (rest, e ∙ ap (λ d. rest ++ (d ∷ [])) tilde)

irregular : (st : Stat) → is_regular st ≡ false → st ≢ regular
irregular st h e = let bad : is_regular st ≡ true = ap is_regular e in absurd (cc)

-- an entry that is skipped is no record
skipped : (de : Entry) → is_skipped de ≡ true → IsRecord de → ⊥
unfolding is_skipped
skipped de h r = elim (Bool-cases (head de.d_name == b'.')) [
  | inl e ↦ let (rest, same) = hidden de.d_name e in r.shown rest same
  | inr e ↦ elim (Bool-cases (istempname de.d_name)) [
    | inl f ↦ let (rest, same) = temporary de.d_name f in r.permanent rest same
    | inr f ↦ elim (Bool-cases (not (head de.d_name == 0) && (last de.d_name == b'~'))) [
      | inl g ↦ let (rest, same) = backup de.d_name g in r.original rest same
      | inr g ↦ irregular de.stat (ground arith) r.regular_file
    ]
  ]
]

is_regular_lem : (st : Stat) → is_regular st ≡ true → st ≡ regular
is_regular_lem regular h = refl
is_regular_lem failed h = absurd (cc)
is_regular_lem other h = absurd (cc)

not_temporary :
    (s rest : Bytes) → (head s == b'.') ≡ false → istempname s ≡ false → s ≢ rest ++ codes ".tmp"
not_temporary s [] h t e = let bad : head s ≡ 46 = ap head e in absurd (ground arith)
not_temporary s (c ∷ rest) h t e =
    let bad : istempname s ≡ true = ap istempname e ∙ istempname-append c rest in absurd (cc)

-- a name has no NUL in it
abbrev pub IsEntryName : Bytes → Type 0
IsEntryName = All (λ c. c ≢ 0)

not_backup :
    (s rest : Bytes)
    → IsEntryName s
    → (not (head s == 0) && (last s == b'~')) ≡ false
    → s ≢ rest ++ codes "~"
not_backup [] [] v h e = absurd (cc)
not_backup [] (c ∷ rest) v h e = absurd (cc)
not_backup (d ∷ s) rest v h e =
    let end : last (d ∷ s) ≡ 126 = ap last e ∙ last-append rest 126 in absurd (ground (arith, v.0))

-- and one that is not skipped is a record
passed : (de : Entry) → IsEntryName de.d_name → is_skipped de ≡ false → IsRecord de
unfolding is_skipped
passed de v h =
    let visible : (head de.d_name == b'.') ≡ false = ground arith in
    let kept : istempname de.d_name ≡ false = ground arith in
    let first : (not (head de.d_name == 0) && (last de.d_name == b'~')) ≡ false = ground arith in
    let file : is_regular de.stat ≡ true = ground arith in
    record {
      regular_file = is_regular_lem de.stat file;
      shown = λ rest e. let bad : head de.d_name ≡ 46 = ap head e in absurd (ground arith);
      permanent = λ rest. not_temporary de.d_name rest visible kept;
      original = λ rest. not_backup de.d_name rest v first;
    }

record_names-Names :
    (entries : List Entry)
    → All (λ de. IsEntryName de.d_name) entries
    → Names entries (record_names entries)
unfolding record_names
record_names-Names [] v = nothing
record_names-Names (de ∷ entries) v = elim (Bool-cases (is_skipped de)) [
  | inl e ↦ rw e (no_record de (skipped de e) (record_names-Names entries v.1))
  | inr e ↦ rw e (a_record de (passed de v.0 e) (record_names-Names entries v.1))
]

-- The loop over an iterator lists exactly the names of the regular files that do not begin with a dot nor
-- end in `.tmp` or `~`, in the order of the directory, given a round for each entry and one more. The names
-- of the entries have no NUL in them.
pub iterate-Names :
    (rounds : ℕ) (entries : List Entry)
    → length entries < rounds
    → All (λ de. IsEntryName de.d_name) entries
    → Names entries (iterate rounds entries)
iterate-Names rounds entries h v =
    rw (iterate-record_names rounds entries h) (record_names-Names entries v)
