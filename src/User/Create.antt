-- ===== src/User/Create.antt =====
-- `user_create` and the table of users, on every branch.
use mathlib.Core.Path.{subst}
use boris.Prelude.{
  ℕ, ◌≡◌, ◌∙◌, sym, refl, ap, Bool, true, false, Option, none, some, List, ◌∷◌, arith, Bool-cases,
  inl, inr, Bytes, same_text_refl,
}
use boris.Freelist.{Extent, alloc}
use boris.Freelist.Order.{IsOrdered, is_free}
use boris.Freelist.Alloc.{alloc_correct, alloc_fails}
use boris.Fdb.Write.{Disk}
use boris.User.{
  User, UserdbEntry, Users, user_illegal, is_listed, user_exists, user_cache_add, forget,
  user_create, new_user, after_write, with_number, with_hash,
}
use boris.User.Table.{
  IsSound, IsTable, forget-IsTable, pool-IsTable, added-IsTable, forget-listed, apart-not_free,
}

-- the entry of a user that is new
abbrev entry_of : User → UserdbEntry
entry_of u = record { cached_username = u.username; u = some u }

cache_add_new :
    (list : List UserdbEntry) (u : User)
    → is_listed list u.username ≡ false
    → user_cache_add true list u ≡ entry_of u ∷ list
unfolding user_cache_add user_exists
cache_add_new list u new = ground arith

cache_add_full :
    (list : List UserdbEntry) (u : User)
    → is_listed list u.username ≡ false
    → user_cache_add false list u ≡ list
unfolding user_cache_add user_exists
cache_add_full list u new = ground arith

-- the table with the new entry, or without it
cached-IsTable :
    (pool : List Extent) (entry : Bool) (list : List UserdbEntry) (u : User)
    → is_listed list u.username ≡ false
    → IsTable pool list
    → IsTable pool (entry_of u ∷ list)
    → IsTable pool (user_cache_add entry list u)
cached-IsTable pool true list u new t t' = subst (IsTable pool) (sym (cache_add_new list u new)) t'
cached-IsTable pool false list u new t t' = subst (IsTable pool) (sym (cache_add_full list u new)) t

not_listed :
    (list : List UserdbEntry) (username : Bytes)
    → user_illegal username ≡ false
    → user_exists list username ≡ false
    → is_listed list username ≡ false
unfolding user_exists
not_listed list username legal new = ground arith

listed_first :
    (u : User) (list : List UserdbEntry) → is_listed (entry_of u ∷ list) u.username ≡ true
unfolding is_listed
listed_first u list = rw (same_text_refl u.username) refl

still_listed :
    (username : Bytes) (list : List UserdbEntry)
    → user_illegal username ≡ false
    → is_listed (forget list username) username ≡ true
    → user_exists (forget list username) username ≡ true
unfolding user_exists
still_listed username list legal h = rw (legal, h) refl

module _ (decimal hex : ℕ → Bytes) where
  unwritten :
      (u : User) (list : List UserdbEntry) (pool : List Extent) (r : Bool × Disk)
      → r.0 ≡ false
      → after_write decimal hex u list pool r
        ≡ (none, record { user_list = forget list u.username; user_id_freelist = pool; disk = r.1 })
  unfolding after_write
  unwritten u list pool (true, disk) e = cc
  unwritten u list pool (false, disk) e = refl

  after_write-IsSound :
      (u : User) (list : List UserdbEntry) (pool : List Extent) (r : Bool × Disk)
      → IsOrdered 0 pool
      → IsTable pool list
      → IsSound (after_write decimal hex u list pool r).1
  unfolding after_write
  after_write-IsSound u list pool (true, disk) o t = record { pool = o; table = t }
  after_write-IsSound u list pool (false, disk) o t = record {
    pool = o;
    table = forget-IsTable pool list u.username t;
  }

  module _ (memory entry : Bool) (write : User → Disk → Bool × Disk) (db : Users)
      (sound : IsSound db) where
    with_number-IsSound :
        (user : ℕ → User)
        → ((id : ℕ) → (user id).id ≡ id)
        → ((id : ℕ) → user_illegal (user id).username ≡ false)
        → ((id : ℕ) → is_listed db.user_list (user id).username ≡ false)
        → (r : Option ℕ) → (alloc db.user_id_freelist 1).0 ≡ r
        → IsSound
            (with_number decimal hex memory entry write user db
              (r, (alloc db.user_id_freelist 1).1)).1
    unfolding with_number
    with_number-IsSound user same legal new none e =
        let same_pool : (alloc db.user_id_freelist 1).1 ≡ db.user_id_freelist =
          (alloc_fails db.user_id_freelist 1).1 e in
        record {
          pool = subst (IsOrdered 0) (sym same_pool) sound.pool;
          table = subst (λ p. IsTable p db.user_list) (sym same_pool) sound.table;
        }
    with_number-IsSound user same legal new (some id) e =
        let a = alloc_correct db.user_id_freelist 1 id (omega arith) sound.pool e in
        let t = pool-IsTable db.user_id_freelist db.user_list id sound.pool sound.table e in
        elim (Bool-cases memory) [
          | inl m ↦ rw m (
              after_write-IsSound (user id) (user_cache_add entry db.user_list (user id))
                (alloc db.user_id_freelist 1).1 (write (user id) db.disk) (a.0)
                (cached-IsTable (alloc db.user_id_freelist 1).1 entry db.user_list (user id)
                  (new id) t
                  (added-IsTable db.user_id_freelist db.user_list id sound.pool sound.table e
                    (user id) (same id) (legal id) (new id))))
          | inr m ↦ rw m (record { pool = a.0; table = t })
        ]

    with_hash-IsSound :
        (user : ℕ → Bytes → User)
        → ((id : ℕ) (pw : Bytes) → (user id pw).id ≡ id)
        → ((id : ℕ) (pw : Bytes) → user_illegal (user id pw).username ≡ false)
        → ((id : ℕ) (pw : Bytes) → is_listed db.user_list (user id pw).username ≡ false)
        → (hash : Option Bytes) → IsSound (with_hash decimal hex memory entry write user db hash).1
    unfolding with_hash
    with_hash-IsSound user same legal new none = sound
    with_hash-IsSound user same legal new (some pw) =
        with_number-IsSound (λ id. user id pw) (λ id. same id pw) (λ id. legal id pw)
          (λ id. new id pw) ((alloc db.user_id_freelist 1).0) refl

    refused_illegal :
        (crypt : Bytes → Option Bytes) (level flags : ℕ) (username password email : Bytes)
        → user_illegal username ≡ true
        → user_create decimal hex memory entry write crypt level flags username password email db
          ≡ (none, db)
    unfolding user_create
    refused_illegal crypt level flags username password email h = rw h refl

    refused_old :
        (crypt : Bytes → Option Bytes) (level flags : ℕ) (username password email : Bytes)
        → user_illegal username ≡ false
        → user_exists db.user_list username ≡ true
        → user_create decimal hex memory entry write crypt level flags username password email db
          ≡ (none, db)
    unfolding user_create
    refused_old crypt level flags username password email h k = rw (h, k) refl

    hashes :
        (crypt : Bytes → Option Bytes) (level flags : ℕ) (username password email : Bytes)
        → user_illegal username ≡ false
        → user_exists db.user_list username ≡ false
        → user_create decimal hex memory entry write crypt level flags username password email db
          ≡ with_hash decimal hex memory entry write
              (new_user level flags username email)
              db
              (crypt password)
    unfolding user_create
    hashes crypt level flags username password email h k = rw (h, k) refl

    -- Whatever `user_create` comes to, with or without a number, a hash, a written file, memory for the user
    -- or memory for its entry, but with memory for the copies of the strings, a well-formed table stays
    -- well-formed: no two entries have one name but for case, no two users have one number, and no
    -- number of a user is free, in a pool that is in order.
    pub user_create-IsSound :
        (crypt : Bytes → Option Bytes) (level flags : ℕ) (username password email : Bytes)
        → IsSound
            (user_create decimal hex memory entry write crypt level flags username password email
              db).1
    user_create-IsSound crypt level flags username password email =
        elim (Bool-cases (user_illegal username)) [
          | inl illegal ↦
              rw (refused_illegal crypt level flags username password email illegal) sound
          | inr legal ↦ elim (Bool-cases (user_exists db.user_list username)) [
            | inl old ↦ rw (refused_old crypt level flags username password email legal old) sound
            | inr new ↦ rw (hashes crypt level flags username password email legal new) (
                with_hash-IsSound (new_user level flags username email) (λ id pw. refl)
                  (λ id pw. legal) (λ id pw. not_listed db.user_list username legal new)
                  (crypt password))
          ]
        ]

    -- Once `user_create` has got a number for a new user with a legal name, and the account cannot be
    -- written, it returns no user, but the name is taken, and the number is not given back.
    user_create_lost :
        (crypt : Bytes → Option Bytes) (level flags id : ℕ) (username password email hash : Bytes)
        → memory ≡ true
        → entry ≡ true
        → user_illegal username ≡ false
        → user_exists db.user_list username ≡ false
        → crypt password ≡ some hash
        → (alloc db.user_id_freelist 1).0 ≡ some id
        → (write (new_user level flags username email id hash) db.disk).0 ≡ false
        → let r =
            user_create decimal hex memory entry write crypt level flags username password email
              db in
          (r.0 ≡ none)
          × (user_exists (r.1).user_list username ≡ true)
          × (is_free (r.1).user_id_freelist id ≡ false)
    unfolding with_hash with_number
    user_create_lost crypt level flags id username password email hash m got legal new h e w =
        let u : User = new_user level flags username email id hash in
        let user = new_user level flags username email in
        let list : List UserdbEntry = entry_of u ∷ db.user_list in
        let pool : List Extent = (alloc db.user_id_freelist 1).1 in
        let a = alloc_correct db.user_id_freelist 1 id (omega arith) sound.pool e in
        let left : Users = record {
          user_list = forget list username;
          user_id_freelist = pool;
          disk = (write u db.disk).1;
        } in
        let run : user_create decimal hex memory entry write crypt level flags username password
              email db
            ≡ (none, left) =
          hashes crypt level flags username password email legal new
          ∙ ap (with_hash decimal hex memory entry write user db) h
          ∙ ap (λ o. with_number decimal hex memory entry write (λ i. user i hash) db (o, pool)) e
          ∙ ap (λ b. with_number decimal hex b entry write (λ i. user i hash) db (some id, pool)) m
          ∙ ap
              (λ b.
                after_write decimal hex u (user_cache_add b db.user_list u) pool (write u db.disk))
              got
          ∙ ap (λ l. after_write decimal hex u l pool (write u db.disk))
              (cache_add_new db.user_list u (not_listed db.user_list username legal new))
          ∙ unwritten u list pool (write u db.disk) w in
        (
          ap (λ r. r.0) run,
          ap (λ r. user_exists (r.1).user_list username) run
              ∙ still_listed username list legal
                  (forget-listed list username username ∙ listed_first u db.user_list),
          ap (λ r. is_free (r.1).user_id_freelist id) run ∙ apart-not_free id pool (a.1),
        )
