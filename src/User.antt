-- ===== src/User.antt =====
-- Users, src/user.c: the table of users and the making of a new one, on top of the pool of numbers and the
-- file database. `crypt` is sha1crypt_makepass, `decimal` and `hex` what `%u` and `0x%08x` print; whether
-- `user_defaults` and `userdb_entry_new` get memory and each call of the C library succeeds is an argument.
-- Every `strdup` gets its memory, and printing to a file succeeds.
pub mod Table
pub mod Create
mod Tests
use boris.Prelude.{
  ℕ, Bool, true, false, not, ◌&&◌, ◌||◌, Option, none, some, List, [], ◌∷◌, ◌++◌, map, ◌==◌,
  if◌then◌else◌, Bytes, codes, between, isdigit, same_text,
}
use boris.Attr.{AttrEntry}
use boris.Room.{attr_field}
use boris.Freelist.{Extent, alloc}
use boris.Fdb.Write.{Disk, WriteHandle, write_begin, write_end}
use boris.Fdb.Write.Atomic.{write_fields}

-- `struct user`, less its count: a user that was made is held once, by the table
pub record User : Type 0 where
  pub id : ℕ
  pub username : Bytes
  pub password_crypt : Bytes
  pub email : Bytes
  pub level : ℕ
  pub flags : ℕ
  pub extra_values : List AttrEntry

-- `struct userdb_entry`
pub record UserdbEntry : Type 0 where
  pub cached_username : Bytes
  pub u : Option User

-- `user_list`, `user_id_freelist` and the files
pub record Users : Type 0 where
  pub user_list : List UserdbEntry
  pub user_id_freelist : List Extent
  pub disk : Disk

abbrev isalpha : ℕ → Bool
isalpha c = between b'a' b'z' c || between b'A' b'Z' c

-- the loop of `user_illegal`
all_legal : Bytes → Bool
all_legal [] = true
all_legal (c ∷ s) = ((isalpha c || isdigit c) || (c == b'_')) && all_legal s

-- `user_illegal`
pub user_illegal : Bytes → Bool
unfolding all_legal
user_illegal [] = true
user_illegal (c ∷ s) = not (isalpha c && all_legal s)

-- the loop of `user_exists`
pub is_listed : List UserdbEntry → Bytes → Bool
is_listed [] username = false
is_listed (curr ∷ list) username =
    same_text curr.cached_username username || is_listed list username

-- `user_exists`
pub user_exists : List UserdbEntry → Bytes → Bool
user_exists list username = not (user_illegal username) && is_listed list username

-- `user_cache_add` of a user with a name; `entry` says whether `userdb_entry_new` gets its memory
pub user_cache_add : Bool → List UserdbEntry → User → List UserdbEntry
user_cache_add entry list u =
    if user_exists list u.username
    then list
    else if entry
    then (record { cached_username = u.username; u = some u }) ∷ list
    else list

-- what `user_free` does to the table: the entry that `userdb_lookup_cached` finds loses its user
pub forget : List UserdbEntry → Bytes → List UserdbEntry
forget [] username = []
forget (curr ∷ list) username =
    if same_text curr.cached_username username
    then (record curr { u = none }) ∷ list
    else curr ∷ forget list username

-- what `user_defaults` and `user_create` make of a new user: `level` and `flags` are settings
abbrev pub new_user : ℕ → ℕ → Bytes → Bytes → ℕ → Bytes → User
new_user level flags username email id password_crypt = record {
  id = id;
  username = username;
  password_crypt = password_crypt;
  email = email;
  level = level;
  flags = flags;
  extra_values = [];
}

module _ (decimal hex : ℕ → Bytes) where
  -- what `user_write` writes
  pub user_fields : User → List (Bytes × Bytes)
  user_fields u =
      (codes "id", decimal u.id)
      ∷ (codes "username", u.username)
      ∷ (codes "pwcrypt", u.password_crypt)
      ∷ (codes "email", u.email)
      ∷ (codes "acs.level", decimal u.level)
      ∷ (codes "acs.flags", hex u.flags)
      ∷ map attr_field u.extra_values

  write_opened : User → Bool → Bool → Bool → Option WriteHandle × Disk → Bool × Disk
  write_opened u closes removes renames (none, disk) = (false, disk)
  write_opened u closes removes renames (some h, disk) =
      write_end closes removes renames [] (write_fields h (user_fields u)) disk

  -- `user_write`
  pub user_write : Bool → Bool → Bool → Bool → User → Disk → Bool × Disk
  unfolding write_opened
  user_write opens closes removes renames u disk =
      write_opened u closes removes renames (write_begin opens (codes "users") u.username disk)

  after_write : User → List UserdbEntry → List Extent → Bool × Disk → Option User × Users
  after_write u list pool (true, disk) =
      (some u, record { user_list = list; user_id_freelist = pool; disk = disk })
  after_write u list pool (false, disk) =
      (none, record { user_list = forget list u.username; user_id_freelist = pool; disk = disk })

  -- `user_create` with a number from the pool: `write` is `user_write`
  with_number :
      Bool
      → Bool
      → (User → Disk → Bool × Disk)
      → (ℕ → User)
      → Users
      → Option ℕ × List Extent
      → Option User × Users
  unfolding after_write
  with_number memory entry write user db (none, pool) =
      (none, record db { user_id_freelist = pool })
  with_number memory entry write user db (some id, pool) =
      let u = user id in
      let list = user_cache_add entry db.user_list u in
      if memory
      then after_write u list pool (write u db.disk)
      else (none, record db { user_id_freelist = pool })

  with_hash :
      Bool
      → Bool
      → (User → Disk → Bool × Disk)
      → (ℕ → Bytes → User)
      → Users
      → Option Bytes
      → Option User × Users
  unfolding with_number
  with_hash memory entry write user db none = (none, db)
  with_hash memory entry write user db (some password_crypt) =
      with_number memory entry write (λ id. user id password_crypt) db (alloc db.user_id_freelist 1)

  -- `user_create`
  pub user_create :
      Bool
      → Bool
      → (User → Disk → Bool × Disk)
      → (Bytes → Option Bytes)
      → ℕ
      → ℕ
      → Bytes
      → Bytes
      → Bytes
      → Users
      → Option User × Users
  unfolding with_hash
  user_create memory entry write crypt level flags username password email db =
      if user_illegal username
      then (none, db)
      else if user_exists db.user_list username
      then (none, db)
      else with_hash memory entry write (new_user level flags username email) db (crypt password)
