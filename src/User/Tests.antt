-- ===== src/User/Tests.antt =====
-- A table of users with one user, and two attempts to make another.
use boris.Prelude.{
  ℕ, ◌≡◌, refl, Bool, true, false, Option, none, some, [], ◌∷◌, arith, Bytes, codes, same_text,
}
use boris.Freelist.{extent, alloc}
use boris.Fdb.Write.{Disk}
use boris.User.{
  User, Users, user_illegal, is_listed, user_exists, user_write, user_create, new_user,
}
use boris.User.Table.{IsSound, IsTable}
use boris.User.Create.{user_create-IsSound}

-- a library that prints every number as one letter
letter : ℕ → Bytes
letter n = codes "x"

no_files : Disk
no_files p = none

-- a hash that keeps the password
plain : Bytes → Option Bytes
plain password = some password

abbrev ann : User
ann = new_user 5 0 (codes "ann") (codes "a@b") 1 (codes "secret")

abbrev one_user : Users
one_user = record {
  user_list = (record { cached_username = codes "ann"; u = some ann }) ∷ [];
  user_id_freelist = extent 2 10 ∷ [];
  disk = no_files;
}

one_user-IsSound : IsSound one_user
unfolding IsTable user_illegal is_listed
one_user-IsSound = record { pool = omega arith; table = (refl, refl, refl, tt, tt) }

names : user_exists one_user.user_list (codes "ANN") ≡ true
unfolding user_exists user_illegal is_listed same_text
names = refl

bad_name : user_illegal (codes "a b") ≡ true
unfolding user_illegal
bad_name = refl

user_create-IsSound_example :
    IsSound
      (user_create letter letter true true
        (user_write letter letter true true true true)
        plain
        5
        0
        (codes "bob")
        (codes "pw")
        (codes "b@c")
        one_user).1
user_create-IsSound_example =
    user_create-IsSound letter letter true true (user_write letter letter true true true true)
      one_user one_user-IsSound plain 5 0 (codes "bob") (codes "pw") (codes "b@c")

-- the file cannot be opened
unopened : User → Disk → Bool × Disk
unopened = user_write letter letter false true true true

bob_legal : user_illegal (codes "bob") ≡ false
unfolding user_illegal
bob_legal = refl

bob_new : user_exists one_user.user_list (codes "bob") ≡ false
unfolding user_exists user_illegal is_listed same_text
bob_new = refl

plain_pw : plain (codes "pw") ≡ some (codes "pw")
unfolding plain
plain_pw = refl

two_next : (alloc (extent 2 10 ∷ []) 1).0 ≡ some 2
unfolding alloc
two_next = refl
