-- ===== src/Tests/Registry.antt =====
-- The registry over a map that is a function, for a database with two users.
use distributed_db.Common.{
  ℕ, ◌+◌, ◌-◌, refl, true, Option, none, some, [], ◌∷◌, ◌≡◌, ==_iff, ◌==◌, if◌then◌else◌, arith,
}
use distributed_db.TcDb.Registry.{OpenedDb, Cabinet, Registry, db_create, db_delete}
use distributed_db.TcDb.Registry.Users.{History, here, opens, closes}
use distributed_db.TcDb.Registry.Counts.{
  IsMap, Opens, Releases, db_create-Opens, db_delete-Releases,
}

abbrev Entries : Type 0
Entries = ℕ → Option (OpenedDb ℕ ℕ)

-- The world counts the open files.
abbrev tables : Cabinet
tables = record {
  Name = ℕ;
  Hdb = ℕ;
  Mdb = Entries;
  World = ℕ;
  Msg = ℕ;
  new = λ k. none;
  get = λ m k. m k;
  put = λ m k v j. if j == k then some v else m j;
  out = λ m k j. if j == k then none else m j;
  open_file = λ name w. (some name, w + 1);
  close_file = λ hdb w. (true, w - 1);
  errmsg = λ w. 0;
}

tables-IsMap : IsMap tables
tables-IsMap = record {
  get-new = λ k. refl;
  get-put = λ m k v. ground arith;
  get-put_other = λ m k j v ne. ground arith;
  get-out = λ m k. ground arith;
  get-out_other = λ m k j ne. ground arith;
}

abbrev handle : OpenedDb ℕ ℕ
handle = record { name = 5; hdb = 5; counter = 2 }

abbrev two_users : Registry tables
two_users = record {
  mdb = some (λ j. if j == 5 then some handle else none);
  lasterr = 0;
  world = 1;
}

db_create-Opens_example : Opens tables 6 two_users (some 6, 2)
db_create-Opens_example = db_create-Opens tables tables-IsMap 6 two_users refl

db_delete-Releases_example : Releases tables handle two_users handle
db_delete-Releases_example =
    db_delete-Releases tables tables-IsMap handle two_users handle refl refl

-- Two users open the database 5, and one gives it back.
abbrev nothing : Registry tables
nothing = record { mdb = none; lasterr = 0; world = 0 }

abbrev first_user : OpenedDb ℕ ℕ
first_user = record { name = 5; hdb = 5; counter = 1 }

abbrev after_one : Registry tables
after_one = record { mdb = some (tables.put tables.new 5 first_user); lasterr = 0; world = 1 }

abbrev after_two : Registry tables
after_two = record after_one {
  mdb = some (tables.put (tables.put tables.new 5 first_user) 5 handle);
}

abbrev given_back : Registry tables
given_back = record after_one {
  mdb = some (tables.put (tables.put (tables.put tables.new 5 first_user) 5 handle) 5 first_user);
}

first_run : db_create tables 5 nothing ≡ some (some first_user, after_one)
unfolding db_create
first_run = refl

second_run : db_create tables 5 after_one ≡ some (some handle, after_two)
unfolding db_create
second_run = refl

back_run : db_delete tables first_user after_two ≡ some (true, given_back)
unfolding db_delete
back_run = refl

History-shared : History tables tables-IsMap ◌==◌ ==_iff nothing given_back (5 ∷ [])
History-shared =
    closes first_user true (opens 5 handle (opens 5 first_user here first_run) second_run)
      (omega arith) back_run
