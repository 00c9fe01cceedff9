-- ===== src/TcDb/Registry.antt =====
-- The open databases of server/tcDB.c, each with the number of its users. A database is opened once,
-- however many users it has, and closed after the last of them.
pub mod Counts
pub mod Users
use distributed_db.Common.{
  ℕ, ◌+◌, ◌-◌, Bool, true, false, Option, none, some, ◌>>=◌, ◌==◌, if◌then◌else◌,
}

-- What the registry holds of a database, and what a user has in hand: tcmdbget gives a copy.
pub record OpenedDb (Name Hdb : Type 0) : Type 0 where
  pub name : Name
  pub hdb : Hdb
  pub counter : ℕ

-- What the code relies on of Tokyo Cabinet: the in-memory database, and opening and closing files.
pub record Cabinet : Type 1 where
  pub Name : Type 0
  pub Hdb : Type 0
  pub Mdb : Type 0
  pub World : Type 0
  pub Msg : Type 0
  pub new : Mdb
  pub get : Mdb → Name → Option (OpenedDb Name Hdb)
  pub put : Mdb → Name → OpenedDb Name Hdb → Mdb
  pub out : Mdb → Name → Mdb
  pub open_file : Name → World → Option Hdb × World
  pub close_file : Hdb → World → Bool × World
  pub errmsg : World → Msg

module _ (cab : Cabinet) where
  open cab use {Name, Hdb, Mdb, World, Msg, new, get, put, out, open_file, close_file, errmsg}

  -- The globals `mdb` and `lasterr`, and the files.
  pub record Registry : Type 0 where
    pub mdb : Option Mdb
    pub lasterr : Msg
    pub world : World

  abbrev pub Handle : Type 0
  Handle = OpenedDb Name Hdb

  -- GetOpenedDB: the first call makes the registry.
  pub get_opened_db : Name → Registry → Option Handle × Registry
  get_opened_db name s = elim s.mdb [
    | none ↦ (none, record s { mdb = some new })
    | some mdb ↦ elim (get mdb name) [
      | none ↦ (none, s)
      | some podb ↦
          let podb' = record podb { counter = podb.counter + 1 } in
          (some podb', record s { mdb = some (put mdb name podb') })
    ]
  ]

  -- AddOpenedDB; `none` is the failed assertion.
  pub add_opened_db : Name → Hdb → Registry → Option (Handle × Registry)
  add_opened_db name hdb s = do
    mdb ← s.mdb
    let podb : Handle = record { name = name; hdb = hdb; counter = 1 }
    some (podb, record s { mdb = some (put mdb name podb) })

  -- One user less; a counter that falls to 0 was 1.
  pub release : Mdb → Handle → Registry → Bool × Registry
  release mdb held s =
      if held.counter == 1 then (true, record s { mdb = some (out mdb held.name) }) else (
        false,
        record s { mdb = some (put mdb held.name (record held { counter = held.counter - 1 })) },
      )

  -- DelOpenedDB, with whether it was the last user; `none` is a handle that is not in the registry,
  -- where a null pointer is read.
  pub del_opened_db : Handle → Registry → Option (Bool × Registry)
  unfolding release
  del_opened_db podb s = do mdb ← s.mdb; held ← get mdb podb.name; some (release mdb held s)

  -- Opening the file, for a database that has no user, and registering it.
  open_new : Name → Option Hdb × World → Registry → Option (Option Handle × Registry)
  unfolding add_opened_db
  open_new name (none, world) s = some (none, record s { world = world; lasterr = errmsg world })
  open_new name (some hdb, world) s = do
    (podb, s') ← add_opened_db name hdb (record s { world = world })
    some (some podb, s')

  -- The rest of DBCreate, with what GetOpenedDB gives.
  create_from : Name → Option Handle × Registry → Option (Option Handle × Registry)
  unfolding open_new
  create_from name (none, s) = open_new name (open_file name s.world) s
  create_from name (some podb, s) = some (some podb, s)

  -- DBCreate: the handle, or none where NULL is returned.
  unfoldable pub db_create : Name → Registry → Option (Option Handle × Registry)
  unfolding get_opened_db create_from
  db_create name s = create_from name (get_opened_db name s)

  close_last : Bool × World → Registry → Bool × Registry
  close_last (true, world) s = (true, record s { world = world })
  close_last (false, world) s = (false, record s { world = world; lasterr = errmsg world })

  -- DBDelete, with whether it succeeded.
  unfoldable pub db_delete : Handle → Registry → Option (Bool × Registry)
  unfolding del_opened_db close_last
  db_delete podb s = do
    (last, s') ← del_opened_db podb s
    if last then some (close_last (close_file podb.hdb s'.world) s') else some (true, s')
