-- ===== src/TcDb/Registry/Counts.antt =====
-- The registry counts the users of each database.
use distributed_db.Common.{
  ◌+◌, ◌-◌, ◌≡◌, ◌≢◌, refl, ap, inl, inr, Bool, true, false, Option, none, some, ◌>>=◌, ◌==◌,
  if◌then◌else◌, Bool-cases, ◌∙◌,
}
use distributed_db.TcDb.Registry.{
  OpenedDb, Cabinet, Registry, Handle, get_opened_db, add_opened_db, del_opened_db, open_new,
  db_create, db_delete, close_last, release,
}

-- What Tokyo Cabinet documents of its in-memory database.
pub record IsMap (cab : Cabinet) : Type 0 where
  pub get-new : (k : cab.Name) → cab.get cab.new k ≡ none
  pub get-put :
      (m : cab.Mdb) (k : cab.Name) (v : OpenedDb cab.Name cab.Hdb)
      → cab.get (cab.put m k v) k ≡ some v
  pub get-put_other :
      (m : cab.Mdb) (k j : cab.Name) (v : OpenedDb cab.Name cab.Hdb)
      → j ≢ k
      → cab.get (cab.put m k v) j ≡ cab.get m j
  pub get-out : (m : cab.Mdb) (k : cab.Name) → cab.get (cab.out m k) k ≡ none
  pub get-out_other : (m : cab.Mdb) (k j : cab.Name) → j ≢ k → cab.get (cab.out m k) j ≡ cab.get m j

module _ (cab : Cabinet) where
  open cab use {Name, Hdb, Mdb, World, open_file, close_file}

  -- The registry's entry of a name.
  abbrev pub entry : Registry cab → Name → Option (Handle cab)
  entry s name = do mdb ← s.mdb; cab.get mdb name

  -- No entry but the one of `name` differs.
  abbrev pub Elsewhere : Name → Registry cab → Registry cab → Type 0
  Elsewhere name s s' = (k : Name) → k ≢ name → entry s' k ≡ entry s k

  -- Another user has got the database `e` under `name`, without a file being opened.
  abbrev pub Shares : Name → Registry cab → Handle cab → Type 0
  Shares name s e =
      (h : Handle cab) × (s' : Registry cab) × (db_create cab name s ≡ some (some h, s'))
      × (h.name ≡ e.name)
      × (h.hdb ≡ e.hdb)
      × (entry s' name ≡ some (record e { counter = e.counter + 1 }))
      × Elsewhere name s s'
      × (s'.world ≡ s.world)

  -- A file has been opened for the first user of `name`, if opening it succeeds.
  abbrev pub Opens : Name → Registry cab → Option Hdb × World → Type 0
  Opens name s (none, world) =
      (s' : Registry cab) × (db_create cab name s ≡ some (none, s'))
      × ((k : Name) → entry s' k ≡ entry s k)
      × (s'.world ≡ world)
  Opens name s (some hdb, world) =
      let h : Handle cab = record { name = name; hdb = hdb; counter = 1 } in
      (s' : Registry cab) × (db_create cab name s ≡ some (some h, s'))
      × (entry s' name ≡ some h)
      × Elsewhere name s s'
      × (s'.world ≡ world)

  -- A user has given the database `e` back: the last one closes its file.
  abbrev pub Releases : Handle cab → Registry cab → Handle cab → Type 0
  Releases h s e =
      let (done, world) = close_file h.hdb s.world in
      (s' : Registry cab) × (entry s' e.name
        ≡ (if e.counter == 1 then none else some (record e { counter = e.counter - 1 })))
      × Elsewhere e.name s s'
      × (db_delete cab h s ≡ some ((if e.counter == 1 then done else true), s'))
      × (s'.world ≡ (if e.counter == 1 then world else s.world))

  module _ (laws : IsMap cab) where
    get_opened_db-some :
        (name : Name) (m : Mdb) (err : cab.Msg) (world : World) (e : Handle cab)
        → cab.get m name ≡ some e
        → let e' : Handle cab = record e { counter = e.counter + 1 } in
          get_opened_db cab name (record { mdb = some m; lasterr = err; world = world })
          ≡ (some e', record { mdb = some (cab.put m name e'); lasterr = err; world = world })
    unfolding get_opened_db
    get_opened_db-some name m err world e h = rw (get_opened_db, h) refl

    get_opened_db-none :
        (name : Name) (m : Mdb) (err : cab.Msg) (world : World)
        → cab.get m name ≡ none
        → get_opened_db cab name (record { mdb = some m; lasterr = err; world = world })
          ≡ (none, record { mdb = some m; lasterr = err; world = world })
    unfolding get_opened_db
    get_opened_db-none name m err world h = rw (get_opened_db, h) refl

    Shares-at :
        (name : Name) (mdb : Option Mdb) (err : cab.Msg) (world : World) (e : Handle cab)
        → let s : Registry cab = record { mdb = mdb; lasterr = err; world = world } in
          entry s name ≡ some e → Shares name s e
    unfolding db_create get_opened_db
    Shares-at name none err world e h = absurd (cc h)
    Shares-at name (some m) err world e h =
        let e' : Handle cab = record e { counter = e.counter + 1 } in
        let found = get_opened_db-some name m err world e h in
        (
          e',
          record { mdb = some (cab.put m name e'); lasterr = err; world = world },
          rw found refl,
          refl,
          refl,
          laws.get-put m name e',
          λ k ne. laws.get-put_other m name k e' ne,
          refl,
        )

    -- DBCreate of a database in use opens no file: it gives the file that is open, counts one user
    -- more, and touches no other entry.
    pub db_create-Shares :
        (name : Name) (s : Registry cab) (e : Handle cab) → entry s name ≡ some e → Shares name s e
    db_create-Shares name s e h = Shares-at name s.mdb s.lasterr s.world e h

    Opens-at :
        (name : Name) (mdb : Option Mdb) (err : cab.Msg) (world : World)
        (opened : Option Hdb × World)
        → let s : Registry cab = record { mdb = mdb; lasterr = err; world = world } in
          entry s name ≡ none → open_file name world ≡ opened → Opens name s opened
    unfolding db_create get_opened_db open_new add_opened_db
    Opens-at name none err world (none, world') h o = (
      record { mdb = some cab.new; lasterr = cab.errmsg world'; world = world' },
      rw o refl,
      laws.get-new,
      refl,
    )
    Opens-at name none err world (some hdb, world') h o =
        let e' : Handle cab = record { name = name; hdb = hdb; counter = 1 } in
        (
          record { mdb = some (cab.put cab.new name e'); lasterr = err; world = world' },
          rw o refl,
          laws.get-put cab.new name e',
          λ k ne. laws.get-put_other cab.new name k e' ne ∙ laws.get-new k,
          refl,
        )
    Opens-at name (some m) err world (none, world') h o =
        let unfound = get_opened_db-none name m err world h in
        (
          record { mdb = some m; lasterr = cab.errmsg world'; world = world' },
          rw (unfound, o) refl,
          λ k. refl,
          refl,
        )
    Opens-at name (some m) err world (some hdb, world') h o =
        let e' : Handle cab = record { name = name; hdb = hdb; counter = 1 } in
        let unfound = get_opened_db-none name m err world h in
        (
          record { mdb = some (cab.put m name e'); lasterr = err; world = world' },
          rw (unfound, o) refl,
          laws.get-put m name e',
          λ k ne. laws.get-put_other m name k e' ne,
          refl,
        )

    -- DBCreate of a database with no user opens its file: where that succeeds, it is registered with
    -- one user and no other entry is touched; where it fails, NULL is returned and no entry is.
    pub db_create-Opens :
        (name : Name) (s : Registry cab)
        → entry s name ≡ none
        → Opens name s (open_file name s.world)
    db_create-Opens name s h = Opens-at name s.mdb s.lasterr s.world (open_file name s.world) h refl

    closed :
        (r : Bool × World) (s : Registry cab)
        → close_last cab r s
          ≡ (r.0, record s { world = r.1; lasterr = if r.0 then s.lasterr else cab.errmsg r.1 })
    unfolding close_last
    closed (true, world) s = refl
    closed (false, world) s = refl

    Releases-at :
        (h : Handle cab) (mdb : Option Mdb) (err : cab.Msg) (world : World) (e : Handle cab)
        → let s : Registry cab = record { mdb = mdb; lasterr = err; world = world } in
          entry s h.name ≡ some e → e.name ≡ h.name → Releases h s e
    unfolding db_delete del_opened_db release
    Releases-at h none err world e i n = absurd (cc i)
    Releases-at h (some m) err world e i n =
        let held : cab.get m h.name ≡ some e = i in
        let r = close_file h.hdb world in
        elim (Bool-cases (e.counter == 1)) [
          | inl t ↦ (
            record {
              mdb = some (cab.out m e.name);
              lasterr = if r.0 then err else cab.errmsg r.1;
              world = r.1;
            },
            rw t (laws.get-out m e.name),
            λ k ne. laws.get-out_other m e.name k ne,
            rw (held, t)
                (ap some (
                  closed r
                    (record { mdb = some (cab.out m e.name); lasterr = err; world = world }))),
            rw t refl,
          )
          | inr f ↦ (
            record {
              mdb = some (cab.put m e.name (record e { counter = e.counter - 1 }));
              lasterr = err;
              world = world;
            },
            rw f (laws.get-put m e.name (record e { counter = e.counter - 1 })),
            λ k ne. laws.get-put_other m e.name k (record e { counter = e.counter - 1 }) ne,
            rw (held, f) refl,
            rw f refl,
          )
        ]

    -- DBDelete of a database in use counts one user less and touches no other entry; the entry goes
    -- and the file is closed with the last user, and only then can the call fail.
    pub db_delete-Releases :
        (h : Handle cab) (s : Registry cab) (e : Handle cab)
        → entry s h.name ≡ some e
        → e.name ≡ h.name
        → Releases h s e
    db_delete-Releases h s e i n = Releases-at h s.mdb s.lasterr s.world e i n
