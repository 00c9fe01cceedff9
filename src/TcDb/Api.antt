-- ===== src/TcDb/Api.antt =====
-- server/tcDB.c as what common/Database.h declares: the registry of open databases, and the calls on
-- the records of one.
use distributed_db.Common.{
  ℕ, ◌≡◌, refl, Bool, true, false, Option, none, some, ◌>>=◌, ◌==◌, if◌then◌else◌,
}
use distributed_db.TcDb.{Tchdb, db_set_key_value, db_get_key_value, db_del_key_value}
use distributed_db.TcDb.Split.{Documented}
use distributed_db.TcDb.Record.{db_set_key_value_lem, db_get_key_value_lem, db_del_key_value_lem}
use distributed_db.TcDb.Registry.{Cabinet, Registry, Handle, db_create, db_delete}
use distributed_db.Server.Request.{Database}
use distributed_db.Server.Request.Contract.{IsStore}

-- How the two views of Tokyo Cabinet fit together: what a file that is open holds, and the file with
-- other records in it. All texts are C strings.
pub record Library (tc : Tchdb) (cab : Cabinet) : Type 0 where
  pub shown : cab.Hdb → cab.World → tc.Hdb
  pub stored : cab.Hdb → tc.Hdb → cab.World → cab.World
  pub name_of : tc.Value → cab.Name
  pub msg_of : tc.Msg → cab.Msg
  pub tc_msg : cab.Msg → tc.Msg
  pub text_of : cab.Msg → tc.Value
  pub with_tilde : tc.Value → tc.Value
  pub shown-stored : (h : cab.Hdb) (d : tc.Hdb) (w : cab.World) → shown h (stored h d w) ≡ d

module _ (tc : Tchdb) (cab : Cabinet) (lib : Library tc cab) where
  -- None when an assertion has failed, or NULL has been read through: the process has ended.
  abbrev pub Process : Type 0
  Process = Option (Registry cab)

  abbrev pub created : Option (Option (Handle cab) × Registry cab) → Option (Handle cab) × Process
  created none = (none, none)
  created (some (h, r)) = (h, some r)

  abbrev pub deleted : Option (Bool × Registry cab) → Bool × Process
  deleted none = (false, none)
  deleted (some (ok, r)) = (ok, some r)

  -- A call on the records of a database, with its result, the database after it and the last error.
  abbrev with_db : {A : Type 0} → Handle cab → Registry cab → A × tc.Hdb × tc.Msg → A × Process
  with_db h r (res, hdb, err) =
      (res, some (record r { world = lib.stored h.hdb hdb r.world; lasterr = lib.msg_of err }))

  unfoldable pub set_value : Handle cab → ℕ → tc.Value → Process → Bool × Process
  set_value h key value none = (false, none)
  set_value h key value (some r) =
      with_db h r (db_set_key_value tc (lib.shown h.hdb r.world) key value (lib.tc_msg r.lasterr))

  unfoldable pub get_value : Handle cab → ℕ → Process → Option tc.Value × Process
  get_value h key none = (none, none)
  get_value h key (some r) =
      let (found, err) = db_get_key_value tc (lib.shown h.hdb r.world) key (lib.tc_msg r.lasterr) in
      (found, some (record r { lasterr = lib.msg_of err }))

  unfoldable pub del_value : Handle cab → ℕ → Process → Bool × Process
  del_value h key none = (false, none)
  del_value h key (some r) =
      with_db h r (db_del_key_value tc (lib.shown h.hdb r.world) key (lib.tc_msg r.lasterr))

  abbrev last_error_of : Process → cab.Msg → cab.Msg
  last_error_of none unset = unset
  last_error_of (some r) unset = r.lasterr

  -- `unset` is what `lasterr` holds in a process that has ended.
  abbrev pub tcdb : cab.Msg → Database
  tcdb unset = record {
    State = Process;
    Db = Handle cab;
    Text = tc.Value;
    create = λ name s. created (do r ← s; db_create cab (lib.name_of name) r);
    delete = λ h s. deleted (do r ← s; db_delete cab h r);
    set_key_value = set_value;
    get_key_value = get_value;
    del_key_value = del_value;
    last_error = λ s. lib.text_of (last_error_of s unset);
    with_tilde = lib.with_tilde;
  }

  module _ (doc : Documented tc) (unset : cab.Msg) where
    abbrev found_in : Handle cab → Process → ℕ → Option tc.Value
    found_in h none key = none
    found_in h (some r) key = tc.get (lib.shown h.hdb r.world) key

    abbrev Up : Process → Type 0
    Up none = ⊥
    Up (some r) = Unit

    -- The code keeps the contract of common/Database.h on the records of an open database.
    unfoldable pub tcdb-IsStore : IsStore (tcdb unset)
    unfolding set_value get_value del_value
    tcdb-IsStore = record {
      IsUp = Up;
      find = found_in;
      set = set_law;
      get = get_law;
      del = del_law;
    }
      where
        set_law :
            (h : Handle cab) (key : ℕ) (value : tc.Value) (s : Process)
            → Up s
            → let (ok, s') = set_value h key value s in
              (ok ≡ true)
              × Up s'
              × ((j : ℕ) → found_in h s' j ≡ (if key == j then some value else found_in h s j))
        set_law h key value none up = absurd up
        set_law h key value (some r) up =
            let (ok, _, at) =
              db_set_key_value_lem tc doc (lib.shown h.hdb r.world) key value
                (lib.tc_msg r.lasterr) in
            (ok, tt, λ j. rw (lib.shown-stored h.hdb _ r.world) (at j))

        get_law :
            (h : Handle cab) (key : ℕ) (s : Process)
            → Up s
            → let (found, s') = get_value h key s in
              (found ≡ found_in h s key) × Up s' × ((j : ℕ) → found_in h s' j ≡ found_in h s j)
        get_law h key none up = absurd up
        get_law h key (some r) up = (
          db_get_key_value_lem tc doc (lib.shown h.hdb r.world) key (lib.tc_msg r.lasterr),
          tt,
          λ j. refl,
        )

        del_law :
            (h : Handle cab) (key : ℕ) (s : Process)
            → Up s
            → let (ok, s') = del_value h key s in
              ((value : tc.Value) → found_in h s key ≡ some value → ok ≡ true)
              × Up s'
              × ((j : ℕ) → found_in h s' j ≡ (if key == j then none else found_in h s j))
        del_law h key none up = absurd up
        del_law h key (some r) up =
            let (ok, at) =
              db_del_key_value_lem tc doc (lib.shown h.hdb r.world) key (lib.tc_msg r.lasterr) in
            (λ value e. ok (rw e refl), tt, λ j. rw (lib.shown-stored h.hdb _ r.world) (at j))
