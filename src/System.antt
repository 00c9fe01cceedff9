-- ===== src/System.antt =====
-- The whole store: what clients, slaves and the alarm do to it, one after the other, composed from
-- the other parts. A client has the master's list, as it has once UPDATE_VERSION has been answered.
pub mod Record
pub mod Keeps
pub mod History
use distributed_db.Common.{ℕ, Option, none, some, ◌>>=◌, ◌==◌, if◌then◌else◌}
use distributed_db.Client.Route.{get_socket}
use distributed_db.Slaves.{node_at}
use distributed_db.TcDb.{Tchdb, db_set_key_value, db_get_key_value, db_del_key_value}
use distributed_db.Cluster.{Cluster, add_slave, del_slave}
use distributed_db.Copies.{Files, Disks, write, initial_slave, repairs, update_backup}

-- `err` is the message of the last error, which no file depends on.
module _ (tc : Tchdb) (err : tc.Msg) where
  open tc use {Hdb, Value}

  -- The cluster, the files, and the static variable of UpdateBackup.
  pub record System : Type 0 where
    pub cluster : Cluster
    pub disks : Disks tc
    pub turn : ℕ

  pub data Event : Type 0 where
    sets : ℕ → Value → Event
    dels : ℕ → Event
    joins : (random ip port sock : ℕ) → Event
    leaves : ℕ → Event
    alarm : Event

  -- The connection and the file of the slave that a client asks for a key.
  unfoldable pub asked : ℕ → System → Option (ℕ × Hdb)
  asked key s = do
    i ← get_socket s.cluster.master key
    let sock = (node_at s.cluster.master i).sock
    main ← (s.disks sock).main
    some (sock, main)

  -- The slave puts a database in the place of its own.
  unfoldable pub saved : ℕ → Hdb → System → System
  saved sock main s = record s {
    disks = write tc s.disks sock (record (s.disks sock) { main = some main });
  }

  unfoldable pub find : ℕ → System → Option Value
  unfolding asked
  find key s = do (sock, main) ← asked key s; (db_get_key_value tc main key err).0

  unfoldable pub act : Event → System → Option System
  unfolding asked saved
  act (sets key value) s = do
    (sock, main) ← asked key s
    some (saved sock (db_set_key_value tc main key value err).1 s)
  act (dels key) s = do
    (sock, main) ← asked key s
    some (saved sock (db_del_key_value tc main key err).1 s)
  act (joins random ip port sock) s = do
    cluster ← add_slave random ip port sock s.cluster
    disks ← initial_slave tc cluster.net sock s.disks
    some (record s { cluster = cluster; disks = disks })
  act (leaves pos) s = do
    cluster ← del_slave pos s.cluster
    disks ← repairs tc pos cluster cluster.master.num 0 s.disks
    some (record s { cluster = cluster; disks = disks })
  act alarm s = do
    (turn, disks) ← update_backup tc s.cluster (s.turn, s.disks)
    some (record s { disks = disks; turn = turn })

  -- What an event means for a map from keys to records.
  unfoldable pub meaning : Event → (ℕ → Option Value) → ℕ → Option Value
  meaning (sets key value) records k = if key == k then some value else records k
  meaning (dels key) records k = if key == k then none else records k
  meaning event records k = records k
