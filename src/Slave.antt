-- ===== src/Slave.antt =====
-- What a slave does for its neighbours on the ring (server/slave.c).
pub mod Clip
pub mod Files
pub mod Transfer
use distributed_db.Common.{ℕ, ◌+◌, ◌%◌, Option}
use distributed_db.Slaves.{SlaveList, node_at}
use distributed_db.TcDb.{Tchdb, split_by_key}

-- The case CLIP_DATA of HandleSlaveRequest: what the slave at `pos` splits off for the new slave
-- after it, from `file_master` into `file_tmp`.
unfoldable pub clip_data : (tc : Tchdb) → SlaveList → ℕ → tc.Hdb × tc.Hdb → Option (tc.Hdb × tc.Hdb)
clip_data tc sl pos dbs =
    let lower_b = (node_at sl ((pos + 1) % sl.num)).key in
    let upper_b = (node_at sl ((pos + 2) % sl.num)).key in split_by_key tc lower_b upper_b dbs

-- The case UPDATE_BACKUP2: what the slave at `pos` splits off its first backup, which holds the
-- data of the slave after it, into its second.
unfoldable pub update_backup2 :
    (tc : Tchdb) → SlaveList → ℕ → tc.Hdb × tc.Hdb → Option (tc.Hdb × tc.Hdb)
update_backup2 tc sl pos dbs =
    let lower_b = (node_at sl ((pos + 2) % sl.num)).key in
    let upper_b = (node_at sl ((pos + 3) % sl.num)).key in split_by_key tc lower_b upper_b dbs
