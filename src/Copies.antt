-- ===== src/Copies.antt =====
-- The files of the slaves: each has the data of its own section, and a copy of the data of the two
-- slaves after it (server/slave.c). All slaves have the one file name that the clients open, and a
-- file stands for the database in it. A connection that is asked for is made, and an address reaches
-- the slave that registered it, which is named, as in Cluster, by the master's connection to it. A
-- request between slaves is one step.
pub mod Exchange
pub mod Backup
pub mod Current
pub mod Alarm
pub mod Stored
pub mod Initial
pub mod Moved
pub mod Join
pub mod Repaired
pub mod Merged
pub mod Leave
use distributed_db.Common.{
  ℕ, zero, suc, ◌+◌, ◌-◌, ◌%◌, Option, none, some, ◌>>=◌, ltb, ◌==◌, if◌then◌else◌,
}
use distributed_db.Slaves.{SlaveList, node_at}
use distributed_db.TcDb.{Tchdb, merge_2_files}
use distributed_db.Slave.{clip_data, update_backup2}
use distributed_db.Protocol.Cmd.{Cmd}
use distributed_db.Cluster.{
  SlaveProcess, Network, Cluster, Repair, merge_backup1, merge_backup2, nothing, repair_after,
}

-- The other slave of CommunicateToSlave: its argument `k`, which is -2, -1, 1 or 2.
pub data Peer : Type 0 where
  back_2 back_1 ahead_1 ahead_2 : Peer

-- `hispos`. The code takes the sum with the list's length first, as here.
pub his_pos : Peer → SlaveProcess → ℕ
his_pos back_2 s = (s.pos + s.slaves.num - 2) % s.slaves.num
his_pos back_1 s = (s.pos + s.slaves.num - 1) % s.slaves.num
his_pos ahead_1 s = (s.pos + 1 + s.slaves.num) % s.slaves.num
his_pos ahead_2 s = (s.pos + 2 + s.slaves.num) % s.slaves.num

module _ (tc : Tchdb) where
  open tc use {Hdb, Value, get, new}

  -- What the registry has under the name that Merge2Files gives to DBCreate for a backup. It never
  -- calls DBDelete: afterwards the handle is there, of the file at that name until another file is
  -- put in its place, or it is written over or removed; then the handle has what it had. (What it
  -- shows of a file that RecvFile writes over is not documented, and no theorem rests on it.)
  pub data Held : Type 0 where
    closed current : Held
    stale : Hdb → Held

  -- file_master, file_tmp, and the file of that name in each of the two directories for backups,
  -- with the handles on these. None is a file that is not there. A file stands for the database in
  -- it. A handle on file_master needs no mention, since no other file takes the place of that one.
  pub record Files : Type 0 where
    pub main : Option Hdb
    pub tmp : Option Hdb
    pub backup1 : Option Hdb
    pub backup2 : Option Hdb
    pub left1 : Held
    pub left2 : Held

  -- tchdbopen, as DBCreate calls it, opens a file, and makes one that is not there. It is taken to
  -- succeed.
  abbrev pub opened : Option Hdb → Hdb
  opened none = new
  opened (some hdb) = hdb

  -- DBCreate on a backup in Merge2Files: GetOpenedDB is asked first. (UPDATE_BACKUP2 names the
  -- backups with one `/` instead of two, and so does not find these handles.)
  abbrev pub by_name : Held → Option Hdb → Hdb
  by_name closed file = opened file
  by_name current file = opened file
  by_name (stale hdb) file = hdb

  -- The file after Merge2Files has made `after` of its database, and the handle that it leaves.
  abbrev pub on_file : Held → Option Hdb → Hdb → Option Hdb
  on_file closed file after = some after
  on_file current file after = some after
  on_file (stale hdb) file after = file

  abbrev pub left_open : Held → Hdb → Held
  left_open closed after = current
  left_open current after = current
  left_open (stale hdb) after = stale after

  -- The handle once the file is gone from its place.
  abbrev pub replaced : Held → Option Hdb → Held
  replaced closed file = closed
  replaced current file = stale (opened file)
  replaced (stale hdb) file = stale hdb

  -- The handle on a file from which, or over which, `mv` moves a file, if there is one to move.
  abbrev pub moved : Option Hdb → Held → Option Hdb → Held
  moved none handle file = handle
  moved (some hdb) handle file = replaced handle file

  -- What mv leaves at its destination; without a source it fails and changes nothing.
  abbrev pub mv : Option Hdb → Option Hdb → Option Hdb
  mv none dest = dest
  mv (some hdb) dest = some hdb

  -- HandleSlaveRequest of a slave: the file that is sent, if one is, and its files after it.
  pub handle_slave_request : Cmd → SlaveProcess → Files → Option (Option Hdb × Files)
  handle_slave_request Cmd.clip_data s f = do
    (main, tmp) ← clip_data tc s.slaves s.pos (opened f.main, opened f.tmp)
    some (
      some tmp,
      record {
        main = some main;
        tmp = none;
        backup1 = some tmp;
        backup2 = mv f.backup1 f.backup2;
        left1 = replaced f.left1 f.backup1;
        left2 = moved f.backup1 f.left2 f.backup2;
      },
    )
  handle_slave_request Cmd.backup s f = some (f.main, f)
  handle_slave_request Cmd.update_backup2 s f = do
    (backup1, backup2) ← update_backup2 tc s.slaves s.pos (opened f.backup1, new)
    some (
      none,
      record f {
        backup1 = some backup1;
        backup2 = some backup2;
        left2 = replaced f.left2 f.backup2;
      },
    )
  handle_slave_request cmd s f = some (none, f)

  -- Where CommunicateToSlave puts the file that it receives; `none` is the failed assertion on the
  -- reply, where the other slave has sent nothing.
  pub store : Peer → Option Hdb → Files → Option Files
  store back_2 sent f = some f
  store back_1 none f = none
  store back_1 (some hdb) f = some (record f { main = some hdb })
  store ahead_1 none f = none
  store ahead_1 (some hdb) f =
      some (record f { backup1 = some hdb; left1 = replaced f.left1 f.backup1 })
  store ahead_2 none f = none
  store ahead_2 (some hdb) f =
      some (record f { backup2 = some hdb; left2 = replaced f.left2 f.backup2 })

  -- The files of each slave, by the master's connection to it.
  abbrev pub Disks : Type 0
  Disks = ℕ → Files

  abbrev pub write : Disks → ℕ → Files → Disks
  write disks sock f t = if t == sock then f else disks t

  -- CommunicateToSlave in the slave at `me`.
  pub communicate_to_slave : Peer → Cmd → Network → ℕ → Disks → Option Disks
  unfolding his_pos handle_slave_request store
  communicate_to_slave peer cmd net me disks =
      let s = net me in
      let hispos = his_pos peer s in
      let him = (node_at s.slaves hispos).sock in
      if hispos == s.pos then some disks else do
        (sent, files) ← handle_slave_request cmd (net him) (disks him)
        f ← store peer sent (write disks him files me)
        some (write (write disks him files) me f)

  pub clip_data_from_pre : Network → ℕ → Disks → Option Disks
  unfolding communicate_to_slave
  clip_data_from_pre = communicate_to_slave back_1 Cmd.clip_data

  pub backup_for_other_slave : Peer → Network → ℕ → Disks → Option Disks
  unfolding communicate_to_slave
  backup_for_other_slave peer = communicate_to_slave peer Cmd.backup

  pub notify_2nd_pre_update_backup2 : Network → ℕ → Disks → Option Disks
  unfolding communicate_to_slave
  notify_2nd_pre_update_backup2 = communicate_to_slave back_2 Cmd.update_backup2

  -- The first half of InitialSlave, with another slave in the list, and its second half, with two.
  clip_and_backup : Network → ℕ → Disks → Option Disks
  clip_and_backup net me disks = do
    clipped ← clip_data_from_pre net me disks
    backup_for_other_slave ahead_1 net me clipped

  update_and_backup : Network → ℕ → Disks → Option Disks
  update_and_backup net me disks = do
    updated ← notify_2nd_pre_update_backup2 net me disks
    backup_for_other_slave ahead_2 net me updated

  -- InitialSlave, from the list that RegisterAndLoadSlaves has loaded.
  pub initial_slave : Network → ℕ → Disks → Option Disks
  initial_slave net me disks =
      let num = (net me).slaves.num in
      do
        joined ← if ltb 1 num then clip_and_backup net me disks else some disks
        if ltb 2 num then update_and_backup net me joined else some joined

  -- The files of the slave before the one removed, once its first backup has been merged, as
  -- `backup1`, into `main`, and the second backup moved into the first one's place.
  abbrev pub taken_over : Files → Hdb → Hdb → Files
  taken_over old backup1 main =
      let file = on_file old.left1 old.backup1 backup1 in
      record old {
        main = some main;
        backup1 = mv old.backup2 file;
        backup2 = none;
        left1 = moved old.backup2 (left_open old.left1 backup1) file;
        left2 = moved old.backup2 old.left2 old.backup2;
      }

  -- The files of the slave two before it, once its second backup has been merged, as `backup2`, into
  -- the first, and removed.
  abbrev pub joined_backup : Files → Hdb → Hdb → Files
  joined_backup old backup2 backup1 = record old {
    backup1 = on_file old.left1 old.backup1 backup1;
    backup2 = none;
    left1 = left_open old.left1 backup1;
    left2 = replaced (left_open old.left2 backup2) (on_file old.left2 old.backup2 backup2);
  }

  -- What HandleMasterRequest does after RM_SLAVE_R.
  pub repair : Repair → Network → ℕ → Disks → Option Disks
  repair merge_backup1 net me disks = do
    let old = disks me
    (backup1, main) ← merge_2_files tc (by_name old.left1 old.backup1, opened old.main)
    backup_for_other_slave ahead_2 net me (write disks me (taken_over old backup1 main))
  repair merge_backup2 net me disks = do
    let old = disks me
    (backup2, backup1) ←
        merge_2_files tc (by_name old.left2 old.backup2, by_name old.left1 old.backup1)
    backup_for_other_slave ahead_2 net me (write disks me (joined_backup old backup2 backup1))
  repair nothing net me disks = some disks

  -- The case UPDATE_BACKUP12 of HandleMasterRequest.
  pub update_backup12 : Network → ℕ → Disks → Option Disks
  update_backup12 net me disks = do
    first ← backup_for_other_slave ahead_1 net me disks
    backup_for_other_slave ahead_2 net me first

  -- UpdateBackup of server/master.c, on the alarm: `pos` is its static variable; the slave there
  -- handles UPDATE_BACKUP12. `none` is the remainder by 0, with no slave in the list.
  pub update_backup : Cluster → ℕ × Disks → Option (ℕ × Disks)
  update_backup c (pos, disks) = if c.master.num == 0 then none else do
    let pos' = (pos + 1) % c.master.num
    after ← update_backup12 c.net (node_at c.master pos').sock disks
    some (pos', after)

  -- As many alarms in a row.
  pub alarms : ℕ → Cluster → ℕ × Disks → Option (ℕ × Disks)
  alarms zero c s = some s
  alarms (suc n) c s = do s' ← update_backup c s; alarms n c s'

  -- What the slaves do after RM_SLAVE of `rmpos`, each in its turn in the list, from index `i` with
  -- the rounds left.
  pub repairs : ℕ → Cluster → ℕ → ℕ → Disks → Option Disks
  repairs rmpos c zero i disks = some disks
  repairs rmpos c (suc n) i disks = do
    let me = (node_at c.master i).sock
    next ← repair (repair_after rmpos (c.net me)) c.net me disks
    repairs rmpos c n (i + 1) next
