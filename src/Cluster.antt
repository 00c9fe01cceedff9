-- ===== src/Cluster.antt =====
-- The master and the slaves together: HandleRequest and NotifyAll of server/master.c, and
-- HandleMasterRequest, RegisterAndLoadSlaves and ShutDownSlave of server/slave.c.
pub mod Nodes
pub mod Notify
pub mod Members
pub mod Joins
pub mod Leaves
pub mod Reach
pub mod Repairs
pub mod Requests
use distributed_db.Common.{
  ℕ, zero, suc, ◌+◌, ◌-◌, ◌%◌, Option, none, some, List, ◌>>=◌, ltb, leb, ◌==◌, if◌then◌else◌,
}
use distributed_db.Slaves.{SlaveNode, SlaveList, node_at, add_new_slave, remove_slave}
use distributed_db.Master.{add_to_slave_list}

-- The globals of a slave process: its copy of the list, and its position in it.
pub record SlaveProcess : Type 0 where
  pub slaves : SlaveList
  pub pos : ℕ

-- NEW_SLAVE carries a position and the node there, RM_SLAVE a position.
pub data Message : Type 0 where
  new_slave : ℕ → SlaveNode → Message
  rm_slave : ℕ → Message

-- What a slave does with its copies of the data after an RM_SLAVE.
pub data Repair : Type 0 where
  merge_backup1 merge_backup2 nothing : Repair

-- The case NEW_SLAVE of HandleMasterRequest.
handle_new_slave : ℕ → SlaveNode → SlaveProcess → Option SlaveProcess
handle_new_slave key sn s = do
  slaves ← add_new_slave key sn s.slaves
  some (record { slaves = slaves; pos = if leb key s.pos then (s.pos + 1) % slaves.num else s.pos })

-- The case RM_SLAVE, up to its reply.
handle_rm_slave : ℕ → SlaveProcess → Option SlaveProcess
handle_rm_slave rmpos s = do
  slaves ← remove_slave rmpos s.slaves
  some (record {
    slaves = slaves;
    pos = if ltb rmpos s.pos then (s.pos + slaves.num - 1) % slaves.num else s.pos;
  })

-- The tests after the reply, on the process as it then is.
unfoldable pub repair_after : ℕ → SlaveProcess → Repair
repair_after rmpos s =
    if s.pos == (rmpos + s.slaves.num - 1) % s.slaves.num
    then merge_backup1
    else if s.pos == (rmpos + s.slaves.num - 2) % s.slaves.num
    then merge_backup2
    else nothing

unfoldable pub handle_master_request : Message → SlaveProcess → Option SlaveProcess
unfolding handle_new_slave handle_rm_slave
handle_master_request (new_slave key sn) s = handle_new_slave key sn s
handle_master_request (rm_slave rmpos) s = handle_rm_slave rmpos s

-- The slave processes, by the master's socket to each.
abbrev pub Network : Type 0
Network = ℕ → SlaveProcess

abbrev pub update : Network → ℕ → SlaveProcess → Network
update net sock s t = if t == sock then s else net t

-- One round of the loop of NotifyAll: the slave at index `i` handles the message.
notify_one : SlaveList → Message → ℕ → ℕ → Network → Option Network
unfolding handle_master_request
notify_one sl msg pos i net = if i == pos then some net else do
  s ← handle_master_request msg (net (node_at sl i).sock)
  some (update net (node_at sl i).sock s)

notify_from : SlaveList → Message → ℕ → ℕ → ℕ → Network → Option Network
unfolding notify_one
notify_from sl msg pos zero i net = some net
notify_from sl msg pos (suc n) i net = do
  net' ← notify_one sl msg pos i net
  notify_from sl msg pos n (i + 1) net'

unfoldable pub notify_all : SlaveList → Message → ℕ → Network → Option Network
unfolding notify_from
notify_all sl msg pos net = notify_from sl msg pos sl.num 0 net

pub record Cluster : Type 0 where
  pub master : SlaveList
  pub net : Network

-- The case ADD_SLAVE of HandleRequest, from the address `ip` on the connection `sock`, with the
-- slave's `port` in the request, and RegisterAndLoadSlaves, which takes the reply.
unfoldable pub add_slave : ℕ → ℕ → ℕ → ℕ → Cluster → Option Cluster
unfolding notify_all
add_slave random ip port sock c = do
  (master, newpos) ←
      add_to_slave_list random (record { ip = ip; port = port; sock = sock; key = 0 }) c.master
  net ← notify_all master (new_slave newpos (node_at master newpos)) newpos c.net
  some
      (record { master = master; net = update net sock (record { slaves = master; pos = newpos }) })

-- ShutDownSlave sends DEL_SLAVE with the slave's position; the case DEL_SLAVE of HandleRequest
-- notifies the others, and then takes the slave out.
unfoldable pub del_slave : ℕ → Cluster → Option Cluster
unfolding notify_all
del_slave pos c = do
  net ← notify_all c.master (rm_slave pos) pos c.net
  master ← remove_slave pos c.master
  some (record { master = master; net = net })

-- The cluster that MasterProcess starts with.
abbrev pub start : List SlaveNode → Network → Cluster
start nodes net = record { master = record { version = 0; num = 0; nodes = nodes }; net = net }
