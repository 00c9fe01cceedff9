-- ===== src/Slaves.antt =====
-- The list of slaves (server/ServerCtrl.h), and the edits that a slave makes to its copy of it
-- (AddNewSlave and RemoveSlave of server/slave.c, DelFromSlaveList of server/master.c).
-- Integer fields are never negative in a running system, and are plain numbers here.
pub mod Edits
pub mod Wire
use distributed_db.Common.{
  ℕ, zero, suc, ◌+◌, ◌-◌, ◌%◌, ◌^◌, ◌≤◌, ◌≡◌, ◌||◌, List, map, Option, none, some, ltb, leb, ◌==◌,
  if◌then◌else◌, length, get_or, set, take,
}

abbrev pub max_slave_num : ℕ
max_slave_num = 32

abbrev pub max_key : ℕ
max_key = 4000

pub record SlaveNode : Type 0 where
  pub ip : ℕ
  pub port : ℕ
  pub sock : ℕ
  pub key : ℕ

-- `nodes` is the array of `max_slave_num` entries, of which the first `num` are in use.
pub record SlaveList : Type 0 where
  pub version : ℕ
  pub num : ℕ
  pub nodes : List SlaveNode

-- What a read past the array gives; no function below makes one.
abbrev pub blank : SlaveNode
blank = record { ip = 0; port = 0; sock = 0; key = 0 }

abbrev pub node_at : SlaveList → ℕ → SlaveNode
node_at sl i = get_or sl.nodes i blank

-- nodes[i].sock = sock;
abbrev pub set_sock : ℕ → ℕ → SlaveList → SlaveList
set_sock i sock sl = record sl { nodes = set sl.nodes i (record (node_at sl i) { sock = sock }) }

-- `version` is unsigned.
abbrev pub next_version : ℕ → ℕ
next_version v = (v + 1) % 2 ^ 32

-- for (i = lo + rounds - 1; i >= lo; i--) nodes[i+1] = nodes[i];
unfoldable pub shift_up : ℕ → ℕ → List SlaveNode → List SlaveNode
shift_up zero lo nodes = nodes
shift_up (suc n) lo nodes = shift_up n lo (set nodes (lo + n + 1) (get_or nodes (lo + n) blank))

-- for (; rounds > 0; i++, rounds--) nodes[i] = nodes[i+1];
unfoldable pub shift_down : ℕ → ℕ → List SlaveNode → List SlaveNode
shift_down zero i nodes = nodes
shift_down (suc n) i nodes = shift_down n (i + 1) (set nodes i (get_or nodes (i + 1) blank))

-- `none` is a write past the end of `nodes`, which the code does not guard against.
unfoldable pub add_new_slave : ℕ → SlaveNode → SlaveList → Option SlaveList
unfolding shift_up
add_new_slave pos sn sl =
    if leb max_slave_num sl.num || leb max_slave_num pos
    then none
    else some (record {
      version = next_version sl.version;
      num = sl.num + 1;
      nodes = set (shift_up (sl.num - pos) pos sl.nodes) pos sn;
    })

-- RemoveSlave and DelFromSlaveList have one body. `none` is a list that is empty already, where
-- the code makes `num` negative.
unfoldable pub remove_slave : ℕ → SlaveList → Option SlaveList
unfolding shift_down
remove_slave pos sl =
    if sl.num == 0
    then none
    else some (record {
      version = next_version sl.version;
      num = sl.num - 1;
      nodes = shift_down (sl.num - 1 - pos) pos sl.nodes;
    })

-- The entries in use, which are what the list stands for.
abbrev pub live : SlaveList → List SlaveNode
live sl = take sl.num sl.nodes

abbrev pub keys : SlaveList → List ℕ
keys sl = map (λ (nd : SlaveNode). nd.key) (live sl)

-- The array has its C size, and `num` counts entries of it.
pub record IsSized (sl : SlaveList) : Type 0 where
  pub array : length sl.nodes ≡ max_slave_num
  pub within : sl.num ≤ max_slave_num
