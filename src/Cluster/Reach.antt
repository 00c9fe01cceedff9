-- ===== src/Cluster/Reach.antt =====
-- The clusters that can come about, from the one that MasterProcess starts with.
use distributed_db.Common.{ℕ, ◌<◌, ◌≡◌, List, some, arith, length}
use distributed_db.Slaves.{SlaveNode, max_slave_num}
use distributed_db.Cluster.{Network, Cluster, add_slave, del_slave, start}
use distributed_db.Cluster.Members.{Agrees, IsFresh}
use distributed_db.Cluster.Joins.{add_slave-Agrees}
use distributed_db.Cluster.Leaves.{del_slave-Agrees}
use distributed_db.Client.Route.{get_socket}
use distributed_db.Client.Route.Owner.{get_socket_total, Holds}

-- A request that the master handles whole: a slave joins over a new connection, or one in use
-- leaves.
pub data Step : Cluster → Cluster → Type 0 where
  joins :
      (random ip port sock : ℕ) {c c' : Cluster}
      → c.master.num < max_slave_num
      → IsFresh sock c.master
      → add_slave random ip port sock c ≡ some c'
      → Step c c'
  leaves : (pos : ℕ) {c c' : Cluster} → pos < c.master.num → del_slave pos c ≡ some c' → Step c c'

pub data Reach (c : Cluster) : Cluster → Type 0 where
  here : Reach c c
  next : {d e : Cluster} → Reach c d → Step d e → Reach c e

pub start-Agrees :
    (nodes : List SlaveNode) (net : Network)
    → length nodes ≡ max_slave_num
    → Agrees (start nodes net)
start-Agrees nodes net h = record {
  sized = omega arith;
  ring = tt;
  apart = λ i j hi hj e. absurd (omega arith);
  views = λ i hi. absurd (omega arith);
}

Step-Agrees : {c c' : Cluster} → Step c c' → Agrees c → Agrees c'
Step-Agrees (joins random ip port sock {c} {c'} room fresh e) a =
    let (d, f, b, _) = add_slave-Agrees random ip port sock c a room fresh in
    let same : d ≡ c' = cc (e, f) in rw same at b
Step-Agrees (leaves pos {c} {c'} h e) a =
    let (d, f, b, _) = del_slave-Agrees pos c a h in let same : d ≡ c' = cc (e, f) in rw same at b

-- In every cluster that comes about by joining and leaving, the slaves' keys are a ring, their
-- connections differ, and each slave has the master's list and its own index in it.
pub Reach-Agrees :
    (nodes : List SlaveNode) (net : Network) {c : Cluster}
    → length nodes ≡ max_slave_num
    → Reach (start nodes net) c
    → Agrees c
Reach-Agrees nodes net h here = start-Agrees nodes net h
Reach-Agrees nodes net h (next r s) = Step-Agrees s (Reach-Agrees nodes net h r)

-- So in every such cluster with a slave in it, a client with the master's list sends every key to a
-- slave whose section holds it.
pub Reach-get_socket :
    (nodes : List SlaveNode) (net : Network) {c : Cluster} (key : ℕ)
    → length nodes ≡ max_slave_num
    → Reach (start nodes net) c
    → 0 < c.master.num
    → (i : ℕ) × (get_socket c.master key ≡ some i) × (i < c.master.num) × Holds c.master i key
Reach-get_socket nodes net {c} key h r some_slave =
    let a = Reach-Agrees nodes net h r in get_socket_total c.master key a.sized a.ring some_slave
