-- ===== src/Cluster/Requests/Turns.antt =====
-- The turns of MasterProcess's loop bring about the clusters of Reach, and no others.
use distributed_db.Common.{ℕ}
use distributed_db.Protocol.Fields.{Packet}
use distributed_db.Socket.{Os}
use distributed_db.Cluster.{Cluster}
use distributed_db.Cluster.Reach.{Reach}
use distributed_db.Cluster.Requests.{MasterProcess}
use distributed_db.Cluster.Requests.Peers.{Carries}
use distributed_db.Cluster.Requests.Turn.{Turn}

module _ {Text : Type 0} (os : Os (Packet Text)) (junk : Packet Text) (wire : Carries junk os) where
  -- The process after a connection has been accepted.
  abbrev accepted : ℕ → MasterProcess os junk → MasterProcess os junk
  accepted listen_sock m = record { slaves = m.slaves; world = (os.accept listen_sock m.world).1 }

  pub data Turns (listen_sock : ℕ) (p : ℕ × MasterProcess os junk)
      : ℕ × MasterProcess os junk → Type 0 where
    none_yet : Turns listen_sock p p
    then_turn :
        {q r : ℕ × MasterProcess os junk}
        → Turns listen_sock p q
        → Turn os junk wire listen_sock q r
        → Turns listen_sock p r
