-- ===== src/Tests/Requests.antt =====
-- A master process, with a slave that joins over the connection 7 and then leaves.
use distributed_db.Common.{
  ℕ, zero, suc, ◌<◌, ◌≡◌, ◌≢◌, refl, true, Option, none, some, arith, ◌==◌, ==_iff, if◌then◌else◌,
}
use distributed_db.Slaves.{node_at}
use distributed_db.Protocol.Cmd.{Cmd}
use distributed_db.Protocol.Fields.{empty, Packet}
use distributed_db.Socket.{Os, no_sock}
use distributed_db.Cluster.{Cluster, add_slave, del_slave, start}
use distributed_db.Cluster.Reach.{Reach, start-Agrees}
use distributed_db.Cluster.Requests.{MasterProcess, handle_request, list_reply}
use distributed_db.Cluster.Requests.Peers.{
  Peer, serving, registering, leaving, ended, Carries, hears, hangs_up, join_request, leave_request,
}
use distributed_db.Cluster.Requests.Joined.{Stands, handle_request-add_slave}
use distributed_db.Cluster.Requests.Left.{handle_request-del_slave}
use distributed_db.Cluster.Requests.Turns.{Turns}
use distributed_db.Tests.Cluster.{blanks, idle, first_list, first, first-Agrees, IsFresh-at_start}

abbrev junk : Packet ℕ
junk = record { cmd = Cmd.quit; key = 0; version = 0; content = empty }

-- The processes at the other ends, and what waits on each connection.
record World : Type 0 where
  peer : ℕ → Peer junk
  inbox : ℕ → Option (Packet ℕ)

abbrev network : Os (Packet ℕ)
network = record {
  State = World;
  local_addr = 1;
  socket = λ s. (5, s);
  reuse = λ t s. s;
  bind = λ t ip port s. (true, s);
  listen = λ t s. (true, s);
  accept = λ t s. ((7, 1), s);
  connect = λ t ip port s. (true, s);
  send = λ sock p s. record {
    peer = λ t. if t == sock then (hears junk p (s.peer sock)).1 else s.peer t;
    inbox = λ t. if t == sock then (hears junk p (s.peer sock)).0 else s.inbox t;
  };
  recv = λ t s. (s.inbox t, s);
  close = λ sock s. record s {
    peer = λ t. if t == sock then hangs_up junk (s.peer sock) else s.peer t;
  };
  port_of = λ t s. 5002;
}

wire : Carries junk network
wire = record {
  peer = λ (s : World). s.peer;
  inbox = λ (s : World). s.inbox;
  peer-send = λ sock t p s. refl;
  inbox-send = λ sock p s. rw ((==_iff sock sock).1 refl) refl;
  recv = λ sock s. refl;
  peer-recv = λ sock t s. refl;
  peer-close = λ sock t s. refl;
  peer-accept = λ listen_sock t s ne. refl;
}

-- Whoever connects wants to join.
abbrev at_first : World
at_first = record { peer = λ t. registering; inbox = λ t. some (join_request junk 2) }

abbrev begun : MasterProcess network junk
begun = record { slaves = (start blanks idle).master; world = at_first }

begun-Stands : Stands network junk wire begun (start blanks idle)
unfolding wire
begun-Stands = record {
  list = refl;
  agrees = start-Agrees blanks idle refl;
  connected = λ i h. absurd (omega arith);
  peers = λ i h. absurd (omega arith);
}

seven_valid : 7 ≢ no_sock
seven_valid e = absurd (omega arith)

handle_request-add_slave_example :
    (m' : MasterProcess network junk) × (c' : Cluster) × (handle_request network junk 0 7 1 begun
      ≡ some m')
    × (add_slave 0 1 2 7 (start blanks idle) ≡ some c')
    × Stands network junk wire m' c'
unfolding wire
handle_request-add_slave_example =
    handle_request-add_slave network junk wire 0 1 7 (join_request junk 2) begun (start blanks idle)
      begun-Stands (omega arith) IsFresh-at_start seven_valid refl refl refl

abbrev serving_7 : World
serving_7 = record {
  peer = λ t. serving (record { slaves = first_list; pos = 0 });
  inbox = λ t. none;
}

abbrev holds_7 : MasterProcess network junk
holds_7 = record { slaves = first_list; world = serving_7 }

first_sock : (i : ℕ) → i < 1 → (node_at first_list i).sock ≡ 7
first_sock zero h = refl
first_sock (suc i) h = absurd (omega arith)

holds_7-Stands : Stands network junk wire holds_7 first
unfolding wire
holds_7-Stands = record {
  list = refl;
  agrees = first-Agrees;
  connected = λ i h e. absurd (omega (arith, first_sock i h));
  peers = λ i h. rw (first_sock i h) refl;
}

-- The slave on 7 has called ShutDownSlave.
abbrev departing : World
departing = record {
  peer = λ t. if t == 7 then leaving else serving (record { slaves = first_list; pos = 0 });
  inbox = λ t. some (leave_request junk 0);
}

handle_request-del_slave_example :
    (m' : MasterProcess network junk) × (c' : Cluster) × (handle_request network junk 0 7 1
        (record { slaves = first_list; world = departing })
      ≡ some m')
    × (del_slave 0 first ≡ some c')
    × Stands network junk wire m' c'
    × (wire.peer m'.world 7 ≡ ended)
unfolding wire
handle_request-del_slave_example =
    handle_request-del_slave network junk wire 0 1 (leave_request junk 0) holds_7 first
      holds_7-Stands departing (omega arith) (λ t. refl) refl refl

-- The loop on the connection of the slave that joins.
abbrev joined_7 : MasterProcess network junk
joined_7 = record {
  slaves = first_list;
  world = network.send 7 (list_reply network junk Cmd.add_slave_r 0 first_list) at_first;
}
