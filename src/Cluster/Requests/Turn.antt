-- ===== src/Cluster/Requests/Turn.antt =====
-- One turn of the loop of MasterProcess (server/master.c).
use distributed_db.Common.{ℕ, ◌<◌, ◌≡◌, ◌≢◌, Bool, true, false, some, ◌==◌, if◌then◌else◌}
use distributed_db.Slaves.{max_slave_num, node_at}
use distributed_db.Protocol.Cmd.{Cmd}
use distributed_db.Protocol.Fields.{Packet, is}
use distributed_db.Socket.{Os, no_sock}
use distributed_db.Cluster.Members.{IsFresh}
use distributed_db.Cluster.Requests.{MasterProcess, on_alarm, on_event}
use distributed_db.Cluster.Requests.Peers.{registering, leaving, Carries}

module _ {Text : Type 0} (os : Os (Packet Text)) (junk : Packet Text) (wire : Carries junk os) where
  -- A connection has come in whose first request waits, and it is none of a slave in use.
  pub record Arrives (listen_sock : ℕ) (m : MasterProcess os junk) (request : Packet Text)
      : Type 0 where
    pub fresh : IsFresh (os.accept listen_sock m.world).0.0 m.slaves
    pub valid : (os.accept listen_sock m.world).0.0 ≢ no_sock
    pub waits :
        wire.inbox (os.accept listen_sock m.world).1 (os.accept listen_sock m.world).0.0
        ≡ some request

  -- A slave in use has sent DEL_SLAVE with its position; else `w` is as the world was.
  pub record Departs (m : MasterProcess os junk) (w : os.State) (request : Packet Text)
      : Type 0 where
    pub in_use : request.key < m.slaves.num
    pub asks : request.cmd ≡ Cmd.del_slave
    pub waits : wire.inbox w (node_at m.slaves request.key).sock ≡ some request
    pub left :
        (t : ℕ)
        → wire.peer w t
          ≡ (if t == (node_at m.slaves request.key).sock then leaving else wire.peer m.world t)

  -- One turn of the loop, with `ip` and the process: a new connection asks for the list or for
  -- something that the master does not know, or a slave joins over it, or a slave leaves, or an alarm
  -- interrupts the wait, and UpdateBackup has run.
  pub data Turn (listen_sock : ℕ)
      : ℕ × MasterProcess os junk → ℕ × MasterProcess os junk → Type 0 where
    asked :
        (random ip : ℕ) (interrupted : Bool) (request : Packet Text) {m : MasterProcess os junk}
        {q : ℕ × MasterProcess os junk}
        → Arrives listen_sock m request
        → is request.cmd Cmd.add_slave ≡ false
        → is request.cmd Cmd.del_slave ≡ false
        → on_event os junk random listen_sock listen_sock interrupted ip m ≡ some q
        → Turn listen_sock (ip, m) q
    joined :
        (random ip : ℕ) (interrupted : Bool) (request : Packet Text) {m : MasterProcess os junk}
        {q : ℕ × MasterProcess os junk}
        → Arrives listen_sock m request
        → m.slaves.num < max_slave_num
        → wire.peer (os.accept listen_sock m.world).1 (os.accept listen_sock m.world).0.0
          ≡ registering
        → request.cmd ≡ Cmd.add_slave
        → on_event os junk random listen_sock listen_sock interrupted ip m ≡ some q
        → Turn listen_sock (ip, m) q
    left :
        (random ip : ℕ) (request : Packet Text) {m : MasterProcess os junk} (w : os.State)
        {q : ℕ × MasterProcess os junk}
        → Departs m w request
        → (node_at m.slaves request.key).sock ≢ listen_sock
        → on_event os junk random listen_sock
            (node_at m.slaves request.key).sock
            false
            ip
            (record { slaves = m.slaves; world = w })
          ≡ some q
        → Turn listen_sock (ip, m) q
    alarmed :
        (random fd ip pos pos' : ℕ) {m m₁ : MasterProcess os junk} {q : ℕ × MasterProcess os junk}
        → on_alarm os junk pos m ≡ some (pos', m₁)
        → fd ≢ listen_sock
        → on_event os junk random listen_sock fd true ip m₁ ≡ some q
        → Turn listen_sock (ip, m) q
