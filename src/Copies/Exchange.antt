-- ===== src/Copies/Exchange.antt =====
-- What one exchange between two slaves changes.
use distributed_db.Common.{ℕ, ◌≡◌, ◌≢◌, refl, sym, ==_of_ne, ==_iff, Option, some, arith}
use distributed_db.Slaves.{node_at}
use distributed_db.TcDb.{Tchdb}
use distributed_db.Protocol.Cmd.{Cmd}
use distributed_db.Cluster.{SlaveProcess, Network}
use distributed_db.Copies.{
  Peer, his_pos, Files, handle_slave_request, store, Disks, write, communicate_to_slave,
}

module _ (tc : Tchdb) (net : Network) (me : ℕ) (disks : Disks tc) where
  -- Only the files of `me` and `him` have changed, to `mine` and `his`.
  pub record Exchanged (him : ℕ) (mine his : Files tc) (after : Disks tc) : Type 0 where
    pub at_me : after me ≡ mine
    pub at_him : after him ≡ his
    pub elsewhere : (t : ℕ) → t ≢ me → t ≢ him → after t ≡ disks t

  module _ (s : SlaveProcess) (view : net me ≡ s) where
    -- With itself a slave exchanges nothing.
    pub communicate_self :
        (peer : Peer) (cmd : Cmd)
        → his_pos peer s ≡ s.pos
        → communicate_to_slave tc peer cmd net me disks ≡ some disks
    unfolding communicate_to_slave
    communicate_self peer cmd e = rw (view, e, (==_iff s.pos s.pos).1 refl) refl

    pub communicate-Exchanged :
        (peer : Peer) (cmd : Cmd) (j : ℕ) (sent : Option tc.Hdb) (his mine : Files tc)
        → his_pos peer s ≡ j
        → j ≢ s.pos
        → let him = (node_at s.slaves j).sock in
          him ≢ me
          → handle_slave_request tc cmd (net him) (disks him) ≡ some (sent, his)
          → store tc peer sent (disks me) ≡ some mine
          → (after : Disks tc) × (communicate_to_slave tc peer cmd net me disks ≡ some after)
            × Exchanged him mine his after
    unfolding communicate_to_slave
    communicate-Exchanged peer cmd j sent his mine e other apart handled stored =
        let him = (node_at s.slaves j).sock in
        (
          write tc (write tc disks him his) me mine,
          rw
              (
                view,
                e,
                ==_of_ne j s.pos other,
                handled,
                ==_of_ne me him (λ q. apart (sym q)),
                stored,
              )
              refl,
          record { at_me = ground arith; at_him = ground arith; elsewhere = λ t n m. ground arith },
        )
