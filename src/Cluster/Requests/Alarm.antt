-- ===== src/Cluster/Requests/Alarm.antt =====
-- The master's alarm on packets leaves every slave its list and its place.
use distributed_db.Common.{
  ℕ, ◌+◌, ◌%◌, ◌<◌, ◌≡◌, refl, ◌∙◌, inl, inr, false, some, arith, ◌==◌, ==_iff, Bool-cases,
}
use distributed_db.Slaves.{node_at}
use distributed_db.Protocol.Fields.{Packet}
use distributed_db.Socket.{Os}
use distributed_db.Cluster.{Cluster}
use distributed_db.Cluster.Requests.{MasterProcess, backup_request, on_alarm}
use distributed_db.Cluster.Requests.Peers.{Carries, hears, on_master_request}
use distributed_db.Cluster.Requests.Told.{send_recv}
use distributed_db.Cluster.Requests.Joined.{Stands}

module _ {Text : Type 0} (os : Os (Packet Text)) (junk : Packet Text) (wire : Carries junk os) where
  -- Each slave, the one that is asked included, goes on with its list and its index.
  pub on_alarm-Stands :
      (pos : ℕ) (m : MasterProcess os junk) (c : Cluster)
      → Stands os junk wire m c
      → 0 < c.master.num
      → (pos' : ℕ) × (m' : MasterProcess os junk) × (on_alarm os junk pos m ≡ some (pos', m'))
        × (m'.slaves ≡ m.slaves)
        × Stands os junk wire m' c
  unfolding on_alarm hears on_master_request
  on_alarm-Stands pos m c st h =
      let pos' = (pos + 1) % c.master.num in
      let within : pos' < c.master.num = omega arith in
      let sock = (node_at c.master pos').sock in
      let (sent, got, at) =
        send_recv os junk wire sock (backup_request os junk) m.world (st.connected pos' within) in
      let w = (os.recv sock (os.send sock (backup_request os junk) m.world)).1 in
      let some_slave : (c.master.num == 0) ≡ false = ground arith in
      (
        pos',
        record { slaves = m.slaves; world = w },
        rw (st.list, some_slave, sent, got) refl,
        refl,
        record {
          list = st.list;
          agrees = st.agrees;
          connected = st.connected;
          peers = λ i hi.
              at (node_at c.master i).sock ∙ elim (Bool-cases ((node_at c.master i).sock == sock)) [
                | inl own ↦
                    rw (own, (==_iff (node_at c.master i).sock sock).0 own, st.peers pos' within)
                      refl
                | inr other ↦ rw other (st.peers i hi)
              ];
        },
      )
