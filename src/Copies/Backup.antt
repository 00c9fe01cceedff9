-- ===== src/Copies/Backup.antt =====
-- BACKUP: a slave gets a copy of what another has in its own file.
use native.Mathlib.Decide.{ℕ_discrete}
use distributed_db.Common.{ℕ, ◌<◌, ◌≡◌, ◌≢◌, refl, ◌∙◌, Option, some}
use distributed_db.Slaves.{node_at}
use distributed_db.TcDb.{Tchdb}
use distributed_db.Protocol.Cmd.{Cmd}
use distributed_db.Cluster.{SlaveProcess, Cluster}
use distributed_db.Cluster.Members.{Agrees}
use distributed_db.Copies.{
  Peer, back_2, back_1, ahead_1, ahead_2, his_pos, Files, handle_slave_request, store, replaced,
  Disks, backup_for_other_slave,
}
use distributed_db.Copies.Exchange.{communicate_self, communicate-Exchanged}

-- The master's connection to the slave at an index.
abbrev pub sock_of : Cluster → ℕ → ℕ
sock_of c i = (node_at c.master i).sock

module _ (tc : Tchdb) where
  -- The files with the copy that a peer's file makes.
  abbrev pub copied : Peer → Files tc → Option tc.Hdb → Files tc
  copied ahead_1 f m = record f { backup1 = m; left1 = replaced tc f.left1 f.backup1 }
  copied ahead_2 f m = record f { backup2 = m; left2 = replaced tc f.left2 f.backup2 }
  copied back_1 f m = record f { main = m }
  copied back_2 f m = f

  store-some :
      (peer : Peer) (hdb : tc.Hdb) (f : Files tc)
      → store tc peer (some hdb) f ≡ some (copied peer f (some hdb))
  unfolding store
  store-some ahead_1 hdb f = refl
  store-some ahead_2 hdb f = refl
  store-some back_1 hdb f = refl
  store-some back_2 hdb f = refl

  -- Every slave has a file for its own data.
  abbrev pub HasMain : Cluster → Disks tc → Type 0
  HasMain c disks =
      (j : ℕ) → j < c.master.num → (m : tc.Hdb) × ((disks (sock_of c j)).main ≡ some m)

  module _ (c : Cluster) (a : Agrees c) where
    pub backup_lem :
        (peer : Peer) (disks : Disks tc) (i j : ℕ)
        → HasMain c disks
        → i < c.master.num
        → j < c.master.num
        → his_pos peer (record { slaves = c.master; pos = i }) ≡ j
        → (after : Disks tc) × (backup_for_other_slave tc peer c.net (sock_of c i) disks
            ≡ some after)
          × ((t : ℕ) → t ≢ sock_of c i → after t ≡ disks t)
          × (j ≡ i → after (sock_of c i) ≡ disks (sock_of c i))
          × (j ≢ i
              → after (sock_of c i) ≡ copied peer (disks (sock_of c i)) (disks (sock_of c j)).main)
    unfolding backup_for_other_slave handle_slave_request
    backup_lem peer disks i j made hi hj e =
        let s : SlaveProcess = record { slaves = c.master; pos = i } in
        elim (ℕ_discrete j i) [
          | yes same ↦ (
            disks,
            communicate_self tc c.net (sock_of c i) disks s (a.views i hi) peer Cmd.backup
                (e ∙ same),
            λ t n. refl,
            λ q. refl,
            λ ne. absurd (ne same),
          )
          | no other ↦
              let (m, there) = made j hj in
              let apart = λ (q : sock_of c j ≡ sock_of c i). other (a.apart j i hj hi q) in
              let (after, run, x) =
                communicate-Exchanged tc c.net (sock_of c i) disks s (a.views i hi) peer Cmd.backup
                  j (some m) (disks (sock_of c j)) (copied peer (disks (sock_of c i)) (some m)) e
                  other apart (rw (handle_slave_request, there) refl)
                  (store-some peer m (disks (sock_of c i))) in
              (
                after,
                run,
                λ t n. elim (ℕ_discrete t (sock_of c j)) [
                  | yes his ↦ rw his x.at_him
                  | no his ↦ x.elsewhere t n his
                ],
                λ q. absurd (other q),
                λ ne. x.at_me ∙ rw there refl,
              )
        ]
