-- ===== src/Cluster/Joins.antt =====
-- A slave joins: ADD_SLAVE, from the request to the reply.
use distributed_db.Common.{
  ℕ, ◌+◌, ◌-◌, ◌≤◌, ◌<◌, ◌≡◌, refl, ◌≢◌, some, arith, ltb, ◌==◌, if◌then◌else◌, insert_at,
}
use native.Mathlib.Decide.{ℕ_discrete}
use distributed_db.Slaves.{
  SlaveNode, SlaveList, IsSized, max_slave_num, node_at, live, keys, add_new_slave,
}
use distributed_db.Ring.{IsRing}
use distributed_db.Master.{add_to_slave_list}
use distributed_db.Master.Join.{
  add_to_slave_list-IsRing, add_new_slave-agrees, sock-add_to_slave_list,
}
use distributed_db.Cluster.{new_slave, Cluster, update, handle_master_request, add_slave}
use distributed_db.Cluster.Members.{Agrees, IsFresh, handle-new_slave}
use distributed_db.Cluster.Nodes.{node_at-insert_at}
use distributed_db.Cluster.Notify.{Apart, notify_all-Told}

-- The facts on a joining that its proofs share.
module _ (c : Cluster) (a : Agrees c) (p sock : ℕ) (sl' : SlaveList) (fresh : IsFresh sock c.master)
    (grown : sl'.num ≡ c.master.num + 1) (within : p ≤ c.master.num)
    (own : (node_at sl' p).sock ≡ sock) (told : add_new_slave p (node_at sl' p) c.master ≡ some sl')
    (nodes : (i : ℕ)
      → i < sl'.num
      → node_at sl' i ≡ (
          if ltb i p
          then node_at c.master i
          else if i == p
          then node_at sl' p
          else node_at c.master (i - 1))) where
  join-Apart : Apart sl'
  join-Apart i j hi hj e = ground (
    arith,
    nodes i hi,
    nodes j hj,
    a.apart i j,
    a.apart i (j - 1),
    a.apart (i - 1) j,
    a.apart (i - 1) (j - 1),
    fresh i,
    fresh (i - 1),
    fresh j,
    fresh (j - 1),
  )

  join_handled :
      (i : ℕ)
      → i < sl'.num
      → i ≢ p
      → handle_master_request (new_slave p (node_at sl' p)) (c.net (node_at sl' i).sock)
        ≡ some (record { slaves = sl'; pos = i })
  join_handled i h ne = ground (
    arith,
    nodes i h,
    a.views i,
    a.views (i - 1),
    handle-new_slave p i (node_at sl' p) c.master sl' told,
    handle-new_slave p (i - 1) (node_at sl' p) c.master sl' told,
  )

module _ (random ip port sock : ℕ) (c : Cluster) (a : Agrees c)
    (room : c.master.num < max_slave_num) (fresh : IsFresh sock c.master) where
  abbrev asker : SlaveNode
  asker = record { ip = ip; port = port; sock = sock; key = 0 }

  pub join_net :
      (sl' : SlaveList) (p : ℕ)
      → add_to_slave_list random asker c.master ≡ some (sl', p)
      → sl'.num ≡ c.master.num + 1
      → p < sl'.num
      → live sl' ≡ insert_at p (node_at sl' p) (live c.master)
      → IsSized sl'
      → IsRing (keys sl')
      → (c' : Cluster) × (add_slave random ip port sock c ≡ some c') × Agrees c' × (c'.master ≡ sl')
  unfolding add_slave
  join_net sl' p e n hp l z g =
      let (own, within) = sock-add_to_slave_list random asker c.master sl' p a.sized room e in
      let told = add_new_slave-agrees random asker c.master sl' p a.sized room e in
      let nodes = λ (i : ℕ) (h : i < sl'.num).
        node_at-insert_at c.master sl' p i (node_at sl' p) a.sized z n within h l in
      let apart = join-Apart c a p sock sl' fresh n within own told nodes in
      let (net, f, t) =
        notify_all-Told sl' (new_slave p (node_at sl' p)) p apart c.net
          (λ i. record { slaves = sl'; pos = i })
          (join_handled c a p sock sl' fresh n within own told nodes) in
      (
        record { master = sl'; net = update net sock (record { slaves = sl'; pos = p }) },
        rw (e, f) refl,
        record {
          sized = z;
          ring = g;
          apart = apart;
          views = λ i h. elim (ℕ_discrete i p) [
            | yes same ↦ rw same (ground (arith, own))
            | no other ↦ ground (arith, own, apart i p h hp, t.done i h other)
          ];
        },
        refl,
      )

-- A slave that joins a cluster with room over a connection of its own is taken in: the request
-- goes through, the master has one slave more, and again the master and every slave in use agree.
pub add_slave-Agrees :
    (random ip port sock : ℕ) (c : Cluster)
    → Agrees c
    → c.master.num < max_slave_num
    → IsFresh sock c.master
    → (c' : Cluster) × (add_slave random ip port sock c ≡ some c')
      × Agrees c'
      × (c'.master.num ≡ c.master.num + 1)
add_slave-Agrees random ip port sock c a room fresh =
    let sn : SlaveNode = record { ip = ip; port = port; sock = sock; key = 0 } in
    let (sl', p, e, l, hp, n, w, z, g) =
      add_to_slave_list-IsRing random sn c.master a.sized a.ring room in
    let (c', f, a', m) = join_net random ip port sock c a room fresh sl' p e n hp l z g in
    (c', f, a', rw m n)
