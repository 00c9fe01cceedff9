-- ===== src/Cluster/Leaves.antt =====
-- A slave leaves: DEL_SLAVE, and what the others then do with their copies.
use distributed_db.Common.{
  ℕ, ◌+◌, ◌-◌, ◌<◌, ◌≡◌, refl, ◌≢◌, some, arith, ltb, if◌then◌else◌, remove_at, inl, inr,
  Bool-cases,
}
use distributed_db.Slaves.{SlaveList, node_at, live, remove_slave}
use distributed_db.Master.Leave.{remove_slave-IsRing}
use distributed_db.Cluster.{rm_slave, Cluster, handle_master_request, del_slave}
use distributed_db.Cluster.Members.{Agrees, handle-rm_slave}
use distributed_db.Cluster.Nodes.{node_at-remove_at}
use distributed_db.Cluster.Notify.{Apart, notify_all-Told}

module _ (c : Cluster) (a : Agrees c) (p : ℕ) (sl' : SlaveList)
    (shrunk : sl'.num + 1 ≡ c.master.num) (told : remove_slave p c.master ≡ some sl')
    (nodes : (i : ℕ)
      → i < sl'.num
      → node_at sl' i ≡ (if ltb i p then node_at c.master i else node_at c.master (i + 1))) where
  leave-Apart : Apart sl'
  leave-Apart i j hi hj e = ground (
    arith,
    nodes i hi,
    nodes j hj,
    a.apart i j,
    a.apart i (j + 1),
    a.apart (i + 1) j,
    a.apart (i + 1) (j + 1),
  )

  leave_handled :
      (i : ℕ)
      → i < c.master.num
      → i ≢ p
      → handle_master_request (rm_slave p) (c.net (node_at c.master i).sock)
        ≡ some (record { slaves = sl'; pos = if ltb p i then i - 1 else i })
  leave_handled i h ne = rw (a.views i h) (handle-rm_slave p i c.master sl' told (omega arith) ne)

pub del_slave_lem :
    (pos : ℕ) (c : Cluster)
    → Agrees c
    → pos < c.master.num
    → (c' : Cluster) × (del_slave pos c ≡ some c')
      × Agrees c'
      × (live c'.master ≡ remove_at pos (live c.master))
      × (remove_slave pos c.master ≡ some c'.master)
unfolding del_slave
del_slave_lem p c a h =
    let (sl', e, l, n, w, z, g) = remove_slave-IsRing p c.master a.sized a.ring h in
    let nodes = λ (i : ℕ) (hi : i < sl'.num). node_at-remove_at c.master sl' p i a.sized z n hi l in
    let (net, f, t) =
      notify_all-Told c.master (rm_slave p) p a.apart c.net
        (λ i. record { slaves = sl'; pos = if ltb p i then i - 1 else i })
        (leave_handled c a p sl' n e nodes) in
    (
      record { master = sl'; net = net },
      rw (f, e) refl,
      record {
        sized = z;
        ring = g;
        apart = leave-Apart c a p sl' n e nodes;
        views = λ i hi. elim (Bool-cases (ltb i p)) [
          | inl low ↦ ground (arith, nodes i hi, t.done i)
          | inr high ↦ ground (arith, nodes i hi, t.done (i + 1))
        ];
      },
      l,
      e,
    )

-- A slave in use leaves: the request goes through, the master has one slave less, the slave's entry
-- taken out, and again the master and every slave in use agree.
pub del_slave-Agrees :
    (pos : ℕ) (c : Cluster)
    → Agrees c
    → pos < c.master.num
    → (c' : Cluster) × (del_slave pos c ≡ some c')
      × Agrees c'
      × (live c'.master ≡ remove_at pos (live c.master))
del_slave-Agrees p c a h = let (c', run, a', l, _) = del_slave_lem p c a h in (c', run, a', l)
