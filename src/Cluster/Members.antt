-- ===== src/Cluster/Members.antt =====
-- What it is for the master and the slaves in use to agree, and how a slave handles a message that
-- finds it so.
use native.Mathlib.Nat.{mod-eq_of_lt}
use distributed_db.Common.{
  ℕ, ◌+◌, ◌-◌, ◌%◌, ◌≤◌, ◌<◌, ◌≡◌, ◌≢◌, ap, ◌∙◌, some, arith, ltb, leb, if◌then◌else◌,
}
use distributed_db.Slaves.{
  SlaveNode, SlaveList, IsSized, node_at, keys, add_new_slave, remove_slave,
}
use distributed_db.Ring.{IsRing}
use distributed_db.Ring.Leave.{wrap_around}
use distributed_db.Cluster.{new_slave, rm_slave, Cluster, handle_master_request}
use distributed_db.Cluster.Notify.{Apart}

-- The master's list is a ring, no two slaves share a connection, and every slave in use has the
-- master's list and its own index in it.
pub record Agrees (c : Cluster) : Type 0 where
  pub sized : IsSized c.master
  pub ring : IsRing (keys c.master)
  pub apart : Apart c.master
  pub views :
      (i : ℕ)
      → i < c.master.num
      → c.net (node_at c.master i).sock ≡ record { slaves = c.master; pos = i }

-- The connection is not one of a slave in use.
abbrev pub IsFresh : ℕ → SlaveList → Type 0
IsFresh sock sl = (i : ℕ) → i < sl.num → (node_at sl i).sock ≢ sock

pub handle-new_slave :
    (p i : ℕ) (nd : SlaveNode) (sl sl' : SlaveList)
    → add_new_slave p nd sl ≡ some sl'
    → i + 1 < sl'.num
    → handle_master_request (new_slave p nd) (record { slaves = sl; pos = i })
      ≡ some (record { slaves = sl'; pos = if leb p i then i + 1 else i })
unfolding handle_master_request
handle-new_slave p i nd sl sl' e h = rw e (ground (arith, mod-eq_of_lt {n = i + 1} {m = sl'.num} h))

back_one : (i n : ℕ) → 0 < i → i ≤ n → (i + n - 1) % n ≡ i - 1
back_one i n h l =
    ap (λ k. k % n) {y = i - 1 + n} (omega arith) ∙ wrap_around (i - 1) n (omega arith)

pub handle-rm_slave :
    (p i : ℕ) (sl sl' : SlaveList)
    → remove_slave p sl ≡ some sl'
    → i ≤ sl'.num
    → i ≢ p
    → handle_master_request (rm_slave p) (record { slaves = sl; pos = i })
      ≡ some (record { slaves = sl'; pos = if ltb p i then i - 1 else i })
unfolding handle_master_request
handle-rm_slave p i sl sl' e h ne = rw e (ground (arith, back_one i sl'.num))
