-- ===== src/Cluster/Repairs.antt =====
-- Which slave repairs what after a slave has left: the tests of HandleMasterRequest, on the list
-- and the position that it has already brought up to date.
use native.Mathlib.Nat.{mod-eq_of_lt}
use distributed_db.Common.{
  ℕ, ◌+◌, ◌-◌, ◌%◌, ◌≤◌, ◌<◌, ◌≡◌, ◌≢◌, ap, ◌∙◌, inl, inr, some, arith, ltb, ◌==◌, if◌then◌else◌,
  Bool-cases,
}
use distributed_db.Slaves.{SlaveList, remove_slave}
use distributed_db.Ring.Leave.{wrap_around}
use distributed_db.Cluster.{
  SlaveProcess, rm_slave, merge_backup1, merge_backup2, nothing, repair_after,
  handle_master_request,
}
use distributed_db.Cluster.Members.{handle-rm_slave}

-- The index `k` places before `p`, in a ring of `m`.
pub before :
    (k p m : ℕ) → 0 < k → 0 < m → p ≤ m → (p + m - k) % m ≡ (if ltb p k then p + m - k else p - k)
before k p m hk hm h = elim (Bool-cases (ltb p k)) [
  | inl b ↦ rw b (mod-eq_of_lt {n = p + m - k} {m = m} (ground arith))
  | inr b ↦
      let far : k ≤ p = ground arith in
      rw b (ap (λ j. j % m) {y = p - k + m} (omega arith) ∙ wrap_around (p - k) m (omega arith))
]

-- Removing the slave `p` of two or more: a slave other than it merges its first backup into its
-- data exactly if it was the one before `p`, and else its second into its first exactly if it was
-- the one before that.
pub repair_after-before :
    (p i : ℕ) (sl sl' : SlaveList)
    → remove_slave p sl ≡ some sl'
    → sl'.num + 1 ≡ sl.num
    → p < sl.num
    → i < sl.num
    → i ≢ p
    → (s' : SlaveProcess) × (handle_master_request (rm_slave p) (record { slaves = sl; pos = i })
        ≡ some s')
      × (repair_after p s' ≡ (
          if i == (p + sl.num - 1) % sl.num
          then merge_backup1
          else if i == (p + sl.num - 2) % sl.num
          then merge_backup2
          else nothing))
unfolding repair_after
repair_after-before p i sl sl' e n hp hi ne = (
  record { slaves = sl'; pos = if ltb p i then i - 1 else i },
  handle-rm_slave p i sl sl' e (omega arith) ne,
  rw
      (
        before 1 p sl.num (omega arith) (omega arith) (omega arith),
        before 2 p sl.num (omega arith) (omega arith) (omega arith),
        before 1 p sl'.num (omega arith) (omega arith) (omega arith),
        before 2 p sl'.num (omega arith) (omega arith) (omega arith),
      )
      (ground arith),
)
