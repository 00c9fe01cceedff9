-- ===== src/Cluster/Notify.antt =====
-- NotifyAll reaches each slave in use but one, once, and no other process.
use native.Mathlib.Decide.{ℕ_discrete}
use distributed_db.Common.{
  ℕ, zero, suc, ◌+◌, ◌≤◌, ◌<◌, ◌≡◌, refl, ◌≢◌, some, inl, inr, arith, ◌==◌, ==_iff, Bool-cases,
}
use distributed_db.Slaves.{SlaveList, node_at}
use distributed_db.Cluster.{
  SlaveProcess, Message, Network, update, handle_master_request, notify_one, notify_from,
  notify_all,
}

-- No two slaves in use have one socket.
abbrev pub Apart : SlaveList → Type 0
Apart sl = (i j : ℕ) → i < sl.num → j < sl.num → (node_at sl i).sock ≡ (node_at sl j).sock → i ≡ j

module _ (sl : SlaveList) (msg : Message) (pos : ℕ) (apart : Apart sl) (net : Network)
    (out : ℕ → SlaveProcess)
    (handled : (i : ℕ)
      → i < sl.num
      → i ≢ pos
      → handle_master_request msg (net (node_at sl i).sock) ≡ some (out i)) where
  -- What has happened when the slaves below `i` have been told.
  pub record Told (i : ℕ) (net' : Network) : Type 0 where
    pub done : (j : ℕ) → j < i → j ≢ pos → net' (node_at sl j).sock ≡ out j
    pub waiting : (j : ℕ) → i ≤ j → j < sl.num → net' (node_at sl j).sock ≡ net (node_at sl j).sock
    pub others : (s : ℕ) → ((j : ℕ) → j < sl.num → (node_at sl j).sock ≢ s) → net' s ≡ net s

  Told-skip : {i : ℕ} {net' : Network} → i ≡ pos → Told i net' → Told (i + 1) net'
  Told-skip {i} {net'} e t = record {
    done = λ j h ne. t.done j (omega arith) ne;
    waiting = λ j h l. t.waiting j (omega arith) l;
    others = t.others;
  }

  Told-step :
      {i : ℕ} {net' : Network}
      → i < sl.num
      → Told i net'
      → Told (i + 1) (update net' (node_at sl i).sock (out i))
  Told-step {i} {net'} h t = record {
    done = done;
    waiting = λ j l hj. ground (arith, apart i j h hj, t.waiting j);
    others = λ s ne. ground (arith, ne i h, t.others s ne);
  }
    where
      done :
          (j : ℕ)
          → j < i + 1
          → j ≢ pos
          → update net' (node_at sl i).sock (out i) (node_at sl j).sock ≡ out j
      done j hj ne = elim (ℕ_discrete j i) [
        | yes e ↦ rw e (ground arith)
        | no other ↦ ground (arith, apart j i, t.done j)
      ]

  notify_from-Told :
      (n i : ℕ) (net' : Network)
      → i + n ≡ sl.num
      → Told i net'
      → (net'' : Network) × (notify_from sl msg pos n i net' ≡ some net'') × Told sl.num net''
  unfolding notify_from notify_one
  notify_from-Told zero i net' h t = let e : i ≡ sl.num = omega arith in (net', refl, rw (← e) t)
  notify_from-Told (suc n) i net' h t = elim (Bool-cases (i == pos)) [
    | inl e ↦
        rw e (notify_from-Told n (i + 1) net' (omega arith) (Told-skip ((==_iff i pos).0 e) t))
    | inr e ↦
        rw
          (
            e,
            t.waiting i (omega arith) (omega arith),
            handled i (omega arith) (λ same. cc (e, (==_iff i pos).1 same)),
          )
          (notify_from-Told n (i + 1) (update net' (node_at sl i).sock (out i)) (omega arith)
            (Told-step (omega arith) t))
  ]

  pub notify_all-Told :
      (net' : Network) × (notify_all sl msg pos net ≡ some net') × Told sl.num net'
  unfolding notify_all
  notify_all-Told = notify_from-Told sl.num 0 net (omega arith) (record {
    done = λ j h ne. absurd (omega arith);
    waiting = λ j h l. refl;
    others = λ s h. refl;
  })
