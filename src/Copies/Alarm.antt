-- ===== src/Copies/Alarm.antt =====
-- The master's alarm: UPDATE_BACKUP12 goes to the slaves in turn, and their copies become current.
use native.Mathlib.Nat.{mod-eq_of_lt, mod-lt, mod-add-mod}
use distributed_db.Common.{
  ℕ, zero, suc, ◌+◌, ◌-◌, ◌%◌, ◌≤◌, ◌<◌, ◌≡◌, refl, ap, ◌∙◌, some, arith, ==_of_ne,
}
use native.Mathlib.Decide.{ℕ_discrete, dec_lt}
use distributed_db.TcDb.{Tchdb}
use distributed_db.Ring.Leave.{wrap_around}
use distributed_db.Cluster.{Cluster}
use distributed_db.Cluster.Members.{Agrees}
use distributed_db.Copies.{Disks, update_backup, alarms}
use distributed_db.Copies.Backup.{HasMain}
use distributed_db.Copies.Current.{
  SameOwn, SameOwn-trans, IsCurrent, HasMain-same, update_backup12_lem, IsCurrent-kept,
}

module _ (tc : Tchdb) (c : Cluster) (a : Agrees c) where
  -- One alarm.
  pub update_backup_lem :
      (disks : Disks tc) (pos : ℕ)
      → HasMain tc c disks
      → 0 < c.master.num
      → let i = (pos + 1) % c.master.num in
        (after : Disks tc) × (update_backup tc c (pos, disks) ≡ some (i, after))
        × SameOwn tc disks after
        × IsCurrent tc c a after i
        × ((j : ℕ) → j < c.master.num → IsCurrent tc c a disks j → IsCurrent tc c a after j)
  unfolding update_backup
  update_backup_lem disks pos made h =
      let i = (pos + 1) % c.master.num in
      let l : i < c.master.num = mod-lt (pos + 1) h in
      let (after, run, out, same, now) = update_backup12_lem tc c a disks i made l in
      (
        after,
        rw (==_of_ne c.master.num 0 (omega arith), run) refl,
        same,
        now,
        λ j hj old. IsCurrent-kept tc c a disks after i j l hj out same now old,
      )

  alarms_reach :
      (k : ℕ) (disks : Disks tc) (pos : ℕ)
      → HasMain tc c disks
      → 0 < c.master.num
      → (pos' : ℕ) × (after : Disks tc) × (alarms tc k c (pos, disks) ≡ some (pos', after))
        × SameOwn tc disks after
        × ((j : ℕ) → j < c.master.num → IsCurrent tc c a disks j → IsCurrent tc c a after j)
        × ((d : ℕ) → 0 < d → d ≤ k → IsCurrent tc c a after ((pos + d) % c.master.num))
  unfolding alarms
  alarms_reach zero disks pos made h =
      (pos, disks, refl, λ t. (refl, refl), λ j l q. q, λ d p l. absurd (omega arith))
  alarms_reach (suc k) disks pos made h =
      let n = c.master.num in
      let i = (pos + 1) % n in
      let (mid, run, same, now, kept) = update_backup_lem disks pos made h in
      let (pos', after, run', same', kept', reached) =
        alarms_reach k mid i (HasMain-same tc c a disks mid same made) h in
      (
        pos',
        after,
        rw run run',
        SameOwn-trans tc disks mid after same same',
        λ j l q. kept' j l (kept j l q),
        λ d p l. elim (ℕ_discrete d 1) [
          | yes one ↦ rw one (kept' i (mod-lt (pos + 1) h) now)
          | no more ↦
              let e : (i + (d - 1)) % n ≡ (pos + d) % n =
                mod-add-mod (pos + 1) n (d - 1) ∙ ap (λ y. y % n) (omega arith) in
              rw (← e) (reached (d - 1) (omega arith) (omega arith))
        ],
      )

  turn :
      {after : Disks tc} {pos : ℕ} (i : ℕ)
      → i < c.master.num
      → pos < c.master.num
      → ((d : ℕ) → 0 < d → d ≤ c.master.num → IsCurrent tc c a after ((pos + d) % c.master.num))
      → IsCurrent tc c a after i
  turn {after} {pos} i l h reached =
      let n = c.master.num in
      elim (dec_lt pos i) [
        | yes below ↦
            let e : (pos + (i - pos)) % n ≡ i =
              ap (λ y. y % n) (omega arith) ∙ mod-eq_of_lt {n = i} {m = n} l in
            rw (← e) (reached (i - pos) (omega arith) (omega arith))
        | no above ↦
            let e : (pos + (i + n - pos)) % n ≡ i =
              ap (λ y. y % n) {y = i + n} (omega arith) ∙ wrap_around i n l in
            rw (← e) (reached (i + n - pos) (omega arith) (omega arith))
      ]

  -- Where every slave has a file of its own, and there is one, as many alarms as there are slaves go
  -- through and make every slave's copies current, whatever `pos` was left at, and change no slave's
  -- own data.
  pub alarms-IsCurrent :
      (disks : Disks tc) (pos : ℕ)
      → HasMain tc c disks
      → 0 < c.master.num
      → (pos' : ℕ) × (after : Disks tc) × (alarms tc c.master.num c (pos, disks)
          ≡ some (pos', after))
        × SameOwn tc disks after
        × ((i : ℕ) → i < c.master.num → IsCurrent tc c a after i)
  alarms-IsCurrent disks pos made h =
      let n = c.master.num in
      let (pos', after, run, same, kept, reached) = alarms_reach n disks pos made h in
      let reached' : (d : ℕ) → 0 < d → d ≤ n → IsCurrent tc c a after ((pos % n + d) % n) =
        λ d p l. rw (mod-add-mod pos n d) (reached d p l) in
      (pos', after, run, same, λ i l. turn {pos = pos % n} i l (mod-lt pos h) reached')
