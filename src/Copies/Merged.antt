-- ===== src/Copies/Merged.antt =====
-- The repairs of all the slaves after one has left.
use native.Mathlib.Decide.{ℕ_discrete}
use distributed_db.Common.{
  ℕ, zero, suc, ◌+◌, ◌≤◌, ◌<◌, ◌≡◌, ◌≢◌, refl, sym, ◌∙◌, some, arith, if◌then◌else◌,
}
use distributed_db.TcDb.{Tchdb}
use distributed_db.TcDb.Split.{Documented, is_some}
use distributed_db.Cluster.{Cluster, merge_backup1, repair_after}
use distributed_db.Cluster.Members.{Agrees}
use distributed_db.Copies.{Disks, opened, by_name, repair, repairs}
use distributed_db.Copies.Repaired.{repair-merged, repair-same}
use distributed_db.Copies.Backup.{sock_of, HasMain}
use distributed_db.Copies.Current.{SameOwn, SameOwn-trans, HasMain-same}

module _ (tc : Tchdb) (doc : Documented tc) (c : Cluster) (a : Agrees c) where
  -- One slave's own file has been merged with its first backup, and no other slave's differs.
  pub record IsMerged (i : ℕ) (disks after : Disks tc) : Type 0 where
    pub main : tc.Hdb
    pub at_main : (after (sock_of c i)).main ≡ some main
    pub at_tmp : (after (sock_of c i)).tmp ≡ (disks (sock_of c i)).tmp
    pub held :
        let f = disks (sock_of c i) in
        (k : ℕ)
        → tc.get main k ≡ (
            if is_some (tc.get (by_name tc f.left1 f.backup1) k)
            then tc.get (by_name tc f.left1 f.backup1) k
            else tc.get (opened tc f.main) k)
    pub others :
        (t : ℕ)
        → t ≢ sock_of c i
        → ((after t).main ≡ (disks t).main) × ((after t).tmp ≡ (disks t).tmp)

  module _ (rmpos pre : ℕ) (within : pre < c.master.num)
      (first : repair_after rmpos (c.net (sock_of c pre)) ≡ merge_backup1)
      (rest : (j : ℕ)
        → j < c.master.num
        → j ≢ pre
        → repair_after rmpos (c.net (sock_of c j)) ≢ merge_backup1) where
    repairs-same :
        (n i : ℕ) (disks : Disks tc)
        → i + n ≤ c.master.num
        → pre < i
        → HasMain tc c disks
        → (after : Disks tc) × (repairs tc rmpos c n i disks ≡ some after) × SameOwn tc disks after
    unfolding repairs
    repairs-same zero i disks l b made = (disks, refl, λ t. (refl, refl))
    repairs-same (suc n) i disks l b made =
        let (next, run, _, same) =
          repair-same tc doc c a (repair_after rmpos (c.net (sock_of c i))) disks i
            (rest i (omega arith) (omega arith)) made (omega arith) in
        let (after, run', same') =
          repairs-same n (i + 1) next (omega arith) (omega arith)
            (HasMain-same tc c a disks next same made) in
        (after, rw run run', SameOwn-trans tc disks next after same same')

    HasMain-merged :
        (disks after : Disks tc)
        → HasMain tc c disks
        → IsMerged pre disks after
        → HasMain tc c after
    HasMain-merged disks after made x j h = elim (ℕ_discrete j pre) [
      | yes e ↦ rw e (x.main, x.at_main)
      | no other ↦
          let (m, there) = made j h in
          (m, (x.others (sock_of c j) (λ q. other (a.apart j pre h within q))).0 ∙ there)
    ]

    merge_here :
        (disks : Disks tc)
        → HasMain tc c disks
        → (after : Disks tc) × (repair tc merge_backup1 c.net (sock_of c pre) disks ≡ some after)
          × IsMerged pre disks after
    merge_here disks made =
        let (after, main, run, out, m, t, held) = repair-merged tc doc c a disks pre made within in
        (
          after,
          run,
          record {
            main = main;
            at_main = m;
            at_tmp = t;
            held = held;
            others = λ t n. rw (out t n) (refl, refl);
          },
        )

    -- What stays after the merge.
    IsMerged-then :
        (disks mid after : Disks tc)
        → IsMerged pre disks mid
        → SameOwn tc mid after
        → IsMerged pre disks after
    IsMerged-then disks mid after x same = record {
      main = x.main;
      at_main = (same _).0 ∙ x.at_main;
      at_tmp = (same _).1 ∙ x.at_tmp;
      held = x.held;
      others = λ t n. ((same t).0 ∙ (x.others t n).0, (same t).1 ∙ (x.others t n).1);
    }

    -- What comes before it.
    then-IsMerged :
        (disks mid after : Disks tc)
        → mid (sock_of c pre) ≡ disks (sock_of c pre)
        → SameOwn tc disks mid
        → IsMerged pre mid after
        → IsMerged pre disks after
    then-IsMerged disks mid after e same x = record {
      main = x.main;
      at_main = x.at_main;
      at_tmp = x.at_tmp ∙ (same _).1;
      held = rw (← e) x.held;
      others = λ t n. ((x.others t n).0 ∙ (same t).0, (x.others t n).1 ∙ (same t).1);
    }

    pub repairs-IsMerged :
        (n i : ℕ) (disks : Disks tc)
        → i + n ≤ c.master.num
        → i ≤ pre
        → pre < i + n
        → HasMain tc c disks
        → (after : Disks tc) × (repairs tc rmpos c n i disks ≡ some after)
          × IsMerged pre disks after
    unfolding repairs
    repairs-IsMerged zero i disks l b h made = absurd (omega arith)
    repairs-IsMerged (suc n) i disks l b h made = elim (ℕ_discrete i pre) [
      | yes here ↦
          let (mid, run, x) = merge_here disks made in
          let (after, run', same) =
            repairs-same n (i + 1) mid (omega arith) (omega arith)
              (HasMain-merged disks mid made x) in
          (after, rw (here, first, run) (rw here at run'), IsMerged-then disks mid after x same)
      | no later ↦
          let (mid, run, out, same) =
            repair-same tc doc c a (repair_after rmpos (c.net (sock_of c i))) disks i
              (rest i (omega arith) later) made (omega arith) in
          let (after, run', x) =
            repairs-IsMerged n (i + 1) mid (omega arith) (omega arith) (omega arith)
              (HasMain-same tc c a disks mid same made) in
          let kept =
            out (sock_of c pre) (λ q. later (a.apart i pre (omega arith) within (sym q))) in
          (after, rw run run', then-IsMerged disks mid after kept same x)
    ]
