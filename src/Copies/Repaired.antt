-- ===== src/Copies/Repaired.antt =====
-- What a slave's repair changes.
use native.Mathlib.Decide.{ℕ_discrete}
use distributed_db.Common.{ℕ, ◌<◌, ◌≡◌, ◌≢◌, refl, ap, ◌∙◌, some, ==_of_ne, ==_iff, if◌then◌else◌}
use distributed_db.TcDb.{Tchdb, merge_2_files}
use distributed_db.TcDb.Split.{Documented, is_some, merge_2_files_lem}
use distributed_db.Cluster.{Cluster, Repair, merge_backup1, merge_backup2, nothing}
use distributed_db.Cluster.Members.{Agrees}
use distributed_db.Copies.{
  Files, Disks, opened, by_name, taken_over, joined_backup, write, ahead_2, backup_for_other_slave,
  repair,
}
use distributed_db.Copies.Backup.{sock_of, HasMain}
use distributed_db.Copies.Current.{SameOwn, second_copy}

module _ (tc : Tchdb) (doc : Documented tc) where
  -- Merge2Files, for every key at once.
  merge_all :
      (src dest : tc.Hdb)
      → (src' dest' : tc.Hdb) × (merge_2_files tc (src, dest) ≡ some (src', dest'))
        × ((k : ℕ)
            → tc.get dest' k ≡ (if is_some (tc.get src k) then tc.get src k else tc.get dest k))
  merge_all src dest =
      let (src', dest', run, _, _) = merge_2_files_lem tc doc 0 src dest in
      (
        src',
        dest',
        run,
        λ k.
            let (s, d, run', _, at_dest) = merge_2_files_lem tc doc k src dest in
            let e : dest' ≡ d = cc (run, run') in ap (λ f. tc.get f k) e ∙ at_dest,
      )

  HasMain-write :
      (c : Cluster) (disks : Disks tc) (me : ℕ) (f : Files tc) (m : tc.Hdb)
      → HasMain tc c disks
      → f.main ≡ some m
      → HasMain tc c (write tc disks me f)
  HasMain-write c disks me f m made e j h = elim (ℕ_discrete (sock_of c j) me) [
    | yes mine ↦ (m, rw ((==_iff (sock_of c j) me).1 mine) e)
    | no other ↦ let (b, there) = made j h in (b, rw (==_of_ne (sock_of c j) me other) there)
  ]

  module _ (c : Cluster) (a : Agrees c) where
    -- One slave's files are changed, and then it gets its second copy.
    rewritten :
        (disks : Disks tc) (i : ℕ) (f : Files tc) (m : tc.Hdb)
        → HasMain tc c disks
        → i < c.master.num
        → f.main ≡ some m
        → (after : Disks tc) × (backup_for_other_slave tc ahead_2 c.net
              (sock_of c i)
              (write tc disks (sock_of c i) f)
            ≡ some after)
          × ((t : ℕ) → t ≢ sock_of c i → after t ≡ disks t)
          × ((after (sock_of c i)).main ≡ f.main)
          × ((after (sock_of c i)).tmp ≡ f.tmp)
    rewritten disks i f m made h e =
        let me = sock_of c i in
        let at_me : write tc disks me f me ≡ f = rw ((==_iff me me).1 refl) refl in
        let made' = HasMain-write c disks me f m made e in
        let (after, run, out, same, _, _) = second_copy tc c a (write tc disks me f) i made' h in
        (
          after,
          run,
          λ t n. out t n ∙ rw (==_of_ne t me n) refl,
          (same me).0 ∙ ap (λ (g : Files tc). g.main) at_me,
          (same me).1 ∙ ap (λ (g : Files tc). g.tmp) at_me,
        )

    -- The predecessor's repair: its file is merged with its first backup, which wins.
    pub repair-merged :
        (disks : Disks tc) (i : ℕ)
        → HasMain tc c disks
        → i < c.master.num
        → let f = disks (sock_of c i) in
          (after : Disks tc) × (main : tc.Hdb) × (repair tc merge_backup1 c.net (sock_of c i) disks
            ≡ some after)
          × ((t : ℕ) → t ≢ sock_of c i → after t ≡ disks t)
          × ((after (sock_of c i)).main ≡ some main)
          × ((after (sock_of c i)).tmp ≡ f.tmp)
          × ((k : ℕ)
              → tc.get main k ≡ (
                  if is_some (tc.get (by_name tc f.left1 f.backup1) k)
                  then tc.get (by_name tc f.left1 f.backup1) k
                  else tc.get (opened tc f.main) k))
    unfolding repair
    repair-merged disks i made h =
        let f = disks (sock_of c i) in
        let (backup1, main, run, held) =
          merge_all (by_name tc f.left1 f.backup1) (opened tc f.main) in
        let f' : Files tc = taken_over tc f backup1 main in
        let (after, done, out, m, t) = rewritten disks i f' main made h refl in
        (after, main, rw run done, out, m, t, held)

    -- Every other repair leaves each slave's own data as it is.
    pub repair-same :
        (r : Repair) (disks : Disks tc) (i : ℕ)
        → r ≢ merge_backup1
        → HasMain tc c disks
        → i < c.master.num
        → (after : Disks tc) × (repair tc r c.net (sock_of c i) disks ≡ some after)
          × ((t : ℕ) → t ≢ sock_of c i → after t ≡ disks t)
          × SameOwn tc disks after
    unfolding repair
    repair-same merge_backup1 disks i n made h = absurd (n refl)
    repair-same nothing disks i n made h = (disks, refl, λ t u. refl, λ t. (refl, refl))
    repair-same merge_backup2 disks i n made h =
        let f = disks (sock_of c i) in
        let (backup2, backup1, run, _) =
          merge_all (by_name tc f.left2 f.backup2) (by_name tc f.left1 f.backup1) in
        let f' : Files tc = joined_backup tc f backup2 backup1 in
        let (own, there) = made i h in
        let (after, done, out, m, t) = rewritten disks i f' own made h there in
        (
          after,
          rw run done,
          out,
          λ s. elim (ℕ_discrete s (sock_of c i)) [
            | yes me ↦ rw me (m, t)
            | no other ↦ rw (out s other) (refl, refl)
          ],
        )
