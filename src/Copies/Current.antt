-- ===== src/Copies/Current.antt =====
-- What UPDATE_BACKUP12 does for one slave: its copies become current.
use native.Mathlib.Nat.{mod-eq-sub-mod, mod-lt}
use distributed_db.Common.{ℕ, ◌+◌, ◌%◌, ◌<◌, ◌≡◌, ◌≢◌, refl, sym, ap, ◌∙◌, some, arith}
use native.Mathlib.Decide.{ℕ_discrete}
use distributed_db.TcDb.{Tchdb}
use distributed_db.Cluster.{Cluster}
use distributed_db.Cluster.Members.{Agrees}
use distributed_db.Copies.{
  ahead_1, ahead_2, his_pos, Files, Disks, backup_for_other_slave, update_backup12,
}
use distributed_db.Copies.Backup.{sock_of, HasMain, backup_lem}

pub past_mod : (x n : ℕ) → (x + n) % n ≡ x % n
past_mod x n = mod-eq-sub-mod {n = x + n} {m = n} (omega arith) ∙ ap (λ y. y % n) (omega arith)

pub next-ne : (i k n : ℕ) → i < n → 0 < k → k < n → (i + k) % n ≢ i
next-ne i k n h p l e = grind arith

-- No slave's own data differs, nor what it has split off.
abbrev pub SameOwn : (tc : Tchdb) → Disks tc → Disks tc → Type 0
SameOwn tc disks after =
    (t : ℕ) → ((after t).main ≡ (disks t).main) × ((after t).tmp ≡ (disks t).tmp)

pub SameOwn-trans :
    (tc : Tchdb) (disks mid after : Disks tc)
    → SameOwn tc disks mid
    → SameOwn tc mid after
    → SameOwn tc disks after
SameOwn-trans tc disks mid after p q t = ((q t).0 ∙ (p t).0, (q t).1 ∙ (p t).1)

module _ (tc : Tchdb) (c : Cluster) (a : Agrees c) where
  -- The slave at an index has, in its backups, what the next and the second next slave have in
  -- their own files, as far as these are other slaves.
  pub record IsCurrent (disks : Disks tc) (i : ℕ) : Type 0 where
    pub first :
        1 < c.master.num
        → (disks (sock_of c i)).backup1 ≡ (disks (sock_of c ((i + 1) % c.master.num))).main
    pub second :
        2 < c.master.num
        → (disks (sock_of c i)).backup2 ≡ (disks (sock_of c ((i + 2) % c.master.num))).main

  pub HasMain-same :
      (disks after : Disks tc) → SameOwn tc disks after → HasMain tc c disks → HasMain tc c after
  HasMain-same disks after same made j h = let (m, e) = made j h in (m, (same (sock_of c j)).0 ∙ e)

  -- A copy that a slave gets of another's file leaves every slave's own data as it is.
  own_kept :
      (disks after : Disks tc) (i j : ℕ) (f : Files tc)
      → (f.main ≡ (disks (sock_of c i)).main) × (f.tmp ≡ (disks (sock_of c i)).tmp)
      → ((t : ℕ) → t ≢ sock_of c i → after t ≡ disks t)
      → (j ≡ i → after (sock_of c i) ≡ disks (sock_of c i))
      → (j ≢ i → after (sock_of c i) ≡ f)
      → SameOwn tc disks after
  own_kept disks after i j f m out self new t = elim (ℕ_discrete t (sock_of c i)) [
    | no other ↦ rw (out t other) (refl, refl)
    | yes me ↦
        rw me (elim (ℕ_discrete j i) [
          | yes same ↦ rw (self same) (refl, refl)
          | no far ↦ rw (new far) m
        ])
  ]

  pub first_copy :
      (disks : Disks tc) (i : ℕ)
      → HasMain tc c disks
      → i < c.master.num
      → (after : Disks tc) × (backup_for_other_slave tc ahead_1 c.net (sock_of c i) disks
          ≡ some after)
        × ((t : ℕ) → t ≢ sock_of c i → after t ≡ disks t)
        × SameOwn tc disks after
        × (1 < c.master.num
            → (after (sock_of c i)).backup1 ≡ (disks (sock_of c ((i + 1) % c.master.num))).main)
  unfolding his_pos
  first_copy disks i made h =
      let n = c.master.num in
      let j = (i + 1) % n in
      let (after, run, out, self, new) =
        backup_lem tc c a ahead_1 disks i j made h (mod-lt (i + 1) (omega arith))
          (past_mod (i + 1) n) in
      (
        after,
        run,
        out,
        own_kept disks after i j _ (refl, refl) out self new,
        λ l. ap (λ (g : Files tc). g.backup1) (new (next-ne i 1 n h (omega arith) l)),
      )

  pub second_copy :
      (disks : Disks tc) (i : ℕ)
      → HasMain tc c disks
      → i < c.master.num
      → (after : Disks tc) × (backup_for_other_slave tc ahead_2 c.net (sock_of c i) disks
          ≡ some after)
        × ((t : ℕ) → t ≢ sock_of c i → after t ≡ disks t)
        × SameOwn tc disks after
        × ((after (sock_of c i)).backup1 ≡ (disks (sock_of c i)).backup1)
        × (2 < c.master.num
            → (after (sock_of c i)).backup2 ≡ (disks (sock_of c ((i + 2) % c.master.num))).main)
  unfolding his_pos
  second_copy disks i made h =
      let n = c.master.num in
      let k = (i + 2) % n in
      let (after, run, out, self, new) =
        backup_lem tc c a ahead_2 disks i k made h (mod-lt (i + 2) (omega arith))
          (past_mod (i + 2) n) in
      (
        after,
        run,
        out,
        own_kept disks after i k _ (refl, refl) out self new,
        elim (ℕ_discrete k i) [
          | yes same ↦ ap (λ (g : Files tc). g.backup1) (self same)
          | no far ↦ ap (λ (g : Files tc). g.backup1) (new far)
        ],
        λ l. ap (λ (g : Files tc). g.backup2) (new (next-ne i 2 n h (omega arith) l)),
      )

  -- UPDATE_BACKUP12 goes through, makes the slave's copies current, and changes no other file.
  pub update_backup12_lem :
      (disks : Disks tc) (i : ℕ)
      → HasMain tc c disks
      → i < c.master.num
      → (after : Disks tc) × (update_backup12 tc c.net (sock_of c i) disks ≡ some after)
        × ((t : ℕ) → t ≢ sock_of c i → after t ≡ disks t)
        × SameOwn tc disks after
        × IsCurrent after i
  unfolding update_backup12
  update_backup12_lem disks i made h =
      let (first, run, out, same, copy) = first_copy disks i made h in
      let (after, run', out', same', kept, copy') =
        second_copy first i (HasMain-same disks first same made) h in
      (
        after,
        rw (run, run') refl,
        λ t n. out' t n ∙ out t n,
        SameOwn-trans tc disks first after same same',
        record {
          first = λ l. kept ∙ copy l ∙ sym ((same _).0) ∙ sym ((same' _).0);
          second = λ l. copy' l ∙ sym ((same' _).0);
        },
      )

  pub IsCurrent-kept :
      (disks after : Disks tc) (i j : ℕ)
      → i < c.master.num
      → j < c.master.num
      → ((t : ℕ) → t ≢ sock_of c i → after t ≡ disks t)
      → SameOwn tc disks after
      → IsCurrent after i
      → IsCurrent disks j
      → IsCurrent after j
  IsCurrent-kept disks after i j hi hj out same now old = elim (ℕ_discrete j i) [
    | yes e ↦ rw e now
    | no other ↦
        let there : after (sock_of c j) ≡ disks (sock_of c j) =
          out (sock_of c j) (λ q. other (a.apart j i hj hi q)) in
        record {
          first = λ l. ap (λ (g : Files tc). g.backup1) there ∙ old.first l ∙ sym ((same _).0);
          second = λ l. ap (λ (g : Files tc). g.backup2) there ∙ old.second l ∙ sym ((same _).0);
        }
  ]
