-- ===== src/Copies/Initial.antt =====
-- InitialSlave: what its exchanges with the other slaves change.
use native.Mathlib.Nat.{mod-lt, mod-eq_of_lt}
use native.Mathlib.Decide.{ℕ_discrete}
use distributed_db.Common.{
  ℕ, ◌+◌, ◌-◌, ◌%◌, ◌<◌, ◌≡◌, ◌≢◌, refl, ap, ◌∙◌, inl, inr, true, none, some, arith, ltb,
  if◌then◌else◌, Bool-cases,
}
use distributed_db.Slaves.{IsSized, max_key, keys}
use distributed_db.Ring.{IsRing}
use distributed_db.Ring.Leave.{wrap_around}
use distributed_db.TcDb.{Tchdb}
use distributed_db.TcDb.Split.{Documented}
use distributed_db.Slave.{clip_data}
use distributed_db.Slave.Clip.{goes_to, update_backup2-get_socket}
use distributed_db.Protocol.Cmd.{Cmd}
use distributed_db.Cluster.{SlaveProcess, Cluster}
use distributed_db.Cluster.Members.{Agrees}
use distributed_db.Copies.{
  back_1, back_2, his_pos, Files, opened, mv, replaced, moved, handle_slave_request, store, Disks,
  clip_data_from_pre, notify_2nd_pre_update_backup2, clip_and_backup, update_and_backup,
  initial_slave,
}
use distributed_db.Copies.Exchange.{communicate-Exchanged}
use distributed_db.Copies.Backup.{sock_of, HasMain}
use distributed_db.Copies.Current.{SameOwn, SameOwn-trans, HasMain-same, first_copy, second_copy}
use distributed_db.Copies.Stored.{clip_all}

two_back : (p n : ℕ) → p < n → 2 < n → (p + n - 2) % n ≢ p
two_back p n h l = grind arith

module _ (tc : Tchdb) (doc : Documented tc) where
  handle_clip_data :
      (s : SlaveProcess) (f : Files tc) {m src' dest : tc.Hdb}
      → f.main ≡ some m
      → f.tmp ≡ none
      → clip_data tc s.slaves s.pos (m, tc.new) ≡ some (src', dest)
      → handle_slave_request tc Cmd.clip_data s f
        ≡ some (
          some dest,
          record {
            main = some src';
            tmp = none;
            backup1 = some dest;
            backup2 = mv tc f.backup1 f.backup2;
            left1 = replaced tc f.left1 f.backup1;
            left2 = moved tc f.backup1 f.left2 f.backup2;
          },
        )
  unfolding handle_slave_request
  handle_clip_data s f e t run = rw (e, t, run) refl

  module _ (c : Cluster) (a : Agrees c) (q : ℕ) (disks : Disks tc) where
    -- What the exchange of CLIP_DATA leaves in the two files.
    pub record Clipped (m : tc.Hdb) (after : Disks tc) : Type 0 where
      pub left : tc.Hdb
      pub new : tc.Hdb
      pub at_pre : (after (sock_of c q)).main ≡ some left
      pub no_tmp : (after (sock_of c q)).tmp ≡ none
      pub at_me : (after (sock_of c (q + 1))).main ≡ some new
      pub tmp_me : (after (sock_of c (q + 1))).tmp ≡ (disks (sock_of c (q + 1))).tmp
      pub elsewhere : (t : ℕ) → t ≢ sock_of c (q + 1) → t ≢ sock_of c q → after t ≡ disks t
      pub held_pre :
          (k : ℕ)
          → k < max_key
          → tc.get left k ≡ (if goes_to c.master (q + 1) k then none else tc.get m k)
      pub held_me :
          (k : ℕ)
          → k < max_key
          → tc.get new k ≡ (if goes_to c.master (q + 1) k then tc.get m k else none)

    pub clip-Clipped :
        (m : tc.Hdb)
        → q + 1 < c.master.num
        → (disks (sock_of c q)).main ≡ some m
        → (disks (sock_of c q)).tmp ≡ none
        → (after : Disks tc) × (clip_data_from_pre tc c.net (sock_of c (q + 1)) disks ≡ some after)
          × Clipped m after
    unfolding clip_data_from_pre his_pos store
    clip-Clipped m within e t =
        let n = c.master.num in
        let own : (q + 1) % n ≡ q + 1 = mod-eq_of_lt {n = q + 1} {m = n} within in
        let (left, new, run, l, r) = clip_all tc doc c.master q m a.sized a.ring (omega arith) in
        let him : SlaveProcess = record { slaves = c.master; pos = q } in
        let f = disks (sock_of c q) in
        let (after, done, x) =
          communicate-Exchanged tc c.net (sock_of c (q + 1)) disks
            (record { slaves = c.master; pos = q + 1 }) (a.views (q + 1) within) back_1
            Cmd.clip_data q (some new)
            (record {
              main = some left;
              tmp = none;
              backup1 = some new;
              backup2 = mv tc f.backup1 f.backup2;
              left1 = replaced tc f.left1 f.backup1;
              left2 = moved tc f.backup1 f.left2 f.backup2;
            })
            (record (disks (sock_of c (q + 1))) { main = some new })
            (ap (λ y. y % n) (omega arith) ∙ wrap_around q n (omega arith)) (omega arith)
            (λ s. absurd (omega (arith, a.apart q (q + 1) (omega arith) within s)))
            (rw (a.views q (omega arith)) (handle_clip_data him f e t run)) refl in
        (
          after,
          done,
          record {
            left = left;
            new = new;
            at_pre = ap (λ (f : Files tc). f.main) x.at_him;
            no_tmp = ap (λ (f : Files tc). f.tmp) x.at_him;
            at_me = ap (λ (f : Files tc). f.main) x.at_me;
            tmp_me = ap (λ (f : Files tc). f.tmp) x.at_me;
            elsewhere = x.elsewhere;
            held_pre =
                λ k h. l k h ∙ ap (λ y. if goes_to c.master y k then none else tc.get m k) own;
            held_me =
                λ k h. r k h ∙ ap (λ y. if goes_to c.master y k then tc.get m k else none) own;
          },
        )

  handle_update_backup2 :
      (s : SlaveProcess) (f : Files tc)
      → IsSized s.slaves
      → IsRing (keys s.slaves)
      → 0 < s.slaves.num
      → (b1 b2 : tc.Hdb) × (handle_slave_request tc Cmd.update_backup2 s f
          ≡ some (
            none,
            record f {
              backup1 = some b1;
              backup2 = some b2;
              left2 = replaced tc f.left2 f.backup2;
            },
          ))
  unfolding handle_slave_request
  handle_update_backup2 s f v g h =
      let (b1, b2, run, _, _) =
        update_backup2-get_socket tc s.slaves s.pos 0 (opened tc f.backup1) tc.new doc v g h
          (omega arith) in
      (b1, b2, rw run refl)

  module _ (c : Cluster) (a : Agrees c) where
    notify_lem :
        (disks : Disks tc) (p : ℕ)
        → p < c.master.num
        → 2 < c.master.num
        → (after : Disks tc) × (notify_2nd_pre_update_backup2 tc c.net (sock_of c p) disks
            ≡ some after)
          × SameOwn tc disks after
    unfolding notify_2nd_pre_update_backup2 his_pos store
    notify_lem disks p h l =
        let n = c.master.num in
        let j = (p + n - 2) % n in
        let jl : j < n = mod-lt (p + n - 2) (omega arith) in
        let far : j ≢ p = two_back p n h l in
        let him : SlaveProcess = record { slaves = c.master; pos = j } in
        let f = disks (sock_of c j) in
        let (b1, b2, handled) = handle_update_backup2 him f a.sized a.ring (omega arith) in
        let (after, done, x) =
          communicate-Exchanged tc c.net (sock_of c p) disks (record { slaves = c.master; pos = p })
            (a.views p h) back_2 Cmd.update_backup2 j none
            (record f {
              backup1 = some b1;
              backup2 = some b2;
              left2 = replaced tc f.left2 f.backup2;
            })
            (disks (sock_of c p)) refl far (λ s. far (a.apart j p jl h s))
            (rw (a.views j jl) handled) refl in
        (
          after,
          done,
          λ t. elim (ℕ_discrete t (sock_of c p)) [
            | yes me ↦ rw (me, x.at_me) (refl, refl)
            | no other ↦ elim (ℕ_discrete t (sock_of c j)) [
              | yes his ↦ rw (his, x.at_him) (refl, refl)
              | no third ↦ rw (x.elsewhere t other third) (refl, refl)
            ]
          ],
        )

    -- What follows CLIP_DATA changes no slave's own data.
    pub initial_slave-same :
        (disks mid : Disks tc) (p : ℕ)
        → p < c.master.num
        → 1 < c.master.num
        → clip_data_from_pre tc c.net (sock_of c p) disks ≡ some mid
        → HasMain tc c mid
        → (after : Disks tc) × (initial_slave tc c.net (sock_of c p) disks ≡ some after)
          × SameOwn tc mid after
    unfolding initial_slave clip_and_backup update_and_backup
    initial_slave-same disks mid p h l clipped made =
        let several : ltb 1 c.master.num ≡ true = ground arith in
        let (one, run1, _, same1, _) = first_copy tc c a mid p made h in
        elim (Bool-cases (ltb 2 c.master.num)) [
          | inr few ↦
              (one, rw (a.views p h, several, few, clip_and_backup, clipped, run1) refl, same1)
          | inl many ↦
              let (two, run2, same2) = notify_lem one p h (ground arith) in
              let made2 =
                HasMain-same tc c a mid two (SameOwn-trans tc mid one two same1 same2) made in
              let (three, run3, _, same3, _, _) = second_copy tc c a two p made2 h in
              (
                three,
                rw
                    (
                      a.views p h,
                      several,
                      many,
                      clip_and_backup,
                      clipped,
                      run1,
                      update_and_backup,
                      run2,
                      run3,
                    )
                    refl,
                SameOwn-trans tc mid two three (SameOwn-trans tc mid one two same1 same2) same3,
              )
        ]
