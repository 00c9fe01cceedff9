-- ===== src/Copies/Leave.antt =====
-- A slave leaves: the slave before it takes over its records, from the copy that it has of them.
use native.Mathlib.Nat.{mod-lt}
use native.Mathlib.Decide.{ℕ_discrete}
use mathlib.Core.Option
use distributed_db.Common.{
  ℕ, ◌+◌, ◌-◌, ◌%◌, ◌<◌, ◌≡◌, ◌≢◌, refl, sym, ap, ◌∙◌, Bool, true, false, ◌||◌, Option, none, some,
  arith, ltb, ◌==◌, ==_iff, ==_of_ne, if◌then◌else◌, remove_at,
}
use distributed_db.Slaves.{max_key, live, remove_slave}
use distributed_db.Ring.Leave.{merged}
use distributed_db.TcDb.{Tchdb}
use distributed_db.TcDb.Split.{Documented, is_some}
use distributed_db.Slave.Clip.{goes_to, picks}
use distributed_db.Client.Route.{get_socket}
use distributed_db.Client.Route.Moves.{get_socket-remove_slave}
use distributed_db.Master.Leave.{remove_slave-IsRing}
use distributed_db.Cluster.{Cluster, del_slave, merge_backup1, merge_backup2, nothing, repair_after}
use distributed_db.Cluster.Members.{Agrees}
use distributed_db.Cluster.Nodes.{node_at-remove_at}
use distributed_db.Cluster.Leaves.{del_slave_lem}
use distributed_db.Cluster.Repairs.{before}
use distributed_db.Copies.{Disks, Held, closed, current, stale, opened, by_name, repairs}
use distributed_db.Copies.Backup.{sock_of, HasMain}
use distributed_db.Copies.Current.{IsCurrent}
use distributed_db.Copies.Stored.{contents, Stored}
use distributed_db.Copies.Merged.{IsMerged, repairs-IsMerged}

-- The index that a slave had while the slave at `p` was there.
abbrev old_index : ℕ → ℕ → ℕ
old_index p i = if ltb i p then i else i + 1

picks-merged :
    (n p pre i : ℕ) (o : Option ℕ)
    → (p + (n - 1) - 1) % (n - 1) ≡ pre
    → picks i (Option.map (merged n p) o)
      ≡ (if i == pre then picks (old_index p i) o || picks p o else picks (old_index p i) o)
picks-merged n p pre i none e = ground arith
picks-merged n p pre i (some j) e = ground (arith, e)

-- The records of two sections that are joined.
joined_part {ℓ} :
    {A : Type ℓ} (left mine : Bool) (r : Option A) {backup own : Option A}
    → backup ≡ (if left then r else none)
    → own ≡ (if mine then r else none)
    → (if is_some backup then backup else own) ≡ (if mine || left then r else none)
joined_part true true none b o = rw (b, o) refl
joined_part true false none b o = rw (b, o) refl
joined_part true true (some v) b o = rw b refl
joined_part true false (some v) b o = rw b refl
joined_part false true r b o = rw (b, o) refl
joined_part false false r b o = rw (b, o) refl

not_first : (b : Bool) → (if b then merge_backup2 else nothing) ≢ merge_backup1
not_first true e = cc
not_first false e = cc

module _ (tc : Tchdb) (doc : Documented tc) (p : ℕ) (c c' : Cluster) (a : Agrees c) (a' : Agrees c')
    (h : p < c.master.num) (several : 1 < c.master.num)
    (gone : remove_slave p c.master ≡ some c'.master) (fewer : c'.master.num + 1 ≡ c.master.num)
    (l : live c'.master ≡ remove_at p (live c.master)) where
  -- The slave before the one that leaves, among those that stay.
  abbrev pre : ℕ
  pre = (p + c'.master.num - 1) % c'.master.num

  pre-lt : pre < c'.master.num
  pre-lt = mod-lt (p + c'.master.num - 1) (omega arith)

  left_socks : (i : ℕ) → i < c'.master.num → sock_of c' i ≡ sock_of c (old_index p i)
  left_socks i hi =
      ground (arith, node_at-remove_at c.master c'.master p i a.sized a'.sized fewer hi l)

  left_whose :
      (i k : ℕ)
      → goes_to c'.master i k ≡ (
          if i == pre
          then goes_to c.master (old_index p i) k || goes_to c.master p k
          else goes_to c.master (old_index p i) k)
  left_whose i k =
      let n : c.master.num - 1 ≡ c'.master.num = omega arith in
      ap (picks i)
        (get_socket-remove_slave p k c.master c'.master a.sized a.ring h (omega arith) gone)
      ∙ picks-merged c.master.num p pre i (get_socket c.master k) (ap (λ m. (p + m - 1) % m) n)

  first : repair_after p (c'.net (sock_of c' pre)) ≡ merge_backup1
  unfolding repair_after
  first = rw (a'.views pre pre-lt) (rw ((==_iff pre pre).1 refl) refl)

  rest :
      (j : ℕ) → j < c'.master.num → j ≢ pre → repair_after p (c'.net (sock_of c' j)) ≢ merge_backup1
  unfolding repair_after
  rest j hj other =
      rw (a'.views j hj, ==_of_ne j pre other)
        (not_first (j == (p + c'.master.num - 2) % c'.master.num))

  old_pre : old_index p pre ≡ (p + c.master.num - 1) % c.master.num
  old_pre =
      rw
        (
          before 1 p c'.master.num (omega arith) (omega arith) (omega arith),
          before 1 p c.master.num (omega arith) (omega arith) (omega arith),
        )
        (ground arith)

  contents-opened : (f : Option tc.Hdb) (k : ℕ) → tc.get (opened tc f) k ≡ contents tc f k
  contents-opened none k = doc.get-new k
  contents-opened (some hdb) k = refl

  -- A handle that is not stale is on the file.
  contents-by_name :
      (handle : Held tc) (f : Option tc.Hdb) (k : ℕ)
      → ((hdb : tc.Hdb) → handle ≢ stale hdb)
      → tc.get (by_name tc handle f) k ≡ contents tc f k
  contents-by_name closed f k n = contents-opened f k
  contents-by_name current f k n = contents-opened f k
  contents-by_name (stale hdb) f k n = absurd (n hdb refl)

  merged-Stored :
      (records : ℕ → Option tc.Value) (disks after : Disks tc)
      → Stored tc c records disks
      → ((k : ℕ)
          → k < max_key
          → contents tc (disks (sock_of c' pre)).backup1 k
            ≡ (if goes_to c.master p k then records k else none))
      → ((hdb : tc.Hdb) → (disks (sock_of c' pre)).left1 ≢ stale hdb)
      → IsMerged tc doc c' a' pre disks after
      → Stored tc c' records after
  merged-Stored records disks after st copy unmerged x = record {
    held = λ i k hi hk. elim (ℕ_discrete i pre) [
      | yes e ↦ rw e (held_pre k hk)
      | no other ↦
          ap (λ f. contents tc f k) (x.others (sock_of c' i) (apart i hi other)).0
          ∙ ap (λ y. contents tc (disks y).main k) (left_socks i hi)
          ∙ st.held (old_index p i) k (ground arith) hk
          ∙ ap (λ b. if b then records k else none) (sym (whose_other i k other))
    ];
    made = λ i hi. elim (ℕ_discrete i pre) [
      | yes e ↦ rw e (x.main, x.at_main)
      | no other ↦
          let (m, there) = st.made (old_index p i) (ground arith) in
          (
            m,
            (x.others (sock_of c' i) (apart i hi other)).0
                ∙ ap (λ y. (disks y).main) (left_socks i hi)
                ∙ there,
          )
    ];
    no_tmp = λ i hi. elim (ℕ_discrete i pre) [
      | yes e ↦ rw e (
          x.at_tmp
          ∙ ap (λ y. (disks y).tmp) (left_socks pre pre-lt)
          ∙ st.no_tmp (old_index p pre) (ground (arith, pre-lt)))
      | no other ↦
          (x.others (sock_of c' i) (apart i hi other)).1
          ∙ ap (λ y. (disks y).tmp) (left_socks i hi)
          ∙ st.no_tmp (old_index p i) (ground arith)
    ];
  }
    where
      apart : (i : ℕ) → i < c'.master.num → i ≢ pre → sock_of c' i ≢ sock_of c' pre
      apart i hi other q = other (a'.apart i pre hi pre-lt q)

      whose_other : (i k : ℕ) → i ≢ pre → goes_to c'.master i k ≡ goes_to c.master (old_index p i) k
      whose_other i k other = left_whose i k ∙ rw (==_of_ne i pre other) refl

      whose_pre :
          (k : ℕ)
          → goes_to c'.master pre k ≡ (goes_to c.master (old_index p pre) k || goes_to c.master p k)
      whose_pre k = left_whose pre k ∙ rw ((==_iff pre pre).1 refl) refl

      held_pre :
          (k : ℕ)
          → k < max_key
          → contents tc (after (sock_of c' pre)).main k
            ≡ (if goes_to c'.master pre k then records k else none)
      held_pre k hk =
          ap (λ f. contents tc f k) x.at_main
          ∙ x.held k
          ∙ joined_part (goes_to c.master p k) (goes_to c.master (old_index p pre) k) (records k)
              (contents-by_name _ _ k unmerged ∙ copy k hk)
              (contents-opened _ k
                ∙ ap (λ y. contents tc (disks y).main k) (left_socks pre pre-lt)
                ∙ st.held (old_index p pre) k (ground (arith, pre-lt)) hk)
          ∙ ap (λ b. if b then records k else none) (sym (whose_pre k))

  left-HasMain : (disks : Disks tc) → HasMain tc c disks → HasMain tc c' disks
  left-HasMain disks made i hi =
      let (m, there) = made (old_index p i) (ground arith) in
      (m, ap (λ y. (disks y).main) (left_socks i hi) ∙ there)

  -- The copy that the slave before has of the data of the one that leaves.
  current_copy :
      (records : ℕ → Option tc.Value) (disks : Disks tc)
      → Stored tc c records disks
      → IsCurrent tc c a disks ((p + c.master.num - 1) % c.master.num)
      → (k : ℕ) → k < max_key
      → contents tc (disks (sock_of c' pre)).backup1 k
        ≡ (if goes_to c.master p k then records k else none)
  current_copy records disks st now k hk =
      ap (λ y. contents tc (disks y).backup1 k) (left_socks pre pre-lt ∙ ap (sock_of c) old_pre)
      ∙ ap (λ f. contents tc f k) (now.first several)
      ∙ ap (λ j. contents tc (disks (sock_of c j)).main k) around
      ∙ st.held p k h hk
    where
      around : ((p + c.master.num - 1) % c.master.num + 1) % c.master.num ≡ p
      around = rw (before 1 p c.master.num (omega arith) (omega arith) (omega arith)) (grind arith)

  -- The slave before the one that leaves has no stale handle on its first backup.
  abbrev NoStale : Disks tc → Type 0
  NoStale disks =
      (hdb : tc.Hdb) → (disks (sock_of c ((p + c.master.num - 1) % c.master.num))).left1 ≢ stale hdb

  stays :
      (disks : Disks tc)
      → NoStale disks
      → (hdb : tc.Hdb) → (disks (sock_of c' pre)).left1 ≢ stale hdb
  stays disks n hdb e =
      n hdb (ap (λ y. (disks y).left1) (sym (left_socks pre pre-lt ∙ ap (sock_of c) old_pre)) ∙ e)

  left-Stored :
      (records : ℕ → Option tc.Value) (disks : Disks tc)
      → Stored tc c records disks
      → IsCurrent tc c a disks ((p + c.master.num - 1) % c.master.num)
      → NoStale disks
      → (after : Disks tc) × (repairs tc p c' c'.master.num 0 disks ≡ some after)
        × Stored tc c' records after
  left-Stored records disks st now unmerged =
      let (after, done, x) =
        repairs-IsMerged tc doc c' a' p pre pre-lt first rest c'.master.num 0 disks (omega arith)
          (omega arith) (ground (arith, pre-lt)) (left-HasMain disks st.made) in
      (
        after,
        done,
        merged-Stored records disks after st (current_copy records disks st now)
            (stays disks unmerged) x,
      )

-- A slave other than the last one leaves a store whose slave before it has a current copy of its
-- data, and no stale handle on that copy from an earlier merge: DEL_SLAVE goes through, the repairs of
-- the others go through, and again each record is in the file of the slave that the client asks for
-- it, those of the slave that left among them.
pub del_slave-Stored :
    (tc : Tchdb) (doc : Documented tc) (pos : ℕ) (c : Cluster) (a : Agrees c)
    (records : ℕ → Option tc.Value) (disks : Disks tc)
    → pos < c.master.num
    → 1 < c.master.num
    → Stored tc c records disks
    → IsCurrent tc c a disks ((pos + c.master.num - 1) % c.master.num)
    → ((hdb : tc.Hdb)
        → (disks (sock_of c ((pos + c.master.num - 1) % c.master.num))).left1 ≢ stale hdb)
    → (c' : Cluster) × (after : Disks tc) × (del_slave pos c ≡ some c')
      × (repairs tc pos c' c'.master.num 0 disks ≡ some after)
      × Agrees c'
      × (c'.master.num + 1 ≡ c.master.num)
      × Stored tc c' records after
del_slave-Stored tc doc pos c a records disks h several st now unmerged =
    let (c', run, a', l, gone) = del_slave_lem pos c a h in
    let (sl', e, _, shrunk, _, _, _) = remove_slave-IsRing pos c.master a.sized a.ring h in
    let same : sl' ≡ c'.master = cc (e, gone) in
    let fewer : c'.master.num + 1 ≡ c.master.num = rw (← same) shrunk in
    let (after, done, st') =
      left-Stored tc doc pos c c' a a' h several gone fewer l records disks st now unmerged in
    (c', after, run, done, a', fewer, st')
