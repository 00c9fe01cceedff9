-- ===== src/System/Record.antt =====
-- One record of the whole store: a client's write to the file of the slave that it asks.
use native.Mathlib.Decide.{ℕ_discrete}
use distributed_db.Common.{
  ℕ, ◌<◌, ◌≡◌, ◌≢◌, refl, sym, ap, ◌∙◌, Option, none, some, arith, ◌==◌, ==_iff, ==_of_ne,
  if◌then◌else◌,
}
use distributed_db.Slaves.{max_key}
use distributed_db.TcDb.{Tchdb}
use distributed_db.Slave.Clip.{goes_to, picks}
use distributed_db.Client.Route.{get_socket}
use distributed_db.Cluster.{Cluster}
use distributed_db.Cluster.Members.{Agrees}
use distributed_db.Copies.{Files, Disks, write}
use distributed_db.Copies.Backup.{sock_of}
use distributed_db.Copies.Stored.{contents, Stored}

-- One key's record, in the slave that has the key and in another.
own_part {ℓ} :
    {A : Type ℓ} (k j i : ℕ) (o : Option ℕ) (r new : Option A)
    → (k ≡ j → o ≡ some i)
    → (if k == j then new else if picks i o then r else none)
      ≡ (if picks i o then (if k == j then new else r) else none)
own_part k j i none r new e = ground arith
own_part k j i (some l) r new e = ground arith

other_part {ℓ} :
    {A : Type ℓ} (k j i i' : ℕ) (o : Option ℕ) (r new : Option A)
    → i' ≢ i
    → (k ≡ j → o ≡ some i)
    → (if picks i' o then r else none) ≡ (if picks i' o then (if k == j then new else r) else none)
other_part k j i i' none r new n e = ground arith
other_part k j i i' (some l) r new n e = ground arith

module _ (tc : Tchdb) (c : Cluster) (a : Agrees c) (records : ℕ → Option tc.Value)
    (disks : Disks tc) (st : Stored tc c records disks) where
  -- The slave at `i` changes one record of its section, of key `k`.
  changed-Stored :
      (k i : ℕ) (o : Option tc.Value) (m m' : tc.Hdb) (f : Files tc) (after : Disks tc)
      → i < c.master.num
      → get_socket c.master k ≡ some i
      → (disks (sock_of c i)).main ≡ some m
      → ((j : ℕ) → tc.get m' j ≡ (if k == j then o else tc.get m j))
      → (f.main ≡ some m') × (f.tmp ≡ (disks (sock_of c i)).tmp)
      → after (sock_of c i) ≡ f
      → ((t : ℕ) → t ≢ sock_of c i → after t ≡ disks t)
      → Stored tc c (λ j. if k == j then o else records j) after
  changed-Stored k i o m m' f after hi e there new (at_main, at_tmp) at out = record {
    held = λ i' j l h. elim (ℕ_discrete i' i) [
      | yes own ↦ rw own (held_own j h)
      | no other ↦
          ap (λ (g : Files tc). contents tc g.main j) (kept i' l other)
          ∙ st.held i' j l h
          ∙ other_part k j i i' (get_socket c.master j) (records j) o other (routed j)
    ];
    made = λ i' l. elim (ℕ_discrete i' i) [
      | yes own ↦ rw own (m', ap (λ (g : Files tc). g.main) at ∙ at_main)
      | no other ↦
          let (b, e') = st.made i' l in (b, ap (λ (g : Files tc). g.main) (kept i' l other) ∙ e')
    ];
    no_tmp = λ i' l. elim (ℕ_discrete i' i) [
      | yes own ↦ rw own (ap (λ (g : Files tc). g.tmp) at ∙ at_tmp ∙ st.no_tmp i hi)
      | no other ↦ ap (λ (g : Files tc). g.tmp) (kept i' l other) ∙ st.no_tmp i' l
    ];
  }
    where
      kept : (i' : ℕ) → i' < c.master.num → i' ≢ i → after (sock_of c i') ≡ disks (sock_of c i')
      kept i' l other = out (sock_of c i') (λ q. other (a.apart i' i l hi q))

      routed : (j : ℕ) → k ≡ j → get_socket c.master j ≡ some i
      routed j q = rw (← q) e

      held_own :
          (j : ℕ)
          → j < max_key
          → contents tc (after (sock_of c i)).main j
            ≡ (if goes_to c.master i j then if k == j then o else records j else none)
      held_own j h =
          ap (λ (g : Files tc). contents tc g.main j) at
          ∙ ap (λ g. contents tc g j) at_main
          ∙ new j
          ∙ ap (λ r. if k == j then o else r)
              (ap (λ g. contents tc g j) (sym there) ∙ st.held i j hi h)
          ∙ own_part k j i (get_socket c.master j) (records j) o (routed j)

  pub write-Stored :
      (k i : ℕ) (o : Option tc.Value) (m m' : tc.Hdb)
      → i < c.master.num
      → get_socket c.master k ≡ some i
      → (disks (sock_of c i)).main ≡ some m
      → ((j : ℕ) → tc.get m' j ≡ (if k == j then o else tc.get m j))
      → Stored tc c
          (λ j. if k == j then o else records j)
          (write tc disks (sock_of c i) (record (disks (sock_of c i)) { main = some m' }))
  write-Stored k i o m m' hi e there new =
      let f : Files tc = record (disks (sock_of c i)) { main = some m' } in
      let sock = sock_of c i in
      changed-Stored k i o m m' f (write tc disks sock f) hi e there new (refl, refl)
        (rw ((==_iff sock sock).1 refl) refl) (λ t n. rw (==_of_ne t sock n) refl)
