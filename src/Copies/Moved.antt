-- ===== src/Copies/Moved.antt =====
-- CLIP_DATA puts every record where it belongs.
use native.Mathlib.Decide.{ℕ_discrete, dec_lt}
use mathlib.Core.Option
use distributed_db.Common.{
  ℕ, ◌+◌, ◌-◌, ◌<◌, ◌≡◌, ◌≢◌, refl, sym, ap, ◌∙◌, Bool, true, false, not, ◌&&◌, Option, none, some,
  arith, ltb, ◌==◌, if◌then◌else◌,
}
use distributed_db.Slaves.{max_key}
use distributed_db.Ring.Join.{moved}
use distributed_db.TcDb.{Tchdb}
use distributed_db.TcDb.Split.{Documented}
use distributed_db.Slave.Clip.{goes_to, picks}
use distributed_db.Cluster.{Cluster}
use distributed_db.Cluster.Members.{Agrees, IsFresh}
use distributed_db.Copies.{Files, Disks}
use distributed_db.Copies.Backup.{sock_of}
use distributed_db.Copies.Stored.{contents, Stored}
use distributed_db.Copies.Initial.{Clipped}

-- Which key is whose, when the new slave stands after `q`; `new` is whether the key is the new one's.
pub goes_to-moved :
    (q : ℕ) (new : Bool) (o : Option ℕ) (i : ℕ)
    → picks i (Option.map (moved q new) o) ≡ (
        if ltb i q
        then picks i o
        else if i == q
        then picks q o && not new
        else if i == q + 1
        then picks q o && new
        else picks (i - 1) o)
goes_to-moved q new none i = ground arith
goes_to-moved q new (some j) i = ground arith

-- The records of a section that is split, on either side.
pre_part {ℓ} :
    {A : Type ℓ} (mine new : Bool) (r : Option A)
    → (if mine && new then none else if mine then r else none)
      ≡ (if mine && not new then r else none)
pre_part true true r = refl
pre_part true false r = refl
pre_part false new r = refl

new_part {ℓ} :
    {A : Type ℓ} (mine new : Bool) (r : Option A)
    → (if mine && new then (if mine then r else none) else none) ≡ (if mine && new then r else none)
new_part true new r = refl
new_part false new r = refl

module _ (tc : Tchdb) (doc : Documented tc) (c c' : Cluster) (a : Agrees c) (a' : Agrees c')
    (q sock : ℕ) (inside : ℕ → Bool) (room : q < c.master.num)
    (grown : c'.master.num ≡ c.master.num + 1) (fresh : IsFresh sock c.master)
    (socks : (i : ℕ)
      → i < c'.master.num
      → sock_of c' i
        ≡ (if ltb i (q + 1) then sock_of c i else if i == q + 1 then sock else sock_of c (i - 1)))
    (whose : (i k : ℕ)
      → goes_to c'.master i k ≡ (
          if ltb i q
          then goes_to c.master i k
          else if i == q
          then goes_to c.master q k && not (inside k)
          else if i == q + 1
          then goes_to c.master q k && inside k
          else goes_to c.master (i - 1) k)) where
  -- CLIP_DATA at the slave before the new one puts every record where it belongs.
  pub Clipped-Stored :
      (records : ℕ → Option tc.Value) (disks mid : Disks tc) (m : tc.Hdb)
      → Stored tc c records disks
      → (disks (sock_of c q)).main ≡ some m
      → (disks sock).tmp ≡ none
      → Clipped tc doc c' a' q disks m mid
      → Stored tc c' records mid
  Clipped-Stored records disks mid m st e t x = record {
    held = λ i k h l. elim (ℕ_discrete i q) [
      | yes pre ↦ rw pre (held_pre k l)
      | no above ↦ elim (ℕ_discrete i (q + 1)) [
        | yes me ↦ rw me (held_me k l)
        | no below ↦
            let (j, jl, f, w) = far i h above below in
            ap (λ (g : Files tc). contents tc g.main k) f
            ∙ st.held j k jl l
            ∙ ap (λ b. if b then records k else none) (sym (w k))
      ]
    ];
    made = λ i h. elim (ℕ_discrete i q) [
      | yes pre ↦ rw pre (x.left, x.at_pre)
      | no above ↦ elim (ℕ_discrete i (q + 1)) [
        | yes me ↦ rw me (x.new, x.at_me)
        | no below ↦
            let (j, jl, f, _) = far i h above below in
            let (b, there) = st.made j jl in (b, ap (λ (g : Files tc). g.main) f ∙ there)
      ]
    ];
    no_tmp = λ i h. elim (ℕ_discrete i q) [
      | yes pre ↦ rw pre x.no_tmp
      | no above ↦ elim (ℕ_discrete i (q + 1)) [
        | yes me ↦ rw me (x.tmp_me ∙ ap (λ y. (disks y).tmp) me_sock ∙ t)
        | no below ↦
            let (j, jl, f, _) = far i h above below in
            ap (λ (g : Files tc). g.tmp) f ∙ st.no_tmp j jl
      ]
    ];
  }
    where
      whose_pre : (k : ℕ) → goes_to c'.master q k ≡ (goes_to c.master q k && not (inside k))
      whose_pre k = whose q k ∙ ground arith

      whose_new : (k : ℕ) → goes_to c'.master (q + 1) k ≡ (goes_to c.master q k && inside k)
      whose_new k = whose (q + 1) k ∙ ground arith

      me_sock : sock_of c' (q + 1) ≡ sock
      me_sock = ground (arith, socks (q + 1))

      before :
          (k : ℕ) → k < max_key → tc.get m k ≡ (if goes_to c.master q k then records k else none)
      before k l = ap (λ f. contents tc f k) (sym e) ∙ st.held q k room l

      held_pre :
          (k : ℕ)
          → k < max_key
          → contents tc (mid (sock_of c' q)).main k
            ≡ (if goes_to c'.master q k then records k else none)
      held_pre k l =
          ap (λ f. contents tc f k) x.at_pre
          ∙ x.held_pre k l
          ∙ rw (whose_pre k, whose_new k, before k l)
              (pre_part (goes_to c.master q k) (inside k) (records k))

      held_me :
          (k : ℕ)
          → k < max_key
          → contents tc (mid (sock_of c' (q + 1))).main k
            ≡ (if goes_to c'.master (q + 1) k then records k else none)
      held_me k l =
          ap (λ f. contents tc f k) x.at_me
          ∙ x.held_me k l
          ∙ rw (whose_new k, before k l) (new_part (goes_to c.master q k) (inside k) (records k))

      far :
          (i : ℕ)
          → i < c'.master.num
          → i ≢ q
          → i ≢ q + 1
          → (j : ℕ) × (j < c.master.num)
            × (mid (sock_of c' i) ≡ disks (sock_of c j))
            × ((k : ℕ) → goes_to c'.master i k ≡ goes_to c.master j k)
      far i h above below =
          let there =
            x.elsewhere (sock_of c' i) (λ s. below (a'.apart i (q + 1) h (omega arith) s))
              (λ s. above (a'.apart i q h (omega arith) s)) in
          elim (dec_lt i q) [
            | yes low ↦ (
              i,
              omega arith,
              there ∙ ap disks (ground (arith, socks i h)),
              λ k. ground (arith, whose i k),
            )
            | no high ↦ (
              i - 1,
              omega arith,
              there ∙ ap disks (ground (arith, socks i h)),
              λ k. ground (arith, whose i k),
            )
          ]
