-- ===== src/Copies/Stored.antt =====
-- Where the records of the whole store are: each in the file of the slave that the client asks.
use distributed_db.Common.{
  ℕ, ◌+◌, ◌%◌, ◌<◌, ◌≡◌, refl, ap, ◌∙◌, Bool, true, false, ◌&&◌, Option, none, some, arith,
  if◌then◌else◌,
}
use distributed_db.Slaves.{SlaveList, IsSized, max_key, keys}
use distributed_db.Ring.{IsRing}
use distributed_db.TcDb.{Tchdb}
use distributed_db.TcDb.Split.{Documented, is_some}
use distributed_db.Slave.{clip_data}
use distributed_db.Slave.Clip.{goes_to, clip_data-get_socket}
use distributed_db.Cluster.{Cluster}
use distributed_db.Copies.{Disks}
use distributed_db.Copies.Backup.{sock_of, HasMain}
use distributed_db.Copies.Current.{SameOwn}

module _ (tc : Tchdb) where
  -- What a file holds under a key.
  abbrev pub contents : Option tc.Hdb → ℕ → Option tc.Value
  contents none k = none
  contents (some hdb) k = tc.get hdb k

  -- The store holds `records`: each key's record in the file of the slave that has its section, and
  -- nothing else there.
  pub record Stored (c : Cluster) (records : ℕ → Option tc.Value) (disks : Disks tc) : Type 0 where
    pub held :
        (i k : ℕ)
        → i < c.master.num
        → k < max_key
        → contents (disks (sock_of c i)).main k ≡ (if goes_to c.master i k then records k else none)
    pub made : HasMain tc c disks
    pub no_tmp : (i : ℕ) → i < c.master.num → (disks (sock_of c i)).tmp ≡ none

  pub Stored-same :
      (c : Cluster) (records : ℕ → Option tc.Value) (disks after : Disks tc)
      → SameOwn tc disks after
      → Stored c records disks
      → Stored c records after
  Stored-same c records disks after same st = record {
    held = λ i k h l. ap (λ m. contents m k) (same (sock_of c i)).0 ∙ st.held i k h l;
    made = λ i h. let (m, e) = st.made i h in (m, (same (sock_of c i)).0 ∙ e);
    no_tmp = λ i h. (same (sock_of c i)).1 ∙ st.no_tmp i h;
  }

  into_new :
      (o : Option tc.Value) (moves : Bool) {old : Option tc.Value}
      → old ≡ none
      → (if is_some o && moves then o else old) ≡ (if moves then o else none)
  into_new none true e = e
  into_new none false e = e
  into_new (some v) true e = refl
  into_new (some v) false e = e

  -- CLIP_DATA into a new file, for every key at once.
  pub clip_all :
      (doc : Documented tc) (sl : SlaveList) (pos : ℕ) (src : tc.Hdb)
      → IsSized sl
      → IsRing (keys sl)
      → 0 < sl.num
      → (src' : tc.Hdb) × (dest : tc.Hdb) × (clip_data tc sl pos (src, tc.new) ≡ some (src', dest))
        × ((k : ℕ)
            → k < max_key
            → tc.get src' k ≡ (if goes_to sl ((pos + 1) % sl.num) k then none else tc.get src k))
        × ((k : ℕ)
            → k < max_key
            → tc.get dest k ≡ (if goes_to sl ((pos + 1) % sl.num) k then tc.get src k else none))
  clip_all doc sl pos src v g h =
      let (src', dest, run, _, _) =
        clip_data-get_socket tc sl pos 0 src tc.new doc v g h (omega arith) in
      (
        src',
        dest,
        run,
        λ k l.
            let (s, d, run', at_src, _) = clip_data-get_socket tc sl pos k src tc.new doc v g h l in
            let e : src' ≡ s = cc (run, run') in ap (λ f. tc.get f k) e ∙ at_src,
        λ k l.
            let (s, d, run', _, at_dest) =
              clip_data-get_socket tc sl pos k src tc.new doc v g h l in
            let e : dest ≡ d = cc (run, run') in
            ap (λ f. tc.get f k) e
            ∙ at_dest
            ∙ into_new (tc.get src k) (goes_to sl ((pos + 1) % sl.num) k) (doc.get-new k),
      )
