-- ===== src/Slave/Clip.antt =====
-- The server splits off what the client sends to the slave that it is split off for.
use native.Mathlib.Nat.{mod-add-mod, mod-eq_of_lt}
use native.Mathlib.Decide.{ℕ_discrete}
use distributed_db.Common.{
  ℕ, ◌+◌, ◌%◌, ◌<◌, ◌≡◌, refl, sym, ap, ◌∙◌, inl, inr, Bool, false, ◌&&◌, Option, none, some, arith,
  ◌==◌, ==_iff, if◌then◌else◌, Bool-cases,
}
use distributed_db.Slaves.{SlaveList, IsSized, max_key, node_at, keys}
use distributed_db.Ring.{covers, IsRing}
use distributed_db.Ring.Arcs.{key-lt}
use distributed_db.Client.Route.{get_socket}
use distributed_db.Client.Route.Owner.{get_socket_total, get_socket_unique}
use distributed_db.TcDb.{Tchdb, in_range}
use distributed_db.TcDb.Split.{Documented, is_some, split_by_key_lem}
use distributed_db.Slave.{clip_data, update_backup2}

in_range-eq-covers :
    (tc : Tchdb) (lo hi k : ℕ)
    → lo < max_key
    → hi < max_key
    → k < max_key
    → in_range tc lo hi k ≡ covers lo hi k
unfolding in_range
in_range-eq-covers tc lo hi k hl hh hk = ground arith

abbrev pub picks : ℕ → Option ℕ → Bool
picks i none = false
picks i (some j) = j == i

-- Whether the client sends a key to the slave at index `i`.
abbrev pub goes_to : SlaveList → ℕ → ℕ → Bool
goes_to sl i key = picks i (get_socket sl key)

covers-goes_to :
    (sl : SlaveList) (i key : ℕ)
    → IsSized sl
    → IsRing (keys sl)
    → i < sl.num
    → covers (node_at sl i).key (node_at sl ((i + 1) % sl.num)).key (key % max_key)
      ≡ goes_to sl i key
covers-goes_to sl i key v g h =
    let (j, e, l, c) = get_socket_total sl key v g (omega arith) in
    elim (Bool-cases
      (covers (node_at sl i).key (node_at sl ((i + 1) % sl.num)).key (key % max_key))) [
        | inl yes_it ↦
            rw (yes_it, get_socket_unique sl key i v g h yes_it) (sym ((==_iff i i).1 refl))
        | inr no_it ↦ elim (ℕ_discrete j i) [
          | yes same ↦ absurd (cc (no_it, rw same at c))
          | no other ↦ rw (no_it, e) (ground arith)
        ]
      ]

next_arc : (pos k n : ℕ) → ((pos + k) % n + 1) % n ≡ (pos + k + 1) % n
next_arc pos k n = mod-add-mod (pos + k) n 1

-- The range that a slave splits off ends at the key of the slave after it.
split_at :
    (tc : Tchdb) (sl : SlaveList) (pos k key : ℕ) {m : ℕ}
    → IsSized sl
    → IsRing (keys sl)
    → 0 < sl.num
    → key < max_key
    → m ≡ pos + k + 1
    → in_range tc (node_at sl ((pos + k) % sl.num)).key (node_at sl (m % sl.num)).key key
      ≡ goes_to sl ((pos + k) % sl.num) key
split_at tc sl pos k key {m} v g h hk e =
    let i : ℕ = (pos + k) % sl.num in
    let il : i < sl.num = omega arith in
    rw (e, ← next_arc pos k sl.num)
      (in_range-eq-covers tc (node_at sl i).key (node_at sl ((i + 1) % sl.num)).key key
          (key-lt sl i v g il) (key-lt sl ((i + 1) % sl.num) v g (omega arith)) hk
        ∙ ap (covers (node_at sl i).key (node_at sl ((i + 1) % sl.num)).key)
            (sym (mod-eq_of_lt {n = key} {m = max_key} hk))
        ∙ covers-goes_to sl i key v g il)

-- CLIP_DATA on the slave list of a ring, for a key below `max_key`: the record under it leaves the
-- slave's data for the new slave's exactly if the client sends the key to the new slave, the one
-- after this slave; else it stays.
pub clip_data-get_socket :
    (tc : Tchdb) (sl : SlaveList) (pos key : ℕ) (src dest : tc.Hdb)
    → Documented tc
    → IsSized sl
    → IsRing (keys sl)
    → 0 < sl.num
    → key < max_key
    → (src' : tc.Hdb) × (dest' : tc.Hdb) × (clip_data tc sl pos (src, dest) ≡ some (src', dest'))
      × (tc.get src' key ≡ (if goes_to sl ((pos + 1) % sl.num) key then none else tc.get src key))
      × (tc.get dest' key ≡ (
          if is_some (tc.get src key) && goes_to sl ((pos + 1) % sl.num) key
          then tc.get src key
          else tc.get dest key))
unfolding clip_data
clip_data-get_socket tc sl pos key src dest doc v g h hk =
    rw (← split_at tc sl pos 1 key {m = pos + 2} v g h hk (omega arith)) (
      split_by_key_lem tc doc (node_at sl ((pos + 1) % sl.num)).key
        (node_at sl ((pos + 2) % sl.num)).key key src dest)

-- UPDATE_BACKUP2 on the slave list of a ring, for a key below `max_key`: the record under it leaves
-- the slave's first backup for its second exactly if the client sends the key to the slave two
-- places after this one; else it stays.
pub update_backup2-get_socket :
    (tc : Tchdb) (sl : SlaveList) (pos key : ℕ) (src dest : tc.Hdb)
    → Documented tc
    → IsSized sl
    → IsRing (keys sl)
    → 0 < sl.num
    → key < max_key
    → (src' : tc.Hdb) × (dest' : tc.Hdb) × (update_backup2 tc sl pos (src, dest)
        ≡ some (src', dest'))
      × (tc.get src' key ≡ (if goes_to sl ((pos + 2) % sl.num) key then none else tc.get src key))
      × (tc.get dest' key ≡ (
          if is_some (tc.get src key) && goes_to sl ((pos + 2) % sl.num) key
          then tc.get src key
          else tc.get dest key))
unfolding update_backup2
update_backup2-get_socket tc sl pos key src dest doc v g h hk =
    rw (← split_at tc sl pos 2 key {m = pos + 3} v g h hk (omega arith)) (
      split_by_key_lem tc doc (node_at sl ((pos + 2) % sl.num)).key
        (node_at sl ((pos + 3) % sl.num)).key key src dest)
