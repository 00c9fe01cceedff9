-- ===== src/Client/Route/Owner.antt =====
-- The loop of GetSocket finds the owner of the key on the ring.
use mathlib.Core.Option
use native.Mathlib.Numerals.{add-one}
use distributed_db.Common.{
  ℕ, zero, suc, ◌+◌, ◌%◌, ◌<◌, ◌≡◌, refl, ap, ◌∙◌, Bool, true, false, List, [], ◌∷◌, Option, none,
  some, arith, if◌then◌else◌, length, get_elem?, drop, drop_all, drop-get_elem?,
}
use distributed_db.Slaves.{SlaveList, IsSized, max_key, node_at, keys}
use distributed_db.Ring.{covers, ring_arcs, owner, IsRing}
use distributed_db.Ring.Arcs.{slave_arc, length-keys, length-ring_arcs, key-lt}
use distributed_db.Ring.Owner.{ring_owner_total, ring_owner_unique}
use distributed_db.Client.Route.{in_section, find_section, get_socket}

-- The tests of the loop say that the key is in the section.
in_section-eq-covers :
    (lo hi k : ℕ) → lo < max_key → hi < max_key → k < max_key → in_section lo hi k ≡ covers lo hi k
unfolding in_section
in_section-eq-covers lo hi k hl hh hk = ground arith

shift-map :
    (i : ℕ) (o : Option ℕ)
    → Option.map (λ (t : ℕ). i + 1 + t) o ≡ Option.map (λ (t : ℕ). i + t) (Option.map suc o)
shift-map i none = refl
shift-map i (some t) = ground arith

found_at :
    (c : Bool) (i : ℕ) (o : Option ℕ)
    → (if c then some i else Option.map (λ (t : ℕ). i + 1 + t) o)
      ≡ Option.map (λ (t : ℕ). i + t) (if c then some 0 else Option.map suc o)
found_at true i o = ground arith
found_at false i o = shift-map i o

module _ (sl : SlaveList) (v : IsSized sl) (g : IsRing (keys sl)) (k : ℕ) (hk : k < max_key) where
  -- The loop from index `i` searches the arcs from there on.
  find_section-owner :
      (n i : ℕ)
      → i + n ≡ sl.num
      → find_section sl k n i
        ≡ Option.map (λ (t : ℕ). i + t) (owner (drop i (ring_arcs (keys sl))) k)
  unfolding find_section owner
  find_section-owner zero i h =
      rw
        (drop_all (ring_arcs (keys sl)) i
          (omega (arith, length-ring_arcs (keys sl), length-keys sl v)))
        refl
  find_section-owner (suc n) i h =
      rw
        (
          drop-get_elem? (ring_arcs (keys sl)) i (slave_arc sl i v (omega arith)),
          in_section-eq-covers (node_at sl i).key (node_at sl ((i + 1) % sl.num)).key k
              (key-lt sl i v g (omega arith)) (key-lt sl ((i + 1) % sl.num) v g (omega arith)) hk,
          find_section-owner n (i + 1) (omega arith),
          ap (λ j. owner (drop j (ring_arcs (keys sl))) k) (add-one i),
        )
        (found_at _ i _)

map-zero : (o : Option ℕ) → Option.map (λ (t : ℕ). 0 + t) o ≡ o
map-zero none = refl
map-zero (some t) = ground arith

-- On the slave list of a ring, GetSocket picks the owner.
pub get_socket-owner :
    (sl : SlaveList) (key : ℕ)
    → IsSized sl
    → IsRing (keys sl)
    → get_socket sl key ≡ owner (ring_arcs (keys sl)) (key % max_key)
unfolding get_socket
get_socket-owner sl key v g =
    find_section-owner sl v g (key % max_key) (omega arith) sl.num 0 (omega arith) ∙ map-zero _

-- The section of the slave at index `i` holds the key.
abbrev pub Holds : SlaveList → ℕ → ℕ → Type 0
Holds sl i key =
    covers (node_at sl i).key (node_at sl ((i + 1) % sl.num)).key (key % max_key) ≡ true

owner-covers :
    (arcs : List (ℕ × ℕ)) (k i : ℕ) {lo hi : ℕ}
    → owner arcs k ≡ some i
    → get_elem? arcs i ≡ some (lo, hi)
    → covers lo hi k ≡ true
unfolding owner
owner-covers [] k i e f = cc
owner-covers ((a, b) ∷ rest) k zero {lo} {hi} e f = ground arith
owner-covers ((a, b) ∷ rest) k (suc i) {lo} {hi} e f =
    ground (arith, owner-covers rest k i {lo = lo} {hi = hi})

-- On the slave list of a ring with a slave in it, GetSocket returns the socket of a slave in use
-- whose section holds the key, for every key that a client can ask for: the assertion holds.
pub get_socket_total :
    (sl : SlaveList) (key : ℕ)
    → IsSized sl
    → IsRing (keys sl)
    → 0 < sl.num
    → (i : ℕ) × (get_socket sl key ≡ some i) × (i < sl.num) × Holds sl i key
get_socket_total sl key v g h =
    let (i, e, l) = total (keys sl) g (omega (arith, length-keys sl v)) in
    let l' : i < sl.num = omega (arith, length-keys sl v) in
    (
      i,
      get_socket-owner sl key v g ∙ e,
      l',
      owner-covers (ring_arcs (keys sl)) (key % max_key) i e (slave_arc sl i v l'),
    )
  where
    total :
        (ks : List ℕ)
        → IsRing ks
        → 0 < length ks
        → (i : ℕ) × (owner (ring_arcs ks) (key % max_key) ≡ some i) × (i < length ks)
    total [] g h = absurd (omega arith)
    total (a ∷ r) g h = ring_owner_total a r (key % max_key) g (omega arith)

-- No other slave's section holds it: a slave in use whose section holds the key is the one that
-- GetSocket picks.
pub get_socket_unique :
    (sl : SlaveList) (key j : ℕ)
    → IsSized sl
    → IsRing (keys sl)
    → j < sl.num
    → Holds sl j key
    → get_socket sl key ≡ some j
get_socket_unique sl key j v g h c =
    get_socket-owner sl key v g ∙ unique (keys sl) g (slave_arc sl j v h)
  where
    unique :
        (ks : List ℕ)
        → IsRing ks
        → get_elem? (ring_arcs ks) j
          ≡ some ((node_at sl j).key, (node_at sl ((j + 1) % sl.num)).key)
        → owner (ring_arcs ks) (key % max_key) ≡ some j
    unique [] g e = cc
    unique (a ∷ r) g e = ring_owner_unique a r (key % max_key) j g (omega arith) e c
