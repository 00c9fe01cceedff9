-- ===== src/Client/Route/Moves.antt =====
-- Which keys change hands when a slave joins or leaves, as the client sees it.
use mathlib.Core.Option
use distributed_db.Common.{
  ℕ, ◌+◌, ◌%◌, ◌≤◌, ◌<◌, ◌≡◌, ap, ◌∙◌, List, [], ◌∷◌, some, arith, get_elem?, insert_at,
  map-remove_at,
}
use native.Mathlib.Numerals.{add-one}
use distributed_db.Slaves.{
  SlaveNode, SlaveList, IsSized, max_slave_num, max_key, node_at, live, keys, remove_slave,
}
use distributed_db.Ring.{covers, IsRing, ring_arcs, owner}
use distributed_db.Ring.Sections.{Splits}
use distributed_db.Ring.Arcs.{slave_arc, length-keys}
use distributed_db.Ring.Join.{moved, ring_owner-insert_at}
use distributed_db.Ring.Leave.{merged, ring_owner-remove_at}
use distributed_db.Master.{add_to_slave_list}
use distributed_db.Master.Join.{joined}
use distributed_db.Master.Leave.{remove_slave-IsRing}
use distributed_db.Client.Route.{get_socket}
use distributed_db.Client.Route.Owner.{get_socket-owner}

-- When a slave leaves, the keys of its section go to the slave before it on the ring, and every
-- other key stays with its slave: `merged` maps the index of the slave at `pos` to that of its
-- predecessor in the shorter list, and each other slave's index to its new one.
pub get_socket-remove_slave :
    (pos key : ℕ) (sl sl' : SlaveList)
    → IsSized sl
    → IsRing (keys sl)
    → pos < sl.num
    → 2 ≤ sl.num
    → remove_slave pos sl ≡ some sl'
    → get_socket sl' key ≡ Option.map (merged sl.num pos) (get_socket sl key)
get_socket-remove_slave pos key sl sl' v g h h2 e =
    let (sl'', f, l, _, _, z, g') = remove_slave-IsRing pos sl v g h in
    let same : sl'' ≡ sl' = cc (e, f) in
    rw
      (
        ← same,
        get_socket-owner sl'' key z g',
        get_socket-owner sl key v g,
        l,
        map-remove_at (λ (x : SlaveNode). x.key) pos (live sl),
      )
      (ring_owner-remove_at pos (keys sl) (key % max_key) g (omega (arith, length-keys sl v))
          (omega (arith, length-keys sl v)) (omega arith)
        ∙ ap (λ n. Option.map (merged n pos) (owner (ring_arcs (keys sl)) (key % max_key)))
            (length-keys sl v))

ring_join_owner :
    (ks : List ℕ) (pos m k : ℕ) {lo hi : ℕ}
    → IsRing ks
    → k < max_key
    → get_elem? (ring_arcs ks) pos ≡ some (lo, hi)
    → Splits lo m hi
    → owner (ring_arcs (insert_at (pos + 1) m ks)) k
      ≡ Option.map (moved pos (covers m hi k)) (owner (ring_arcs ks) k)
ring_join_owner [] pos m k g hk e s = cc
ring_join_owner (a ∷ r) pos m k g hk e s = rw add-one (ring_owner-insert_at pos a r k m g hk e s)

-- When a slave joins others, it takes over the keys past its own key, up to the key of the slave
-- after it, from the slave before it, and every other key stays with its slave: `moved` maps the
-- index of that slave to the new one's for those keys, and each index after it to the next.
pub get_socket-add_to_slave_list :
    (random key : ℕ) (sn : SlaveNode) (sl sl' : SlaveList) (p : ℕ)
    → IsSized sl
    → IsRing (keys sl)
    → 0 < sl.num
    → sl.num < max_slave_num
    → add_to_slave_list random sn sl ≡ some (sl', p)
    → (pos : ℕ) × (p ≡ pos + 1)
      × (get_socket sl' key
          ≡ Option.map
              (moved pos
                (covers (node_at sl' p).key (node_at sl ((pos + 1) % sl.num)).key (key % max_key)))
              (get_socket sl key))
get_socket-add_to_slave_list random key sn sl sl' p v g h0 h e =
    let (pos, j) = joined random sn sl sl' p v g h0 h e in
    (
      pos,
      j.0,
      rw (get_socket-owner sl' key j.4 j.5, get_socket-owner sl key v g, j.2)
          (ring_join_owner (keys sl) pos (node_at sl' p).key (key % max_key) g (omega arith)
            (slave_arc sl pos v j.1) j.3),
    )
