-- ===== src/Master/Join.antt =====
-- AddToSlaveList: the new slave takes over half of the longest section, in the master's list and
-- in the copy of every slave that is told of it.
use distributed_db.Common.{
  ℕ, ◌+◌, ◌%◌, ◌≤◌, ◌<◌, ◌≡◌, refl, ap, ◌∙◌, List, [], ◌∷◌, map, some, arith, get_elem?, insert_at,
  map-insert_at,
}
use native.Mathlib.Numerals.{add-one}
use distributed_db.Slaves.{
  SlaveNode, SlaveList, IsSized, max_slave_num, max_key, node_at, live, keys, next_version,
  add_new_slave,
}
use distributed_db.Slaves.Edits.{add_new_slave_lem, node_at-add_new_slave}
use distributed_db.Ring.{IsRing, ring_arcs}
use distributed_db.Ring.Sections.{Splits, middle-Splits, insert_at-IsRing}
use distributed_db.Ring.Arcs.{slave_arc, key-lt}
use distributed_db.Master.{get_length, add_to_slave_list}
use distributed_db.Master.Longest.{longest_section_splits}
use distributed_db.Master.Placed.{
  middle_key, Placed, only, halfway, Placed-le, add_to_slave_list_cases,
}

-- A slave that is told of a new slave, by the node at its position in the master's list, ends with
-- the master's list if it began with it.
pub add_new_slave-agrees :
    (random : ℕ) (sn : SlaveNode) (sl sl' : SlaveList) (p : ℕ)
    → IsSized sl
    → sl.num < max_slave_num
    → add_to_slave_list random sn sl ≡ some (sl', p)
    → add_new_slave p (node_at sl' p) sl ≡ some sl'
add_new_slave-agrees random sn sl sl' p v h e =
    let (sl'', p', nd, c, f, a) = add_to_slave_list_cases random sn sl v h in
    let same = node_at-add_new_slave p' nd sl v (omega (arith, Placed-le c)) a in cc (f, e, a, same)

IsRing-join :
    (ks : List ℕ) (pos m : ℕ) {lo hi : ℕ}
    → IsRing ks
    → get_elem? (ring_arcs ks) pos ≡ some (lo, hi)
    → Splits lo m hi
    → IsRing (insert_at (pos + 1) m ks)
IsRing-join [] pos m g e s = cc
IsRing-join (a ∷ r) pos m g e s = rw add-one (insert_at-IsRing pos a r m g e s)

IsRing-of_one : (sl : SlaveList) (k : ℕ) → sl.num ≡ 0 → IsRing (insert_at 0 (k % max_key) (keys sl))
IsRing-of_one sl k e = rw e ((omega arith, tt), omega arith)

Placed-IsRing :
    {random : ℕ} {sn : SlaveNode} {sl : SlaveList} {p : ℕ} {nd : SlaveNode}
    → IsSized sl
    → IsRing (keys sl)
    → Placed random sn sl p nd
    → IsRing (insert_at p nd.key (keys sl))
unfolding get_length
Placed-IsRing {random} {sn} {sl} v g (only e) = IsRing-of_one sl random e
Placed-IsRing {random} {sn} {sl} v g (halfway pos h f l) =
    IsRing-join (keys sl) pos (middle_key sl pos) g (slave_arc sl pos v l) (
      middle-Splits (node_at sl pos).key (node_at sl ((pos + 1) % sl.num)).key (key-lt sl pos v g l)
        (key-lt sl ((pos + 1) % sl.num) v g (omega arith))
        (omega (arith, (longest_section_splits sl pos v g h f).1)))

-- AddToSlaveList keeps the ring: on a list with room it adds one slave, at the index that it
-- returns, and the keys of the slaves still go round once.
pub add_to_slave_list-IsRing :
    (random : ℕ) (sn : SlaveNode) (sl : SlaveList)
    → IsSized sl
    → IsRing (keys sl)
    → sl.num < max_slave_num
    → (sl' : SlaveList) × (p : ℕ) × (add_to_slave_list random sn sl ≡ some (sl', p))
      × (live sl' ≡ insert_at p (node_at sl' p) (live sl))
      × (p < sl'.num)
      × (sl'.num ≡ sl.num + 1)
      × (sl'.version ≡ next_version sl.version)
      × IsSized sl'
      × IsRing (keys sl')
add_to_slave_list-IsRing random sn sl v g h =
    let (sl', p, nd, c, f, a) = add_to_slave_list_cases random sn sl v h in
    let (sl'', a', l, n, w, z) = add_new_slave_lem p nd sl v h (Placed-le c) in
    let same : sl'' ≡ sl' = cc (a, a') in
    (
      sl'',
      p,
      cc (f, same),
      rw (node_at-add_new_slave p nd sl v (omega (arith, Placed-le c)) a') l,
      omega (arith, n, Placed-le c),
      n,
      w,
      z,
      rw (l, map-insert_at (λ (x : SlaveNode). x.key) p nd (live sl)) (Placed-IsRing v g c),
    )

chosen :
    (random : ℕ) (sn : SlaveNode) (sl sl' : SlaveList) (p : ℕ)
    → IsSized sl
    → sl.num < max_slave_num
    → add_to_slave_list random sn sl ≡ some (sl', p)
    → (nd : SlaveNode) × Placed random sn sl p nd × (add_new_slave p nd sl ≡ some sl')
chosen random sn sl sl' p v h e =
    let (sl'', p', nd, c, f, a) = add_to_slave_list_cases random sn sl v h in
    let same : p ≡ p' = cc (e, f) in (nd, rw same c, cc (e, f, a))

abbrev pub Joined : SlaveList → SlaveList → ℕ → ℕ → Type 0
Joined sl sl' p pos =
    (p ≡ pos + 1)
    × (pos < sl.num)
    × (keys sl' ≡ insert_at (pos + 1) (node_at sl' p).key (keys sl))
    × Splits (node_at sl pos).key (node_at sl' p).key (node_at sl ((pos + 1) % sl.num)).key
    × IsSized sl'
    × IsRing (keys sl')

parts :
    {random : ℕ} {sn : SlaveNode} {sl sl' : SlaveList} {p : ℕ} {nd : SlaveNode}
    → IsSized sl
    → IsRing (keys sl)
    → sl.num < max_slave_num
    → 0 < sl.num
    → Placed random sn sl p nd
    → add_new_slave p nd sl ≡ some sl'
    → (pos : ℕ) × Joined sl sl' p pos
unfolding get_length
parts v g h h0 (only e) a = absurd (omega arith)
parts {random} {sn} {sl} {sl'} v g h h0 (halfway pos _ f l) a =
    let nd = record sn { key = middle_key sl pos } in
    let (sl'', a', k, n, w, z) = add_new_slave_lem (pos + 1) nd sl v h (omega arith) in
    let same : sl'' ≡ sl' = cc (a, a') in
    let new : node_at sl' (pos + 1) ≡ nd =
      node_at-add_new_slave (pos + 1) nd sl v (omega arith) a in
    let keys_eq : keys sl' ≡ insert_at (pos + 1) (middle_key sl pos) (keys sl) = rw (← same) (
      ap (map (λ (x : SlaveNode). x.key)) k
      ∙ map-insert_at (λ (x : SlaveNode). x.key) (pos + 1) nd (live sl)) in
    let halves =
      middle-Splits (node_at sl pos).key (node_at sl ((pos + 1) % sl.num)).key (key-lt sl pos v g l)
        (key-lt sl ((pos + 1) % sl.num) v g (omega arith))
        (omega (arith, (longest_section_splits sl pos v g h0 f).1)) in
    (
      pos,
      (
        refl,
        l,
        rw new keys_eq,
        rw new halves,
        rw (← same) z,
        rw keys_eq (IsRing-join (keys sl) pos (middle_key sl pos) g (slave_arc sl pos v l) halves),
      ),
    )

-- The parts that a client needs when a slave joins others.
pub joined :
    (random : ℕ) (sn : SlaveNode) (sl sl' : SlaveList) (p : ℕ)
    → IsSized sl
    → IsRing (keys sl)
    → 0 < sl.num
    → sl.num < max_slave_num
    → add_to_slave_list random sn sl ≡ some (sl', p)
    → (pos : ℕ) × Joined sl sl' p pos
joined random sn sl sl' p v g h0 h e =
    let (nd, c, a) = chosen random sn sl sl' p v h e in parts v g h h0 c a

Placed-sock :
    {random : ℕ} {sn : SlaveNode} {sl : SlaveList} {p : ℕ} {nd : SlaveNode}
    → Placed random sn sl p nd
    → nd.sock ≡ sn.sock
Placed-sock (only e) = refl
Placed-sock (halfway pos h f l) = refl

-- The new slave keeps its connection, and the slaves in use are the old ones with it.
pub sock-add_to_slave_list :
    (random : ℕ) (sn : SlaveNode) (sl sl' : SlaveList) (p : ℕ)
    → IsSized sl
    → sl.num < max_slave_num
    → add_to_slave_list random sn sl ≡ some (sl', p)
    → ((node_at sl' p).sock ≡ sn.sock) × (p ≤ sl.num)
sock-add_to_slave_list random sn sl sl' p v h e =
    let (nd, c, a) = chosen random sn sl sl' p v h e in
    (
      rw (node_at-add_new_slave p nd sl v (omega (arith, Placed-le c)) a) (Placed-sock c),
      Placed-le c,
    )
