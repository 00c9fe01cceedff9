-- ===== src/Ring/Arcs.antt =====
-- The arcs of a slave list, read off its array by index as the code reads them.
use native.Mathlib.Nat.{mod-eq_of_lt, mod_self}
use native.Mathlib.Decide.{ℕ_discrete}
use distributed_db.Common.{
  ℕ, zero, suc, ◌+◌, ◌%◌, ◌≤◌, ◌<◌, ◌≡◌, refl, ap, ◌∙◌, List, [], ◌∷◌, map, some, arith, ◌==◌,
  if◌then◌else◌, length, get_elem?, get_or, take, length-map, length-take,
}
use distributed_db.Slaves.{SlaveNode, SlaveList, IsSized, max_key, blank, node_at, live, keys}
use distributed_db.Ring.{arcs, ring_arcs, Below, IsRing}
use distributed_db.Ring.Owner.{length-arcs}

pub length-keys : (sl : SlaveList) → IsSized sl → length (keys sl) ≡ sl.num
length-keys sl v = length-map _ (live sl) ∙ length-take sl.num sl.nodes (omega arith)

map-take-get_or :
    (n : ℕ) (xs : List SlaveNode) (i : ℕ)
    → i < n
    → n ≤ length xs
    → get_or (map (λ (nd : SlaveNode). nd.key) (take n xs)) i 0 ≡ (get_or xs i blank).key
map-take-get_or zero xs i h l = absurd (omega arith)
map-take-get_or (suc n) [] i h l = absurd (omega arith)
map-take-get_or (suc n) (x ∷ xs) zero h l = refl
map-take-get_or (suc n) (x ∷ xs) (suc i) h l = map-take-get_or n xs i (omega arith) (omega arith)

pub get_or-keys :
    (sl : SlaveList) (i : ℕ) → IsSized sl → i < sl.num → get_or (keys sl) i 0 ≡ (node_at sl i).key
get_or-keys sl i v h = map-take-get_or sl.num sl.nodes i h (omega arith)

get_elem?-arcs :
    (z a : ℕ) (r : List ℕ) (i : ℕ)
    → i < suc (length r)
    → get_elem? (arcs z a r) i
      ≡ some (get_or (a ∷ r) i 0, if i == length r then z else get_or (a ∷ r) (suc i) 0)
get_elem?-arcs z a [] zero h = refl
get_elem?-arcs z a [] (suc i) h = absurd (omega arith)
get_elem?-arcs z a (x ∷ r) zero h = ground arith
get_elem?-arcs z a (x ∷ r) (suc i) h = ground (arith, get_elem?-arcs z x r i)

next_index : (i n : ℕ) → i < suc n → (i + 1) % suc n ≡ (if i == n then 0 else suc i)
next_index i n h = elim (ℕ_discrete i n) [
  | yes e ↦ ground (arith, mod_self (suc n))
  | no ne ↦ ground (arith, mod-eq_of_lt {n = i + 1} {m = suc n})
]

-- `nodes[i]` and `nodes[(i + 1) % num]` bound the section of the slave at `i`.
ring_arc :
    (ks : List ℕ) (i : ℕ)
    → i < length ks
    → get_elem? (ring_arcs ks) i ≡ some (get_or ks i 0, get_or ks ((i + 1) % length ks) 0)
ring_arc [] i h = absurd (omega arith)
ring_arc (a ∷ r) i h = ground (
  arith,
  get_elem?-arcs a a r i,
  next_index i (length r),
  ap (λ j. get_or (a ∷ r) j 0) (next_index i (length r) h),
)

pub slave_arc :
    (sl : SlaveList) (i : ℕ)
    → IsSized sl
    → i < sl.num
    → get_elem? (ring_arcs (keys sl)) i
      ≡ some ((node_at sl i).key, (node_at sl ((i + 1) % sl.num)).key)
slave_arc sl i v h =
    rw
      (
        ring_arc (keys sl) i (rw (length-keys sl v) h),
        length-keys sl v,
        get_or-keys sl i v h,
        get_or-keys sl ((i + 1) % sl.num) v (omega arith),
      )
      refl

pub length-ring_arcs : (ks : List ℕ) → length (ring_arcs ks) ≡ length ks
length-ring_arcs [] = refl
length-ring_arcs (a ∷ r) = length-arcs a a r

pub Below-get_or : (ks : List ℕ) (i : ℕ) → Below ks → get_or ks i 0 < max_key
Below-get_or [] i b = omega arith
Below-get_or (k ∷ ks) zero b = b.0
Below-get_or (k ∷ ks) (suc i) b = Below-get_or ks i b.1

pub IsRing-Below : (ks : List ℕ) → IsRing ks → Below ks
IsRing-Below [] g = tt
IsRing-Below (a ∷ r) g = g.0

-- Every key in use is one of the ring's.
pub key-lt :
    (sl : SlaveList) (i : ℕ)
    → IsSized sl
    → IsRing (keys sl)
    → i < sl.num
    → (node_at sl i).key < max_key
key-lt sl i v g h =
    rw (← get_or-keys sl i v h) (Below-get_or (keys sl) i (IsRing-Below (keys sl) g))
