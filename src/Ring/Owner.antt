-- ===== src/Ring/Owner.antt =====
-- Each key of a ring has one owner.
use distributed_db.Common.{
  ℕ, zero, suc, ◌≤◌, ◌<◌, ◌≡◌, refl, ap, true, false, List, [], ◌∷◌, some, inl, inr, arith, length,
  get_elem?, Bool-cases,
}
use distributed_db.Slaves.{max_key}
use distributed_db.Ring.{dist, covers, arcs, walk, Below, IsRing, ring_arcs, owner}
use distributed_db.Ring.Sections.{dist-past, dist-within}

-- Beyond the end of a walk no arc of it covers the key.
beyond :
    (z a : ℕ) (r : List ℕ) (k j : ℕ) {lo hi : ℕ}
    → z < max_key
    → Below (a ∷ r)
    → k < max_key
    → walk z a r ≤ dist a k
    → get_elem? (arcs z a r) j ≡ some (lo, hi)
    → covers lo hi k ≡ false
beyond z a [] k zero hz b hk h e = ground arith
beyond z a [] k (suc j) hz b hk h e = cc
beyond z a (x ∷ r) k zero hz b hk h e = ground arith
beyond z a (x ∷ r) k (suc j) hz b hk h e =
    beyond z x r k j hz b.1 hk (omega (arith, dist-past a x k)) e

-- A key that the walk passes has an owner on it.
owner_total :
    (z a : ℕ) (r : List ℕ) (k : ℕ)
    → z < max_key
    → Below (a ∷ r)
    → k < max_key
    → dist a k < walk z a r
    → (i : ℕ) × (owner (arcs z a r) k ≡ some i) × (i < length (arcs z a r))
unfolding owner
owner_total z a [] k hz b hk h = (0, ground arith, omega arith)
owner_total z a (x ∷ r) k hz b hk h = elim (Bool-cases (covers a x k)) [
  | inl here ↦ (0, rw here refl, omega arith)
  | inr past ↦
      let (i, e, l) = owner_total z x r k hz b.1 hk (ground (arith, dist-past a x k)) in
      (suc i, rw (past, e) refl, omega arith)
]

-- The arc that covers a key is the owner's, so there is one only.
owner_unique :
    (z a : ℕ) (r : List ℕ) (k j : ℕ) {lo hi : ℕ}
    → z < max_key
    → Below (a ∷ r)
    → k < max_key
    → walk z a r ≤ max_key
    → get_elem? (arcs z a r) j ≡ some (lo, hi)
    → covers lo hi k ≡ true
    → owner (arcs z a r) k ≡ some j
unfolding owner
owner_unique z a [] k zero hz b hk h e c = ground arith
owner_unique z a [] k (suc j) hz b hk h e c = cc
owner_unique z a (x ∷ r) k zero hz b hk h e c = ground arith
owner_unique z a (x ∷ r) k (suc j) {lo} {hi} hz b hk h e c = elim (Bool-cases (covers a x k)) [
  | inl here ↦
      absurd (
        cc
          (c, beyond z x r k j {lo = lo} {hi = hi} hz b.1 hk (ground (arith, dist-within a x k)) e))
  | inr past ↦
      rw (past, owner_unique z x r k j {lo = lo} {hi = hi} hz b.1 hk (omega arith) e c) refl
]

pub length-arcs : (z a : ℕ) (r : List ℕ) → length (arcs z a r) ≡ suc (length r)
length-arcs z a [] = refl
length-arcs z a (x ∷ r) = ap suc (length-arcs z x r)

-- Every key has an owner among the nodes.
pub ring_owner_total :
    (a : ℕ) (r : List ℕ) (k : ℕ)
    → IsRing (a ∷ r)
    → k < max_key
    → (i : ℕ) × (owner (ring_arcs (a ∷ r)) k ≡ some i) × (i < length (a ∷ r))
ring_owner_total a r k g hk =
    let (i, e, l) = owner_total a a r k g.0.0 g.0 hk (omega arith) in
    (i, e, omega (arith, length-arcs a a r))

pub ring_owner_unique :
    (a : ℕ) (r : List ℕ) (k j : ℕ) {lo hi : ℕ}
    → IsRing (a ∷ r)
    → k < max_key
    → get_elem? (ring_arcs (a ∷ r)) j ≡ some (lo, hi)
    → covers lo hi k ≡ true
    → owner (ring_arcs (a ∷ r)) k ≡ some j
ring_owner_unique a r k j g hk e c = owner_unique a a r k j g.0.0 g.0 hk (omega arith) e c
