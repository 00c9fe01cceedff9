-- ===== src/Ring/Join.antt =====
-- The owner of a key after a node is put into a section.
use mathlib.Core.Option
use distributed_db.Common.{
  ℕ, zero, suc, ◌+◌, ◌<◌, ◌≡◌, refl, Bool, true, false, List, [], ◌∷◌, Option, none, some, ◌⊎◌, inl,
  inr, arith, ltb, ◌==◌, if◌then◌else◌, get_elem?, insert_at, Bool-cases,
}
use distributed_db.Slaves.{max_key}
use distributed_db.Ring.{covers, arcs, Below, IsRing, ring_arcs, owner}
use distributed_db.Ring.Sections.{dist-past, dist-within, Splits}

-- Where an index goes when a node is put in after index `p`; `new` says that the key is the new
-- node's.
abbrev pub moved : ℕ → Bool → ℕ → ℕ
moved p new i = if ltb i p then i else if i == p then (if new then i + 1 else i) else i + 1

-- A key of a split section is in one half of it.
pub split_cases :
    (lo m hi k : ℕ)
    → lo < max_key
    → hi < max_key
    → k < max_key
    → Splits lo m hi
    → ((covers lo m k ≡ true) × (covers m hi k ≡ false) × (covers lo hi k ≡ true))
      ⊎ ((covers lo m k ≡ false) × (covers m hi k ≡ true) × (covers lo hi k ≡ true))
      ⊎ ((covers lo m k ≡ false) × (covers m hi k ≡ false) × (covers lo hi k ≡ false))
split_cases lo m hi k hl hh hk s = elim (Bool-cases (covers lo m k)) [
  | inl low ↦ inl (low, ground (arith, dist-within lo m k), ground (arith, dist-within lo m k))
  | inr high ↦ elim (Bool-cases (covers m hi k)) [
    | inl up ↦ inr (inl (high, up, ground (arith, dist-past lo m k)))
    | inr out ↦ inr (inr (high, out, ground (arith, dist-past lo m k)))
  ]
]

moved_past :
    (b : Bool) (o : Option ℕ)
    → Option.map suc (Option.map suc o) ≡ Option.map (moved 0 b) (Option.map suc o)
moved_past b none = refl
moved_past b (some i) = ground arith

moved-suc :
    (p : ℕ) (b : Bool) (o : Option ℕ)
    → Option.map suc (Option.map (moved p b) o) ≡ Option.map (moved (suc p) b) (Option.map suc o)
moved-suc p b none = refl
moved-suc p b (some i) = ground arith

owner-insert_at_head :
    (lo m hi k : ℕ) (rest : List (ℕ × ℕ))
    → lo < max_key
    → hi < max_key
    → k < max_key
    → Splits lo m hi
    → owner ((lo, m) ∷ (m, hi) ∷ rest) k
      ≡ Option.map (moved 0 (covers m hi k)) (owner ((lo, hi) ∷ rest) k)
unfolding owner
owner-insert_at_head lo m hi k rest hl hh hk s = elim (split_cases lo m hi k hl hh hk s) [
  | inl (e, f, g) ↦ rw (e, f, g) refl
  | inr (inl (e, f, g)) ↦ rw (e, f, g) refl
  | inr (inr (e, f, g)) ↦ rw (e, f, g) (moved_past false (owner rest k))
]

pub owner-insert_at :
    (p z a : ℕ) (r : List ℕ) (k m : ℕ) {lo hi : ℕ}
    → Below (a ∷ r)
    → z < max_key
    → k < max_key
    → get_elem? (arcs z a r) p ≡ some (lo, hi)
    → Splits lo m hi
    → owner (arcs z a (insert_at p m r)) k
      ≡ Option.map (moved p (covers m hi k)) (owner (arcs z a r) k)
unfolding owner
owner-insert_at zero z a [] k m b hz hk e s = ground (arith, owner-insert_at_head a m z k [])
owner-insert_at zero z a (x ∷ r) k m b hz hk e s =
    ground (arith, owner-insert_at_head a m x k (arcs z x r))
owner-insert_at (suc p) z a [] k m b hz hk e s = cc
owner-insert_at (suc p) z a (x ∷ r) k m {lo} {hi} b hz hk e s = elim (Bool-cases (covers a x k)) [
  | inl here ↦ rw here (ground arith)
  | inr past ↦
      rw (past, owner-insert_at p z x r k m {lo = lo} {hi = hi} b.1 hz hk e s)
        (moved-suc p (covers m hi k) (owner (arcs z x r) k))
]

-- A node put inside a section takes over the keys up to it, and no others.
pub ring_owner-insert_at :
    (p a : ℕ) (r : List ℕ) (k m : ℕ) {lo hi : ℕ}
    → IsRing (a ∷ r)
    → k < max_key
    → get_elem? (arcs a a r) p ≡ some (lo, hi)
    → Splits lo m hi
    → owner (ring_arcs (insert_at (suc p) m (a ∷ r))) k
      ≡ Option.map (moved p (covers m hi k)) (owner (ring_arcs (a ∷ r)) k)
ring_owner-insert_at p a r k m {lo} {hi} g hk e s =
    owner-insert_at p a a r k m {lo = lo} {hi = hi} g.0 g.0.0 hk e s
