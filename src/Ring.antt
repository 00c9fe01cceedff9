-- ===== src/Ring.antt =====
-- The specification of the key ring: `max_key` keys in a circle, cut into sections. A node with key
-- `a` whose successor has key `b` owns the section (a, b], going up and round.
pub mod Sections
pub mod Owner
pub mod Join
pub mod Leave
pub mod Arcs
use distributed_db.Common.{
  ℕ, zero, suc, ◌+◌, ◌-◌, ◌%◌, ◌<◌, ◌≡◌, List, [], ◌∷◌, Option, none, some, Bool, ltb,
  if◌then◌else◌,
}
use mathlib.Core.Option
use distributed_db.Slaves.{max_key}

-- How many keys lie in (a, k), going up from `a`.
abbrev pub dist : ℕ → ℕ → ℕ
dist a k = (k + (max_key - 1) - a) % max_key

-- The number of keys in (a, b]; all of them if `a` is `b`.
abbrev pub section : ℕ → ℕ → ℕ
section a b = dist a b + 1

abbrev pub covers : ℕ → ℕ → ℕ → Bool
covers a b k = ltb (dist a k) (section a b)

-- From node `a` through the nodes `r` to node `z`: each node's key with its successor's.
abbrev pub arcs : ℕ → ℕ → List ℕ → List (ℕ × ℕ)
arcs z a [] = (a, z) ∷ []
arcs z a (b ∷ r) = (a, b) ∷ arcs z b r

-- The keys passed on that way.
abbrev pub walk : ℕ → ℕ → List ℕ → ℕ
walk z a [] = section a z
walk z a (b ∷ r) = section a b + walk z b r

abbrev pub Below : List ℕ → Type 0
Below [] = Unit {0}
Below (k ∷ ks) = (k < max_key) × Below ks

-- The keys of a slave list go round the circle exactly once.
abbrev pub IsRing : List ℕ → Type 0
IsRing [] = Unit {0}
IsRing (a ∷ r) = Below (a ∷ r) × (walk a a r ≡ max_key)

abbrev pub ring_arcs : List ℕ → List (ℕ × ℕ)
ring_arcs [] = []
ring_arcs (a ∷ r) = arcs a a r

-- The index of the first arc that covers a key.
unfoldable pub owner : List (ℕ × ℕ) → ℕ → Option ℕ
owner [] k = none
owner ((a, b) ∷ rest) k = if covers a b k then some 0 else Option.map suc (owner rest k)
