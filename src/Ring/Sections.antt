-- ===== src/Ring/Sections.antt =====
-- Sections add up along the ring, so a node may be put into a section or taken out.
use distributed_db.Common.{
  ℕ, zero, suc, ◌+◌, ◌/◌, ◌%◌, ◌≤◌, ◌<◌, ◌≡◌, List, [], ◌∷◌, some, arith, length, get_elem?,
  insert_at, remove_at,
}
use distributed_db.Slaves.{max_key}
use distributed_db.Ring.{dist, section, arcs, walk, Below, IsRing}

pub dist-lt : (a k : ℕ) → dist a k < max_key
dist-lt a k = omega arith

-- Past a whole section, the distance from its end is what is left.
pub dist-past :
    (a b k : ℕ)
    → a < max_key
    → b < max_key
    → k < max_key
    → section a b ≤ dist a k
    → dist b k + section a b ≡ dist a k
dist-past a b k ha hb hk h = omega arith

-- Within a section, the distance from its end wraps.
pub dist-within :
    (a b k : ℕ)
    → a < max_key
    → b < max_key
    → k < max_key
    → dist a k < section a b
    → dist b k + section a b ≡ dist a k + max_key
dist-within a b k ha hb hk h = omega arith

-- Two neighbouring sections that are no more than a turn make up one.
pub section-join :
    (a x b : ℕ)
    → a < max_key
    → x < max_key
    → b < max_key
    → section a x + section x b ≤ max_key
    → section a b ≡ section a x + section x b
section-join a x b ha hx hb h = omega arith

-- `m` lies inside the section (a, b].
abbrev pub Splits : ℕ → ℕ → ℕ → Type 0
Splits a m b = (m < max_key) × (section a m + section m b ≡ section a b)

-- The middle of a section of two keys or more lies inside it.
pub middle-Splits :
    (a b : ℕ)
    → a < max_key
    → b < max_key
    → 2 ≤ section a b
    → Splits a ((section a b / 2 + a) % max_key) b
middle-Splits a b ha hb h = omega arith

pub walk-insert_at :
    (p z a : ℕ) (r : List ℕ) {lo hi : ℕ} (m : ℕ)
    → get_elem? (arcs z a r) p ≡ some (lo, hi)
    → Splits lo m hi
    → walk z a (insert_at p m r) ≡ walk z a r
walk-insert_at zero z a [] m e s = ground arith
walk-insert_at zero z a (b ∷ r) m e s = ground arith
walk-insert_at (suc p) z a [] m e s = cc
walk-insert_at (suc p) z a (b ∷ r) m e s = ground (arith, walk-insert_at p z b r m e s)

pub walk-pos : (z a : ℕ) (r : List ℕ) → 0 < walk z a r
walk-pos z a [] = omega arith
walk-pos z a (b ∷ r) = omega arith

pub walk-remove_at :
    (p z a : ℕ) (r : List ℕ)
    → z < max_key
    → Below (a ∷ r)
    → walk z a r ≤ max_key
    → p < length r
    → walk z a (remove_at p r) ≡ walk z a r
walk-remove_at p z a [] hz b h l = absurd (omega arith)
walk-remove_at zero z a (x ∷ []) hz b h l = omega (arith, section-join a x z)
walk-remove_at zero z a (x ∷ y ∷ r) hz b h l = omega (arith, section-join a x y)
walk-remove_at (suc p) z a (x ∷ r) hz b h l = omega (arith, walk-remove_at p z x r)

-- Moving the end of the walk on by a section.
pub walk-end :
    (z y a : ℕ) (r : List ℕ)
    → z < max_key
    → y < max_key
    → Below (a ∷ r)
    → walk z a r + section z y ≤ max_key
    → walk y a r ≡ walk z a r + section z y
walk-end z y a [] hz hy b h = omega (arith, section-join a z y)
walk-end z y a (x ∷ r) hz hy b h = omega (arith, walk-end z y x r)

pub insert_at-Below : (p m : ℕ) (r : List ℕ) → m < max_key → Below r → Below (insert_at p m r)
insert_at-Below zero m r h b = (h, b)
insert_at-Below (suc p) m [] h b = (h, tt)
insert_at-Below (suc p) m (x ∷ r) h b = (b.0, insert_at-Below p m r h b.1)

pub remove_at-Below : (p : ℕ) (r : List ℕ) → Below r → Below (remove_at p r)
remove_at-Below p [] b = tt
remove_at-Below zero (x ∷ r) b = b.1
remove_at-Below (suc p) (x ∷ r) b = (b.0, remove_at-Below p r b.1)

-- A node put inside a section leaves a ring.
pub insert_at-IsRing :
    (p a : ℕ) (r : List ℕ) {lo hi : ℕ} (m : ℕ)
    → IsRing (a ∷ r)
    → get_elem? (arcs a a r) p ≡ some (lo, hi)
    → Splits lo m hi
    → IsRing (insert_at (suc p) m (a ∷ r))
insert_at-IsRing p a r m g e s =
    ((g.0.0, insert_at-Below p m r s.0 g.0.1), rw (walk-insert_at p a a r m e s) g.1)

-- A node taken out leaves a ring, the empty one perhaps.
pub remove_at-IsRing : (p : ℕ) (ks : List ℕ) → IsRing ks → p < length ks → IsRing (remove_at p ks)
remove_at-IsRing p [] g h = tt
remove_at-IsRing zero (a ∷ []) g h = tt
remove_at-IsRing zero (a ∷ b ∷ r) g h = (g.0.1, omega (arith, walk-end a b b r))
remove_at-IsRing (suc p) (a ∷ r) g h =
    ((g.0.0, remove_at-Below p r g.0.1), omega (arith, walk-remove_at p a a r))
