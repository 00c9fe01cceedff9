-- ===== src/Ring/Leave.antt =====
-- The owner of a key after a node is taken out.
use mathlib.Core.Option
use distributed_db.Common.{
  ℕ, zero, suc, ◌+◌, ◌-◌, ◌%◌, ◌≤◌, ◌<◌, ◌≡◌, refl, ap₂, ◌∙◌, Bool, true, false, List, [], ◌∷◌,
  Option, none, some, inl, inr, arith, ltb, leb, ◌==◌, if◌then◌else◌, length, remove_at, Bool-cases,
}
use native.Mathlib.Nat.{mod-eq_of_lt}
use distributed_db.Slaves.{max_key}
use distributed_db.Ring.{dist, section, covers, arcs, walk, Below, IsRing, ring_arcs, owner}
use distributed_db.Ring.Join.{split_cases}
use distributed_db.Ring.Sections.{dist-past, dist-within, section-join}

-- Where an index goes when the node at `p` is taken out of `n`: to its predecessor, if it is `p`.
abbrev pub merged : ℕ → ℕ → ℕ → ℕ
merged n p i = if i == p then (p + (n - 1) - 1) % (n - 1) else if ltb i p then i else i - 1

-- Within a list, the entry before a removed one takes its index.
abbrev merged_in : ℕ → ℕ → ℕ
merged_in p i = if leb i p then i else i - 1

merged_in-suc :
    (p : ℕ) (o : Option ℕ)
    → Option.map suc (Option.map (merged_in p) o)
      ≡ Option.map (merged_in (suc p)) (Option.map suc o)
merged_in-suc p none = refl
merged_in-suc p (some i) = ground arith

merged_in-zero :
    (o : Option ℕ) → Option.map suc o ≡ Option.map (merged_in 0) (Option.map suc (Option.map suc o))
merged_in-zero none = refl
merged_in-zero (some i) = ground arith

owner-remove_head :
    (a x b k : ℕ) (rest : List (ℕ × ℕ))
    → a < max_key
    → x < max_key
    → b < max_key
    → k < max_key
    → section a x + section x b ≤ max_key
    → owner ((a, b) ∷ rest) k ≡ Option.map (merged_in 0) (owner ((a, x) ∷ (x, b) ∷ rest) k)
unfolding owner
owner-remove_head a x b k rest ha hx hb hk h =
    elim (split_cases a x b k ha hb hk (hx, omega (arith, section-join a x b))) [
      | inl (e, f, g) ↦ rw (e, g) (ground arith)
      | inr (inl (e, f, g)) ↦ rw (e, f, g) (ground arith)
      | inr (inr (e, f, g)) ↦ rw (e, f, g) (merged_in-zero (owner rest k))
    ]

owner-remove_at :
    (p z a : ℕ) (r : List ℕ) (k : ℕ)
    → z < max_key
    → Below (a ∷ r)
    → k < max_key
    → walk z a r ≤ max_key
    → p < length r
    → owner (arcs z a (remove_at p r)) k ≡ Option.map (merged_in p) (owner (arcs z a r) k)
unfolding owner
owner-remove_at p z a [] k hz b hk h l = absurd (omega arith)
owner-remove_at zero z a (x ∷ []) k hz b hk h l =
    owner-remove_head a x z k [] b.0 b.1.0 hz hk (omega arith)
owner-remove_at zero z a (x ∷ y ∷ r) k hz b hk h l =
    owner-remove_head a x y k (arcs z y r) b.0 b.1.0 b.1.1.0 hk (omega arith)
owner-remove_at (suc p) z a (x ∷ r) k hz b hk h l = elim (Bool-cases (covers a x k)) [
  | inl here ↦ rw here (ground arith)
  | inr past ↦
      rw (past, owner-remove_at p z x r k hz b.1 hk (omega arith) (omega arith))
        (merged_in-suc p (owner (arcs z x r) k))
]

dist-end :
    (z a : ℕ) (r : List ℕ) (k : ℕ)
    → z < max_key
    → Below (a ∷ r)
    → k < max_key
    → walk z a r ≤ dist a k
    → dist z k + walk z a r ≡ dist a k
dist-end z a [] k hz b hk h = dist-past a z k b.0 hz hk h
dist-end z a (x ∷ r) k hz b hk h =
    omega (arith, dist-past a x k, dist-end z x r k hz b.1 hk (omega (arith, dist-past a x k)))

-- The last node's section grows by (z, y] when the walk ends a section later.
owner-end :
    (z y a : ℕ) (r : List ℕ) (k : ℕ)
    → z < max_key
    → y < max_key
    → Below (a ∷ r)
    → k < max_key
    → walk z a r + section z y ≤ max_key
    → owner (arcs y a r) k ≡ (if covers z y k then some (length r) else owner (arcs z a r) k)
unfolding owner
owner-end z y a [] k hz hy b hk h =
    elim (split_cases a z y k b.0 hy hk (hz, omega (arith, section-join a z y))) [
      | inl (e, f, g) ↦ rw (e, f, g) refl
      | inr (inl (e, f, g)) ↦ rw (f, g) refl
      | inr (inr (e, f, g)) ↦ rw (e, f, g) refl
    ]
owner-end z y a (x ∷ r) k hz hy b hk h = elim (Bool-cases (covers a x k)) [
  | inl here ↦ rw (here, outside here) refl
  | inr past ↦
      rw (past, owner-end z y x r k hz hy b.1 hk (omega arith))
        (suc_if (covers z y k) (length r) (owner (arcs z x r) k))
]
  where
    outside : covers a x k ≡ true → covers z y k ≡ false
    outside here = ground (arith, dist-within a x k, dist-end z x r k hz b.1 hk)

    suc_if :
        (c : Bool) (n : ℕ) (o : Option ℕ)
        → Option.map suc (if c then some n else o) ≡ (if c then some (suc n) else Option.map suc o)
    suc_if true n o = refl
    suc_if false n o = refl

last-mod : (n : ℕ) → (0 + (suc (suc n) - 1) - 1) % (suc (suc n) - 1) ≡ n
last-mod n =
    ap₂ ◌%◌ {y = n} (omega arith) (omega arith) ∙ mod-eq_of_lt {n = n} {m = suc n} (omega arith)

pub wrap_around : (x n : ℕ) → x < n → (x + n) % n ≡ x
wrap_around x n h = grind arith

pred-mod : (n p : ℕ) → p < n → (suc p + (suc n - 1) - 1) % (suc n - 1) ≡ p
pred-mod n p h = ap₂ ◌%◌ {y = p + n} {v = n} (omega arith) (omega arith) ∙ wrap_around p n h

merged-zero : (n : ℕ) (o : Option ℕ) → o ≡ Option.map (merged (suc (suc n)) 0) (Option.map suc o)
merged-zero n none = refl
merged-zero n (some i) = ground arith

merged-suc :
    (n p : ℕ) (o : Option ℕ)
    → p < n
    → Option.map (merged_in p) o ≡ Option.map (merged (suc n) (suc p)) o
merged-suc n p none h = refl
merged-suc n p (some i) h = ground (arith, pred-mod n p)

-- The predecessor of a node that is taken out takes over its keys, and no node any other key.
pub ring_owner-remove_at :
    (p : ℕ) (ks : List ℕ) (k : ℕ)
    → IsRing ks
    → p < length ks
    → 2 ≤ length ks
    → k < max_key
    → owner (ring_arcs (remove_at p ks)) k
      ≡ Option.map (merged (length ks) p) (owner (ring_arcs ks) k)
unfolding owner
ring_owner-remove_at p [] k g h h2 hk = absurd (omega arith)
ring_owner-remove_at p (a ∷ []) k g h h2 hk = absurd (omega arith)
ring_owner-remove_at zero (a ∷ b ∷ r) k g h h2 hk = elim (Bool-cases (covers a b k)) [
  | inl here ↦
      rw (owner-end a b b r k g.0.0 g.0.1.0 g.0.1 hk (omega arith), here)
        (ground (arith, last-mod (length r)))
  | inr past ↦
      rw (owner-end a b b r k g.0.0 g.0.1.0 g.0.1 hk (omega arith), past)
        (merged-zero (length r) (owner (arcs a b r) k))
]
ring_owner-remove_at (suc p) (a ∷ b ∷ r) k g h h2 hk =
    owner-remove_at p a a (b ∷ r) k g.0.0 g.0 hk (omega arith) (omega arith)
    ∙ merged-suc (length (b ∷ r)) p (owner (arcs a a (b ∷ r)) k) (omega arith)
