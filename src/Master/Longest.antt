-- ===== src/Master/Longest.antt =====
-- FindLongestSection: it finds a section that no other exceeds, the first of them.
use native.Mathlib.Decide.{dec_lt, ℕ_discrete}
use distributed_db.Common.{
  ℕ, zero, suc, ◌+◌, ◌-◌, ◌*◌, ◌≤◌, ◌<◌, ◌≡◌, refl, ap, ◌∙◌, ◌⊎◌, inl, inr, List, [], ◌∷◌, none,
  some, arith, ltb, ltb_iff, Bool-cases, length, get_elem?, get_elem?-lt,
}
use distributed_db.Slaves.{SlaveList, IsSized, max_slave_num, keys}
use distributed_db.Ring.{section, arcs, walk, IsRing, ring_arcs}
use distributed_db.Ring.Arcs.{slave_arc, length-keys, length-ring_arcs}
use distributed_db.Master.{get_length, longer, longest_from, find_longest_section}

-- Of the first `n` sections, the one at `j` is longest, with `m` keys, and the first so long.
record Best (sl : SlaveList) (n m j : ℕ) : Type 0 where
  len : get_length sl j ≡ m
  index : j < n
  most : (i : ℕ) → i < n → get_length sl i ≤ m
  first : (i : ℕ) → i < j → get_length sl i < m

Best-keep : {sl : SlaveList} {n m j : ℕ} → Best sl n m j → get_length sl n ≤ m → Best sl (n + 1) m j
Best-keep {sl} {n} {m} {j} b h = record {
  len = b.len;
  index = omega arith;
  most = most;
  first = b.first;
}
  where
    most : (i : ℕ) → i < n + 1 → get_length sl i ≤ m
    most i hi = elim (ℕ_discrete i n) [ yes e ↦ rw e h | no ne ↦ b.most i (omega arith) ]

Best-take :
    {sl : SlaveList} {n m j : ℕ}
    → Best sl n m j
    → m < get_length sl n
    → Best sl (n + 1) (get_length sl n) n
Best-take {sl} {n} {m} {j} b h = record {
  len = refl;
  index = omega arith;
  most = most;
  first = λ i hi. omega (arith, b.most i hi);
}
  where
    most : (i : ℕ) → i < n + 1 → get_length sl i ≤ get_length sl n
    most i hi = elim (ℕ_discrete i n) [
      | yes e ↦ rw e (omega arith)
      | no ne ↦ omega (arith, b.most i (omega arith))
    ]

Best-longest_from :
    (sl : SlaveList) (n i m j : ℕ) {t : ℕ}
    → Best sl i m j
    → i + n ≡ t
    → (m' : ℕ) × (j' : ℕ) × (longest_from sl n i (some (m, j)) ≡ some (m', j')) × Best sl t m' j'
unfolding longest_from longer
Best-longest_from sl zero i m j {t} b h = let e : i ≡ t = omega arith in (m, j, refl, rw (← e) b)
Best-longest_from sl (suc n) i m j b h = elim (Bool-cases (ltb m (get_length sl i))) [
  | inl p ↦ rw p (
      Best-longest_from sl n (i + 1) (get_length sl i) i
        (Best-take b ((ltb_iff m (get_length sl i)).0 p)) (omega arith))
  | inr p ↦ rw p (Best-longest_from sl n (i + 1) m j (Best-keep b (ground arith)) (omega arith))
]

Best-one : (sl : SlaveList) → Best sl 1 (get_length sl 0) 0
Best-one sl = record {
  len = refl;
  index = omega arith;
  most = most;
  first = λ i h. absurd (omega arith);
}
  where
    most : (i : ℕ) → i < 1 → get_length sl i ≤ get_length sl 0
    most zero h = omega arith
    most (suc i) h = absurd (omega arith)

longest_of :
    (sl : SlaveList)
    → 0 < sl.num
    → (m : ℕ) × (j : ℕ) × (longest_from sl sl.num 0 none ≡ some (m, j)) × Best sl sl.num m j
unfolding longest_from longer
longest_of sl h =
    let e : sl.num ≡ suc (sl.num - 1) = omega arith in
    let (m, j, f, b) =
      Best-longest_from sl (sl.num - 1) 1 (get_length sl 0) 0 {t = sl.num} (Best-one sl)
        (omega arith) in
    (m, j, go e f, b)
  where
    go :
        {n m j : ℕ}
        → sl.num ≡ suc n
        → longest_from sl n 1 (some (get_length sl 0, 0)) ≡ some (m, j)
        → longest_from sl sl.num 0 none ≡ some (m, j)
    go e f = ap (λ k. longest_from sl k 0 none) e ∙ f

Best-tie :
    {sl : SlaveList} {n m j : ℕ}
    → Best sl n m j
    → (i : ℕ) → (get_length sl i < get_length sl j) ⊎ (j ≤ i)
Best-tie {sl} {n} {m} {j} b i = elim (dec_lt i j) [
  | yes p ↦ inl (omega (arith, b.first i p, b.len))
  | no p ↦ inr (omega arith)
]

-- The section that FindLongestSection picks is as long as any, and longer than each before it.
pub find_longest_section_lem :
    (sl : SlaveList) (i : ℕ)
    → i < sl.num
    → (j : ℕ) × (find_longest_section sl ≡ some j)
      × (j < sl.num)
      × (get_length sl i ≤ get_length sl j)
      × ((get_length sl i < get_length sl j) ⊎ (j ≤ i))
unfolding find_longest_section
find_longest_section_lem sl i h =
    let (m, j, e, b) = longest_of sl (omega arith) in
    (j, rw e refl, b.index, omega (arith, b.most i h, b.len), Best-tie b i)

walk-le :
    (m z a : ℕ) (r : List ℕ)
    → ((i lo hi : ℕ) → get_elem? (arcs z a r) i ≡ some (lo, hi) → section lo hi ≤ m)
    → walk z a r ≤ suc (length r) * m
walk-le m z a [] h = omega (arith, h 0 a z refl)
walk-le m z a (x ∷ r) h =
    omega (arith, h 0 a x refl, walk-le m z x r (λ i lo hi e. h (suc i) lo hi e))

mul_le_mul_right : (n k m : ℕ) → n ≤ k → n * m ≤ k * m
mul_le_mul_right n k m h = grind arith

-- No section of a ring of at most `max_slave_num` slaves is the longest with fewer than 125 keys.
ring_longest :
    (ks : List ℕ) (m : ℕ)
    → IsRing ks
    → 0 < length ks
    → length ks ≤ max_slave_num
    → ((i lo hi : ℕ) → get_elem? (ring_arcs ks) i ≡ some (lo, hi) → section lo hi ≤ m)
    → 125 ≤ m
ring_longest [] m g h l all = absurd (omega arith)
ring_longest (a ∷ r) m g h l all =
    omega (arith, walk-le m a a r all, mul_le_mul_right (suc (length r)) max_slave_num m l)

sections-le :
    (sl : SlaveList) {m j : ℕ}
    → IsSized sl
    → Best sl sl.num m j
    → (i lo hi : ℕ) → get_elem? (ring_arcs (keys sl)) i ≡ some (lo, hi)
    → section lo hi ≤ m
unfolding get_length
sections-le sl v b i lo hi e = ground (arith, slave_arc sl i v in_use, b.most i in_use)
  where
    in_use : i < sl.num
    in_use = omega (
      arith,
      get_elem?-lt (ring_arcs (keys sl)) i e,
      length-ring_arcs (keys sl),
      length-keys sl v,
    )

-- So the longest section of a ring has room for another slave.
pub longest_section_splits :
    (sl : SlaveList) (j : ℕ)
    → IsSized sl
    → IsRing (keys sl)
    → 0 < sl.num
    → find_longest_section sl ≡ some j
    → (j < sl.num) × (125 ≤ get_length sl j)
unfolding find_longest_section
longest_section_splits sl j v g h e =
    let (m, j', f, b) = longest_of sl h in
    let same : j' ≡ j = ground (arith, f) in
    let long : 125 ≤ m =
      ring_longest (keys sl) m g (omega (arith, length-keys sl v)) (omega (arith, length-keys sl v))
        (sections-le sl v b) in
    rw (← same) (b.index, omega (arith, b.len))
