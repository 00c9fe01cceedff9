-- ===== src/TcDb/Split.antt =====
-- SplitByKey and Merge2Files move records, and lose none while the database calls succeed.
use distributed_db.Common.{
  ℕ, ◌≡◌, refl, sym, ap, ◌∙◌, inl, inr, Bool, true, false, ◌&&◌, ◌||◌, List, [], ◌∷◌, Option, none,
  some, ◌>>=◌, arith, ◌==◌, ==_iff, if◌then◌else◌, Bool-cases,
}
use mathlib.Core.Path.{fun_ext}
use distributed_db.TcDb.{Tchdb, move, in_range, split_loop, split_by_key, merge_loop, merge_2_files}

abbrev pub is_in : ℕ → List ℕ → Bool
is_in k [] = false
is_in k (x ∷ xs) = x == k || is_in k xs

-- No key twice.
abbrev pub Distinct : List ℕ → Type 0
Distinct [] = Unit {0}
Distinct (k ∷ ks) = (is_in k ks ≡ false) × Distinct ks

abbrev pub is_some {ℓ} : {A : Type ℓ} → Option A → Bool
is_some none = false
is_some (some a) = true

-- What the library documents of the calls, where no disk error stops one.
pub record Documented (tc : Tchdb) : Type 0 where
  pub get-new : (k : ℕ) → tc.get tc.new k ≡ none
  pub put_total : (d : tc.Hdb) (k : ℕ) (v : tc.Value) → (d' : tc.Hdb) × (tc.put d k v ≡ some d')
  pub get-put :
      (d d' : tc.Hdb) (k j : ℕ) (v : tc.Value)
      → tc.put d k v ≡ some d'
      → tc.get d' j ≡ (if k == j then some v else tc.get d j)
  pub out_total :
      (d : tc.Hdb) (k : ℕ) (v : tc.Value)
      → tc.get d k ≡ some v
      → (d' : tc.Hdb) × (tc.out d k ≡ some d')
  pub get-out :
      (d d' : tc.Hdb) (k j : ℕ)
      → tc.out d k ≡ some d'
      → tc.get d' j ≡ (if k == j then none else tc.get d j)
  pub iterate_total :
      (d : tc.Hdb)
      → (ks : List ℕ) × (tc.iterate d ≡ some ks)
        × Distinct ks
        × ((k : ℕ) → is_in k ks ≡ is_some (tc.get d k))

same_test : (test : ℕ → Bool) (key j : ℕ) → (key == j) ≡ true → test j ≡ test key
same_test test key j h = ap test (sym ((==_iff key j).0 h))

skipped :
    (key : ℕ) (rest : List ℕ) (test : ℕ → Bool) (j : ℕ)
    → test key ≡ false
    → ((key == j || is_in j rest) && test j) ≡ (is_in j rest && test j)
skipped key rest test j t = elim (Bool-cases (key == j)) [
  | inl h ↦ rw (h, same_test test key j h, t) (ground arith)
  | inr h ↦ rw h refl
]

absent :
    (key k : ℕ) (rest : List ℕ) → is_in key rest ≡ false → is_in k rest ≡ true → (key == k) ≡ false
absent key k rest d i = elim (Bool-cases (key == k)) [
  | inl h ↦ cc (d, i, (==_iff key k).0 h)
  | inr h ↦ h
]

module _ {A : Type 0} (key : ℕ) (rest : List ℕ) (test : ℕ → Bool) (j : ℕ) where
  -- What both databases hold under `j` after `key` and then the rest have been moved.
  src_at :
      (s : Option A) {s' s'' : Option A}
      → test key ≡ true
      → s'' ≡ (if is_in j rest && test j then none else s')
      → s' ≡ (if key == j then none else s)
      → s'' ≡ (if (key == j || is_in j rest) && test j then none else s)
  src_at s t e f = elim (Bool-cases (key == j)) [
    | inl h ↦ rw (e, f, h, same_test test key j h, t) (ground arith)
    | inr h ↦ rw (e, f, h) refl
  ]

  dest_at :
      (s d : Option A) {s' d' d'' : Option A}
      → test key ≡ true
      → is_in key rest ≡ false
      → d'' ≡ (if is_in j rest && test j then s' else d')
      → s' ≡ (if key == j then none else s)
      → d' ≡ (if key == j then s else d)
      → d'' ≡ (if (key == j || is_in j rest) && test j then s else d)
  dest_at s d t n e f g = elim (Bool-cases (key == j)) [
    | inl h ↦
        let out : is_in j rest ≡ false = rw (← (==_iff key j).0 h) n in
        rw (e, f, g, h, same_test test key j h, t, out) refl
    | inr h ↦ rw (e, f, g, h) refl
  ]

module _ (tc : Tchdb) (doc : Documented tc) where
  open tc use {Hdb, Value, get, put, out, iterate}

  -- A key with a value is moved, and nothing else changes.
  move_lem :
      (key : ℕ) (src dest : Hdb) (v : Value)
      → get src key ≡ some v
      → (src' : Hdb) × (dest' : Hdb) × (move tc key (src, dest) ≡ some (src', dest'))
        × ((j : ℕ) → get src' j ≡ (if key == j then none else get src j))
        × ((j : ℕ) → get dest' j ≡ (if key == j then get src j else get dest j))
  unfolding move
  move_lem key src dest v e =
      let (dest', p) = doc.put_total dest key v in
      let (src', o) = doc.out_total src key v e in
      (src', dest', rw (e, p, o) refl, (λ j. doc.get-out src src' key j o), (λ j. put_at dest' p j))
    where
      put_at :
          (dest' : Hdb)
          → put dest key v ≡ some dest'
          → (j : ℕ) → get dest' j ≡ (if key == j then get src j else get dest j)
      put_at dest' p j = elim (Bool-cases (key == j)) [
        | inl h ↦ rw (doc.get-put dest dest' key j v p, h) (sym (rw (← (==_iff key j).0 h) e))
        | inr h ↦ rw (doc.get-put dest dest' key j v p, h) refl
      ]

  -- The loop of both functions, for the keys that pass a test.
  loop : (ℕ → Bool) → List ℕ → Hdb × Hdb → Option (Hdb × Hdb)
  loop test [] dbs = some dbs
  loop test (key ∷ rest) dbs = do
    dbs' ← if test key then move tc key dbs else some dbs
    loop test rest dbs'

  record Moved (moves : ℕ → Bool) (src dest src' dest' : Hdb) : Type 0 where
    in_src : (j : ℕ) → get src' j ≡ (if moves j then none else get src j)
    in_dest : (j : ℕ) → get dest' j ≡ (if moves j then get src j else get dest j)

  has_value : (o : Option Value) → is_some o ≡ true → (v : Value) × (o ≡ some v)
  has_value none h = cc
  has_value (some v) h = (v, refl)

  loop-Moved :
      (test : ℕ → Bool) (ks : List ℕ) (src dest : Hdb)
      → Distinct ks
      → ((k : ℕ) → is_in k ks ≡ true → is_some (get src k) ≡ true)
      → (src' : Hdb) × (dest' : Hdb) × (loop test ks (src, dest) ≡ some (src', dest'))
        × Moved (λ j. is_in j ks && test j) src dest src' dest'
  unfolding loop
  loop-Moved test [] src dest d h =
      (src, dest, refl, record { in_src = λ j. refl; in_dest = λ j. refl })
  loop-Moved test (key ∷ rest) src dest d h = elim (Bool-cases (test key)) [
    | inl t ↦
        let (v, e) = has_value (get src key) (h key (ground arith)) in
        let (src', dest', m, s, r) = move_lem key src dest v e in
        let (src'', dest'', l, w) =
          loop-Moved test rest src' dest' d.1
            (λ k i. rw (s k, absent key k rest d.0 i) (h k (rw (absent key k rest d.0 i) i))) in
        (
          src'',
          dest'',
          rw (t, m) l,
          record {
            in_src = λ j. src_at key rest test j (get src j) t (w.in_src j) (s j);
            in_dest = λ j.
                dest_at key rest test j (get src j) (get dest j) t d.0 (w.in_dest j) (s j) (r j);
          },
        )
    | inr t ↦
        let (src', dest', l, w) =
          loop-Moved test rest src dest d.1 (λ k i. h k (ground (arith, i))) in
        (
          src',
          dest',
          rw t l,
          record {
            in_src = λ j. rw (w.in_src j, skipped key rest test j t) refl;
            in_dest = λ j. rw (w.in_dest j, skipped key rest test j t) refl;
          },
        )
  ]

  split_loop-eq-loop :
      (lower upper : ℕ) (ks : List ℕ) (dbs : Hdb × Hdb)
      → split_loop tc lower upper ks dbs ≡ loop (in_range tc lower upper) ks dbs
  unfolding split_loop loop
  split_loop-eq-loop lower upper [] dbs = refl
  split_loop-eq-loop lower upper (key ∷ rest) dbs =
      ap (λ f. (if in_range tc lower upper key then move tc key dbs else some dbs) >>= f)
        (fun_ext (λ dbs'. split_loop-eq-loop lower upper rest dbs'))

  merge_loop-eq-loop :
      (ks : List ℕ) (dbs : Hdb × Hdb) → merge_loop tc ks dbs ≡ loop (λ k. true) ks dbs
  unfolding merge_loop loop
  merge_loop-eq-loop [] dbs = refl
  merge_loop-eq-loop (key ∷ rest) dbs =
      ap (λ f. move tc key dbs >>= f) (fun_ext (λ dbs'. merge_loop-eq-loop rest dbs'))

  drop_absent :
      (o d : Option Value) (b : Bool)
      → (if is_some o && b then none else o) ≡ (if b then none else o)
  drop_absent none d true = refl
  drop_absent none d false = refl
  drop_absent (some v) d b = refl

  -- SplitByKey goes through, takes the records in the range out of the source, and puts each into
  -- the destination, over a record that may be there; no other record changes.
  pub split_by_key_lem :
      (lower upper key : ℕ) (src dest : Hdb)
      → (src' : Hdb) × (dest' : Hdb) × (split_by_key tc lower upper (src, dest)
          ≡ some (src', dest'))
        × (get src' key ≡ (if in_range tc lower upper key then none else get src key))
        × (get dest' key ≡ (
            if is_some (get src key) && in_range tc lower upper key
            then get src key
            else get dest key))
  unfolding split_by_key
  split_by_key_lem lower upper key src dest =
      let (ks, e, d, listed) = doc.iterate_total src in
      let (src', dest', l, w) =
        loop-Moved (in_range tc lower upper) ks src dest d (λ k i. sym (listed k) ∙ i) in
      (
        src',
        dest',
        rw (e, split_loop-eq-loop lower upper ks (src, dest)) l,
        w.in_src key
            ∙ rw (listed key)
                (drop_absent (get src key) (get dest key) (in_range tc lower upper key)),
        w.in_dest key ∙ rw (listed key) refl,
      )

  -- Merge2Files goes through, empties the source, and puts each of its records into the
  -- destination, over a record that may be there; no other record changes.
  pub merge_2_files_lem :
      (key : ℕ) (src dest : Hdb)
      → (src' : Hdb) × (dest' : Hdb) × (merge_2_files tc (src, dest) ≡ some (src', dest'))
        × (get src' key ≡ none)
        × (get dest' key ≡ (if is_some (get src key) then get src key else get dest key))
  unfolding merge_2_files
  merge_2_files_lem key src dest =
      let (ks, e, d, listed) = doc.iterate_total src in
      let (src', dest', l, w) = loop-Moved (λ k. true) ks src dest d (λ k i. sym (listed k) ∙ i) in
      (
        src',
        dest',
        rw (e, merge_loop-eq-loop ks (src, dest)) l,
        w.in_src key ∙ rw (listed key) (drop_absent (get src key) (get dest key) true ∙ refl),
        w.in_dest key ∙ rw (listed key) (ground arith),
      )
