-- ===== src/Common/Lists.antt =====
-- C arrays as lists with native indices, and the edits of a list that the array loops amount to.
use Prim.Native.Nat.{ℕ, zero, suc, ◌+◌, ◌-◌, ◌≤◌, ◌<◌}
use mathlib.Core.Path.{◌≡◌, refl, ap}
use mathlib.Core.List.{List, [], ◌∷◌, ◌++◌, map}
use mathlib.Core.Option.{Option, none, some}
use native.Mathlib.Omega.{arith}
use distributed_db.Common.Tests.{ltb, ◌==◌, if◌then◌else◌, ◌>>=◌}

module _ {ℓ} {A : Type ℓ} where
  abbrev pub length : List A → ℕ
  length [] = 0
  length (x ∷ xs) = suc (length xs)

  abbrev pub get_elem? : List A → ℕ → Option A
  get_elem? [] i = none
  get_elem? (x ∷ xs) zero = some x
  get_elem? (x ∷ xs) (suc i) = get_elem? xs i

  abbrev pub get_or : List A → ℕ → A → A
  get_or [] i d = d
  get_or (x ∷ xs) zero d = x
  get_or (x ∷ xs) (suc i) d = get_or xs i d

  abbrev pub set : List A → ℕ → A → List A
  set [] i v = []
  set (x ∷ xs) zero v = v ∷ xs
  set (x ∷ xs) (suc i) v = x ∷ set xs i v

  abbrev pub take : ℕ → List A → List A
  take zero xs = []
  take (suc n) [] = []
  take (suc n) (x ∷ xs) = x ∷ take n xs

  abbrev pub drop : ℕ → List A → List A
  drop zero xs = xs
  drop (suc n) [] = []
  drop (suc n) (x ∷ xs) = drop n xs

  -- `v` before the entry at `i`; past the end, after the last entry.
  abbrev pub insert_at : ℕ → A → List A → List A
  insert_at zero v xs = v ∷ xs
  insert_at (suc i) v [] = v ∷ []
  insert_at (suc i) v (x ∷ xs) = x ∷ insert_at i v xs

  abbrev pub remove_at : ℕ → List A → List A
  remove_at i [] = []
  remove_at zero (x ∷ xs) = xs
  remove_at (suc i) (x ∷ xs) = x ∷ remove_at i xs

module _ {ℓ} {A : Type ℓ} where
  pub length-set : (xs : List A) (i : ℕ) (v : A) → length (set xs i v) ≡ length xs
  length-set [] i v = refl
  length-set (x ∷ xs) zero v = refl
  length-set (x ∷ xs) (suc i) v = ap suc (length-set xs i v)

  pub length-append : (xs ys : List A) → length (xs ++ ys) ≡ length xs + length ys
  length-append [] ys = omega arith
  length-append (x ∷ xs) ys = omega (arith, length-append xs ys)

  pub length-map {κ} : {B : Type κ} (f : A → B) (xs : List A) → length (map f xs) ≡ length xs
  length-map f [] = refl
  length-map f (x ∷ xs) = ap suc (length-map f xs)

  pub length-take : (n : ℕ) (xs : List A) → n ≤ length xs → length (take n xs) ≡ n
  length-take zero xs h = refl
  length-take (suc n) [] h = absurd (omega arith)
  length-take (suc n) (x ∷ xs) h = ap suc (length-take n xs (omega arith))

  pub take-drop : (n : ℕ) (xs : List A) → take n xs ++ drop n xs ≡ xs
  take-drop zero xs = refl
  take-drop (suc n) [] = refl
  take-drop (suc n) (x ∷ xs) = ap (λ r. x ∷ r) (take-drop n xs)

  pub length-drop : (n : ℕ) (xs : List A) → length (drop n xs) ≡ length xs - n
  length-drop zero xs = omega arith
  length-drop (suc n) [] = omega arith
  length-drop (suc n) (x ∷ xs) = omega (arith, length-drop n xs)

  -- A read in the array, after a write in it.
  pub get_elem?-set :
      (xs : List A) (i j : ℕ) (v : A)
      → i < length xs
      → get_elem? (set xs i v) j ≡ (if i == j then some v else get_elem? xs j)
  get_elem?-set [] i j v h = absurd (omega arith)
  get_elem?-set (x ∷ xs) zero zero v h = refl
  get_elem?-set (x ∷ xs) zero (suc j) v h = ground arith
  get_elem?-set (x ∷ xs) (suc i) zero v h = ground arith
  get_elem?-set (x ∷ xs) (suc i) (suc j) v h = ground (arith, get_elem?-set xs i j v)

  pub get_or-set :
      (xs : List A) (i j : ℕ) (v d : A)
      → i < length xs
      → get_or (set xs i v) j d ≡ (if i == j then v else get_or xs j d)
  get_or-set [] i j v d h = absurd (omega arith)
  get_or-set (x ∷ xs) zero zero v d h = refl
  get_or-set (x ∷ xs) zero (suc j) v d h = ground arith
  get_or-set (x ∷ xs) (suc i) zero v d h = ground arith
  get_or-set (x ∷ xs) (suc i) (suc j) v d h = ground (arith, get_or-set xs i j v d)

  pub get_elem?-eq-get_or :
      (xs : List A) (i : ℕ) (d : A) → i < length xs → get_elem? xs i ≡ some (get_or xs i d)
  get_elem?-eq-get_or [] i d h = absurd (omega arith)
  get_elem?-eq-get_or (x ∷ xs) zero d h = refl
  get_elem?-eq-get_or (x ∷ xs) (suc i) d h = get_elem?-eq-get_or xs i d (omega arith)

  pub get_elem?-take :
      (n : ℕ) (xs : List A) (i : ℕ)
      → get_elem? (take n xs) i ≡ (if ltb i n then get_elem? xs i else none)
  get_elem?-take zero xs i = ground arith
  get_elem?-take (suc n) [] i = ground arith
  get_elem?-take (suc n) (x ∷ xs) zero = ground arith
  get_elem?-take (suc n) (x ∷ xs) (suc i) = ground (arith, get_elem?-take n xs i)

  pub get_elem?-insert_at :
      (p : ℕ) (v : A) (xs : List A) (i : ℕ)
      → p ≤ length xs
      → get_elem? (insert_at p v xs) i
        ≡ (if ltb i p then get_elem? xs i else if i == p then some v else get_elem? xs (i - 1))
  get_elem?-insert_at zero v xs zero h = ground arith
  get_elem?-insert_at zero v xs (suc i) h = ground (arith, ap (get_elem? xs) (pred_suc i))
    where
      pred_suc : (k : ℕ) → suc k - 1 ≡ k
      pred_suc k = omega arith
  get_elem?-insert_at (suc p) v [] i h = absurd (omega arith)
  get_elem?-insert_at (suc p) v (x ∷ xs) zero h = ground arith
  get_elem?-insert_at (suc p) v (x ∷ xs) (suc zero) h =
      ground (arith, get_elem?-insert_at p v xs zero)
  get_elem?-insert_at (suc p) v (x ∷ xs) (suc (suc i)) h = ground (
    arith,
    get_elem?-insert_at p v xs (suc i),
    ap (get_elem? xs) (pred_suc i),
    ap (get_elem? (x ∷ xs)) (pred_suc (suc i)),
  )
    where
      pred_suc : (k : ℕ) → suc k - 1 ≡ k
      pred_suc k = omega arith

  pub get_elem?-remove_at :
      (p : ℕ) (xs : List A) (i : ℕ)
      → get_elem? (remove_at p xs) i ≡ (if ltb i p then get_elem? xs i else get_elem? xs (suc i))
  get_elem?-remove_at p [] i = ground arith
  get_elem?-remove_at zero (x ∷ xs) i = ground arith
  get_elem?-remove_at (suc p) (x ∷ xs) zero = ground arith
  get_elem?-remove_at (suc p) (x ∷ xs) (suc i) = ground (arith, get_elem?-remove_at p xs i)

  -- Two lists that agree at every index are one.
  pub list_ext : (xs ys : List A) → ((i : ℕ) → get_elem? xs i ≡ get_elem? ys i) → xs ≡ ys
  list_ext [] [] h = refl
  list_ext [] (y ∷ ys) h = cc (h 0)
  list_ext (x ∷ xs) [] h = cc (h 0)
  list_ext (x ∷ xs) (y ∷ ys) h = cc (h 0, list_ext xs ys (λ i. h (suc i)))

  pub drop-get_elem? :
      (xs : List A) (i : ℕ) {x : A} → get_elem? xs i ≡ some x → drop i xs ≡ x ∷ drop (suc i) xs
  drop-get_elem? [] i e = cc
  drop-get_elem? (y ∷ xs) zero e = cc
  drop-get_elem? (y ∷ xs) (suc i) e = drop-get_elem? xs i e

  pub drop_all : (xs : List A) (i : ℕ) → length xs ≤ i → drop i xs ≡ []
  drop_all [] zero h = refl
  drop_all [] (suc i) h = refl
  drop_all (x ∷ xs) zero h = absurd (omega arith)
  drop_all (x ∷ xs) (suc i) h = drop_all xs i (omega arith)

  pub get_elem?-lt : (xs : List A) (i : ℕ) {x : A} → get_elem? xs i ≡ some x → i < length xs
  get_elem?-lt [] i e = cc
  get_elem?-lt (y ∷ xs) zero e = omega arith
  get_elem?-lt (y ∷ xs) (suc i) e = omega (arith, get_elem?-lt xs i e)

  pub map-insert_at {κ} :
      {B : Type κ} (f : A → B) (p : ℕ) (v : A) (xs : List A)
      → map f (insert_at p v xs) ≡ insert_at p (f v) (map f xs)
  map-insert_at f zero v xs = refl
  map-insert_at f (suc p) v [] = refl
  map-insert_at f (suc p) v (x ∷ xs) = ap (λ r. f x ∷ r) (map-insert_at f p v xs)

  pub map-remove_at {κ} :
      {B : Type κ} (f : A → B) (p : ℕ) (xs : List A)
      → map f (remove_at p xs) ≡ remove_at p (map f xs)
  map-remove_at f p [] = refl
  map-remove_at f zero (x ∷ xs) = refl
  map-remove_at f (suc p) (x ∷ xs) = ap (λ r. f x ∷ r) (map-remove_at f p xs)

  abbrev pub replicate : ℕ → A → List A
  replicate zero a = []
  replicate (suc n) a = a ∷ replicate n a

-- The steps of a do block that goes through.
pub bind-some {ℓ κ} :
    {A : Type ℓ} {B : Type κ} (o : Option A) (f : A → Option B) {r : B}
    → (o >>= f) ≡ some r
    → (a : A) × (o ≡ some a) × (f a ≡ some r)
bind-some none f e = cc e
bind-some (some a) f e = (a, refl, e)
