-- ===== src/Tests/Store.antt =====
-- The data files over a database that is a list of records, the newest first.
use distributed_db.Common.{
  ℕ, ◌+◌, ◌%◌, ◌≡◌, refl, sym, inl, inr, true, not, ◌&&◌, List, [], ◌∷◌, Option, none, some, arith,
  ◌==◌, Bool-cases, Option-cases, if◌then◌else◌,
}
use distributed_db.TcDb.{Tchdb, in_range, split_by_key, merge_2_files}
use distributed_db.TcDb.Split.{
  is_in, Distinct, is_some, Documented, split_by_key_lem, merge_2_files_lem,
}
use distributed_db.Slave.{clip_data, update_backup2}
use distributed_db.Slave.Clip.{goes_to, clip_data-get_socket, update_backup2-get_socket}
use distributed_db.Tests.Ring.{two, two-IsSized, two-IsRing}

abbrev pub Records : Type 0
Records = List (ℕ × ℕ)

abbrev pub find : Records → ℕ → Option ℕ
find [] k = none
find ((key, value) ∷ rest) k = if key == k then some value else find rest k

abbrev without : ℕ → Records → Records
without k [] = []
without k ((key, value) ∷ rest) =
    let rest' = without k rest in if key == k then rest' else (key, value) ∷ rest'

abbrev drop_key : ℕ → List ℕ → List ℕ
drop_key k [] = []
drop_key k (key ∷ rest) = let rest' = drop_key k rest in if key == k then rest' else key ∷ rest'

abbrev keys_of : Records → List ℕ
keys_of [] = []
keys_of ((key, value) ∷ rest) = key ∷ drop_key key (keys_of rest)

abbrev pub table : Tchdb
table = record {
  Hdb = Records;
  Value = ℕ;
  Msg = ℕ;
  new = [];
  get = find;
  put = λ d k v. some ((k, v) ∷ d);
  out = λ d k. if is_some (find d k) then some (without k d) else none;
  iterate = λ d. some (keys_of d);
  errmsg = λ d. 0;
}

find-without : (d : Records) (k j : ℕ) → find (without k d) j ≡ (if k == j then none else find d j)
find-without [] k j = ground arith
find-without ((key, value) ∷ rest) k j = ground (arith, find-without rest k j)

is_in-drop_key : (ks : List ℕ) (k j : ℕ) → is_in j (drop_key k ks) ≡ (not (k == j) && is_in j ks)
is_in-drop_key [] k j = ground arith
is_in-drop_key (key ∷ rest) k j = ground (arith, is_in-drop_key rest k j)

drop_key-Distinct : (ks : List ℕ) (k : ℕ) → Distinct ks → Distinct (drop_key k ks)
drop_key-Distinct [] k d = tt
drop_key-Distinct (key ∷ rest) k d = elim (Bool-cases (key == k)) [
  | inl h ↦ rw h (drop_key-Distinct rest k d.1)
  | inr h ↦ rw h (rw (is_in-drop_key rest k key, d.0) (ground arith), drop_key-Distinct rest k d.1)
]

keys_of-Distinct : (d : Records) → Distinct (keys_of d)
keys_of-Distinct [] = tt
keys_of-Distinct ((key, value) ∷ rest) = (
  rw (is_in-drop_key (keys_of rest) key key) (ground arith),
  drop_key-Distinct (keys_of rest) key (keys_of-Distinct rest),
)

is_in-keys_of : (d : Records) (k : ℕ) → is_in k (keys_of d) ≡ is_some (find d k)
is_in-keys_of [] k = refl
is_in-keys_of ((key, value) ∷ rest) k =
    rw (is_in-drop_key (keys_of rest) key k) (ground (arith, is_in-keys_of rest k))

table-get-out :
    (d d' : Records) (k j : ℕ)
    → table.out d k ≡ some d'
    → find d' j ≡ (if k == j then none else find d j)
table-get-out d d' k j h = elim (Option-cases (find d k)) [
  | inl e ↦ cc (rw e at h)
  | inr (v, e) ↦ ground (arith, find-without d k j, rw e at h)
]

pub table-Documented : Documented table
table-Documented = record {
  get-new = λ k. refl;
  put_total = λ d k v. ((k, v) ∷ d, refl);
  get-put = λ d d' k j v h. ground (arith, sym h);
  out_total = λ d k v h. (without k d, rw h refl);
  get-out = table-get-out;
  iterate_total = λ d. (keys_of d, refl, keys_of-Distinct d, is_in-keys_of d);
}

abbrev old : Records
old = (100, 4) ∷ (2000, 5) ∷ (3000, 6) ∷ []

abbrev new : Records
new = (2000, 9) ∷ (1, 1) ∷ []

split_run :
    split_by_key table 100 2500 (old, new) ≡ some ((100, 4) ∷ (3000, 6) ∷ [], (2000, 5) ∷ new)
unfolding split_by_key
split_run = refl

split_by_key_lem_example :
    (src' : Records) × (dest' : Records) × (split_by_key table 100 2500 (old, new)
      ≡ some (src', dest'))
    × (find src' 2000 ≡ (if in_range table 100 2500 2000 then none else some 5))
    × (find dest' 2000 ≡ (if true && in_range table 100 2500 2000 then some 5 else some 9))
split_by_key_lem_example = split_by_key_lem table table-Documented 100 2500 2000 old new

merge_2_files_lem_example :
    (src' : Records) × (dest' : Records) × (merge_2_files table (old, new) ≡ some (src', dest'))
    × (find src' 2000 ≡ none)
    × (find dest' 2000 ≡ (if true then some 5 else some 9))
merge_2_files_lem_example = merge_2_files_lem table table-Documented 2000 old new

clip_data-get_socket_example :
    (src' : Records) × (dest' : Records) × (clip_data table two 1 (old, new) ≡ some (src', dest'))
    × (find src' 2000 ≡ (if goes_to two ((1 + 1) % 2) 2000 then none else some 5))
    × (find dest' 2000 ≡ (if true && goes_to two ((1 + 1) % 2) 2000 then some 5 else some 9))
clip_data-get_socket_example =
    clip_data-get_socket table two 1 2000 old new table-Documented two-IsSized two-IsRing
      (omega arith) (omega arith)

update_backup2-get_socket_example :
    (src' : Records) × (dest' : Records) × (update_backup2 table two 0 (old, new)
      ≡ some (src', dest'))
    × (find src' 2000 ≡ (if goes_to two ((0 + 2) % 2) 2000 then none else some 5))
    × (find dest' 2000 ≡ (if true && goes_to two ((0 + 2) % 2) 2000 then some 5 else some 9))
update_backup2-get_socket_example =
    update_backup2-get_socket table two 0 2000 old new table-Documented two-IsSized two-IsRing
      (omega arith) (omega arith)
