-- ===== src/TcDb.antt =====
-- The data files of server/tcDB.c, over the Tokyo Cabinet hash database.
pub mod Split
pub mod Record
pub mod Registry
pub mod Api
use distributed_db.Common.{
  ℕ, zero, suc, ◌+◌, ◌≡◌, Bool, true, false, not, ◌&&◌, ◌||◌, List, [], ◌∷◌, Option, none, some,
  ◌>>=◌, ltb, leb, ◌==◌, if◌then◌else◌,
}

-- What the code relies on of Tokyo Cabinet. `new` is the database of a file that opening makes. A
-- value is a C string, stored with its end. `put` and `out` are none where the call fails and the
-- database stays as it was. `iterate` gives the keys that tchdbiterinit and as many calls of
-- tchdbiternext as there are records return: the library allows that records whose keys have been
-- fetched are removed meanwhile.
pub record Tchdb : Type 1 where
  pub Hdb : Type 0
  pub Value : Type 0
  pub Msg : Type 0
  pub new : Hdb
  pub get : Hdb → ℕ → Option Value
  pub put : Hdb → ℕ → Value → Option Hdb
  pub out : Hdb → ℕ → Option Hdb
  pub iterate : Hdb → Option (List ℕ)
  pub errmsg : Hdb → Msg

module _ (tc : Tchdb) where
  open tc use {Hdb, Value, Msg, get, put, out, iterate, errmsg}

  -- The result, the database, and the last error message.
  unfoldable pub db_set_key_value : Hdb → ℕ → Value → Msg → Bool × Hdb × Msg
  db_set_key_value hdb key value err = elim (put hdb key value) [
    | none ↦ (false, hdb, errmsg hdb)
    | some hdb' ↦ (true, hdb', err)
  ]

  pub db_get_key_value : Hdb → ℕ → Msg → Option Value × Msg
  db_get_key_value hdb key err = elim (get hdb key) [
    | none ↦ (none, errmsg hdb)
    | some value ↦ (some value, err)
  ]

  unfoldable pub db_del_key_value : Hdb → ℕ → Msg → Bool × Hdb × Msg
  db_del_key_value hdb key err = elim (out hdb key) [
    | none ↦ (false, hdb, errmsg hdb)
    | some hdb' ↦ (true, hdb', err)
  ]

  -- A call whose result is not looked at.
  abbrev kept : Hdb → Option Hdb → Hdb
  kept hdb none = hdb
  kept hdb (some hdb') = hdb'

  -- The body of both loops, for a key that is moved: from `src` to `dest`. `none` is a key that has
  -- no value, where strlen is called on NULL.
  move : ℕ → Hdb × Hdb → Option (Hdb × Hdb)
  move key (src, dest) = do
    value ← get src key
    some (kept src (out src key), kept dest (put dest key value))

  -- The test of SplitByKey.
  unfoldable pub in_range : ℕ → ℕ → ℕ → Bool
  in_range lower_bound upper_bound key =
      let bl = ltb lower_bound upper_bound in
      (bl && (ltb lower_bound key && leb key upper_bound))
      || (not bl && (ltb lower_bound key || leb key upper_bound))

  split_loop : ℕ → ℕ → List ℕ → Hdb × Hdb → Option (Hdb × Hdb)
  unfolding move in_range
  split_loop lower upper [] dbs = some dbs
  split_loop lower upper (key ∷ rest) dbs = do
    dbs' ← if in_range lower upper key then move key dbs else some dbs
    split_loop lower upper rest dbs'

  -- From the two open databases on; `none` too where the iterator cannot be set up, where the code
  -- returns FAILURE with the databases as they are.
  unfoldable pub split_by_key : ℕ → ℕ → Hdb × Hdb → Option (Hdb × Hdb)
  unfolding split_loop
  split_by_key lower upper dbs = do keys ← iterate dbs.0; split_loop lower upper keys dbs

  merge_loop : List ℕ → Hdb × Hdb → Option (Hdb × Hdb)
  unfolding move
  merge_loop [] dbs = some dbs
  merge_loop (key ∷ rest) dbs = do dbs' ← move key dbs; merge_loop rest dbs'

  pub merge_2_files : Hdb × Hdb → Option (Hdb × Hdb)
  unfolding merge_loop
  merge_2_files dbs = do keys ← iterate dbs.0; merge_loop keys dbs
