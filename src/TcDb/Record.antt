-- ===== src/TcDb/Record.antt =====
-- DBSetKeyValue, DBGetKeyValue and DBDelKeyValue of server/tcDB.c on the records of an open
-- database.
use distributed_db.Common.{
  ℕ, ◌≡◌, refl, true, inl, inr, none, some, ◌==◌, ==_iff, if◌then◌else◌, Option-cases, Bool-cases,
}
use distributed_db.TcDb.{Tchdb, db_set_key_value, db_get_key_value, db_del_key_value}
use distributed_db.TcDb.Split.{Documented, is_some}

module _ (tc : Tchdb) (doc : Documented tc) where
  -- A value is stored: the call returns SUCCESS, the record is there, and no other differs.
  pub db_set_key_value_lem :
      (hdb : tc.Hdb) (key : ℕ) (value : tc.Value) (err : tc.Msg)
      → let (ok, hdb', err') = db_set_key_value tc hdb key value err in
        (ok ≡ true)
        × (err' ≡ err)
        × ((j : ℕ) → tc.get hdb' j ≡ (if key == j then some value else tc.get hdb j))
  unfolding db_set_key_value
  db_set_key_value_lem hdb key value err =
      let (hdb', e) = doc.put_total hdb key value in
      rw (e, db_set_key_value) (refl, refl, λ j. doc.get-put hdb hdb' key j value e)

  pub db_get_key_value_lem :
      (hdb : tc.Hdb) (key : ℕ) (err : tc.Msg) → (db_get_key_value tc hdb key err).0 ≡ tc.get hdb key
  unfolding db_get_key_value
  db_get_key_value_lem hdb key err = elim (Option-cases (tc.get hdb key)) [
    | inl e ↦ rw (e, db_get_key_value) refl
    | inr (v, e) ↦ rw (e, db_get_key_value) refl
  ]

  absent_out :
      (hdb : tc.Hdb) (key j : ℕ)
      → tc.get hdb key ≡ none
      → tc.get hdb j ≡ (if key == j then none else tc.get hdb j)
  absent_out hdb key j e = elim (Bool-cases (key == j)) [
    | inl same ↦ rw (same, ← (==_iff key j).0 same) e
    | inr other ↦ rw other refl
  ]

  -- A value is removed: the record is not there, and no other differs; the call returns SUCCESS if
  -- the record was there.
  pub db_del_key_value_lem :
      (hdb : tc.Hdb) (key : ℕ) (err : tc.Msg)
      → let (ok, hdb', err') = db_del_key_value tc hdb key err in
        (is_some (tc.get hdb key) ≡ true → ok ≡ true)
        × ((j : ℕ) → tc.get hdb' j ≡ (if key == j then none else tc.get hdb j))
  unfolding db_del_key_value
  db_del_key_value_lem hdb key err = elim (Option-cases (tc.out hdb key)) [
    | inr (hdb', e) ↦ rw (e, db_del_key_value) (λ p. refl, λ j. doc.get-out hdb hdb' key j e)
    | inl e ↦
        let absent : tc.get hdb key ≡ none = elim (Option-cases (tc.get hdb key)) [
          | inl n ↦ n
          | inr (v, there) ↦ let (hdb', f) = doc.out_total hdb key v there in cc (e, f)
        ] in
        rw (e, db_del_key_value) (λ p. cc (rw absent at p), λ j. absent_out hdb key j absent)
  ]
