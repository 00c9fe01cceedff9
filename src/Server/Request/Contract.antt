-- ===== src/Server/Request/Contract.antt =====
-- What common/Database.h promises of the calls on records, to the server and to the client's users.
use distributed_db.Common.{ℕ, ◌≡◌, true, Option, none, some, ◌==◌, if◌then◌else◌}
use distributed_db.Server.Request.{Database}

-- `find` is the record under a key, in a state where the process has not been ended by an assertion
-- (`IsUp`). Without a disk error every SET succeeds, and a DEL of a record that is there.
pub record IsStore (api : Database) : Type 1 where
  pub IsUp : api.State → Type 0
  pub find : api.Db → api.State → ℕ → Option api.Text
  pub set :
      (db : api.Db) (key : ℕ) (value : api.Text) (s : api.State)
      → IsUp s
      → let (ok, s') = api.set_key_value db key value s in
        (ok ≡ true)
        × IsUp s'
        × ((j : ℕ) → find db s' j ≡ (if key == j then some value else find db s j))
  pub get :
      (db : api.Db) (key : ℕ) (s : api.State)
      → IsUp s
      → let (found, s') = api.get_key_value db key s in
        (found ≡ find db s key) × IsUp s' × ((j : ℕ) → find db s' j ≡ find db s j)
  pub del :
      (db : api.Db) (key : ℕ) (s : api.State)
      → IsUp s
      → let (ok, s') = api.del_key_value db key s in
        ((value : api.Text) → find db s key ≡ some value → ok ≡ true)
        × IsUp s'
        × ((j : ℕ) → find db s' j ≡ (if key == j then none else find db s j))
