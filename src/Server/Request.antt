-- ===== src/Server/Request.antt =====
-- HandleDBRequest of server/HandleRequest.c: what a worker thread does with one message.
pub mod Reply
pub mod Contract
pub mod Stores
pub mod Users
use distributed_db.Common.{ℕ, Bool, true, false, Option, none, some, ◌>>=◌}
use distributed_db.Protocol.Cmd.{Cmd, code}

-- common/Database.h, as server/tcDB.c implements it over its globals, the `State`. `create` fails
-- with no database, the others with false or none.
pub record Database : Type 1 where
  pub State : Type 0
  pub Db : Type 0
  pub Text : Type 0
  pub create : Text → State → Option Db × State
  pub delete : Db → State → Bool × State
  pub set_key_value : Db → ℕ → Text → State → Bool × State
  pub get_key_value : Db → ℕ → State → Option Text × State
  pub del_key_value : Db → ℕ → State → Bool × State
  pub last_error : State → Text
  pub with_tilde : Text → Text

module _ (api : Database) where
  open api use {
    State, Db, Text, create, delete, set_key_value, get_key_value, del_key_value, last_error,
    with_tilde,
  }

  -- The message that a worker takes from the queue, and `app` of its connection.
  pub record Request : Type 0 where
    pub cmd : Cmd
    pub key : ℕ
    pub text : Text
    pub app : Option Db

  -- What one round of the loop does: the command of the reply, what is appended to it, the `app`
  -- that goes back to the connection, whether the connection is closed, and the new `file_master` and
  -- `file_tmp`, where they are set.
  pub record Outcome : Type 0 where
    pub cmd : Cmd
    pub text : Option Text
    pub app : Option Db
    pub stops : Bool
    pub state : State
    pub files : Option (Text × Text)

  -- After the switch, with `sendhd.cmd` as it then is. `found` is what GET has found.
  finish : Cmd → Option Text → Option Db → State → Outcome
  finish Cmd.cmd_fail found app s = record {
    cmd = Cmd.cmd_fail;
    text = some (last_error s);
    app = app;
    stops = false;
    state = s;
    files = none;
  }
  finish Cmd.get_r found app s = record {
    cmd = Cmd.get_r;
    text = found;
    app = app;
    stops = false;
    state = s;
    files = none;
  }
  finish Cmd.close_r found app s = record {
    cmd = Cmd.close_r;
    text = none;
    app = app;
    stops = true;
    state = s;
    files = none;
  }
  finish cmd found app s = record {
    cmd = cmd;
    text = none;
    app = app;
    stops = false;
    state = s;
    files = none;
  }

  on_flag : Cmd → Db → Bool × State → Outcome
  unfolding finish
  on_flag done app (true, s) = finish done none (some app) s
  on_flag done app (false, s) = finish Cmd.cmd_fail none (some app) s

  on_found : Db → Option Text × State → Outcome
  unfolding finish
  on_found app (some v, s) = finish Cmd.get_r (some v) (some app) s
  on_found app (none, s) = finish Cmd.cmd_fail none (some app) s

  on_created : Text → Option Db × State → Outcome
  unfolding finish
  on_created name (some db, s) = record (finish Cmd.open_r none (some db) s) {
    files = some (name, with_tilde name);
  }
  on_created name (none, s) = record (finish Cmd.cmd_fail none none s) {
    files = some (name, with_tilde name);
  }

  -- `last` is `sendhd.cmd` of the round before, which an unknown command leaves in the reply. The
  -- text of a GET_R that is sent so is memory that was freed; here it is none. `none` is a connection
  -- with no database, where the code reads through a pointer that is NULL or not set.
  switch : Cmd → Cmd → Request → State → Option Outcome
  unfolding on_flag on_found on_created finish
  switch Cmd.open_db last r s = some (on_created r.text (create r.text s))
  switch Cmd.close last r s = do app ← r.app; some (on_flag Cmd.close_r app (delete app s))
  switch Cmd.set last r s = do
    app ← r.app
    some (on_flag Cmd.set_r app (set_key_value app r.key r.text s))
  switch Cmd.get last r s = do app ← r.app; some (on_found app (get_key_value app r.key s))
  switch Cmd.del last r s = do app ← r.app; some (on_flag Cmd.del_r app (del_key_value app r.key s))
  switch cmd last r s = some (finish last none r.app s)

  unfoldable pub handle_db_request : Cmd → Request → State → Option Outcome
  unfolding switch
  handle_db_request last r s = switch r.cmd last r s
