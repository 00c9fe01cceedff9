-- ===== src/Server/Request/Reply.antt =====
-- Every reply tells how its request went.
use distributed_db.Common.{
  ◌≡◌, ◌≢◌, refl, ◌>>=◌, ◌⊎◌, inl, inr, Bool, true, false, Option, none, some, arith,
}
use distributed_db.Protocol.Cmd.{Cmd}
use distributed_db.Server.Request.{
  Database, Request, Outcome, on_flag, on_found, on_created, switch, handle_db_request,
}

-- The database commands of a client.
pub data IsDbCommand : Cmd → Cmd → Type 0 where
  opens : IsDbCommand Cmd.open_db Cmd.open_r
  closes : IsDbCommand Cmd.close Cmd.close_r
  sets : IsDbCommand Cmd.set Cmd.set_r
  gets : IsDbCommand Cmd.get Cmd.get_r
  dels : IsDbCommand Cmd.del Cmd.del_r

module _ (api : Database) where
  open api use {
    State, Db, Text, last_error, create, delete, set_key_value, get_key_value, del_key_value,
  }

  -- What the reply to a command may be: its own reply code, or CMDFAIL with the last error.
  abbrev pub Answers : Cmd → Outcome api → Type 0
  Answers done o = (o.cmd ≡ done) ⊎ ((o.cmd ≡ Cmd.cmd_fail) × (o.text ≡ some (last_error o.state)))

  -- The connection stays open, or the command was CLOSE and it went well.
  abbrev pub StaysOpen : Cmd → Outcome api → Type 0
  StaysOpen cmd o = (o.stops ≡ false) ⊎ ((cmd ≡ Cmd.close) × (o.cmd ≡ Cmd.close_r))

  -- The connection has a database, unless the request is to open one.
  abbrev pub HasDb : Cmd → Option Db → Type 0
  HasDb cmd app = (cmd ≡ Cmd.open_db) ⊎ ((db : Db) × (app ≡ some db))

  -- The outcome goes through and answers the command.
  abbrev Answered : Cmd → Cmd → Option (Outcome api) → Type 0
  Answered cmd done res = (o : Outcome api) × (res ≡ some o) × Answers done o × StaysOpen cmd o

  -- What a flag makes of a command other than CLOSE.
  set_reply :
      (app : Db) (res : Bool × State)
      → Answers Cmd.set_r (on_flag api Cmd.set_r app res)
        × ((on_flag api Cmd.set_r app res).stops ≡ false)
  unfolding on_flag
  set_reply app (true, s) = (inl refl, refl)
  set_reply app (false, s) = (inr (refl, refl), refl)

  del_reply :
      (app : Db) (res : Bool × State)
      → Answers Cmd.del_r (on_flag api Cmd.del_r app res)
        × ((on_flag api Cmd.del_r app res).stops ≡ false)
  unfolding on_flag
  del_reply app (true, s) = (inl refl, refl)
  del_reply app (false, s) = (inr (refl, refl), refl)

  close_reply :
      (app : Db) (res : Bool × State)
      → Answers Cmd.close_r (on_flag api Cmd.close_r app res)
        × (((on_flag api Cmd.close_r app res).stops ≡ false)
            ⊎ ((on_flag api Cmd.close_r app res).cmd ≡ Cmd.close_r))
  unfolding on_flag
  close_reply app (true, s) = (inl refl, inr refl)
  close_reply app (false, s) = (inr (refl, refl), inl refl)

  get_reply :
      (app : Db) (res : Option Text × State)
      → Answers Cmd.get_r (on_found api app res) × ((on_found api app res).stops ≡ false)
  unfolding on_found
  get_reply app (some v, s) = (inl refl, refl)
  get_reply app (none, s) = (inr (refl, refl), refl)

  open_reply :
      (name : Text) (res : Option Db × State)
      → Answers Cmd.open_r (on_created api name res) × ((on_created api name res).stops ≡ false)
  unfolding on_created
  open_reply name (some db, s) = (inl refl, refl)
  open_reply name (none, s) = (inr (refl, refl), refl)

  -- A command for the database of the connection.
  on_db :
      (cmd done : Cmd) (app : Option Db) (f : Db → Outcome api)
      → cmd ≢ Cmd.open_db
      → HasDb cmd app
      → ((db : Db) → Answers done (f db) × StaysOpen cmd (f db))
      → Answered cmd done (do db ← app; some (f db))
  on_db cmd done app f n (inl e) h = absurd (n e)
  on_db cmd done app f n (inr (db, e)) h = let (p, q) = h db in (f db, rw e refl, p, q)

  stays : {P Q : Type 0} (b : Bool) → P × (b ≡ false) → P × ((b ≡ false) ⊎ Q)
  stays b (p, q) = (p, inl q)

  switch-Answers :
      (cmd last : Cmd) (r : Request api) (s : State) {done : Cmd}
      → IsDbCommand cmd done
      → HasDb cmd r.app
      → Answered cmd done (switch api cmd last r s)
  unfolding switch
  switch-Answers cmd last r s opens h =
      let (p, q) = open_reply r.text (create r.text s) in
      (on_created api r.text (create r.text s), refl, p, inl q)
  switch-Answers cmd last r s closes h =
      on_db Cmd.close Cmd.close_r r.app (λ db. on_flag api Cmd.close_r db (delete db s)) (λ e. cc e)
        h (λ db. ground (arith, close_reply db (delete db s)))
  switch-Answers cmd last r s sets h =
      on_db Cmd.set Cmd.set_r r.app
        (λ db. on_flag api Cmd.set_r db (set_key_value db r.key r.text s)) (λ e. cc e) h
        (λ db. stays _ (set_reply db (set_key_value db r.key r.text s)))
  switch-Answers cmd last r s gets h =
      on_db Cmd.get Cmd.get_r r.app (λ db. on_found api db (get_key_value db r.key s)) (λ e. cc e) h
        (λ db. stays _ (get_reply db (get_key_value db r.key s)))
  switch-Answers cmd last r s dels h =
      on_db Cmd.del Cmd.del_r r.app (λ db. on_flag api Cmd.del_r db (del_key_value db r.key s))
        (λ e. cc e) h (λ db. stays _ (del_reply db (del_key_value db r.key s)))

  -- A database command on a connection that has a database, or that opens one, is answered by its
  -- own reply, or by CMDFAIL with the last error message, whatever was answered before; and the
  -- connection is closed only after a CLOSE that went well.
  pub handle_db_request-Answers :
      (last : Cmd) (r : Request api) (s : State) {done : Cmd}
      → IsDbCommand r.cmd done
      → HasDb r.cmd r.app
      → (o : Outcome api) × (handle_db_request api last r s ≡ some o)
        × Answers done o
        × StaysOpen r.cmd o
  unfolding handle_db_request
  handle_db_request-Answers last r s w h = switch-Answers r.cmd last r s w h
