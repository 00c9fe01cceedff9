-- ===== src/Server/Request/Stores.antt =====
-- What a SET and a GET come to, when the database keeps its contract.
use distributed_db.Common.{
  ℕ, ◌≡◌, refl, ◌∙◌, Bool, true, false, Option, none, some, ◌==◌, if◌then◌else◌,
}
use distributed_db.Protocol.Cmd.{Cmd}
use distributed_db.Server.Request.{
  Database, Request, Outcome, on_flag, on_found, on_created, switch, handle_db_request,
}
use distributed_db.Server.Request.Contract.{IsStore}

module _ (api : Database) (store : IsStore api) where
  -- What a SET of a value does.
  pub set_outcome :
      (last : Cmd) (r : Request api) (db : api.Db) (s : api.State)
      → store.IsUp s
      → r.cmd ≡ Cmd.set
      → r.app ≡ some db
      → (o : Outcome api) × (handle_db_request api last r s ≡ some o)
        × (o.cmd ≡ Cmd.set_r)
        × store.IsUp o.state
        × ((j : ℕ)
            → store.find db o.state j ≡ (if r.key == j then some r.text else store.find db s j))
  unfolding handle_db_request switch on_flag
  set_outcome last r db s up asks has =
      let (ok, up', at) = store.set db r.key r.text s up in
      (
        on_flag api Cmd.set_r db (api.set_key_value db r.key r.text s),
        rw (asks, has) refl,
        set_flag db (api.set_key_value db r.key r.text s) ok,
        rw (set_state db (api.set_key_value db r.key r.text s)) up',
        rw (set_state db (api.set_key_value db r.key r.text s)) at,
      )
    where
      set_flag :
          (db : api.Db) (res : Bool × api.State)
          → res.0 ≡ true
          → (on_flag api Cmd.set_r db res).cmd ≡ Cmd.set_r
      set_flag db (true, s) e = refl
      set_flag db (false, s) e = cc e

      set_state :
          (db : api.Db) (res : Bool × api.State) → (on_flag api Cmd.set_r db res).state ≡ res.1
      set_state db (true, s) = refl
      set_state db (false, s) = refl

  -- What a GET of a record that is there does.
  pub get_outcome :
      (last : Cmd) (r : Request api) (db : api.Db) (value : api.Text) (s : api.State)
      → store.IsUp s
      → r.cmd ≡ Cmd.get
      → r.app ≡ some db
      → store.find db s r.key ≡ some value
      → (o : Outcome api) × (handle_db_request api last r s ≡ some o)
        × (o.cmd ≡ Cmd.get_r)
        × (o.text ≡ some value)
        × (o.stops ≡ false)
  unfolding handle_db_request switch on_found
  get_outcome last r db value s up asks has there =
      let (found, _, _) = store.get db r.key s up in
      let (c, t, f) = got_value db value (api.get_key_value db r.key s) (found ∙ there) in
      (on_found api db (api.get_key_value db r.key s), rw (asks, has) refl, c, t, f)
    where
      got_value :
          (db : api.Db) (value : api.Text) (res : Option api.Text × api.State)
          → res.0 ≡ some value
          → ((on_found api db res).cmd ≡ Cmd.get_r)
            × ((on_found api db res).text ≡ some value)
            × ((on_found api db res).stops ≡ false)
      got_value db value (some v, s) e = (refl, e, refl)
      got_value db value (none, s) e = cc e

module _ (api : Database) where
  -- What an OPEN that goes well comes to.
  pub open_outcome :
      (last : Cmd) (r : Request api) (s : api.State) (o : Outcome api)
      → r.cmd ≡ Cmd.open_db
      → handle_db_request api last r s ≡ some o
      → o.cmd ≡ Cmd.open_r
      → (db : api.Db) × ((api.create r.text s).0 ≡ some db) × (o.app ≡ some db) × (o.stops ≡ false)
  unfolding handle_db_request switch on_created
  open_outcome last r s o asks e done =
      let same : on_created api r.text (api.create r.text s) ≡ o = cc (rw asks at e) in
      rw (← same) (made (api.create r.text s) (rw (← same) at done))
    where
      made :
          (res : Option api.Db × api.State)
          → (on_created api r.text res).cmd ≡ Cmd.open_r
          → (db : api.Db) × (res.0 ≡ some db)
            × ((on_created api r.text res).app ≡ some db)
            × ((on_created api r.text res).stops ≡ false)
      made (some db, s') c = (db, refl, refl, refl)
      made (none, s') c = absurd (cc c)
