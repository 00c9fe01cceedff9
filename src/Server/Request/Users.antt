-- ===== src/Server/Request/Users.antt =====
-- What the workers' requests make of the registry of open databases, over server/tcDB.c.
use distributed_db.Common.{
  ℕ, ◌<◌, ◌≡◌, ◌↔◌, refl, sym, ◌∙◌, Bool, true, false, List, [], ◌∷◌, Option, none, some,
}
use distributed_db.Protocol.Cmd.{Cmd}
use distributed_db.TcDb.{Tchdb}
use distributed_db.TcDb.Registry.{Cabinet, Registry, Handle, db_create, db_delete}
use distributed_db.TcDb.Registry.Counts.{IsMap, entry}
use distributed_db.TcDb.Registry.Users.{
  History, here, opens, fails, closes, works, count, without_one, IsCounted, History-IsCounted,
}
use distributed_db.TcDb.Api.{
  Library, Process, created, deleted, set_value, get_value, del_value, tcdb,
}
use distributed_db.Server.Request.{
  Request, Outcome, on_flag, on_found, on_created, switch, handle_db_request,
}
use distributed_db.Server.Request.Reply.{
  IsDbCommand, opens as asks_open, closes as asks_close, sets, gets, dels,
}

module _ (tc : Tchdb) (cab : Cabinet) (lib : Library tc cab) (laws : IsMap cab)
    (same : cab.Name → cab.Name → Bool) (same_iff : (a b : cab.Name) → (same a b ≡ true) ↔ (a ≡ b))
    (unset : cab.Msg) (begun : Registry cab) where
  abbrev without_app : Option (Handle cab) → List cab.Name → List cab.Name
  without_app none users = users
  without_app (some h) users = without_one cab laws same same_iff h.name users

  abbrev opened_by : Cmd → cab.Name → List cab.Name → List cab.Name
  opened_by Cmd.open_r name users = name ∷ users
  opened_by reply name users = users

  -- The users after a command with its reply: a connection opens the database `name`, or gives back
  -- the one in its handle.
  abbrev pub users_after :
      Cmd → Cmd → cab.Name → Option (Handle cab) → List cab.Name → List cab.Name
  users_after Cmd.open_db reply name app users = opened_by reply name users
  users_after Cmd.close reply name app users = without_app app users
  users_after cmd reply name app users = users

  abbrev Past : Registry cab → List cab.Name → Type 0
  Past r users = History cab laws same same_iff begun r users

  opened_lem :
      (text : tc.Value) (r r' : Registry cab) (users : List cab.Name)
      (res : Option (Option (Handle cab) × Registry cab))
      → Past r users
      → db_create cab (lib.name_of text) r ≡ res
      → (on_created (tcdb tc cab lib unset) text (created tc cab lib res)).state ≡ some r'
      → Past r' (
          opened_by
            (on_created (tcdb tc cab lib unset) text (created tc cab lib res)).cmd
            (lib.name_of text)
            users)
  unfolding on_created
  opened_lem text r r' users none past e s = absurd (cc s)
  opened_lem text r r' users (some (some h, r₁)) past e s =
      let is_after : r₁ ≡ r' = cc s in rw (← is_after) (opens (lib.name_of text) h past e)
  opened_lem text r r' users (some (none, r₁)) past e s =
      let is_after : r₁ ≡ r' = cc s in rw (← is_after) (fails (lib.name_of text) past e)

  closed_lem :
      (h : Handle cab) (r r' : Registry cab) (users : List cab.Name)
      (res : Option (Bool × Registry cab))
      → Past r users
      → 0 < count cab laws same same_iff h.name users
      → db_delete cab h r ≡ res
      → (on_flag (tcdb tc cab lib unset) Cmd.close_r h (deleted tc cab lib res)).state ≡ some r'
      → Past r' (without_one cab laws same same_iff h.name users)
  unfolding on_flag
  closed_lem h r r' users none past used e s = absurd (cc s)
  closed_lem h r r' users (some (true, r₁)) past used e s =
      let is_after : r₁ ≡ r' = cc s in rw (← is_after) (closes h true past used e)
  closed_lem h r r' users (some (false, r₁)) past used e s =
      let is_after : r₁ ≡ r' = cc s in rw (← is_after) (closes h false past used e)

  set_state :
      (h : Handle cab) (res : Bool × Process tc cab lib)
      → (on_flag (tcdb tc cab lib unset) Cmd.set_r h res).state ≡ res.1
  unfolding on_flag
  set_state h (true, s) = refl
  set_state h (false, s) = refl

  del_state :
      (h : Handle cab) (res : Bool × Process tc cab lib)
      → (on_flag (tcdb tc cab lib unset) Cmd.del_r h res).state ≡ res.1
  unfolding on_flag
  del_state h (true, s) = refl
  del_state h (false, s) = refl

  found_state :
      (h : Handle cab) (res : Option tc.Value × Process tc cab lib)
      → (on_found (tcdb tc cab lib unset) h res).state ≡ res.1
  unfolding on_found
  found_state h (some v, s) = refl
  found_state h (none, s) = refl

  -- A call on records leaves the registry.
  worked :
      (r r₁ r' : Registry cab) (users : List cab.Name) (s : Process tc cab lib)
      → Past r users
      → s ≡ some r₁
      → r₁.mdb ≡ r.mdb
      → s ≡ some r'
      → Past r' users
  worked r r₁ r' users s past is kept e =
      let is_after : r₁ ≡ r' = cc (is, e) in rw (← is_after) (works past kept)

  module _ (last : Cmd) (key : ℕ) (text : tc.Value) (r r' : Registry cab)
      (users : List cab.Name) where
    abbrev req : Cmd → Option (Handle cab) → Request (tcdb tc cab lib unset)
    req cmd app = record { cmd = cmd; key = key; text = text; app = app }

    switch_past :
        (cmd done : Cmd) (app : Option (Handle cab)) (o : Outcome (tcdb tc cab lib unset))
        → IsDbCommand cmd done
        → Past r users
        → (cmd ≡ Cmd.close
            → (h : Handle cab) → app ≡ some h
            → 0 < count cab laws same same_iff h.name users)
        → switch (tcdb tc cab lib unset) cmd last (req cmd app) (some r) ≡ some o
        → o.state ≡ some r'
        → Past r' (users_after cmd o.cmd (lib.name_of text) app users)
    unfolding switch set_value get_value del_value
    switch_past cmd done app o asks_open past holds e s =
        let is : on_created (tcdb tc cab lib unset) text
              (created tc cab lib (db_create cab (lib.name_of text) r))
            ≡ o =
          cc e in
        rw (← is) (
          opened_lem text r r' users (db_create cab (lib.name_of text) r) past refl
            (rw (← is) at s))
    switch_past cmd done none o asks_close past holds e s = absurd (cc e)
    switch_past cmd done (some h) o asks_close past holds e s =
        let is : on_flag (tcdb tc cab lib unset) Cmd.close_r h
              (deleted tc cab lib (db_delete cab h r))
            ≡ o =
          cc e in
        closed_lem h r r' users (db_delete cab h r) past (holds refl h refl) refl (rw (← is) at s)
    switch_past cmd done none o sets past holds e s = absurd (cc e)
    switch_past cmd done (some h) o sets past holds e s =
        let res = set_value tc cab lib h key text (some r) in
        let is : on_flag (tcdb tc cab lib unset) Cmd.set_r h res ≡ o = cc e in
        worked r _ r' users res.1 past refl refl (sym (set_state h res) ∙ (rw (← is) at s))
    switch_past cmd done none o gets past holds e s = absurd (cc e)
    switch_past cmd done (some h) o gets past holds e s =
        let res = get_value tc cab lib h key (some r) in
        let is : on_found (tcdb tc cab lib unset) h res ≡ o = cc e in
        worked r _ r' users res.1 past refl refl (sym (found_state h res) ∙ (rw (← is) at s))
    switch_past cmd done none o dels past holds e s = absurd (cc e)
    switch_past cmd done (some h) o dels past holds e s =
        let res = del_value tc cab lib h key (some r) in
        let is : on_flag (tcdb tc cab lib unset) Cmd.del_r h res ≡ o = cc e in
        worked r _ r' users res.1 past refl refl (sym (del_state h res) ∙ (rw (← is) at s))

  -- The workers handle requests, one after the other, from a registry `begun`: a CLOSE comes over a
  -- connection whose database has not been given back yet.
  pub data Handles : Registry cab → List cab.Name → Type 0 where
    nothing_yet : Handles begun []
    then_handles :
        {r r' : Registry cab} {users : List cab.Name} {done : Cmd} (last : Cmd)
        (req : Request (tcdb tc cab lib unset)) (o : Outcome (tcdb tc cab lib unset))
        → Handles r users
        → IsDbCommand req.cmd done
        → (req.cmd ≡ Cmd.close
            → (h : Handle cab) → req.app ≡ some h
            → 0 < count cab laws same same_iff h.name users)
        → handle_db_request (tcdb tc cab lib unset) last req (some r) ≡ some o
        → o.state ≡ some r'
        → Handles r' (users_after req.cmd o.cmd (lib.name_of req.text) req.app users)

  handled : {r : Registry cab} {users : List cab.Name} → Handles r users → Past r users
  unfolding handle_db_request
  handled nothing_yet = here
  handled (then_handles {r} {r'} {users} {done} last req o before w holds e s) =
      switch_past last req.key req.text r r' users req.cmd done req.app o w (handled before) holds e
        s

  -- From a registry with nothing in it, whatever database commands the workers handle, with CLOSE
  -- only over connections whose database has not been given back yet, a database is in the registry
  -- exactly while it has users, with their number: an OPEN that goes well adds one, and a CLOSE takes
  -- one away.
  pub Handles-IsCounted :
      {r : Registry cab} {users : List cab.Name}
      → ((name : cab.Name) → entry cab begun name ≡ none)
      → Handles r users
      → IsCounted cab laws same same_iff r users
  Handles-IsCounted nothing past = History-IsCounted cab laws same same_iff nothing (handled past)
