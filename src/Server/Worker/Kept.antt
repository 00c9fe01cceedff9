-- ===== src/Server/Worker/Kept.antt =====
-- What a worker has stored for one request is what a worker sends for a later one.
use distributed_db.Common.{ℕ, ◌≡◌, refl, ◌∙◌, ◌≢◌, some, ==_iff}
use distributed_db.Protocol.Cmd.{Cmd}
use distributed_db.Protocol.Fields.{text, Packet}
use distributed_db.CircularQueue.{QueueNode}
use distributed_db.Socket.{Os, no_sock}
use distributed_db.Server.Connections.{Memory}
use distributed_db.Server.Connections.Table.{Documented}
use distributed_db.Server.Request.{Database, Outcome}
use distributed_db.Server.Request.Contract.{IsStore}
use distributed_db.Server.Request.Stores.{set_outcome, get_outcome}
use distributed_db.Server.Worker.{Handle, DbLoop, request_in, round}
use distributed_db.Server.Worker.Replies.{send_reply-sent_on}

module _ (api : Database) (os : Os (Packet api.Text)) (mem : Memory api.Db) (doc : Documented mem)
    (leftover : api.Text) (junk : Packet api.Text) (store : IsStore api) where
  -- The packet sets the record under `key` to `value`, or asks for it.
  abbrev pub Sets : ℕ → api.Text → Packet api.Text → Type 0
  Sets key value p = (p.cmd ≡ Cmd.set) × (p.key ≡ key) × (p.content ≡ text value)

  abbrev pub Gets : ℕ → Packet api.Text → Type 0
  Gets key p = (p.cmd ≡ Cmd.get) × (p.key ≡ key)

  -- A round for a SET goes through, and has stored the value.
  round-set :
      (last : Cmd) (node : QueueNode (Handle api os mem leftover junk))
      (l : DbLoop api os mem leftover junk) (s : api.State) (db : api.Db) (key : ℕ)
      (value : api.Text)
      → store.IsUp s
      → node.hcsock.app ≡ some db
      → node.hcsock.sock ≢ no_sock
      → Sets key value l.sz_buf
      → (o : Outcome api) × (l' : DbLoop api os mem leftover junk) × (round api os mem leftover junk
            last node l s
          ≡ some (o, l'))
        × (o.cmd ≡ Cmd.set_r)
        × (store.find db o.state key ≡ some value)
  unfolding round
  round-set last node l s db key value up has on (sets, own, content) =
      let r = request_in api os mem leftover junk l.sz_buf node.hcsock.app in
      let (o, run, c, up', at) = set_outcome api store last r db s up sets has in
      let (service, sent, _) =
        send_reply-sent_on api os mem doc leftover junk o node.hcsock l.service on in
      (
        o,
        record l { service = service },
        rw (run, sent) refl,
        c,
        at key ∙ rw (own, content, (==_iff key key).1 refl) refl,
      )

  -- A round for a GET of a record that is there sends its value.
  round-get :
      (last : Cmd) (node : QueueNode (Handle api os mem leftover junk))
      (l : DbLoop api os mem leftover junk) (s : api.State) (db : api.Db) (key : ℕ)
      (value : api.Text)
      → store.IsUp s
      → node.hcsock.app ≡ some db
      → node.hcsock.sock ≢ no_sock
      → Gets key l.sz_buf
      → store.find db s key ≡ some value
      → (o : Outcome api) × (l' : DbLoop api os mem leftover junk) × (round api os mem leftover junk
            last node l s
          ≡ some (o, l'))
        × (l'.service.world
            ≡ os.send node.hcsock.sock
                (record {
                  cmd = Cmd.get_r;
                  key = junk.key;
                  version = junk.version;
                  content = text value;
                })
                l.service.world)
  unfolding round
  round-get last node l s db key value up has on (gets, own) there =
      let r = request_in api os mem leftover junk l.sz_buf node.hcsock.app in
      let (o, run, c, t, stays) =
        get_outcome api store last r db value s up gets has (rw own there) in
      let (service, sent, world) =
        send_reply-sent_on api os mem doc leftover junk o node.hcsock l.service on in
      (o, record l { service = service }, rw (run, sent) refl, world ∙ rw (stays, c, t) refl)

  -- After a round for a SET on a database, a later round for a GET of the same key from it, on
  -- whatever connection, sends the value back, if the record has not been written in between.
  pub round-round :
      (last last' : Cmd) (node node' : QueueNode (Handle api os mem leftover junk))
      (l l₁ l' : DbLoop api os mem leftover junk) (s s' : api.State) (db db' : api.Db) (key : ℕ)
      (value : api.Text) (o : Outcome api)
      → store.IsUp s
      → node.hcsock.app ≡ some db
      → node.hcsock.sock ≢ no_sock
      → Sets key value l.sz_buf
      → round api os mem leftover junk last node l s ≡ some (o, l₁)
      → store.IsUp s'
      → store.find db' s' key ≡ store.find db o.state key
      → node'.hcsock.app ≡ some db'
      → node'.hcsock.sock ≢ no_sock
      → Gets key l'.sz_buf
      → (o.cmd ≡ Cmd.set_r)
        × ((o' : Outcome api) × (l₂ : DbLoop api os mem leftover junk) × (round api os mem leftover
                junk last' node' l' s'
              ≡ some (o', l₂))
            × (l₂.service.world
                ≡ os.send node'.hcsock.sock
                    (record {
                      cmd = Cmd.get_r;
                      key = junk.key;
                      version = junk.version;
                      content = text value;
                    })
                    l'.service.world))
  round-round last last' node node' l l₁ l' s s' db db' key value o up has on sets e up' kept has'
        on' gets =
      let (made, _, run, c, there) = round-set last node l s db key value up has on sets in
      let same : made ≡ o = cc (run, e) in
      let there' : store.find db o.state key ≡ some value = rw (← same) there in
      (rw (← same) c, round-get last' node' l' s' db' key value up' has' on' gets (kept ∙ there'))
