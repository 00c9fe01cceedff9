-- ===== src/Server/Worker/Opened.antt =====
-- The database that a worker opens for a connection is what the connection's next requests work on.
use distributed_db.Common.{◌≡◌, ap, ◌∙◌, Option, some, bind-some}
use distributed_db.Protocol.Cmd.{Cmd}
use distributed_db.Protocol.Fields.{Packet}
use distributed_db.CircularQueue.{QueueNode}
use distributed_db.Socket.{Os}
use distributed_db.Server.Connections.{ClientSockHandle, Memory, Server, db_send_msg, db_recv_msg}
use distributed_db.Server.Connections.Table.{
  Documented, IsTable, Meanwhile, db_recv_msg-db_send_msg,
}
use distributed_db.Server.Request.{Database, Outcome, handle_db_request}
use distributed_db.Server.Request.Stores.{open_outcome}
use distributed_db.Server.Worker.{
  Handle, DbLoop, request_in, reply_with, text_in, send_reply, round,
}

module _ (api : Database) (os : Os (Packet api.Text)) (mem : Memory api.Db) (doc : Documented mem)
    (leftover : api.Text) (junk : Packet api.Text) where
  -- What a round has done whose outcome does not end the connection.
  round_parts :
      (last : Cmd) (node : QueueNode (Handle api os mem leftover junk))
      (l l' : DbLoop api os mem leftover junk) (s : api.State) (o : Outcome api)
      → round api os mem leftover junk last node l s ≡ some (o, l')
      → (handle_db_request api last (request_in api os mem leftover junk l.sz_buf node.hcsock.app) s
          ≡ some o)
        × (send_reply api os mem leftover junk o node.hcsock l.service ≡ some l'.service)
  unfolding round
  round_parts last node l l' s o e =
      let (o', asked, e') =
        bind-some
          (handle_db_request api last (request_in api os mem leftover junk l.sz_buf node.hcsock.app)
            s)
          _ e in
      let (service, sent, e'') =
        bind-some (send_reply api os mem leftover junk o' node.hcsock l.service) _ e' in
      let same : o' ≡ o = cc e'' in
      let at : record l { service = service } ≡ l' = cc e'' in
      (rw (← same) asked, rw (← same) (sent ∙ ap (λ q. some q.service) at))

  -- After an OPEN that is answered by OPEN_R, whatever happens on the other connections, the next
  -- message on the connection comes with the database that was opened.
  pub db_recv_msg-round :
      (last : Cmd) (node : QueueNode (Handle api os mem leftover junk))
      (l l' : DbLoop api os mem leftover junk) (s : api.State) (o : Outcome api)
      (later : Server os mem)
      → IsTable os mem doc l.service
      → l.sz_buf.cmd ≡ Cmd.open_db
      → round api os mem leftover junk last node l s ≡ some (o, l')
      → o.cmd ≡ Cmd.open_r
      → Meanwhile os mem doc node.hcsock.sock l'.service later
      → (db : api.Db) × ((api.create (text_in api os mem leftover junk l.sz_buf) s).0 ≡ some db)
        × ((message : Option (Packet api.Text)) × (after : Server os mem) × (db_recv_msg os mem
                node.hcsock.sock later
              ≡ some (some (record node.hcsock { app = some db }), message, after)))
  unfolding send_reply
  db_recv_msg-round last node l l' s o later table asks e done others =
      let (asked, sent) = round_parts last node l l' s o e in
      let (db, made, has, stays) =
        open_outcome api last (request_in api os mem leftover junk l.sz_buf node.hcsock.app) s o
          asks asked done in
      let h : ClientSockHandle api.Db = record node.hcsock { app = o.app } in
      let (server, put, e') =
        bind-some (db_send_msg os mem h (reply_with api os mem leftover junk o) l.service) _ sent in
      let same : server ≡ l'.service = cc (rw stays at e') in
      let (_, (message, after, got)) =
        db_recv_msg-db_send_msg os mem doc h (reply_with api os mem leftover junk o) l.service
          l'.service later table (put ∙ ap some same) others in
      (db, made, (message, after, rw (← has) got))
