-- ===== src/Server/Worker/Replies.antt =====
-- What a worker's round sends.
use distributed_db.Common.{
  ℕ, ◌≡◌, refl, ◌∙◌, ◌≢◌, inl, inr, Bool, some, ==_iff, ==_of_ne, if◌then◌else◌, Bool-cases,
}
use distributed_db.Protocol.Cmd.{Cmd}
use distributed_db.Protocol.Fields.{Packet}
use distributed_db.CircularQueue.{QueueNode}
use distributed_db.Socket.{Os, no_sock, service_stop}
use distributed_db.Server.Connections.{
  ClientSockHandle, Memory, Server, db_service_stop, db_send_msg,
}
use distributed_db.Server.Connections.Table.{Documented}
use distributed_db.Server.Request.{Database, Outcome}
use distributed_db.Server.Request.Reply.{
  IsDbCommand, Answers, HasDb, StaysOpen, handle_db_request-Answers,
}
use distributed_db.Server.Worker.{Handle, DbLoop, request_in, reply_with, send_reply, round}

-- One packet has been sent on `sock`, and the connection ended if `stops`.
abbrev pub sent_on :
    {Text : Type 0} (os : Os (Packet Text)) → ℕ → Packet Text → Bool → os.State → os.State
sent_on os sock p stops w = if stops then os.close sock (os.send sock p w) else os.send sock p w

module _ (api : Database) (os : Os (Packet api.Text)) (mem : Memory api.Db) (doc : Documented mem)
    (leftover : api.Text) (junk : Packet api.Text) where
  pub send_reply-sent_on :
      (o : Outcome api) (h : Handle api os mem leftover junk) (s : Server os mem)
      → h.sock ≢ no_sock
      → (s' : Server os mem) × (send_reply api os mem leftover junk o h s ≡ some s')
        × (s'.world ≡ sent_on os h.sock (reply_with api os mem leftover junk o) o.stops s.world)
  unfolding send_reply db_send_msg db_service_stop service_stop
  send_reply-sent_on o h s on =
      let off = ==_of_ne h.sock no_sock on in
      let own = (==_iff h.sock h.sock).1 refl in
      let h' : ClientSockHandle api.Db = record h { app = o.app } in
      let put : mem.get (mem.put s.mdb h.sock h') h.sock ≡ some h' =
        doc.get-put s.mdb h.sock h.sock h' ∙ rw own refl in
      let sent = os.send h.sock (reply_with api os mem leftover junk o) s.world in
      elim (Bool-cases o.stops) [
        | inl ends ↦ (
          record { world = os.close h.sock sent; mdb = mem.out (mem.put s.mdb h.sock h') h.sock },
          rw (off, ends, put) refl,
          rw ends refl,
        )
        | inr stays ↦ (
          record { world = sent; mdb = mem.put s.mdb h.sock h' },
          rw (off, stays) refl,
          rw stays refl,
        )
      ]

  -- A round answers a database command, on the connection of the node.
  pub round-Answers :
      (last : Cmd) (node : QueueNode (Handle api os mem leftover junk))
      (l : DbLoop api os mem leftover junk) (s : api.State) {done : Cmd}
      → IsDbCommand l.sz_buf.cmd done
      → HasDb api l.sz_buf.cmd node.hcsock.app
      → node.hcsock.sock ≢ no_sock
      → (o : Outcome api) × (l' : DbLoop api os mem leftover junk) × (round api os mem leftover junk
            last node l s
          ≡ some (o, l'))
        × Answers api done o
        × StaysOpen api l.sz_buf.cmd o
        × (l'.service.world
            ≡ sent_on os node.hcsock.sock
                (reply_with api os mem leftover junk o)
                o.stops
                l.service.world)
        × (l'.queue ≡ l.queue)
        × (l'.msg_sem ≡ l.msg_sem)
  unfolding round
  round-Answers last node l s w has on =
      let (o, run, a, stays) =
        handle_db_request-Answers api last
          (request_in api os mem leftover junk l.sz_buf node.hcsock.app) s w has in
      let (service, sent, at) = send_reply-sent_on o node.hcsock l.service on in
      (o, record l { service = service }, rw (run, sent) refl, a, stays, at, refl, refl)
