-- ===== src/Server/Worker/Served.antt =====
-- Every request of a client is answered once, on the connection that it has come over.
use distributed_db.Common.{
  ℕ, ◌+◌, ◌≤◌, ◌<◌, ◌≡◌, refl, sym, ap, ◌∙◌, ◌≢◌, ◌⊎◌, inl, inr, false, some, arith, ==_of_ne,
}
use distributed_db.Common.{◌-◌}
use distributed_db.Slaves.{SlaveList}
use distributed_db.Protocol.Cmd.{Cmd, code}
use distributed_db.Protocol.Fields.{Packet}
use distributed_db.CircularQueue.{QueueNode}
use distributed_db.CircularQueue.Fifo.{dequeue-enqueue_empty}
use distributed_db.Socket.{Os, no_sock, send_msg}
use distributed_db.Server.Connections.{ClientSockHandle, Memory, db_recv_msg}
use distributed_db.Server.Connections.Table.{Documented}
use distributed_db.Server.Request.{Database, Outcome}
use distributed_db.Server.Request.Reply.{
  IsDbCommand, opens, closes, sets, gets, dels, Answers, HasDb, StaysOpen,
}
use distributed_db.Server.Dispatch.{send_slave_list, to_queue, route}
use distributed_db.Server.Loop.{nothing, on_packet, on_ready, take_message}
use distributed_db.Server.Loop.Waiting.{no_handle, IsCounted}
use distributed_db.Server.Worker.Replies.{sent_on, round-Answers}
use distributed_db.Server.Worker.{
  DbLoop, get_version, list_update, cmd_of, version_of, reply_with, work,
}

-- The command opens or ends a connection's database, or the client's list is no older.
abbrev pub IsUpToDate : ℕ → ℕ → Cmd → Type 0
IsUpToDate version current cmd = (current ≤ version) ⊎ (cmd ≡ Cmd.open_db) ⊎ (cmd ≡ Cmd.close)

-- A database command goes to the queue, unless it reads or writes a record with an old list.
route_db_command :
    (version current : ℕ) {cmd done : Cmd}
    → IsDbCommand cmd done
    → ((route (code cmd) version current ≡ to_queue) × IsUpToDate version current cmd)
      ⊎ ((route (code cmd) version current ≡ send_slave_list)
          × (version < current)
          × (cmd ≢ Cmd.open_db)
          × (cmd ≢ Cmd.close))
unfolding route
route_db_command version current opens = inl (ground arith, inr (inl refl))
route_db_command version current closes = inl (ground arith, inr (inr refl))
route_db_command version current sets = ground arith
route_db_command version current gets = ground arith
route_db_command version current dels = ground arith

module _ (api : Database) (os : Os (Packet api.Text)) (mem : Memory api.Db) (doc : Documented mem)
    (leftover : api.Text) (junk : Packet api.Text) where
  abbrev pub update : SlaveList → Packet api.Text
  update sl = list_update junk.key sl

  module _ (listen_sock master_sock fd : ℕ) (sl : SlaveList) (l : DbLoop api os mem leftover junk)
      (p : Packet api.Text) (h : ClientSockHandle api.Db) where
    -- The connection is a client's or another slave's, its handle is in the table, and a packet has
    -- come over it.
    pub record Comes : Type 0 where
      pub valid : fd ≢ no_sock
      pub not_listening : fd ≢ listen_sock
      pub not_master : fd ≢ master_sock
      pub known : mem.get l.service.mdb fd ≡ some h
      pub own : h.sock ≡ fd
      pub packet : (os.recv fd l.service.world).0 ≡ some p

    abbrev pub received_world : os.State
    received_world = (os.recv fd l.service.world).1

    abbrev got : DbLoop api os mem leftover junk
    got = record l { service = record { world = received_world; mdb = l.service.mdb }; sz_buf = p }

    -- The loop hands the packet to on_packet.
    on_ready-on_packet :
        Comes
        → on_ready os mem cmd_of version_of listen_sock master_sock
            (update sl)
            (get_version sl)
            fd
            false
            l
          ≡ on_packet os mem cmd_of version_of
              (route (code p.cmd) p.version (get_version sl))
              (update sl)
              fd
              (some h)
              got
    unfolding on_ready db_recv_msg
    on_ready-on_packet c =
        rw
          (
            ==_of_ne fd listen_sock c.not_listening,
            ==_of_ne fd master_sock c.not_master,
            ==_of_ne fd no_sock c.valid,
            c.known,
            c.packet,
          )
          refl

    -- The loop sends its list, and a worker has nothing to do.
    abbrev pub SendsList : Type 0
    SendsList =
        (l' : DbLoop api os mem leftover junk) × (on_ready os mem cmd_of version_of listen_sock
            master_sock (update sl) (get_version sl) fd false l
          ≡ some (nothing, l'))
        × (l'.service.world ≡ os.send fd (update sl) received_world)
        × (l'.queue ≡ l.queue)
        × (l'.msg_sem ≡ l.msg_sem)

    -- The loop queues the packet, and the worker that the semaphore lets through sends the reply.
    abbrev pub SendsReply : Cmd → Cmd → api.State → Type 0
    SendsReply last done s =
        (queued : DbLoop api os mem leftover junk) × (o : Outcome api) × (l' : DbLoop api os mem
          leftover junk)
        × (on_ready os mem cmd_of version_of listen_sock master_sock (update sl) (get_version sl) fd
              false l
            ≡ some (nothing, queued))
        × (0 < queued.msg_sem)
        × (work api os mem leftover junk last queued s ≡ some (o, l'))
        × Answers api done o
        × StaysOpen api p.cmd o
        × (l'.service.world
            ≡ sent_on os fd (reply_with api os mem leftover junk o) o.stops received_world)
        × IsCounted os mem cmd_of version_of l'
        × (l'.msg_sem ≡ 0)

    -- A loop with an empty queue, and then one round.
    queued-SendsReply :
        (last : Cmd) (s : api.State) {done : Cmd}
        → Comes
        → IsCounted os mem cmd_of version_of l
        → l.msg_sem ≡ 0
        → IsDbCommand p.cmd done
        → HasDb api p.cmd h.app
        → route (code p.cmd) p.version (get_version sl) ≡ to_queue
        → SendsReply last done s
    unfolding on_packet take_message work
    queued-SendsReply last s c counted idle w has r =
        let node : QueueNode (ClientSockHandle api.Db) = record { hcsock = h; buf = 0 } in
        let (q, q', put, took, v, none_left) =
          dequeue-enqueue_empty no_handle node l.queue counted.valid (sym counted.count ∙ idle) in
        let queued : DbLoop api os mem leftover junk = record got {
          queue = q;
          msg_sem = l.msg_sem + 1;
        } in
        let taken : DbLoop api os mem leftover junk = record got {
          queue = q';
          msg_sem = l.msg_sem + 1 - 1;
        } in
        let on : h.sock ≢ no_sock = rw c.own c.valid in
        let (o, l', run, a, stays, at, kept, sem) =
          round-Answers api os mem doc leftover junk last node taken s w has on in
        (
          queued,
          o,
          l',
          on_ready-on_packet c ∙ rw (r, put) refl,
          omega arith,
          rw took run,
          a,
          stays,
          at
              ∙ ap
                  (λ k. sent_on os k (reply_with api os mem leftover junk o) o.stops received_world)
                  c.own,
          record { valid = rw kept v; count = rw kept (omega (arith, sem, idle, none_left)) },
          omega (arith, sem, idle),
        )

    -- While no message waits in the queue, a database command that comes over a connection which has
    -- a database, or opens one, is answered once, on that connection: by UPDATE_VERSION with the
    -- server's list, if the command reads or writes a record and has an older version; else by a
    -- worker, with the command's own reply or CMDFAIL and the last error message, and the connection
    -- is then ended only after a CLOSE that went well. The queue is empty again.
    pub work-on_ready :
        (last : Cmd) (s : api.State) {done : Cmd}
        → Comes
        → IsCounted os mem cmd_of version_of l
        → l.msg_sem ≡ 0
        → IsDbCommand p.cmd done
        → HasDb api p.cmd h.app
        → ((p.version < get_version sl) × (p.cmd ≢ Cmd.open_db) × (p.cmd ≢ Cmd.close) × SendsList)
          ⊎ (IsUpToDate p.version (get_version sl) p.cmd × SendsReply last done s)
    unfolding on_packet send_msg
    work-on_ready last s c counted idle w has =
        elim (route_db_command p.version (get_version sl) w) [
          | inl (r, no_older) ↦ inr (no_older, queued-SendsReply last s c counted idle w has r)
          | inr (r, old, no_open, no_close) ↦ inl (
            old,
            no_open,
            no_close,
            (
              record got {
                service = record {
                  world = os.send fd (update sl) received_world;
                  mdb = l.service.mdb;
                };
              },
              on_ready-on_packet c ∙ rw (r, ==_of_ne fd no_sock c.valid) refl,
              refl,
              refl,
              refl,
            ),
          )
        ]
