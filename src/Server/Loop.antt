-- ===== src/Server/Loop.antt =====
-- The loop of server/dbserver.c on one descriptor that epoll_wait reports, and how a worker of
-- server/HandleRequest.c takes a message that the loop has queued.
pub mod Waiting
use distributed_db.Common.{ℕ, ◌+◌, ◌-◌, Bool, List, Option, none, some, ◌>>=◌, ◌==◌, if◌then◌else◌}
use distributed_db.CircularQueue.{QueueNode, CircularQueue, init_queue, enqueue, dequeue}
use distributed_db.Socket.{Os, send_msg}
use distributed_db.Server.Connections.{
  ClientSockHandle, Memory, Server, db_initialize_service, db_service_start, db_service_stop,
  db_recv_msg,
}
use distributed_db.Server.Dispatch.{Route, slave_request, send_slave_list, to_queue, route}

-- What the loop leaves to HandleMasterRequest, and to HandleSlaveRequest with a connection and a
-- packet.
pub data Handed (Message : Type 0) : Type 0 where
  nothing : Handed Message
  to_master_request : Handed Message
  to_slave_request : ℕ → Message → Handed Message

-- The buffer of the loop, of which the queue keeps the address.
abbrev sz_buf_address : ℕ
sz_buf_address = 0

-- `cmd_of` and `version_of` read the header of a packet.
module _ {Message App : Type 0} (os : Os Message) (mem : Memory App)
    (cmd_of version_of : Message → ℕ) where
  open os use {State}

  -- `MSG_SEM` is the semaphore's value.
  pub record Loop : Type 0 where
    pub service : Server os mem
    pub queue : CircularQueue (ClientSockHandle App)
    pub sz_buf : Message
    pub msg_sem : ℕ

  -- main up to InitThreads, with the listening descriptor: `slots` is what the array of the queue
  -- holds, `malloc` where InitQueue finds room for each slot, and `zeros` is the empty buffer.
  unfoldable pub server_start :
      (ℕ → ℕ) → List (QueueNode (ClientSockHandle App)) → Message → State → ℕ × Loop
  server_start malloc slots zeros s =
      let (listen_sock, service) = db_initialize_service os mem none 0 s in
      (
        listen_sock,
        record { service = service; queue = init_queue malloc slots; sz_buf = zeros; msg_sem = 0 },
      )

  abbrev pub received : Message → Option Message → Message
  received buf none = buf
  received buf (some message) = message

  -- The branch for a client's or a slave's packet, which is in `sz_buf`: `list` is the packet of
  -- SendSlaveList, and `version` is GetVersion(). `none` is a failed assertion, or a handle that is
  -- NULL and is read through.
  unfoldable pub on_packet :
      Route → Message → ℕ → Option (ClientSockHandle App) → Loop → Option (Handed Message × Loop)
  on_packet slave_request list fd phcsock l = do
    hcsock ← phcsock
    some (to_slave_request hcsock.sock l.sz_buf, l)
  on_packet send_slave_list list fd phcsock l = do
    sent ← send_msg os fd list l.service.world
    some (nothing, record l { service = record l.service { world = sent } })
  on_packet to_queue list fd phcsock l = do
    hcsock ← phcsock
    queue ← enqueue (record { hcsock = hcsock; buf = sz_buf_address }) l.queue
    some (nothing, record l { queue = queue; msg_sem = l.msg_sem + 1 })

  -- `closing` is whether both EPOLLIN and EPOLLRDHUP are reported of `fd`.
  unfoldable pub on_ready : ℕ → ℕ → Message → ℕ → ℕ → Bool → Loop → Option (Handed Message × Loop)
  on_ready listen_sock master_sock list version fd closing l =
      let accepted = (db_service_start os mem listen_sock l.service).1 in
      let stopped = do
        service ← db_service_stop os mem fd l.service
        some (nothing, record l { service = service })
      in let packet = do
        (phcsock, message, service) ← db_recv_msg os mem fd l.service
        let buf = received l.sz_buf message
        on_packet (route (cmd_of buf) (version_of buf) version) list fd phcsock
            (record l { service = service; sz_buf = buf })
        in if fd == listen_sock
          then some (nothing, record l { service = accepted })
          else if closing
          then stopped
          else if fd == master_sock
          then some (to_master_request, l)
          else packet

  -- A worker that waits for the semaphore, when it is let through, and the message that it takes.
  unfoldable pub take_message : Loop → Option (QueueNode (ClientSockHandle App) × Loop)
  take_message l = do
    (node, queue) ← dequeue l.queue
    some (node, record l { queue = queue; msg_sem = l.msg_sem - 1 })
