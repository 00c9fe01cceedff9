-- ===== src/Server/Worker.antt =====
-- HandleDBRequest of server/HandleRequest.c with its connection: a worker's round from the message
-- that it has taken to the reply, over the queue and the connections of the server's loop.
pub mod Replies
pub mod Served
pub mod Kept
pub mod Opened
use distributed_db.Common.{ℕ, Option, none, some, ◌>>=◌, if◌then◌else◌}
use distributed_db.Slaves.{SlaveList}
use distributed_db.Protocol.Cmd.{Cmd, code}
use distributed_db.Protocol.Fields.{Content, empty, text, nodes, Packet, text_of}
use distributed_db.CircularQueue.{QueueNode}
use distributed_db.Socket.{Os}
use distributed_db.Server.Connections.{
  ClientSockHandle, Memory, Server, db_service_stop, db_send_msg,
}
use distributed_db.Server.Request.{Database, Request, Outcome, handle_db_request}
use distributed_db.Server.Loop.{Loop, take_message}

abbrev pub cmd_of : {Text : Type 0} → Packet Text → ℕ
cmd_of p = code p.cmd

-- GetVersion of server/slave.c.
unfoldable pub get_version : SlaveList → ℕ
get_version sl = sl.version

-- What SendSlaveList of server/slave.c sends; `key` is what the field holds that is not set.
unfoldable pub list_update : {Text : Type 0} → ℕ → SlaveList → Packet Text
list_update key sl = record {
  cmd = Cmd.update_version;
  key = key;
  version = sl.version;
  content = nodes sl;
}

abbrev pub version_of : {Text : Type 0} → Packet Text → ℕ
version_of p = p.version

-- `leftover` is what stands behind a header that nothing is appended to, and `junk` what the fields
-- of `sendhd` hold that are not set.
module _ (api : Database) (os : Os (Packet api.Text)) (mem : Memory api.Db) (leftover : api.Text)
    (junk : Packet api.Text) where
  open api use {State, Db, Text}

  abbrev pub Handle : Type 0
  Handle = ClientSockHandle Db

  abbrev pub DbLoop : Type 0
  DbLoop = Loop os mem cmd_of version_of

  abbrev text_or : Option Text → Text
  text_or none = leftover
  text_or (some t) = t

  -- GetAppend(precvhd)
  abbrev pub text_in : Packet Text → Text
  text_in p = text_or (text_of p.content)

  -- The message in the packet, and the database of the connection.
  abbrev pub request_in : Packet Text → Option Db → Request api
  request_in p app = record { cmd = p.cmd; key = p.key; text = text_in p; app = app }

  abbrev appended : Option Text → Content Text
  appended none = empty
  appended (some t) = text t

  abbrev pub reply_with : Outcome api → Packet Text
  reply_with o = record {
    cmd = o.cmd;
    key = junk.key;
    version = junk.version;
    content = appended o.text;
  }

  -- What comes after the switch.
  unfoldable pub send_reply : Outcome api → Handle → Server os mem → Option (Server os mem)
  send_reply o hcsock s = do
    sent ← db_send_msg os mem (record hcsock { app = o.app }) (reply_with o) s
    if o.stops then db_service_stop os mem hcsock.sock sent else some sent

  -- The round, with `sendhd.cmd` as the round before has left it. The packet is the one in the
  -- loop's buffer, of which the node has the address.
  unfoldable pub round : Cmd → QueueNode Handle → DbLoop → State → Option (Outcome api × DbLoop)
  unfolding send_reply
  round last node l s = do
    o ← handle_db_request api last (request_in l.sz_buf node.hcsock.app) s
    service ← send_reply o node.hcsock l.service
    some (o, record l { service = service })

  -- The body of the worker's loop, when the semaphore lets it through.
  unfoldable pub work : Cmd → DbLoop → State → Option (Outcome api × DbLoop)
  unfolding round
  work last l s = do
    (node, taken) ← take_message os mem cmd_of version_of l
    round last node taken s
