-- ===== src/Client/Calls.antt =====
-- The client's calls (client/netdbapi.c), over the connections of Socket.
pub mod Opened
pub mod Serving
pub mod Reopen
pub mod Again
use distributed_db.Common.{
  ℕ, zero, suc, ◌+◌, ◌≡◌, refl, Bool, true, false, not, Option, none, some, ◌>>=◌, ◌==◌,
  if◌then◌else◌,
}
use distributed_db.Slaves.{SlaveList, node_at, set_sock}
use distributed_db.Protocol.Cmd.{Cmd, code}
use distributed_db.Socket.{
  Os, no_sock, open_remote_service, open_remote_service2, close_remote_service, send_msg, recv_msg,
}
use distributed_db.Client.Route.{get_socket}
pub use distributed_db.Protocol.Fields.{
  Content, empty, text, node, nodes, Packet, is, received, list_of, text_of,
}

-- The globals of the client, and what its buffers hold before they are written.
pub record Globals (Text : Type 0) : Type 0 where
  pub master_addr : Option ℕ
  pub master_port : ℕ
  pub db_name : Text
  pub junk : Packet Text

-- How a call ends that sends a request: with -1, or with the reply.
pub data Answer (Text : Type 0) : Type 0 where
  failed : Answer Text
  answered : Packet Text → Answer Text

module _ {Text : Type 0} (os : Os (Packet Text)) (g : Globals Text) where
  open os use {State}

  -- Without a reply the buffer still holds the request. In all of these, `none` is a failed
  -- assertion.
  unfoldable pub exchange_packet : Packet Text → ℕ → State → Option (Packet Text × State)
  unfolding send_msg recv_msg
  exchange_packet request sock s = do
    sent ← send_msg os sock request s
    (reply, after) ← recv_msg os sock sent
    some (received request reply, after)

  abbrev pub list_request : Packet Text
  list_request = record { cmd = Cmd.get_list; key = 0; version = g.junk.version; content = empty }

  -- Whether 0 is returned, and the list. `none` too where the reply has no list in it.
  unfoldable pub read_cloud_nodes : SlaveList → State → Option (Bool × SlaveList × State)
  unfolding exchange_packet open_remote_service
  read_cloud_nodes slaves s =
      let (ok, master_sock, opened) = open_remote_service os g.master_addr g.master_port s in
      if not ok then some (false, slaves, opened) else do
        (reply, after) ← exchange_packet list_request master_sock opened
        list ← if is reply.cmd Cmd.get_list_r then list_of reply.content else none
        some (true, list, after)

  abbrev pub open_request : Packet Text
  open_request = record {
    cmd = Cmd.open_db;
    key = g.junk.key;
    version = 0;
    content = text g.db_name;
  }

  -- The loop of OpenAllCloudNodes from index `i`, with the rounds left and what recvBuf holds.
  unfoldable pub open_nodes :
      ℕ → ℕ → Packet Text → SlaveList → State → Option (Bool × SlaveList × State)
  unfolding send_msg recv_msg open_remote_service2
  open_nodes zero i buf slaves s = some (true, slaves, s)
  open_nodes (suc n) i buf slaves s =
      let node = node_at slaves i in
      let (ok, sock, opened) = open_remote_service2 os node.ip node.port s in
      let slaves' = set_sock i sock slaves in
      if not ok then some (false, slaves', opened) else do
        sent ← send_msg os sock open_request opened
        (reply, after) ← recv_msg os sock sent
        let buf' = received buf reply
        if is buf'.cmd Cmd.open_r
            then open_nodes n (i + 1) buf' slaves' after
            else some (false, slaves', after)

  -- The result of ReadCloudNodes is not looked at.
  unfoldable pub open_all_cloud_nodes : SlaveList → State → Option (Bool × SlaveList × State)
  unfolding read_cloud_nodes open_nodes
  open_all_cloud_nodes slaves s = do
    (ok, list, read) ← read_cloud_nodes slaves s
    open_nodes list.num 0 g.junk list read

  abbrev pub close_request : ℕ → Packet Text
  close_request version = record {
    cmd = Cmd.close;
    key = g.junk.key;
    version = version;
    content = empty;
  }

  -- The loop of CloseAllCloudNodes.
  unfoldable pub close_nodes : ℕ → ℕ → ℕ → Packet Text → SlaveList → State → Option (Bool × State)
  unfolding send_msg recv_msg close_remote_service
  close_nodes except_sock zero i buf slaves s = some (true, s)
  close_nodes except_sock (suc n) i buf slaves s =
      let sock = (node_at slaves i).sock in
      if sock == except_sock then close_nodes except_sock n (i + 1) buf slaves s else do
        sent ← send_msg os sock (close_request slaves.version) s
        (reply, after) ← recv_msg os sock sent
        let buf' = received buf reply
        if is buf'.cmd Cmd.cmd_fail
            then some (false, after)
            else close_nodes except_sock n (i + 1) buf' slaves (close_remote_service os sock after)

  unfoldable pub close_all_cloud_nodes : SlaveList → ℕ → State → Option (Bool × State)
  unfolding close_nodes
  close_all_cloud_nodes slaves except_sock s = close_nodes except_sock slaves.num 0 g.junk slaves s

  -- What is done before `goto REDO`; neither result is looked at.
  unfoldable pub reopen : ℕ → SlaveList → State → Option (SlaveList × State)
  unfolding close_all_cloud_nodes open_all_cloud_nodes
  reopen except_sock slaves s = do
    (ok, closed) ← close_all_cloud_nodes slaves except_sock s
    (ok', slaves', opened) ← open_all_cloud_nodes slaves closed
    some (slaves', opened)

  -- The body that DBSetKeyValue, DBGetKeyValue and DBDelKeyValue share, with how often it may go
  -- back to REDO: `none` too where that is too few times.
  unfoldable pub ask :
      Cmd → ℕ → Content Text → ℕ → SlaveList → State → Option (Answer Text × SlaveList × State)
  unfolding get_socket send_msg recv_msg reopen
  ask cmd key content zero slaves s = none
  ask cmd key content (suc n) slaves s = do
    index ← get_socket slaves key
    let sock = (node_at slaves index).sock
    let request : Packet Text = record {
      cmd = cmd;
      key = key;
      version = slaves.version;
      content = content;
    }
    sent ← send_msg os sock request s
    (reply, after) ← recv_msg os sock sent
    elim reply [
      | none ↦ do (slaves', opened) ← reopen sock slaves after; ask cmd key content n slaves' opened
      | some packet ↦
          let again = do
            (slaves', opened) ← reopen no_sock slaves after
            ask cmd key content n slaves' opened
          in if is packet.cmd Cmd.update_version
            then again
            else if is packet.cmd Cmd.cmd_fail
            then some (failed, slaves, after)
            else some (answered packet, slaves, after)
    ]

  -- DBCreate; without a database its list is not used again.
  unfoldable pub create : SlaveList → State → Option (Option SlaveList × State)
  unfolding open_all_cloud_nodes
  create allocated s = do
    (ok, slaves, after) ← open_all_cloud_nodes allocated s
    some (if ok then some slaves else none, after)

  pub delete : SlaveList → State → Option (Bool × State)
  unfolding close_all_cloud_nodes
  delete slaves s = close_all_cloud_nodes slaves no_sock s

  abbrev succeeded : Answer Text → Bool
  succeeded failed = false
  succeeded (answered packet) = true

  abbrev value_in : Answer Text → Option Text
  value_in failed = none
  value_in (answered packet) = text_of packet.content

  pub set_key_value : ℕ → Text → ℕ → SlaveList → State → Option (Bool × SlaveList × State)
  unfolding ask
  set_key_value key value n slaves s = do
    (answer, slaves', after) ← ask Cmd.set key (text value) n slaves s
    some (succeeded answer, slaves', after)

  pub get_key_value : ℕ → ℕ → SlaveList → State → Option (Option Text × SlaveList × State)
  unfolding ask
  get_key_value key n slaves s = do
    (answer, slaves', after) ← ask Cmd.get key empty n slaves s
    some (value_in answer, slaves', after)

  pub del_key_value : ℕ → ℕ → SlaveList → State → Option (Bool × SlaveList × State)
  unfolding ask
  del_key_value key n slaves s = do
    (answer, slaves', after) ← ask Cmd.del key empty n slaves s
    some (succeeded answer, slaves', after)
