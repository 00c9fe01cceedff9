-- ===== src/Cluster/Requests.antt =====
-- The master on packets: HandleRequest and NotifyAll of server/master.c, and the loop of its
-- MasterProcess, over the connections of Socket. Cluster has what they mean for the slaves.
pub mod Peers
pub mod Told
pub mod Joined
pub mod Left
pub mod Asked
pub mod Alarm
pub mod Turn
pub mod Turns
use distributed_db.Common.{
  ℕ, zero, suc, ◌+◌, ◌%◌, Bool, Option, none, some, List, ◌>>=◌, ◌==◌, if◌then◌else◌,
}
use distributed_db.Slaves.{SlaveNode, SlaveList, node_at, remove_slave}
use distributed_db.Master.{add_to_slave_list}
use distributed_db.Protocol.Cmd.{Cmd}
use distributed_db.Protocol.Fields.{Content, empty, node, nodes, Packet, is, received}
use distributed_db.Socket.{Os, initialize_service, service_start, service_stop, send_msg, recv_msg}

-- A buffer of zeros.
abbrev pub zeros : {Text : Type 0} → Packet Text
zeros = record { cmd = Cmd.set; key = 0; version = 0; content = empty }

-- `junk` is what the fields of `hd` hold that are not set.
module _ {Text : Type 0} (os : Os (Packet Text)) (junk : Packet Text) where
  open os use {State}

  -- The global `slaves`, and the system.
  pub record MasterProcess : Type 0 where
    pub slaves : SlaveList
    pub world : State

  abbrev pub notice : Cmd → ℕ → SlaveList → Packet Text
  notice cmd pos sl = record {
    cmd = cmd;
    key = pos;
    version = junk.version;
    content = node (node_at sl pos);
  }

  -- The loop of NotifyAll from index `i`, with the rounds left. The reply is only looked at to print
  -- that it is wrong. In all of these `none` is a failed assertion.
  notify_from : Packet Text → ℕ → SlaveList → ℕ → ℕ → State → Option State
  unfolding send_msg recv_msg
  notify_from packet pos sl zero i s = some s
  notify_from packet pos sl (suc n) i s =
      if i == pos then notify_from packet pos sl n (i + 1) s else do
        sent ← send_msg os (node_at sl i).sock packet s
        (reply, after) ← recv_msg os (node_at sl i).sock sent
        notify_from packet pos sl n (i + 1) after

  pub notify_all : ℕ → Cmd → SlaveList → State → Option State
  unfolding notify_from
  notify_all pos cmd sl s = notify_from (notice cmd pos sl) pos sl sl.num 0 s

  abbrev pub list_reply : Cmd → ℕ → SlaveList → Packet Text
  list_reply cmd key sl = record {
    cmd = cmd;
    key = key;
    version = junk.version;
    content = nodes sl;
  }

  -- The case ADD_SLAVE, up to the reply; `none` too is a list that is full.
  unfoldable pub on_add_slave :
      ℕ → ℕ → ℕ → Packet Text → MasterProcess → Option (Packet Text × MasterProcess)
  unfolding notify_all
  on_add_slave random sock ip request m = do
    (slaves, newpos) ←
        add_to_slave_list random (record { ip = ip; port = request.key; sock = sock; key = 0 })
          m.slaves
    world ← notify_all newpos Cmd.new_slave slaves m.world
    some (list_reply Cmd.add_slave_r newpos slaves, record { slaves = slaves; world = world })

  abbrev pub header_reply : Cmd → Packet Text
  header_reply cmd = record { cmd = cmd; key = junk.key; version = junk.version; content = empty }

  abbrev pub backup_request : Packet Text
  backup_request = record {
    cmd = Cmd.update_backup12;
    key = 0;
    version = junk.version;
    content = empty;
  }

  -- The case DEL_SLAVE, up to the reply; `none` too is a list that is empty.
  unfoldable pub on_del_slave : Packet Text → MasterProcess → Option (Packet Text × MasterProcess)
  unfolding notify_all
  on_del_slave request m = do
    world ← notify_all request.key Cmd.rm_slave m.slaves m.world
    slaves ← remove_slave request.key m.slaves
    some (header_reply Cmd.del_slave_r, record { slaves = slaves; world = world })

  -- The switch, with szReplyMsg as it leaves it.
  unfoldable pub reply_to :
      ℕ → ℕ → ℕ → Packet Text → MasterProcess → Option (Packet Text × MasterProcess)
  unfolding on_add_slave on_del_slave
  reply_to random sock ip request m =
      if is request.cmd Cmd.get_list
      then some (list_reply Cmd.get_list_r junk.key m.slaves, m)
      else if is request.cmd Cmd.add_slave
      then on_add_slave random sock ip request m
      else if is request.cmd Cmd.del_slave
      then on_del_slave request m
      else some (zeros, m)

  -- `random` is what rand() gives.
  unfoldable pub handle_request : ℕ → ℕ → ℕ → MasterProcess → Option MasterProcess
  unfolding reply_to send_msg recv_msg
  handle_request random sock ip m = do
    (message, read) ← recv_msg os sock m.world
    let request = received zeros message
    (reply, m') ← reply_to random sock ip request (record m { world = read })
    sent ← send_msg os sock reply m'.world
    some (record m' {
      world = if is request.cmd Cmd.add_slave then sent else service_stop os sock sent;
    })

  -- UpdateBackup, with its own `pos`, and ExchangePacket in it; `none` too is an empty list, where the
  -- code divides by zero. The reply is only looked at to print that it is wrong.
  unfoldable pub on_alarm : ℕ → MasterProcess → Option (ℕ × MasterProcess)
  unfolding send_msg recv_msg
  on_alarm pos m =
      if m.slaves.num == 0
      then none
      else (let pos' = (pos + 1) % m.slaves.num in
          do
            sent ← send_msg os (node_at m.slaves pos').sock backup_request m.world
            (reply, after) ← recv_msg os (node_at m.slaves pos').sock sent
            some (pos', record m { world = after }))

  -- MasterProcess up to its loop, with the listening descriptor; `none` is a start that fails.
  -- `array` is what `slaves.nodes` holds.
  unfoldable pub master_start : List SlaveNode → State → Option (ℕ × MasterProcess)
  master_start array s =
      let (ok, listen_sock, world) = initialize_service os none 5001 s in
      if ok
      then some (
        listen_sock,
        record { slaves = record { version = 0; num = 0; nodes = array }; world = world },
      )
      else none

  -- The loop, on the descriptor `fd` that epoll_wait leaves in `event`. `interrupted` is whether
  -- errno is EINTR, and `ip` the address of the connection that was accepted last.
  unfoldable pub on_event : ℕ → ℕ → ℕ → Bool → ℕ → MasterProcess → Option (ℕ × MasterProcess)
  unfolding handle_request
  on_event random listen_sock fd interrupted ip m =
      let ((ok, acsock, from), accepted) = service_start os listen_sock m.world in
      let ip' = received ip from in
      let asked = do
        m' ← handle_request random acsock ip' (record m { world = accepted })
        some (ip', m')
      in let again = (do m' ← handle_request random fd ip m; some (ip, m')) in
        if fd == listen_sock then asked else if interrupted then some (ip, m) else again
