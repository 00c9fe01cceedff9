-- ===== src/Client/Calls/Again.antt =====
-- A client's call returns, with at most one new look at the master's list.
use distributed_db.Common.{ℕ, ◌≡◌, false, if◌then◌else◌}
use distributed_db.Slaves.{SlaveList}
use distributed_db.Protocol.Cmd.{Cmd}
use distributed_db.Socket.{Os}
use distributed_db.Client.Calls.{Content, Packet, Globals, Answer, failed, answered, is}
use distributed_db.Client.Calls.Serving.{Serving}

-- How an answer that is no UPDATE_VERSION ends the call.
abbrev pub answer_of : {Text : Type 0} → Packet Text → Answer Text
answer_of packet = if is packet.cmd Cmd.cmd_fail then failed else answered packet

-- A reply that ends the call well is no UPDATE_VERSION.
pub data IsFinal {Text : Type 0} : Answer Text → Type 0 where
  fails : IsFinal failed
  ends :
      (packet : Packet Text) → is packet.cmd Cmd.update_version ≡ false → IsFinal (answered packet)

module _ {Text : Type 0} (os : Os (Packet Text)) (g : Globals Text) (list : SlaveList)
    (store : Serving os g list) (cmd : Cmd) (key : ℕ) (content : Content Text) where
  open store use {Ready, Up}

  abbrev request : SlaveList → Packet Text
  request sl = record { cmd = cmd; key = key; version = sl.version; content = content }
