-- ===== src/Protocol/Fields.antt =====
-- A packet (common/dbProtocol.h) by its fields, as the client, the server's workers and the master
-- see it when they have read the header and what is appended.
use distributed_db.Common.{ℕ, Bool, Option, none, some, ◌==◌}
use distributed_db.Slaves.{SlaveNode, SlaveList}
use distributed_db.Protocol.Cmd.{Cmd, code}

-- What is appended to a packet.
pub data Content (Text : Type 0) : Type 0 where
  empty : Content Text
  text : Text → Content Text
  node : SlaveNode → Content Text
  nodes : SlaveList → Content Text

pub record Packet (Text : Type 0) : Type 0 where
  pub cmd : Cmd
  pub key : ℕ
  pub version : ℕ
  pub content : Content Text

abbrev pub is : Cmd → Cmd → Bool
is c d = code c == code d

-- What a buffer holds after a receive.
abbrev pub received {ℓ} : {A : Type ℓ} → A → Option A → A
received buf none = buf
received buf (some message) = message

abbrev pub list_of : {Text : Type 0} → Content Text → Option SlaveList
list_of empty = none
list_of (text t) = none
list_of (node sn) = none
list_of (nodes sl) = some sl

abbrev pub node_of : {Text : Type 0} → Content Text → Option SlaveNode
node_of empty = none
node_of (text t) = none
node_of (node sn) = some sn
node_of (nodes sl) = none

abbrev pub text_of : {Text : Type 0} → Content Text → Option Text
text_of empty = none
text_of (text t) = some t
text_of (node sn) = none
text_of (nodes sl) = none
