-- ===== src/Tests/Connections.antt =====
-- Two connections of a server: one is answered, the other comes in.
use distributed_db.Common.{ℕ, ◌+◌, ◌≡◌, refl, true, Option, none, some, arith, ◌==◌, if◌then◌else◌}
use distributed_db.Socket.{Os, service_start}
use distributed_db.Server.Connections.{
  ClientSockHandle, Memory, Server, db_service_start, db_send_msg, db_recv_msg,
}
use distributed_db.Server.Connections.Table.{
  Documented, starts, traffic, IsTable, IsApart, here, next, db_recv_msg-db_send_msg,
}

-- The system gives the next connection's number.
abbrev pub network : Os ℕ
network = record {
  State = ℕ;
  local_addr = 1;
  socket = λ s. (s, s + 1);
  reuse = λ t s. s;
  bind = λ t ip port s. (true, s);
  listen = λ t s. (true, s);
  accept = λ t s. ((s, 3), s + 1);
  connect = λ t ip port s. (true, s);
  send = λ t m s. s;
  recv = λ t s. (some 0, s);
  close = λ t s. s;
  port_of = λ t s. 5002;
}

abbrev pub Entries : Type 0
Entries = ℕ → Option (ClientSockHandle ℕ)

abbrev pub memory : Memory ℕ
memory = record {
  MemDb = Entries;
  new = λ k. none;
  put = λ d k v j. if k == j then some v else d j;
  out = λ d k j. if k == j then none else d j;
  get = λ d k. d k;
}

pub memory-Documented : Documented memory
memory-Documented = record { get-put = λ d k j v. refl; get-out = λ d k j. refl }

abbrev empty : Server network memory
empty = record { world = 8; mdb = λ k. none }

-- The handle of a client that has opened the database 2.
abbrev pub client : ClientSockHandle ℕ
client = record { sock = 7; ip = some 3; app = some 2 }

abbrev pub answered : Server network memory
answered = record { world = 8; mdb = memory.put (λ k. none) 7 client }

abbrev later : Server network memory
later = record {
  world = 9;
  mdb = memory.put answered.mdb 8 (record { sock = 8; ip = some 3; app = none });
}

empty-IsTable : IsTable network memory memory-Documented empty
unfolding IsTable
empty-IsTable k h e = cc e

send_run : db_send_msg network memory client 0 empty ≡ some answered
unfolding db_send_msg
send_run = refl

start_run : traffic network memory memory-Documented (starts 4) answered ≡ some later
unfolding traffic db_service_start service_start
start_run = refl

IsApart-start : IsApart network memory memory-Documented (starts 4) answered 7
unfolding IsApart db_service_start service_start
IsApart-start e = absurd (omega arith)

db_recv_msg-db_send_msg_example :
    IsTable network memory memory-Documented later
    × ((message : Option ℕ) × (after : Server network memory) × (db_recv_msg network memory 7 later
          ≡ some (some client, message, after)))
db_recv_msg-db_send_msg_example =
    db_recv_msg-db_send_msg network memory memory-Documented client 0 empty answered later
      empty-IsTable send_run (next (starts 4) here IsApart-start start_run)
