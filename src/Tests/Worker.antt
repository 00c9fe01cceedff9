-- ===== src/Tests/Worker.antt =====
-- A client that has opened a database sends GET 5, and the server's list is at version 2.
use distributed_db.Common.{ℕ, ◌<◌, ◌≢◌, ◌≡◌, refl, ◌⊎◌, inr, true, false, Option, none, some, arith}
use distributed_db.Protocol.Cmd.{Cmd}
use distributed_db.Protocol.Fields.{empty, text, Packet}
use distributed_db.CircularQueue.{QueueNode}
use distributed_db.Server.Connections.{ClientSockHandle, Server, db_send_msg, db_recv_msg}
use distributed_db.Server.Connections.Table.{
  receives, traffic, IsTable, IsApart, Meanwhile, here, next,
}
use distributed_db.Server.Request.{Outcome, handle_db_request}
use distributed_db.Server.Worker.Opened.{db_recv_msg-round}
use distributed_db.Socket.{Os}
use distributed_db.Server.Request.Reply.{gets}
use distributed_db.Server.Loop.Waiting.{IsCounted}
use distributed_db.Server.Worker.{DbLoop, get_version, cmd_of, version_of, send_reply, round}
use distributed_db.Server.Worker.Served.{Comes, SendsList, SendsReply, IsUpToDate, work-on_ready}
use distributed_db.Tests.Ring.{two}
use distributed_db.Tests.Connections.{memory, memory-Documented, client}
use distributed_db.Tests.Loop.{slots}
use distributed_db.Tests.Messages.{one_record}

abbrev get_5 : Packet ℕ
get_5 = record { cmd = Cmd.get; key = 5; version = 2; content = empty }

-- The state is the last packet sent.
abbrev network : Os (Packet ℕ)
network = record {
  State = Option (Packet ℕ);
  local_addr = 1;
  socket = λ s. (5, s);
  reuse = λ t s. s;
  bind = λ t ip port s. (true, s);
  listen = λ t s. (true, s);
  accept = λ t s. ((6, 1), s);
  connect = λ t ip port s. (true, s);
  send = λ t p s. some p;
  recv = λ t s. (some get_5, s);
  close = λ t s. s;
  port_of = λ t s. 5002;
}

abbrev waiting : DbLoop one_record network memory 0 get_5
waiting = record {
  service = record { world = none; mdb = memory.put (λ k. none) 7 client };
  queue = slots;
  sz_buf = get_5;
  msg_sem = 0;
}

waiting-IsCounted : IsCounted network memory cmd_of version_of waiting
waiting-IsCounted = record {
  valid = record { slots = refl; head = omega arith; tail = omega arith };
  count = refl;
}

get_5-Comes :
    Comes one_record network memory memory-Documented 0 get_5 4 5 7 two waiting get_5 client
get_5-Comes = record {
  valid = λ e. absurd (omega arith);
  not_listening = λ e. absurd (omega arith);
  not_master = λ e. absurd (omega arith);
  known = refl;
  own = refl;
  packet = refl;
}

work-on_ready_example :
    ((2 < get_version two)
      × (Cmd.get ≢ Cmd.open_db)
      × (Cmd.get ≢ Cmd.close)
      × SendsList one_record network memory memory-Documented 0 get_5 4 5 7 two waiting get_5
          client)
    ⊎ (IsUpToDate 2 (get_version two) Cmd.get
        × SendsReply one_record network memory memory-Documented 0 get_5 4 5 7 two waiting get_5
            client Cmd.cmd_fail Cmd.get_r
            (some 8))
work-on_ready_example =
    work-on_ready one_record network memory memory-Documented 0 get_5 4 5 7 two waiting get_5 client
      Cmd.cmd_fail (some 8) get_5-Comes waiting-IsCounted refl gets (inr (2, refl))

-- The client on 7 opens the database 4, and then the one on 8 sends something.
abbrev node_7 : QueueNode (ClientSockHandle ℕ)
node_7 = record { hcsock = record { sock = 7; ip = some 3; app = none }; buf = 0 }

abbrev opening : DbLoop one_record network memory 0 get_5
opening = record waiting {
  service = record { world = none; mdb = λ k. none };
  sz_buf = record { cmd = Cmd.open_db; key = 0; version = 0; content = text 4 };
}

abbrev open_reply : Packet ℕ
open_reply = record { cmd = Cmd.open_r; key = 5; version = 2; content = empty }

abbrev opened : DbLoop one_record network memory 0 get_5
opened = record opening {
  service = record {
    world = some open_reply;
    mdb = memory.put (λ k. none) 7 (record node_7.hcsock { app = some 0 });
  };
}

abbrev open_outcome : Outcome one_record
open_outcome = record {
  cmd = Cmd.open_r;
  text = none;
  app = some 0;
  stops = false;
  state = none;
  files = some (4, 5);
}

open_run :
    round one_record network memory 0 get_5 Cmd.set_r node_7 opening none
    ≡ some (open_outcome, opened)
unfolding round handle_db_request send_reply db_send_msg
open_run = refl

no_client-IsTable : IsTable network memory memory-Documented opening.service
unfolding IsTable
no_client-IsTable k h e = cc e

received_8 :
    traffic network memory memory-Documented (receives 8) opened.service ≡ some opened.service
unfolding traffic db_recv_msg
received_8 = refl

Meanwhile-on_8 : Meanwhile network memory memory-Documented 7 opened.service opened.service
unfolding IsApart
Meanwhile-on_8 = next (receives 8) here tt received_8

db_recv_msg-round_example :
    (db : ℕ) × (some 0 ≡ some db)
    × ((message : Option (Packet ℕ)) × (after : Server network memory) × (db_recv_msg network memory
            7 opened.service
          ≡ some (some (record node_7.hcsock { app = some db }), message, after)))
db_recv_msg-round_example =
    db_recv_msg-round one_record network memory memory-Documented 0 get_5 Cmd.set_r node_7 opening
      opened none open_outcome opened.service no_client-IsTable refl open_run refl Meanwhile-on_8
