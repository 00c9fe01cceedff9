-- ===== src/Tests/Calls.antt =====
-- A client whose list is one version old, with servers that answer each packet by its command.
use distributed_db.Common.{
  ℕ, ◌≤◌, length, ◌<◌, ◌≡◌, refl, Bool, true, false, Option, none, some, arith, ◌==◌, if◌then◌else◌,
  ◌∷◌, replicate,
}
use distributed_db.Slaves.{SlaveList, node_at, blank}
use distributed_db.Protocol.Cmd.{Cmd}
use distributed_db.Socket.{Os, open_remote_service, open_remote_service2}
use distributed_db.Client.Route.{get_socket}
use distributed_db.Client.Route.Same.{SameKeys}
use distributed_db.Client.Calls.{
  empty, text, nodes, Packet, Globals, answered, is, list_request, open_request, read_cloud_nodes,
  create, ask,
}
use distributed_db.Client.Calls.Serving.{Serving}
use distributed_db.Client.Calls.Opened.{create-SameKeys, IsOpened}
use distributed_db.Tests.Ring.{two, node}

abbrev respond : Packet ℕ → Packet ℕ
respond p = record {
  cmd =
      if is p.cmd Cmd.get_list
      then Cmd.get_list_r
      else if is p.cmd Cmd.open_db
      then Cmd.open_r
      else if p.version == 2
      then Cmd.set_r
      else Cmd.update_version;
  key = 0;
  version = 2;
  content = nodes two;
}

abbrev answer_to : Option (Packet ℕ) → Option (Packet ℕ)
answer_to none = none
answer_to (some p) = some (respond p)

-- The state is the last packet that has been sent.
abbrev network : Os (Packet ℕ)
network = record {
  State = Option (Packet ℕ);
  local_addr = 1;
  socket = λ s. (5, s);
  reuse = λ t s. s;
  bind = λ t ip port s. (true, s);
  listen = λ t s. (true, s);
  accept = λ t s. ((6, 1), s);
  connect = λ t ip port s. (true, s);
  send = λ t p s. some p;
  recv = λ t s. (answer_to s, s);
  close = λ t s. s;
  port_of = λ t s. 5002;
}

abbrev globals : Globals ℕ
globals = record {
  master_addr = none;
  master_port = 5001;
  db_name = 4;
  junk = record { cmd = Cmd.quit; key = 0; version = 0; content = empty };
}

dial :
    (addr : Option ℕ) (port : ℕ) (s : Option (Packet ℕ))
    → open_remote_service network addr port s ≡ (true, 5, s)
unfolding open_remote_service
dial addr port s = refl

dial2 :
    (ip port : ℕ) (s : Option (Packet ℕ)) → open_remote_service2 network ip port s ≡ (true, 5, s)
unfolding open_remote_service2
dial2 ip port s = dial (some ip) port s

serves : (p : Packet ℕ) → p.version ≡ 2 → is (respond p).cmd Cmd.update_version ≡ false
serves p e = ground arith

network-Serving : Serving network globals two
network-Serving = record {
  Ready = λ s. Unit;
  Up = λ s t. t ≡ 5;
  lists = λ s r. (
    record {
      sock = 5;
      opened = s;
      reply = respond (list_request network globals);
      after = some (list_request network globals);
      dialled = dial none 5001 s;
      valid = λ e. omega arith;
      talked = refl;
    },
    refl,
    refl,
    tt,
  );
  opens = λ i s h r. (
    record {
      sock = 5;
      opened = s;
      reply = respond (open_request network globals);
      after = some (open_request network globals);
      dialled = dial2 (node_at two i).ip (node_at two i).port s;
      valid = λ e. omega arith;
      talked = refl;
    },
    refl,
    tt,
    refl,
    λ t u. u,
  );
  talks = λ t p s r. tt;
  closes = λ t s r. tt;
  valid = λ s t u e. omega arith;
  answers = λ t p s r u e. (respond p, some p, refl, serves p e);
}

abbrev stale : SlaveList
stale = record two { version = 1 }

abbrev opened : SlaveList
opened = record two { nodes = node 5 100 ∷ node 5 2500 ∷ replicate 30 blank }

create_run :
    create network globals stale none ≡ some (some opened, some (open_request network globals))
unfolding create
create_run = refl

create-SameKeys_example :
    (ok : Bool) × (list : SlaveList) × (read : Option (Packet ℕ)) × (read_cloud_nodes network
        globals stale none
      ≡ some (ok, list, read))
    × SameKeys list opened
    × ((key : ℕ) → get_socket opened key ≡ get_socket list key)
    × (list.num ≤ length list.nodes
        → (j : ℕ) → j < list.num
        → IsOpened network globals list opened j)
create-SameKeys_example =
    create-SameKeys network globals stale opened none (some (open_request network globals))
      create_run

-- The first answer is UPDATE_VERSION, and the second SET_R.
ask_run :
    ask network globals Cmd.set 1300 (text 9) 2 stale none
    ≡ some (
      answered (respond (record { cmd = Cmd.set; key = 1300; version = 2; content = text 9 })),
      opened,
      some (record { cmd = Cmd.set; key = 1300; version = 2; content = text 9 }),
    )
unfolding ask
ask_run = refl
