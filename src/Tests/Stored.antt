-- ===== src/Tests/Stored.antt =====
-- A worker over server/tcDB.c stores a value for one connection and sends it on another.
use distributed_db.Common.{
  ℕ, ◌≡◌, refl, arith, Option, none, some, true, false, ◌∷◌, ◌==◌, ==_iff, if◌then◌else◌, [],
  replicate,
}
use distributed_db.Protocol.Cmd.{Cmd}
use distributed_db.Protocol.Fields.{empty, text, Packet}
use distributed_db.CircularQueue.{QueueNode}
use distributed_db.Socket.{Os}
use distributed_db.TcDb.Registry.{OpenedDb, Cabinet}
use distributed_db.TcDb.{db_set_key_value}
use distributed_db.TcDb.Api.{Library, Process, set_value, tcdb, tcdb-IsStore}
use distributed_db.Server.Connections.{ClientSockHandle, Memory, db_send_msg}
use distributed_db.Server.Connections.Table.{Documented}
use distributed_db.Server.Request.{Outcome, handle_db_request}
use distributed_db.Server.Request.Contract.{IsStore}
use distributed_db.Server.Loop.Waiting.{no_handle}
use distributed_db.Server.Worker.{DbLoop, round, send_reply}
use distributed_db.Server.Worker.Kept.{round-round}
use distributed_db.Tests.Store.{Records, table, table-Documented}

-- The world is what each open file holds.
abbrev pub disk : Cabinet
disk = record {
  Name = ℕ;
  Hdb = ℕ;
  Mdb = ℕ → Option (OpenedDb ℕ ℕ);
  World = ℕ → Records;
  Msg = ℕ;
  new = λ k. none;
  get = λ m k. m k;
  put = λ m k v j. if j == k then some v else m j;
  out = λ m k j. if j == k then none else m j;
  open_file = λ name w. (some name, w);
  close_file = λ hdb w. (true, w);
  errmsg = λ w. 0;
}

abbrev pub library : Library table disk
library = record {
  shown = λ h w. w h;
  stored = λ h d w k. if k == h then d else w k;
  name_of = λ t. t;
  msg_of = λ t. t;
  tc_msg = λ t. t;
  text_of = λ t. t;
  with_tilde = λ t. t;
  shown-stored = λ h d w. rw ((==_iff h h).1 refl) refl;
}

abbrev Db : Type 0
Db = OpenedDb ℕ ℕ

abbrev memory : Memory Db
memory = record {
  MemDb = ℕ → Option (ClientSockHandle Db);
  new = λ k. none;
  put = λ d k v j. if k == j then some v else d j;
  out = λ d k j. if k == j then none else d j;
  get = λ d k. d k;
}

memory-Documented : Documented memory
memory-Documented = record { get-put = λ d k j v. refl; get-out = λ d k j. refl }

-- The state is the last packet sent.
abbrev network : Os (Packet ℕ)
network = record {
  State = Option (Packet ℕ);
  local_addr = 1;
  socket = λ s. (5, s);
  reuse = λ t s. s;
  bind = λ t ip port s. (true, s);
  listen = λ t s. (true, s);
  accept = λ t s. ((6, 1), s);
  connect = λ t ip port s. (true, s);
  send = λ t p s. some p;
  recv = λ t s. (s, s);
  close = λ t s. s;
  port_of = λ t s. 5002;
}

abbrev junk : Packet ℕ
junk = record { cmd = Cmd.quit; key = 0; version = 0; content = empty }

-- A database that two connections have opened.
abbrev db : Db
db = record { name = 5; hdb = 5; counter = 2 }

abbrev node : ℕ → QueueNode (ClientSockHandle Db)
node sock = record { hcsock = record { sock = sock; ip = some 3; app = some db }; buf = 0 }

abbrev before : Process table disk library
before = some (record { mdb = some (λ k. none); lasterr = 0; world = λ h. [] })

abbrev loop :
    Packet ℕ → Option (Packet ℕ) → DbLoop (tcdb table disk library 0) network memory 0 junk
loop p sent = record {
  service = record { world = sent; mdb = λ k. none };
  queue = record {
    slots = replicate 10 (record { hcsock = no_handle; buf = 0 });
    head = 0;
    tail = 0;
  };
  sz_buf = p;
  msg_sem = 0;
}

abbrev set_5 : Packet ℕ
set_5 = record { cmd = Cmd.set; key = 5; version = 2; content = text 80 }

abbrev get_5 : Packet ℕ
get_5 = record { cmd = Cmd.get; key = 5; version = 2; content = empty }

abbrev after : Process table disk library
after = some (record {
  mdb = some (λ k. none);
  lasterr = 0;
  world = λ k. if k == 5 then (5, 80) ∷ [] else [];
})

abbrev done : Outcome (tcdb table disk library 0)
done = record {
  cmd = Cmd.set_r;
  text = none;
  app = some db;
  stops = false;
  state = after;
  files = none;
}

store : IsStore (tcdb table disk library 0)
store = tcdb-IsStore table disk library table-Documented 0

abbrev stored_loop : DbLoop (tcdb table disk library 0) network memory 0 junk
stored_loop = record (loop set_5 none) {
  service = record {
    world = some (record { cmd = Cmd.set_r; key = 0; version = 0; content = empty });
    mdb = memory.put (λ k. none) 7 (node 7).hcsock;
  };
}

set_run :
    round
      (tcdb table disk library 0)
      network
      memory
      0
      junk
      Cmd.cmd_fail
      (node 7)
      (loop set_5 none)
      before
    ≡ some (done, stored_loop)
unfolding round handle_db_request send_reply db_send_msg set_value db_set_key_value
set_run = refl

round-round_example :
    (Cmd.set_r ≡ Cmd.set_r)
    × ((o' : Outcome (tcdb table disk library 0)) × (l₂ : DbLoop
          (tcdb table disk library 0)
          network
          memory
          0
          junk)
        × (round
              (tcdb table disk library 0)
              network
              memory
              0
              junk
              Cmd.open_r
              (node 8)
              (loop get_5 none)
              after
            ≡ some (o', l₂))
        × (l₂.service.world
            ≡ some (record { cmd = Cmd.get_r; key = 0; version = 0; content = text 80 })))
unfolding store tcdb-IsStore
round-round_example =
    round-round (tcdb table disk library 0) network memory memory-Documented 0 junk store
      Cmd.cmd_fail Cmd.open_r (node 7) (node 8) (loop set_5 none) stored_loop (loop get_5 none)
      before after db db 5 80 done tt refl (λ e. absurd (omega arith)) (refl, refl, refl) set_run tt
      refl refl (λ e. absurd (omega arith)) (refl, refl)
