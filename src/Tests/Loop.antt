-- ===== src/Tests/Loop.antt =====
-- A client connects to a server that has started, and sends a GET with a list as new as its own.
use distributed_db.Common.{ℕ, ◌≡◌, refl, false, none, ◌∷◌, some, arith, replicate, set}
use distributed_db.CircularQueue.{QueueNode, CircularQueue, init_queue, enqueue}
use distributed_db.CircularQueue.Fifo.{contents}
use distributed_db.Socket.{initialize_service, service_start}
use distributed_db.Server.Connections.{
  ClientSockHandle, db_initialize_service, db_service_start, db_recv_msg,
}
use distributed_db.Server.Dispatch.{route}
use distributed_db.Server.Loop.{nothing, Loop, server_start, on_ready, on_packet, take_message}
use distributed_db.Server.Loop.Waiting.{no_handle, IsCounted, here, handles, Runs-take_message}
use distributed_db.Tests.Connections.{network, memory}

abbrev pub slots : CircularQueue (ClientSockHandle ℕ)
slots = record { slots = replicate 10 (record { hcsock = no_handle; buf = 0 }); head = 0; tail = 0 }

-- Every packet is a GET of version 2.
abbrev get_cmd : ℕ → ℕ
get_cmd m = 1

abbrev get_version : ℕ → ℕ
get_version m = 2

-- What InitQueue allocates is at 100.
abbrev started : Loop network memory get_cmd get_version
started = record {
  service = record { world = 9; mdb = memory.new };
  queue = record {
    slots = replicate 10 (record { hcsock = no_handle; buf = 100 });
    head = 0;
    tail = 0;
  };
  sz_buf = 0;
  msg_sem = 0;
}

start_run :
    server_start network memory get_cmd get_version (λ i. 100) slots.slots 0 8 ≡ (8, started)
unfolding server_start db_initialize_service initialize_service init_queue
start_run = refl

abbrev comer : ClientSockHandle ℕ
comer = record { sock = 9; ip = some 3; app = none }

abbrev connected : Loop network memory get_cmd get_version
connected = record started { service = record { world = 10; mdb = memory.put memory.new 9 comer } }

abbrev busy : Loop network memory get_cmd get_version
busy = record connected {
  queue = record started.queue {
    slots = set started.queue.slots 0 (record { hcsock = comer; buf = 0 });
    tail = 1;
  };
  msg_sem = 1;
}

connect_run :
    on_ready network memory get_cmd get_version 8 5 0 2 8 false started ≡ some (nothing, connected)
unfolding on_ready db_service_start service_start
connect_run = refl

get_run :
    on_ready network memory get_cmd get_version 8 5 0 2 9 false connected ≡ some (nothing, busy)
unfolding on_ready on_packet db_recv_msg route enqueue
get_run = refl

Runs-take_message_example :
    (node : QueueNode (ClientSockHandle ℕ)) × (after : Loop network memory get_cmd get_version)
    × (take_message network memory get_cmd get_version busy ≡ some (node, after))
    × (contents no_handle busy.queue ≡ node ∷ contents no_handle after.queue)
    × IsCounted network memory get_cmd get_version after
unfolding server_start db_initialize_service initialize_service init_queue
Runs-take_message_example =
    Runs-take_message network memory get_cmd get_version (λ i. 100) slots.slots 0 8 refl
      (handles 8 5 0 2 9 false (handles 8 5 0 2 8 false here connect_run) get_run) (omega arith)
