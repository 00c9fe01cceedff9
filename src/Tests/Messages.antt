-- ===== src/Tests/Messages.antt =====
-- A queue with one message in it, a packet, and a database that is one record.
use distributed_db.Common.{
  ℕ, ◌+◌, ◌≡◌, refl, true, false, [], ◌∷◌, ◌++◌, Option, none, some, arith, replicate, take, ◌==◌,
  if◌then◌else◌,
}
use distributed_db.CircularQueue.{QueueNode, CircularQueue, enqueue, dequeue}
use distributed_db.CircularQueue.Fifo.{contents, IsValid, enqueue-contents, dequeue-contents}
use distributed_db.Protocol.{
  DbPacketHeader, header_size, write_header, get_header, append, get_append,
}
use distributed_db.Protocol.Packet.{packet_round_trip}
use distributed_db.Protocol.Cmd.{Cmd}
use distributed_db.Server.Request.{Database, Request}

abbrev message : ℕ → QueueNode ℕ
message n = record { hcsock = n; buf = 500 }

abbrev wrapped : CircularQueue ℕ
wrapped = record {
  slots = message 3 ∷ (replicate 8 (message 0) ++ (message 2 ∷ []));
  head = 9;
  tail = 1;
}

wrapped-IsValid : IsValid wrapped
wrapped-IsValid = record { slots = refl; head = omega arith; tail = omega arith }

wrapped-contents : contents 0 wrapped ≡ message 2 ∷ message 3 ∷ []
wrapped-contents = refl

dequeue-contents_example :
    (node : QueueNode ℕ) × (q' : CircularQueue ℕ) × (dequeue wrapped ≡ some (node, q'))
    × (contents 0 wrapped ≡ node ∷ contents 0 q')
    × IsValid q'
dequeue-contents_example = dequeue-contents 0 wrapped wrapped-IsValid (omega arith)

enqueue-contents_example :
    (q' : CircularQueue ℕ) × (enqueue (message 4) wrapped ≡ some q')
    × (contents 0 q' ≡ contents 0 wrapped ++ (message 4 ∷ []))
    × IsValid q'
enqueue-contents_example = enqueue-contents 0 (message 4) wrapped wrapped-IsValid (omega arith)

abbrev get_header_5 : DbPacketHeader
get_header_5 = record { size = 0; cmd = 1; key = 5; version = 3 }

packet_round_trip_example :
    let (done, packet) = append (write_header (replicate 1024 0) get_header_5) (1 ∷ 2 ∷ []) 2 in
    (done ≡ true)
    × (get_header packet ≡ record get_header_5 { size = header_size + 2 })
    × (take 2 (get_append packet) ≡ 1 ∷ 2 ∷ [])
packet_round_trip_example =
    packet_round_trip (replicate 1024 0) (1 ∷ 2 ∷ []) get_header_5 refl (omega arith) (omega arith)
      (omega arith) (omega arith)

-- The state is the value of key 5, if there is one; the only text is a number.
abbrev pub one_record : Database
one_record = record {
  State = Option ℕ;
  Db = ℕ;
  Text = ℕ;
  create = λ name s. (some 0, s);
  delete = λ db s. (true, s);
  set_key_value = λ db k v s. if k == 5 then (true, some v) else (false, s);
  get_key_value = λ db k s. if k == 5 then (s, s) else (none, s);
  del_key_value = λ db k s. if k == 5 then (true, none) else (false, s);
  last_error = λ s. 404;
  with_tilde = λ t. t + 1;
}

abbrev get_5 : Request one_record
get_5 = record { cmd = Cmd.get; key = 5; text = 0; app = some 0 }
