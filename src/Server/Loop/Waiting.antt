-- ===== src/Server/Loop/Waiting.antt =====
-- The semaphore counts the messages in the queue.
use distributed_db.Common.{
  ℕ, ◌+◌, ◌-◌, ◌<◌, ◌≡◌, refl, sym, ap, ◌∙◌, Bool, inl, inr, List, [], ◌∷◌, Option, none, some,
  arith, ◌==◌, length, length-append, Bool-cases, bind-some,
}
use native.Mathlib.Decide.{dec_lt}
use distributed_db.CircularQueue.{QueueNode, CircularQueue, max_queue_len, init_queue, enqueue}
use distributed_db.CircularQueue.Fifo.{
  contents, init_queue-IsValid, IsValid, length-contents_lt, enqueue_full, enqueue-contents,
  dequeue-contents,
}
use distributed_db.Socket.{Os, send_msg}
use distributed_db.Server.Connections.{ClientSockHandle, Memory, db_service_stop, db_recv_msg}
use distributed_db.Server.Dispatch.{Route, slave_request, send_slave_list, to_queue, route}
use distributed_db.Server.Loop.{
  Handed, Loop, server_start, received, on_packet, on_ready, take_message,
}

-- A handle that no queue holds.
abbrev pub no_handle : {App : Type 0} → ClientSockHandle App
no_handle = record { sock = 0; ip = none; app = none }

module _ {Message App : Type 0} (os : Os Message) (mem : Memory App)
    (cmd_of version_of : Message → ℕ) where
  -- The queue is valid, and a worker that the semaphore lets through finds a message.
  pub record IsCounted (l : Loop os mem cmd_of version_of) : Type 0 where
    pub valid : IsValid l.queue
    pub count : l.msg_sem ≡ length (contents no_handle l.queue)

  take_message-IsCounted :
      (l : Loop os mem cmd_of version_of)
      → IsCounted l
      → 0 < l.msg_sem
      → (node : QueueNode (ClientSockHandle App)) × (l' : Loop os mem cmd_of version_of)
        × (take_message os mem cmd_of version_of l ≡ some (node, l'))
        × (contents no_handle l.queue ≡ node ∷ contents no_handle l'.queue)
        × IsCounted l'
  unfolding take_message
  take_message-IsCounted l c h =
      let (node, queue, run, e, v) =
        dequeue-contents no_handle l.queue c.valid (omega (arith, c.count)) in
      (
        node,
        record l { queue = queue; msg_sem = l.msg_sem - 1 },
        rw run refl,
        e,
        record { valid = v; count = omega (arith, c.count, ap length e) },
      )

  -- A queue that EnQueue has taken a node into has one more.
  enqueued :
      (node : QueueNode (ClientSockHandle App)) (q q' : CircularQueue (ClientSockHandle App))
      → IsValid q
      → enqueue node q ≡ some q'
      → IsValid q' × (length (contents no_handle q') ≡ length (contents no_handle q) + 1)
  enqueued node q q' v e = elim (dec_lt (length (contents no_handle q)) 9) [
    | yes room ↦
        let (made, run, c, v') = enqueue-contents no_handle node q v room in
        let same : made ≡ q' = cc (run, e) in
        rw (← same) (v', ap length c ∙ length-append (contents no_handle q) (node ∷ []))
    | no full ↦
        let none_left =
          enqueue_full no_handle node q v (omega (arith, length-contents_lt no_handle q)) in
        cc (none_left, e)
  ]

  -- Only the queue and the semaphore matter.
  IsCounted-same :
      (l l' : Loop os mem cmd_of version_of)
      → l'.queue ≡ l.queue
      → l'.msg_sem ≡ l.msg_sem
      → IsCounted l
      → IsCounted l'
  IsCounted-same l l' q m c = record {
    valid = rw q c.valid;
    count = m ∙ c.count ∙ ap (λ x. length (contents no_handle x)) (sym q);
  }

  out_some :
      {A B : Type 0} {a a' : A} {b b' : B}
      → ◌≡◌ {A = Option (A × B)} (some (a, b)) (some (a', b'))
      → b ≡ b'
  out_some e = cc e

  on_packet-IsCounted :
      (r : Route) (list : Message) (fd : ℕ) (phcsock : Option (ClientSockHandle App))
      (handed : Handed Message) (l l' : Loop os mem cmd_of version_of)
      → IsCounted l
      → on_packet os mem cmd_of version_of r list fd phcsock l ≡ some (handed, l')
      → IsCounted l'
  unfolding on_packet
  on_packet-IsCounted slave_request list fd phcsock handed l l' c e =
      let (hcsock, _, e') = bind-some phcsock _ e in rw (← out_some e') c
  on_packet-IsCounted send_slave_list list fd phcsock handed l l' c e =
      let (sent, _, e') = bind-some (send_msg os fd list l.service.world) _ e in
      rw (← out_some e') (IsCounted-same l _ refl refl c)
  on_packet-IsCounted to_queue list fd phcsock handed l l' c e =
      let (hcsock, _, e1) = bind-some phcsock _ e in
      let node : QueueNode (ClientSockHandle App) = record { hcsock = hcsock; buf = 0 } in
      let (queue, put, e2) = bind-some (enqueue node l.queue) _ e1 in
      let (v, n) = enqueued node l.queue queue c.valid put in
      rw (← out_some e2) (record { valid = v; count = omega (arith, n, c.count) })

  on_ready-IsCounted :
      (listen_sock master_sock : ℕ) (list : Message) (version fd : ℕ) (closing : Bool)
      (handed : Handed Message) (l l' : Loop os mem cmd_of version_of)
      → IsCounted l
      → on_ready os mem cmd_of version_of listen_sock master_sock list version fd closing l
        ≡ some (handed, l')
      → IsCounted l'
  unfolding on_ready
  on_ready-IsCounted listen_sock master_sock list version fd closing handed l l' c e =
      elim (Bool-cases (fd == listen_sock)) [
        | inl client ↦ rw (← out_some (rw client at e)) (IsCounted-same l _ refl refl c)
        | inr known ↦ elim (Bool-cases closing) [
          | inl ends ↦
              let (service, _, e') =
                bind-some (db_service_stop os mem fd l.service) _ (rw (known, ends) at e) in
              rw (← out_some e') (IsCounted-same l _ refl refl c)
          | inr open_still ↦ elim (Bool-cases (fd == master_sock)) [
            | inl master ↦ rw (← out_some (rw (known, open_still, master) at e)) c
            | inr packet ↦
                let ((phcsock, message, service), _, e') =
                  bind-some (db_recv_msg os mem fd l.service) _
                    (rw (known, open_still, packet) at e) in
                let buf = received os mem cmd_of version_of l.sz_buf message in
                let mid : Loop os mem cmd_of version_of = record l {
                  service = service;
                  sz_buf = buf;
                } in
                on_packet-IsCounted (route (cmd_of buf) (version_of buf) version) list fd phcsock
                  handed mid l' (IsCounted-same l mid refl refl c) e'
          ]
        ]
      ]

  -- The loop and the workers, one after the other.
  pub data Runs (l : Loop os mem cmd_of version_of) : Loop os mem cmd_of version_of → Type 0 where
    here : Runs l l
    handles :
        {d d' : Loop os mem cmd_of version_of} {handed : Handed Message}
        (listen_sock master_sock : ℕ) (list : Message) (version fd : ℕ) (closing : Bool)
        → Runs l d
        → on_ready os mem cmd_of version_of listen_sock master_sock list version fd closing d
          ≡ some (handed, d')
        → Runs l d'
    takes :
        {d d' : Loop os mem cmd_of version_of} {node : QueueNode (ClientSockHandle App)}
        → Runs l d
        → 0 < d.msg_sem
        → take_message os mem cmd_of version_of d ≡ some (node, d')
        → Runs l d'

  Runs-IsCounted : {l l' : Loop os mem cmd_of version_of} → IsCounted l → Runs l l' → IsCounted l'
  Runs-IsCounted c here = c
  Runs-IsCounted c (handles {d} {d'} {handed} ls ms list version fd closing r e) =
      on_ready-IsCounted ls ms list version fd closing handed d d' (Runs-IsCounted c r) e
  Runs-IsCounted c (takes {d} {d'} {node} r h e) =
      let (_, made, run, _, c') = take_message-IsCounted d (Runs-IsCounted c r) h in
      let same : made ≡ d' = out_some (sym run ∙ e) in rw (← same) c'

  server_start-IsCounted :
      (malloc : ℕ → ℕ) (slots : List (QueueNode (ClientSockHandle App))) (zeros : Message)
      (w : os.State)
      → length slots ≡ max_queue_len
      → IsCounted (server_start os mem cmd_of version_of malloc slots zeros w).1
  unfolding server_start init_queue
  server_start-IsCounted malloc slots zeros w h = record {
    valid = init_queue-IsValid malloc slots h;
    count = refl;
  }

  -- Whatever the loop has handled and the workers have taken since the server's start, a worker that
  -- the semaphore lets through finds a message, the oldest one in the queue: the assertion in DeQueue
  -- holds.
  pub Runs-take_message :
      (malloc : ℕ → ℕ) (slots : List (QueueNode (ClientSockHandle App))) (zeros : Message)
      (w : os.State) {l : Loop os mem cmd_of version_of}
      → length slots ≡ max_queue_len
      → Runs (server_start os mem cmd_of version_of malloc slots zeros w).1 l
      → 0 < l.msg_sem
      → (node : QueueNode (ClientSockHandle App)) × (after : Loop os mem cmd_of version_of)
        × (take_message os mem cmd_of version_of l ≡ some (node, after))
        × (contents no_handle l.queue ≡ node ∷ contents no_handle after.queue)
        × IsCounted after
  Runs-take_message malloc slots zeros w {l} h r more =
      take_message-IsCounted l (Runs-IsCounted (server_start-IsCounted malloc slots zeros w h) r)
        more
