-- ===== src/Client/Calls/Reopen.antt =====
-- Before it asks again, a client closes its connections, reads the master's list and opens all the
-- slaves in it.
use distributed_db.Common.{
  ℕ, zero, suc, ◌+◌, ◌≤◌, ◌<◌, ◌≡◌, ◌≢◌, refl, ◌∙◌, inl, inr, Bool, true, false, some, arith, ◌==◌,
  ==_of_ne, if◌then◌else◌, Bool-cases, length, get_or-set,
}
use distributed_db.Slaves.{SlaveList, node_at, set_sock}
use distributed_db.Protocol.Cmd.{Cmd}
use distributed_db.Socket.{
  Os, no_sock, open_remote_service2, close_remote_service, send_msg, recv_msg,
}
use distributed_db.Client.Route.Same.{SameKeys, SameKeys-refl, SameKeys-trans, set_sock-SameKeys}
use distributed_db.Client.Calls.{
  exchange_packet, Packet, Globals, received, is, close_request, open_request, list_request,
  read_cloud_nodes, open_nodes, open_all_cloud_nodes, close_nodes, close_all_cloud_nodes, reopen,
}
use distributed_db.Client.Calls.Serving.{talk, Connects, Serving}

module _ {Text : Type 0} (os : Os (Packet Text)) (g : Globals Text) (list : SlaveList)
    (store : Serving os g list) where
  open store use {Ready, Up}

  pub sends :
      (sock : ℕ) (p : Packet Text) (s : os.State)
      → sock ≢ no_sock
      → send_msg os sock p s ≡ some (os.send sock p s)
  unfolding send_msg
  sends sock p s n = rw (==_of_ne sock no_sock n) refl

  pub receives :
      (sock : ℕ) (s : os.State) → sock ≢ no_sock → recv_msg os sock s ≡ some (os.recv sock s)
  unfolding recv_msg
  receives sock s n = rw (==_of_ne sock no_sock n) refl

  -- CloseAllCloudNodes goes through, whatever the servers answer.
  close_nodes_total :
      (except n i : ℕ) (buf : Packet Text) (sl : SlaveList) (s : os.State)
      → ((j : ℕ) → j < i + n → (node_at sl j).sock ≢ no_sock)
      → Ready s
      → (ok : Bool) × (after : os.State) × (close_nodes os g except n i buf sl s ≡ some (ok, after))
        × Ready after
  unfolding close_nodes close_remote_service
  close_nodes_total except zero i buf sl s v r = (true, s, refl, r)
  close_nodes_total except (suc n) i buf sl s v r =
      let sock = (node_at sl i).sock in
      let request = close_request os g sl.version in
      let valid = v i (omega arith) in
      let (reply, after) = talk os g sock request s in
      let r' : Ready after = store.talks sock request s r in
      let buf' = received buf reply in
      let v' : (j : ℕ) → j < i + 1 + n → (node_at sl j).sock ≢ no_sock = λ j h. v j (omega arith) in
      elim (Bool-cases (sock == except)) [
        | inl here ↦
            let (ok, last, run, ready) = close_nodes_total except n (i + 1) buf sl s v' r in
            (ok, last, rw here run, ready)
        | inr other ↦ elim (Bool-cases (is buf'.cmd Cmd.cmd_fail)) [
          | inl bad ↦ (
            false,
            after,
            rw (other, sends sock request s valid, receives sock _ valid, bad) refl,
            r',
          )
          | inr good ↦
              let (ok, last, run, ready) =
                close_nodes_total except n (i + 1) buf' sl (os.close sock after) v'
                  (store.closes sock after r') in
              (
                ok,
                last,
                rw (other, sends sock request s valid, receives sock _ valid, good) run,
                ready,
              )
        ]
      ]

  read_total :
      (sl : SlaveList) (s : os.State)
      → Ready s
      → (after : os.State) × (read_cloud_nodes os g sl s ≡ some (true, list, after)) × Ready after
  unfolding read_cloud_nodes exchange_packet
  read_total sl s r =
      let (d, right, has, ready) = store.lists s r in
      (
        d.after,
        rw
            (
              d.dialled,
              sends d.sock (list_request os g) d.opened d.valid,
              receives d.sock (os.send d.sock (list_request os g) d.opened) d.valid,
              d.talked,
              right,
              has,
            )
            refl,
        ready,
      )

  -- The loop of OpenAllCloudNodes stands at index `i`.
  pub record Opening (i : ℕ) (sl : SlaveList) (s : os.State) : Type 0 where
    pub same : SameKeys list sl
    pub rest : (j : ℕ) → i ≤ j → node_at sl j ≡ node_at list j
    pub ups : (j : ℕ) → j < i → Up s (node_at sl j).sock

  node_at-set_sock :
      (i j sock : ℕ) (sl : SlaveList)
      → i < length sl.nodes
      → node_at (set_sock i sock sl) j
        ≡ (if i == j then record (node_at sl i) { sock = sock } else node_at sl j)
  node_at-set_sock i j sock sl h = get_or-set sl.nodes i j _ _ h

  opens_here :
      (i : ℕ) (sl : SlaveList) (s : os.State)
      → node_at sl i ≡ node_at list i
      → i < list.num
      → Ready s
      → (d : Connects os g
          (open_remote_service2 os (node_at sl i).ip (node_at sl i).port)
          (open_request os g)
          s)
        × (is d.reply.cmd Cmd.open_r ≡ true)
        × Ready d.after
        × Up d.after d.sock
        × ((t : ℕ) → Up s t → Up d.after t)
  opens_here i sl s e h r = rw e (store.opens i s h r)

  open_step :
      (n i : ℕ) (buf : Packet Text) (sl : SlaveList) (s : os.State)
      (d : Connects os g
        (open_remote_service2 os (node_at sl i).ip (node_at sl i).port)
        (open_request os g)
        s)
      → is d.reply.cmd Cmd.open_r ≡ true
      → open_nodes os g (suc n) i buf sl s
        ≡ open_nodes os g n (i + 1) d.reply (set_sock i d.sock sl) d.after
  unfolding open_nodes
  open_step n i buf sl s d right =
      rw
        (
          d.dialled,
          sends d.sock (open_request os g) d.opened d.valid,
          receives d.sock (os.send d.sock (open_request os g) d.opened) d.valid,
          d.talked,
          right,
        )
        refl

  open_nodes_total :
      (n i : ℕ) (buf : Packet Text) (sl : SlaveList) (s : os.State)
      → i + n ≡ list.num
      → list.num ≤ length list.nodes
      → Opening i sl s
      → Ready s
      → (sl' : SlaveList) × (after : os.State) × (open_nodes os g n i buf sl s
          ≡ some (true, sl', after))
        × Opening list.num sl' after
        × Ready after
  unfolding open_nodes
  open_nodes_total zero i buf sl s e v x r =
      let at : i ≡ list.num = omega arith in (sl, s, refl, rw (← at) x, r)
  open_nodes_total (suc n) i buf sl s e v x r =
      let (d, right, ready, up, kept) =
        opens_here i sl s (x.rest i (omega arith)) (omega arith) r in
      let mid = set_sock i d.sock sl in
      let sock = λ (j : ℕ). node_at-set_sock i j d.sock sl (omega (arith, x.same.array)) in
      let y : Opening (i + 1) mid d.after = record {
        same = SameKeys-trans list sl mid x.same (set_sock-SameKeys i d.sock sl);
        rest = λ j h. sock j ∙ rw (==_of_ne i j (omega arith)) (x.rest j (omega arith));
        ups = λ j h. elim (Bool-cases (i == j)) [
          | inl here ↦ rw (sock j, here) up
          | inr other ↦ rw (sock j, other) (kept _ (x.ups j (ground arith)))
        ];
      } in
      let (sl', last, run, z, ready') =
        open_nodes_total n (i + 1) d.reply mid d.after (omega arith) v y ready in
      (sl', last, open_step n i buf sl s d right ∙ run, z, ready')

  -- So the client has the master's list, with connections to all of its slaves.
  pub reopen_total :
      (except : ℕ) (sl : SlaveList) (s : os.State)
      → list.num ≤ length list.nodes
      → ((j : ℕ) → j < sl.num → (node_at sl j).sock ≢ no_sock)
      → Ready s
      → (sl' : SlaveList) × (after : os.State) × (reopen os g except sl s ≡ some (sl', after))
        × Opening list.num sl' after
        × Ready after
  unfolding reopen close_all_cloud_nodes open_all_cloud_nodes
  reopen_total except sl s v valid r =
      let (ok, closed, run, r1) =
        close_nodes_total except sl.num 0 g.junk sl s (λ j h. valid j (omega arith)) r in
      let (read, run', r2) = read_total sl closed r1 in
      let x : Opening 0 list read = record {
        same = SameKeys-refl list;
        rest = λ j h. refl;
        ups = λ j h. absurd (omega arith);
      } in
      let (sl', after, run'', y, r3) =
        open_nodes_total list.num 0 g.junk list read (omega arith) v x r2 in
      (sl', after, rw (run, run', run'') refl, y, r3)
