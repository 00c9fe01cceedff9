-- ===== src/Cluster/Requests/Left.antt =====
-- DEL_SLAVE on packets is the leaving of a slave.
use distributed_db.Common.{
  ℕ, ◌+◌, ◌<◌, ◌≡◌, refl, ◌∙◌, ◌≢◌, inl, inr, some, arith, ltb, ◌==◌, ==_iff, ==_of_ne,
  if◌then◌else◌, Option-cases, Bool-cases,
}
use distributed_db.Slaves.{SlaveList, node_at, remove_slave}
use distributed_db.Protocol.Cmd.{Cmd}
use distributed_db.Protocol.Fields.{Packet}
use distributed_db.Socket.{Os, no_sock, send_msg, service_stop}
use distributed_db.Master.Leave.{remove_slave-IsRing}
use distributed_db.Cluster.{Cluster, Network, rm_slave, del_slave, notify_all as tell_all}
use distributed_db.Cluster.Nodes.{node_at-remove_at}
use distributed_db.Cluster.Leaves.{del_slave_lem}
use distributed_db.Cluster.Requests.{
  MasterProcess, notice, header_reply, on_del_slave, reply_to, handle_request,
}
use distributed_db.Cluster.Requests.Peers.{
  serving, leaving, ended, Carries, bare, hears, hangs_up, on_master_request,
}
use distributed_db.Cluster.Requests.Told.{Speaks, Means, notify_all-Speaks}
use distributed_db.Cluster.Requests.Joined.{Stands, recv_waiting}

module _ {Text : Type 0} (os : Os (Packet Text)) (junk : Packet Text) (wire : Carries junk os) where
  rm_slave-Means :
      (sl : SlaveList) (p : ℕ) → Means os junk wire (notice os junk Cmd.rm_slave p sl) (rm_slave p)
  unfolding on_master_request
  rm_slave-Means sl p s s' e = (bare junk Cmd.rm_slave_r junk.key, rw e refl)

  module _ (random ip : ℕ) (request : Packet Text) (m : MasterProcess os junk) (c : Cluster)
      (st : Stands os junk wire m c) (w : os.State) (h : request.key < c.master.num)
      (left : (t : ℕ)
        → wire.peer w t
          ≡ (if t == (node_at c.master request.key).sock then leaving else wire.peer m.world t))
      (sent : wire.inbox w (node_at c.master request.key).sock ≡ some request)
      (asks : request.cmd ≡ Cmd.del_slave) where
    abbrev asker : ℕ
    asker = (node_at c.master request.key).sock

    asker_apart : (j : ℕ) → j < c.master.num → j ≢ request.key → (node_at c.master j).sock ≢ asker
    asker_apart j hj ne e = ne (st.agrees.apart j request.key hj h e)

    left_reply :
        (sl' : SlaveList) (net' : Network)
        → remove_slave request.key c.master ≡ some sl'
        → tell_all c.master (rm_slave request.key) request.key c.net ≡ some net'
        → (m' : MasterProcess os junk) × (handle_request os junk random asker ip
              (record { slaves = m.slaves; world = w })
            ≡ some m')
          × (m'.slaves ≡ sl')
          × (wire.peer m'.world asker ≡ ended)
          × ((j : ℕ)
              → j < c.master.num
              → j ≢ request.key
              → wire.peer m'.world (node_at c.master j).sock
                ≡ serving (net' (node_at c.master j).sock))
    unfolding handle_request reply_to on_del_slave send_msg service_stop hears hangs_up
    left_reply sl' net' removed told =
        let on = st.connected request.key h in
        let off = ==_of_ne asker no_sock on in
        let (got, same) = recv_waiting os junk wire asker request w on sent in
        let w₀ = (os.recv asker w).1 in
        let speaks : Speaks os junk wire c.master request.key c.net w₀ = λ j hj ne.
          same (node_at c.master j).sock
          ∙ left (node_at c.master j).sock
          ∙ rw (==_of_ne (node_at c.master j).sock asker (asker_apart j hj ne)) (st.peers j hj) in
        let (w₁, run, after, kept) =
          notify_all-Speaks os junk wire c.master request.key (rm_slave request.key) Cmd.rm_slave
            c.net net' w₀ st.connected (rm_slave-Means c.master request.key) speaks told in
        let waits : wire.peer w₁ asker ≡ leaving =
          kept asker asker_apart
          ∙ same asker
          ∙ left asker
          ∙ rw ((==_iff asker asker).1 refl) refl in
        let reply = header_reply os junk Cmd.del_slave_r in
        let w₂ = os.send asker reply w₁ in
        (
          record { slaves = sl'; world = os.close asker w₂ },
          rw (got, asks, st.list, run, removed, off) refl,
          refl,
          wire.peer-close asker asker w₂
              ∙ rw
                  (
                    (==_iff asker asker).1 refl,
                    wire.peer-send asker asker reply w₁,
                    (==_iff asker asker).1 refl,
                    waits,
                  )
                  refl,
          λ j hj ne.
              wire.peer-close asker (node_at c.master j).sock w₂
              ∙ rw (==_of_ne (node_at c.master j).sock asker (asker_apart j hj ne)) refl
              ∙ wire.peer-send asker (node_at c.master j).sock reply w₁
              ∙ rw (==_of_ne (node_at c.master j).sock asker (asker_apart j hj ne)) (after j hj ne),
        )

    -- The slaves in the new list are others of the old.
    left_others :
        (sl' : SlaveList)
        → ((i : ℕ)
            → i < sl'.num
            → node_at sl' i
              ≡ (if ltb i request.key then node_at c.master i else node_at c.master (i + 1)))
        → sl'.num + 1 ≡ c.master.num
        → (i : ℕ) → i < sl'.num
        → (j : ℕ) × (j < c.master.num)
          × (j ≢ request.key)
          × ((node_at sl' i).sock ≡ (node_at c.master j).sock)
    left_others sl' at n i hi = elim (Bool-cases (ltb i request.key)) [
      | inl low ↦ (i, omega arith, ground arith, rw (at i hi, low) refl)
      | inr high ↦ (i + 1, omega arith, ground arith, rw (at i hi, high) refl)
    ]

  -- A slave in use that has sent DEL_SLAVE with its position, and waits in ShutDownSlave, leaves
  -- the cluster: HandleRequest goes through, the slave has the reply that it asserts, and the master
  -- and the slaves left are as `del_slave` leaves them.
  pub handle_request-del_slave :
      (random ip : ℕ) (request : Packet Text) (m : MasterProcess os junk) (c : Cluster)
      → Stands os junk wire m c
      → (w : os.State) → request.key < c.master.num
      → ((t : ℕ)
          → wire.peer w t
            ≡ (if t == (node_at c.master request.key).sock then leaving else wire.peer m.world t))
      → wire.inbox w (node_at c.master request.key).sock ≡ some request
      → request.cmd ≡ Cmd.del_slave
      → let sock = (node_at c.master request.key).sock in
        (m' : MasterProcess os junk) × (c' : Cluster) × (handle_request os junk random sock ip
            (record { slaves = m.slaves; world = w })
          ≡ some m')
        × (del_slave request.key c ≡ some c')
        × Stands os junk wire m' c'
        × (wire.peer m'.world sock ≡ ended)
  unfolding del_slave
  handle_request-del_slave random ip request m c st w h left sent asks =
      let p = request.key in
      let a = st.agrees in
      let (sl', e, l, n, v, z, g) = remove_slave-IsRing p c.master a.sized a.ring h in
      let at = λ (i : ℕ) (hi : i < sl'.num). node_at-remove_at c.master sl' p i a.sized z n hi l in
      let (c', f, a', _, _) = del_slave_lem p c a h in
      elim (Option-cases (tell_all c.master (rm_slave p) p c.net)) [
        | inl bad ↦ absurd (cc (rw bad at f))
        | inr (net', told) ↦
            let (m', run, kept, gone, heard) =
              left_reply random ip request m c st w h left sent asks sl' net' e told in
            let others = left_others random ip request m c st w h left sent asks sl' at n in
            let made : record { master = sl'; net = net' } ≡ c' = cc (rw (told, e) at f) in
            (
              m',
              c',
              run,
              f,
              rw (← made) (record {
                list = kept;
                agrees = rw made a';
                connected = λ i hi. let (j, hj, ne, q) = others i hi in rw q (st.connected j hj);
                peers = λ i hi. let (j, hj, ne, q) = others i hi in rw q (heard j hj ne);
              }),
              gone,
            )
      ]
