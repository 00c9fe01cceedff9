-- ===== src/Cluster/Requests/Joined.antt =====
-- ADD_SLAVE on packets is the joining of a slave.
use native.Mathlib.Decide.{ℕ_discrete}
use distributed_db.Common.{
  ℕ, ◌+◌, ◌-◌, ◌<◌, ◌≡◌, refl, sym, ap, ◌∙◌, ◌≢◌, inl, inr, some, arith, ltb, ◌==◌, ==_iff,
  ==_of_ne, if◌then◌else◌, Option-cases, Bool-cases,
}
use distributed_db.Slaves.{SlaveNode, SlaveList, max_slave_num, node_at}
use distributed_db.Protocol.Cmd.{Cmd}
use distributed_db.Protocol.Fields.{Packet}
use distributed_db.Socket.{Os, no_sock, send_msg, recv_msg}
use distributed_db.Master.{add_to_slave_list}
use distributed_db.Master.Join.{add_to_slave_list-IsRing, sock-add_to_slave_list}
use distributed_db.Cluster.{Cluster, Network, new_slave, update, add_slave, notify_all as tell_all}
use distributed_db.Cluster.Members.{Agrees, IsFresh}
use distributed_db.Cluster.Nodes.{node_at-insert_at}
use distributed_db.Cluster.Joins.{join_net}
use distributed_db.Cluster.Requests.{
  MasterProcess, notice, list_reply, on_add_slave, reply_to, handle_request,
}
use distributed_db.Cluster.Requests.Peers.{
  serving, registering, Carries, bare, hears, on_master_request, register,
}
use distributed_db.Cluster.Requests.Told.{Speaks, IsConnected, Means, notify_all-Speaks}

module _ {Text : Type 0} (os : Os (Packet Text)) (junk : Packet Text) (wire : Carries junk os) where
  -- The master process and the slaves at the other ends of its connections are the cluster `c`,
  -- whose master and slaves agree.
  pub record Stands (m : MasterProcess os junk) (c : Cluster) : Type 0 where
    pub list : m.slaves ≡ c.master
    pub agrees : Agrees c
    pub connected : IsConnected os junk wire c.master
    pub peers :
        (i : ℕ)
        → i < c.master.num
        → wire.peer m.world (node_at c.master i).sock ≡ serving (c.net (node_at c.master i).sock)

  new_slave-Means :
      (sl : SlaveList) (p : ℕ)
      → Means os junk wire (notice os junk Cmd.new_slave p sl) (new_slave p (node_at sl p))
  unfolding on_master_request
  new_slave-Means sl p s s' e = (bare junk Cmd.new_slave_r junk.key, rw e refl)

  -- A packet that waits on a connection is received, and nobody hears of it.
  pub recv_waiting :
      (sock : ℕ) (request : Packet Text) (w : os.State)
      → sock ≢ no_sock
      → wire.inbox w sock ≡ some request
      → (recv_msg os sock w ≡ some (some request, (os.recv sock w).1))
        × ((t : ℕ) → wire.peer (os.recv sock w).1 t ≡ wire.peer w t)
  unfolding recv_msg
  recv_waiting sock request w h e =
      let off = ==_of_ne sock no_sock h in
      (
        rw off (λ i. some ((wire.recv sock w ∙ e) i, (os.recv sock w).1)),
        λ t. wire.peer-recv sock t w,
      )

  -- The slave that waits for the reply takes the list and its position from it.
  join_heard :
      (sl : SlaveList) (p sock t : ℕ) (w : os.State)
      → wire.peer w sock ≡ registering
      → wire.peer (os.send sock (list_reply os junk Cmd.add_slave_r p sl) w) t
        ≡ (if t == sock then serving (record { slaves = sl; pos = p }) else wire.peer w t)
  unfolding hears register
  join_heard sl p sock t w e =
      wire.peer-send sock t (list_reply os junk Cmd.add_slave_r p sl) w ∙ rw e refl

  module _ (random ip sock : ℕ) (request : Packet Text) (m : MasterProcess os junk) (c : Cluster)
      (st : Stands m c) (room : c.master.num < max_slave_num) (fresh : IsFresh sock c.master)
      (on : sock ≢ no_sock) (wait : wire.peer m.world sock ≡ registering)
      (sent : wire.inbox m.world sock ≡ some request) (asks : request.cmd ≡ Cmd.add_slave)
      (sl' : SlaveList) (p : ℕ) (own : (node_at sl' p).sock ≡ sock)
      (placed : add_to_slave_list random
          (record { ip = ip; port = request.key; sock = sock; key = 0 })
          c.master
        ≡ some (sl', p))
      (at : (i : ℕ)
        → i < sl'.num
        → node_at sl' i ≡ (
            if ltb i p
            then node_at c.master i
            else if i == p
            then node_at sl' p
            else node_at c.master (i - 1))) where
    -- The other slaves in the new list are on their old connections.
    joined_others :
        (i : ℕ)
        → i < sl'.num
        → sl'.num ≡ c.master.num + 1
        → p < sl'.num
        → i ≢ p
        → (j : ℕ) × (j < c.master.num) × ((node_at sl' i).sock ≡ (node_at c.master j).sock)
    joined_others i h n hp ne = elim (Bool-cases (ltb i p)) [
      | inl low ↦ (i, ground arith, rw (at i h, low) refl)
      | inr high ↦ (i - 1, ground arith, rw (at i h, high, ==_of_ne i p ne) refl)
    ]

    joined_reply :
        (net' : Network)
        → sl'.num ≡ c.master.num + 1
        → p < sl'.num
        → tell_all sl' (new_slave p (node_at sl' p)) p c.net ≡ some net'
        → (m' : MasterProcess os junk) × (handle_request os junk random sock ip m ≡ some m')
          × (m'.slaves ≡ sl')
          × ((i : ℕ)
              → i < sl'.num
              → wire.peer m'.world (node_at sl' i).sock
                ≡ serving
                    (update net' sock (record { slaves = sl'; pos = p }) (node_at sl' i).sock))
    unfolding handle_request reply_to on_add_slave send_msg
    joined_reply net' n hp told =
        let off = ==_of_ne sock no_sock on in
        let (got, same) = recv_waiting sock request m.world on sent in
        let w₀ = (os.recv sock m.world).1 in
        let connected : IsConnected os junk wire sl' = λ i h. elim (ℕ_discrete i p) [
          | yes e ↦ λ bad. on (sym own ∙ ap (λ k. (node_at sl' k).sock) (sym e) ∙ bad)
          | no ne ↦
              let (j, hj, e) = joined_others i h n hp ne in λ bad. st.connected j hj (sym e ∙ bad)
        ] in
        let speaks : Speaks os junk wire sl' p c.net w₀ = λ i h ne.
          let (j, hj, e) = joined_others i h n hp ne in
          rw e (same (node_at c.master j).sock ∙ st.peers j hj) in
        let (w₁, run, after, kept) =
          notify_all-Speaks os junk wire sl' p (new_slave p (node_at sl' p)) Cmd.new_slave c.net
            net' w₀ connected (new_slave-Means sl' p) speaks told in
        let apart : (j : ℕ) → j < sl'.num → j ≢ p → (node_at sl' j).sock ≢ sock =
          λ j h ne bad. let (k, hk, e) = joined_others j h n hp ne in fresh k hk (sym e ∙ bad) in
        let waits : wire.peer w₁ sock ≡ registering = kept sock apart ∙ same sock ∙ wait in
        let w₂ = os.send sock (list_reply os junk Cmd.add_slave_r p sl') w₁ in
        (
          record { slaves = sl'; world = w₂ },
          rw (got, asks, st.list, placed, run, off) refl,
          refl,
          λ i h. join_heard sl' p sock (node_at sl' i).sock w₁ waits ∙ elim (ℕ_discrete i p) [
            | yes e ↦ rw (e, own, (==_iff sock sock).1 refl) refl
            | no ne ↦ rw (==_of_ne (node_at sl' i).sock sock (apart i h ne)) (after i h ne)
          ],
        )

  -- A slave that waits in RegisterAndLoadSlaves, and whose ADD_SLAVE waits on a connection that is
  -- new, joins the cluster: HandleRequest goes through, and leaves the master and the slaves as
  -- `add_slave` does.
  pub handle_request-add_slave :
      (random ip sock : ℕ) (request : Packet Text) (m : MasterProcess os junk) (c : Cluster)
      → Stands m c
      → c.master.num < max_slave_num
      → IsFresh sock c.master
      → sock ≢ no_sock
      → wire.peer m.world sock ≡ registering
      → wire.inbox m.world sock ≡ some request
      → request.cmd ≡ Cmd.add_slave
      → (m' : MasterProcess os junk) × (c' : Cluster) × (handle_request os junk random sock ip m
          ≡ some m')
        × (add_slave random ip request.key sock c ≡ some c')
        × Stands m' c'
  unfolding add_slave
  handle_request-add_slave random ip sock request m c st room fresh on wait sent asks =
      let sn : SlaveNode = record { ip = ip; port = request.key; sock = sock; key = 0 } in
      let a = st.agrees in
      let (sl', p, e, l, hp, n, w, z, g) =
        add_to_slave_list-IsRing random sn c.master a.sized a.ring room in
      let (own, within) = sock-add_to_slave_list random sn c.master sl' p a.sized room e in
      let at = λ (i : ℕ) (h : i < sl'.num).
        node_at-insert_at c.master sl' p i (node_at sl' p) a.sized z n within h l in
      let (c', f, a', same) =
        join_net random ip request.key sock c a room fresh sl' p e n hp l z g in
      elim (Option-cases (tell_all sl' (new_slave p (node_at sl' p)) p c.net)) [
        | inl bad ↦ absurd (cc (rw (e, bad) at f))
        | inr (net', told) ↦
            let (m', run, kept, heard) =
              joined_reply random ip sock request m c st room fresh on wait sent asks sl' p own e at
                net' n hp told in
            let made : c' ≡ record {
              master = sl';
              net = update net' sock (record { slaves = sl'; pos = p });
            } =
              cc (rw (e, told) at f) in
            (
              m',
              c',
              run,
              f,
              record {
                list = kept ∙ sym same;
                agrees = a';
                connected = rw same (λ i h. elim (ℕ_discrete i p) [
                  | yes q ↦ rw (q, own) on
                  | no ne ↦
                      let (j, hj, q) =
                        joined_others random ip sock request m c st room fresh on wait sent asks sl'
                          p own e at i h n hp ne in
                      rw q (st.connected j hj)
                ]);
                peers = rw made heard;
              },
            )
      ]
