-- ===== src/Client/Calls/Opened.antt =====
-- The list that a client opens sends each key where the master's list does.
use native.Mathlib.Decide.{ℕ_discrete}
use distributed_db.Common.{
  ℕ, zero, suc, ◌+◌, ◌≡◌, Bool, true, inl, inr, some, ap, sym, ◌∙◌, ◌≤◌, ◌<◌, length, arith,
  Bool-cases, bind-some,
}
use distributed_db.Slaves.{SlaveList, node_at, set_sock}
use distributed_db.Protocol.Cmd.{Cmd}
use distributed_db.Socket.{Os, open_remote_service2, send_msg, recv_msg}
use distributed_db.Client.Route.{get_socket}
use distributed_db.Client.Route.Same.{
  sock-set_sock, sock-set_other, get_socket-SameKeys, SameKeys, SameKeys-refl, SameKeys-trans,
  set_sock-SameKeys,
}
use distributed_db.Client.Calls.{
  Packet, Globals, received, is, open_request, open_nodes, create, open_all_cloud_nodes,
  read_cloud_nodes,
}

module _ {Text : Type 0} (os : Os (Packet Text)) (g : Globals Text) where
  -- Whether the loop of OpenAllCloudNodes ends early or not, only connections are written.
  pub open_nodes-SameKeys :
      (n i : ℕ) (buf : Packet Text) (sl sl' : SlaveList) (s s' : os.State) (ok : Bool)
      → open_nodes os g n i buf sl s ≡ some (ok, sl', s')
      → SameKeys sl sl'
  unfolding open_nodes
  open_nodes-SameKeys zero i buf sl sl' s s' ok e =
      let same : sl ≡ sl' = cc e in rw (← same) (SameKeys-refl sl)
  open_nodes-SameKeys (suc n) i buf sl sl' s s' ok e =
      let node = node_at sl i in
      let (done, sock, opened) = open_remote_service2 os node.ip node.port s in
      let mid = set_sock i sock sl in
      elim (Bool-cases done) [
        | inr down ↦
            let same : mid ≡ sl' = cc (rw down at e) in rw (← same) (set_sock-SameKeys i sock sl)
        | inl up ↦
            let (sent, _, e1) =
              bind-some (send_msg os sock (open_request os g) opened) _ (rw up at e) in
            let ((reply, after), _, e2) = bind-some (recv_msg os sock sent) _ e1 in
            let buf' = received buf reply in
            elim (Bool-cases (is buf'.cmd Cmd.open_r)) [
              | inr bad ↦
                  let same : mid ≡ sl' = cc (rw bad at e2) in
                  rw (← same) (set_sock-SameKeys i sock sl)
              | inl good ↦
                  SameKeys-trans sl mid sl' (set_sock-SameKeys i sock sl)
                    (open_nodes-SameKeys n (i + 1) buf' mid sl' after s' ok (rw good at e2))
            ]
      ]

  -- The connection of the node at `j` in `sl'` is one that was opened to the node's address.
  abbrev pub IsOpened : SlaveList → SlaveList → ℕ → Type 0
  IsOpened sl sl' j =
      (s : os.State) × (after : os.State) × (open_remote_service2 os (node_at sl j).ip
          (node_at sl j).port s
        ≡ (true, (node_at sl' j).sock, after))

  -- The loop that goes to its end has opened a connection to each node from index `i` on, and has
  -- left those before it.
  open_nodes-IsOpened :
      (n i : ℕ) (buf : Packet Text) (sl sl' : SlaveList) (s s' : os.State)
      → i + n ≤ length sl.nodes
      → open_nodes os g n i buf sl s ≡ some (true, sl', s')
      → ((j : ℕ) → i ≤ j → j < i + n → IsOpened sl sl' j)
        × ((j : ℕ) → j < i → (node_at sl' j).sock ≡ (node_at sl j).sock)
  unfolding open_nodes
  open_nodes-IsOpened zero i buf sl sl' s s' l e =
      let same : sl ≡ sl' = cc e in
      (λ j a b. absurd (omega arith), λ j a. ap (λ x. (node_at x j).sock) (sym same))
  open_nodes-IsOpened (suc n) i buf sl sl' s s' l e =
      let node = node_at sl i in
      let (done, sock, opened) = open_remote_service2 os node.ip node.port s in
      let mid = set_sock i sock sl in
      elim (Bool-cases (open_remote_service2 os node.ip node.port s).0) [
        | inr down ↦ absurd (cc (rw down at e))
        | inl up ↦
            let (sent, _, e1) =
              bind-some (send_msg os sock (open_request os g) opened) _ (rw up at e) in
            let ((reply, after), _, e2) = bind-some (recv_msg os sock sent) _ e1 in
            let buf' = received buf reply in
            elim (Bool-cases (is buf'.cmd Cmd.open_r)) [
              | inr bad ↦ absurd (cc (rw bad at e2))
              | inl good ↦
                  let kept = set_sock-SameKeys i sock sl in
                  let (later, before) =
                    open_nodes-IsOpened n (i + 1) buf' mid sl' after s'
                      (rw kept.array (omega arith)) (rw good at e2) in
                  (
                    λ j a b. elim (ℕ_discrete j i) [
                      | yes here ↦
                          let at : sock ≡ (node_at sl' i).sock = sym (
                            before i (omega arith) ∙ sock-set_sock sl.nodes i sock (omega arith)) in
                          let first : IsOpened sl sl' i = (s, opened, λ k. (up k, at k, opened)) in
                          rw here first
                      | no there ↦
                          let (s₀, s₁, run) = later j (omega arith) (omega arith) in
                          (s₀, s₁, rw (← kept.ip j, ← kept.port j) run)
                    ],
                    λ j a. before j (omega arith) ∙ sock-set_other sl.nodes i j sock (omega arith),
                  )
            ]
      ]

  all-IsOpened :
      (sl sl' : SlaveList) (buf : Packet Text) (s s' : os.State)
      → open_nodes os g sl.num 0 buf sl s ≡ some (true, sl', s')
      → sl.num ≤ length sl.nodes
      → (j : ℕ) → j < sl.num
      → IsOpened sl sl' j
  all-IsOpened sl sl' buf s s' e room j l =
      (open_nodes-IsOpened sl.num 0 buf sl sl' s s' (omega arith) e).0 j (omega arith) (omega arith)

  -- A database that DBCreate returns is the list that ReadCloudNodes has left, with the same version,
  -- count and keys and addresses of the nodes, so that each key goes where that list sends it. If the
  -- array has room for the count, each node's connection is one that was opened to that node's address.
  pub create-SameKeys :
      (allocated slaves : SlaveList) (s after : os.State)
      → create os g allocated s ≡ some (some slaves, after)
      → (ok : Bool) × (list : SlaveList) × (read : os.State) × (read_cloud_nodes os g allocated s
          ≡ some (ok, list, read))
        × SameKeys list slaves
        × ((key : ℕ) → get_socket slaves key ≡ get_socket list key)
        × (list.num ≤ length list.nodes → (j : ℕ) → j < list.num → IsOpened list slaves j)
  unfolding create open_all_cloud_nodes
  create-SameKeys allocated slaves s after e =
      let ((done, opened, last), e1, e2) = bind-some (open_all_cloud_nodes os g allocated s) _ e in
      let ((ok, list, read), run, e3) = bind-some (read_cloud_nodes os g allocated s) _ e1 in
      let same : opened ≡ slaves = elim (Bool-cases done) [
        | inl up ↦ cc (rw up at e2)
        | inr down ↦ cc (rw down at e2)
      ] in
      let good : done ≡ true = elim (Bool-cases done) [
        | inl up ↦ up
        | inr down ↦ absurd (cc (rw down at e2))
      ] in
      let kept = rw same at (open_nodes-SameKeys list.num 0 g.junk list opened read last done e3) in
      (
        ok,
        list,
        read,
        run,
        kept,
        λ key. get_socket-SameKeys list slaves key kept,
        all-IsOpened list slaves g.junk read last (e3 ∙ λ k. some (good k, same k, last)),
      )
