-- ===== src/Cluster/Requests/Told.antt =====
-- NotifyAll on packets makes of the slaves what the messages do.
use distributed_db.Common.{
  ℕ, zero, suc, ◌+◌, ◌<◌, ◌≡◌, refl, sym, ◌∙◌, ◌≢◌, inl, inr, some, arith, ◌==◌, ==_iff, ==_of_ne,
  if◌then◌else◌, Bool-cases, Option-cases,
}
use distributed_db.Slaves.{SlaveList, node_at}
use distributed_db.Protocol.Cmd.{Cmd}
use distributed_db.Protocol.Fields.{Packet}
use distributed_db.Socket.{Os, no_sock, send_msg, recv_msg}
use distributed_db.Cluster.{
  SlaveProcess, Message, Network, update, handle_master_request, notify_one as tell_one,
  notify_from as tell_from, notify_all as tell_all,
}
use distributed_db.Cluster.Requests.{notice, notify_from, notify_all}
use distributed_db.Cluster.Requests.Peers.{serving, Carries, hears, on_master_request}

module _ {Text : Type 0} (os : Os (Packet Text)) (junk : Packet Text) (wire : Carries junk os) where
  -- The slaves in the list, but for the one at `pos`, are as `net` has them.
  abbrev pub Speaks : SlaveList → ℕ → Network → os.State → Type 0
  Speaks sl pos net w =
      (i : ℕ)
      → i < sl.num
      → i ≢ pos
      → wire.peer w (node_at sl i).sock ≡ serving (net (node_at sl i).sock)

  -- Every slave in the list is on a connection.
  abbrev pub IsConnected : SlaveList → Type 0
  IsConnected sl = (i : ℕ) → i < sl.num → (node_at sl i).sock ≢ no_sock

  -- A packet is sent on a connection and one is received.
  pub send_recv :
      (sock : ℕ) (packet : Packet Text) (w : os.State)
      → sock ≢ no_sock
      → let sent = os.send sock packet w in
        let got = os.recv sock sent in
        (send_msg os sock packet w ≡ some sent)
        × (recv_msg os sock sent ≡ some got)
        × ((t : ℕ)
            → wire.peer got.1 t
              ≡ (if t == sock then (hears junk packet (wire.peer w sock)).1 else wire.peer w t))
  unfolding send_msg recv_msg
  send_recv sock packet w h =
      let off = ==_of_ne sock no_sock h in
      (
        rw off refl,
        rw off refl,
        λ t. wire.peer-recv sock t (os.send sock packet w) ∙ wire.peer-send sock t packet w,
      )

  module _ (sl : SlaveList) (pos : ℕ) (msg : Message) (packet : Packet Text)
      (connected : IsConnected sl)
      (means : (s s' : SlaveProcess)
        → handle_master_request msg s ≡ some s'
        → (reply : Packet Text) × (on_master_request junk packet.cmd packet s
            ≡ some (some reply, s'))) where
    -- What the round for the slave at `i` does to the others.
    step-Speaks :
        (i : ℕ) (s' : SlaveProcess) (net : Network) (w w' : os.State)
        → i < sl.num
        → Speaks sl pos net w
        → ((t : ℕ)
            → wire.peer w' t ≡ (if t == (node_at sl i).sock then serving s' else wire.peer w t))
        → Speaks sl pos (update net (node_at sl i).sock s') w'
    step-Speaks i s' net w w' h speaks at j hj ne =
        elim (Bool-cases ((node_at sl j).sock == (node_at sl i).sock)) [
          | inl same ↦ rw (at (node_at sl j).sock, same) refl
          | inr other ↦ rw (at (node_at sl j).sock, other) (speaks j hj ne)
        ]

    notify_from-Speaks :
        (n i : ℕ) (net net' : Network) (w : os.State)
        → i + n ≡ sl.num
        → Speaks sl pos net w
        → tell_from sl msg pos n i net ≡ some net'
        → (w' : os.State) × (notify_from os junk packet pos sl n i w ≡ some w')
          × Speaks sl pos net' w'
          × ((t : ℕ)
              → ((j : ℕ) → j < sl.num → j ≢ pos → (node_at sl j).sock ≢ t)
              → wire.peer w' t ≡ wire.peer w t)
    unfolding notify_from tell_from tell_one hears
    notify_from-Speaks zero i net net' w h speaks e =
        let same : net ≡ net' = cc e in (w, refl, rw (← same) speaks, λ t apart. refl)
    notify_from-Speaks (suc n) i net net' w h speaks e = elim (Bool-cases (i == pos)) [
      | inl own ↦
          rw own (notify_from-Speaks n (i + 1) net net' w (omega arith) speaks (rw own at e))
      | inr other ↦
          let ne : i ≢ pos = λ same. cc (other, (==_iff i pos).1 same) in
          let sock = (node_at sl i).sock in
          elim (Option-cases (handle_master_request msg (net sock))) [
            | inl f ↦ absurd (cc (rw (other, f) at e))
            | inr (s', f) ↦
                let (reply, g) = means (net sock) s' f in
                let (sent, got, at) = send_recv sock packet w (connected i (omega arith)) in
                let w₁ = (os.recv sock (os.send sock packet w)).1 in
                let at' : (t : ℕ)
                    → wire.peer w₁ t ≡ (if t == sock then serving s' else wire.peer w t) =
                  λ t. at t ∙ rw (speaks i (omega arith) ne, g) refl in
                let speaks' = step-Speaks i s' net w w₁ (omega arith) speaks at' in
                let (w', run, after, kept) =
                  notify_from-Speaks n (i + 1) (update net sock s') net' w₁ (omega arith) speaks'
                    (rw (other, f) at e) in
                (
                  w',
                  rw (other, sent, got) run,
                  after,
                  λ t apart.
                      kept t apart
                      ∙ at' t
                      ∙ rw (==_of_ne t sock (λ q. apart i (omega arith) ne (sym q))) refl,
                )
          ]
    ]

  -- What NotifyAll sends is what the slaves take the message from.
  abbrev pub Means : Packet Text → Message → Type 0
  Means packet msg =
      (s s' : SlaveProcess)
      → handle_master_request msg s ≡ some s'
      → (reply : Packet Text) × (on_master_request junk packet.cmd packet s ≡ some (some reply, s'))

  -- Every slave but the one at `pos` has handled the message, and no other process has heard any.
  pub notify_all-Speaks :
      (sl : SlaveList) (pos : ℕ) (msg : Message) (cmd : Cmd) (net net' : Network) (w : os.State)
      → IsConnected sl
      → Means (notice os junk cmd pos sl) msg
      → Speaks sl pos net w
      → tell_all sl msg pos net ≡ some net'
      → (w' : os.State) × (notify_all os junk pos cmd sl w ≡ some w')
        × Speaks sl pos net' w'
        × ((t : ℕ)
            → ((j : ℕ) → j < sl.num → j ≢ pos → (node_at sl j).sock ≢ t)
            → wire.peer w' t ≡ wire.peer w t)
  unfolding notify_all tell_all
  notify_all-Speaks sl pos msg cmd net net' w connected means speaks e =
      notify_from-Speaks sl pos msg (notice os junk cmd pos sl) connected means sl.num 0 net net' w
        (omega arith) speaks e
