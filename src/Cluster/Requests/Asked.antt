-- ===== src/Cluster/Requests/Asked.antt =====
-- What the master answers to a request that is neither ADD_SLAVE nor DEL_SLAVE.
use distributed_db.Common.{
  ℕ, ◌≡◌, refl, ◌∙◌, ◌≢◌, inl, inr, some, false, ==_of_ne, if◌then◌else◌, Bool-cases,
}
use distributed_db.Slaves.{node_at}
use distributed_db.Protocol.Cmd.{Cmd}
use distributed_db.Protocol.Fields.{Packet, is}
use distributed_db.Socket.{Os, no_sock, send_msg, service_stop}
use distributed_db.Cluster.{Cluster}
use distributed_db.Cluster.Members.{IsFresh}
use distributed_db.Cluster.Requests.{MasterProcess, zeros, list_reply, reply_to, handle_request}
use distributed_db.Cluster.Requests.Peers.{Carries}
use distributed_db.Cluster.Requests.Joined.{Stands, recv_waiting}

module _ {Text : Type 0} (os : Os (Packet Text)) (junk : Packet Text) (wire : Carries junk os) where
  -- The list for GET_LIST, and zeros for anything else.
  abbrev pub answer_to : Packet Text → MasterProcess os junk → Packet Text
  answer_to request m =
      if is request.cmd Cmd.get_list
      then list_reply os junk Cmd.get_list_r junk.key m.slaves
      else zeros

  reply_asked :
      (random sock ip : ℕ) (request : Packet Text) (m : MasterProcess os junk)
      → is request.cmd Cmd.add_slave ≡ false
      → is request.cmd Cmd.del_slave ≡ false
      → reply_to os junk random sock ip request m ≡ some (answer_to request m, m)
  unfolding reply_to
  reply_asked random sock ip request m no_add no_del =
      elim (Bool-cases (is request.cmd Cmd.get_list)) [
        | inl asks ↦ rw asks refl
        | inr other ↦ rw (other, no_add, no_del) refl
      ]

  -- Another request than ADD_SLAVE and DEL_SLAVE, on a connection that is no slave's, is answered on
  -- it and ends it: with the master's list if it is GET_LIST, with zeros if not. The list stays as it
  -- is, and no slave hears of it.
  pub handle_request_asked :
      (random ip sock : ℕ) (request : Packet Text) (m : MasterProcess os junk) (c : Cluster)
      → Stands os junk wire m c
      → IsFresh sock c.master
      → sock ≢ no_sock
      → wire.inbox m.world sock ≡ some request
      → is request.cmd Cmd.add_slave ≡ false
      → is request.cmd Cmd.del_slave ≡ false
      → let w = os.close sock (os.send sock (answer_to request m) (os.recv sock m.world).1) in
        let m' : MasterProcess os junk = record { slaves = m.slaves; world = w } in
        (handle_request os junk random sock ip m ≡ some m') × Stands os junk wire m' c
  unfolding handle_request send_msg service_stop
  handle_request_asked random ip sock request m c st fresh on sent no_add no_del =
      let off = ==_of_ne sock no_sock on in
      let (got, same) = recv_waiting os junk wire sock request m.world on sent in
      let w₀ = (os.recv sock m.world).1 in
      let w₁ = os.send sock (answer_to request m) w₀ in
      let m₀ : MasterProcess os junk = record { slaves = m.slaves; world = w₀ } in
      (
        rw (got, reply_asked random sock ip request m₀ no_add no_del, off, no_add) refl,
        record {
          list = st.list;
          agrees = st.agrees;
          connected = st.connected;
          peers = λ i h.
              let t = (node_at c.master i).sock in
              wire.peer-close sock t w₁
              ∙ rw (==_of_ne t sock (fresh i h)) refl
              ∙ wire.peer-send sock t (answer_to request m) w₀
              ∙ rw (==_of_ne t sock (fresh i h)) (same t ∙ st.peers i h);
        },
      )
