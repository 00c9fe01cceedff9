-- ===== src/Cluster/Requests/Peers.antt =====
-- The slaves at the other ends of the master's connections, on packets: RegisterAndLoadSlaves,
-- HandleMasterRequest and ShutDownSlave of server/slave.c.
use distributed_db.Common.{ℕ, ◌≡◌, ◌≢◌, Option, none, some, ◌>>=◌, ◌==◌, if◌then◌else◌}
use distributed_db.Protocol.Cmd.{Cmd}
use distributed_db.Protocol.Fields.{empty, Packet, is, list_of, node_of}
use distributed_db.Socket.{Os}
use distributed_db.Cluster.{SlaveProcess, new_slave, rm_slave, handle_master_request}

-- `junk` is what the fields of a header hold that are not set.
module _ {Text : Type 0} (junk : Packet Text) where
  abbrev pub bare : Cmd → ℕ → Packet Text
  bare cmd key = record { cmd = cmd; key = key; version = junk.version; content = empty }

  -- What RegisterAndLoadSlaves and ShutDownSlave send.
  abbrev pub join_request : ℕ → Packet Text
  join_request port = bare Cmd.add_slave port

  abbrev pub leave_request : ℕ → Packet Text
  leave_request pos = bare Cmd.del_slave pos

  -- RegisterAndLoadSlaves, with the reply; `none` is the failed assertion, or a reply with no list.
  unfoldable pub register : Packet Text → Option SlaveProcess
  register reply = do
    slaves ← if is reply.cmd Cmd.add_slave_r then list_of reply.content else none
    some (record { slaves = slaves; pos = reply.key })

  -- HandleMasterRequest on the packet received, with the reply if there is one. What the data files
  -- go through besides is in Copies.
  unfoldable pub on_master_request :
      Cmd → Packet Text → SlaveProcess → Option (Option (Packet Text) × SlaveProcess)
  on_master_request Cmd.new_slave packet s = do
    sn ← node_of packet.content
    s' ← handle_master_request (new_slave packet.key sn) s
    some (some (bare Cmd.new_slave_r junk.key), s')
  on_master_request Cmd.rm_slave packet s = do
    s' ← handle_master_request (rm_slave packet.key) s
    some (some (bare Cmd.rm_slave_r junk.key), s')
  on_master_request Cmd.update_backup12 packet s =
      some (some (bare Cmd.update_backup12_r junk.key), s)
  on_master_request cmd packet s = some (none, s)

  -- What a process at the other end does: it is in its loop, or it waits in RegisterAndLoadSlaves
  -- or in ShutDownSlave for the reply to what it has sent, or the connection was closed on it, or it
  -- has ended, or has failed.
  pub data Peer : Type 0 where
    serving : SlaveProcess → Peer
    registering : Peer
    leaving : Peer
    cut_off : Peer
    ended : Peer
    crashed : Peer

  abbrev handled : Option (Option (Packet Text) × SlaveProcess) → Option (Packet Text) × Peer
  handled none = (none, crashed)
  handled (some (reply, s)) = (reply, serving s)

  abbrev registered : Option SlaveProcess → Peer
  registered none = crashed
  registered (some s) = serving s

  -- What a packet from the master makes it send and become.
  unfoldable pub hears : Packet Text → Peer → Option (Packet Text) × Peer
  unfolding on_master_request register
  hears packet (serving s) = handled (on_master_request packet.cmd packet s)
  hears packet registering = (none, registered (register packet))
  hears packet leaving = (none, if is packet.cmd Cmd.del_slave_r then ended else crashed)
  hears packet cut_off = (none, cut_off)
  hears packet ended = (none, ended)
  hears packet crashed = (none, crashed)

  -- What becomes of a process when the master closes the connection to it: from then on it hears
  -- nothing. One that has ended or failed stays so.
  unfoldable pub hangs_up : Peer → Peer
  hangs_up (serving s) = cut_off
  hangs_up registering = cut_off
  hangs_up leaving = cut_off
  hangs_up cut_off = cut_off
  hangs_up ended = ended
  hangs_up crashed = crashed

  -- The connections carry what is sent: whoever is at the other end of one hears it, and what it
  -- sends back is received next. A connection that is closed carries no more, and changes no other. A
  -- connection that is accepted is none of those there are.
  pub record Carries (os : Os (Packet Text)) : Type 0 where
    pub peer : os.State → ℕ → Peer
    pub inbox : os.State → ℕ → Option (Packet Text)
    pub peer-send :
        (sock t : ℕ) (p : Packet Text) (s : os.State)
        → peer (os.send sock p s) t ≡ (if t == sock then (hears p (peer s sock)).1 else peer s t)
    pub inbox-send :
        (sock : ℕ) (p : Packet Text) (s : os.State)
        → inbox (os.send sock p s) sock ≡ (hears p (peer s sock)).0
    pub recv : (sock : ℕ) (s : os.State) → (os.recv sock s).0 ≡ inbox s sock
    pub peer-recv : (sock t : ℕ) (s : os.State) → peer (os.recv sock s).1 t ≡ peer s t
    pub peer-close :
        (sock t : ℕ) (s : os.State)
        → peer (os.close sock s) t ≡ (if t == sock then hangs_up (peer s sock) else peer s t)
    pub peer-accept :
        (listen_sock t : ℕ) (s : os.State)
        → t ≢ (os.accept listen_sock s).0.0
        → peer (os.accept listen_sock s).1 t ≡ peer s t
