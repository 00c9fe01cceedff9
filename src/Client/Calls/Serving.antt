-- ===== src/Client/Calls/Serving.antt =====
-- The store as a client meets it: what the client's calls rely on of the master and the slaves.
use distributed_db.Common.{ℕ, ◌<◌, ◌≡◌, ◌≢◌, Bool, true, false, Option, some}
use distributed_db.Slaves.{SlaveList, node_at}
use distributed_db.Protocol.Cmd.{Cmd}
use distributed_db.Socket.{Os, no_sock, open_remote_service, open_remote_service2}
use distributed_db.Client.Calls.{Packet, Globals, list_of, is, list_request, open_request}

module _ {Text : Type 0} (os : Os (Packet Text)) (g : Globals Text) where
  -- A message and what is received next on the same connection.
  abbrev pub talk : ℕ → Packet Text → os.State → Option (Packet Text) × os.State
  talk sock packet s = os.recv sock (os.send sock packet s)

  -- A connection is made, and a request on it is answered.
  pub record Connects (dial : os.State → Bool × ℕ × os.State) (request : Packet Text) (s : os.State)
      : Type 0 where
    pub sock : ℕ
    pub opened : os.State
    pub reply : Packet Text
    pub after : os.State
    pub dialled : dial s ≡ (true, sock, opened)
    pub valid : sock ≢ no_sock
    pub talked : talk sock request opened ≡ (some reply, after)

  -- While nobody joins or leaves, the master answers with its list `list`, the slaves in it accept
  -- connections and open the database, and a request with the list's version on a connection to a
  -- slave is answered by something else than UPDATE_VERSION. Nothing that a client does on its
  -- connections changes that.
  pub record Serving (list : SlaveList) : Type 1 where
    pub Ready : os.State → Type 0
    pub Up : os.State → ℕ → Type 0
    pub lists :
        (s : os.State)
        → Ready s
        → (d : Connects (open_remote_service os g.master_addr g.master_port) (list_request os g) s)
          × (is d.reply.cmd Cmd.get_list_r ≡ true)
          × (list_of d.reply.content ≡ some list)
          × Ready d.after
    pub opens :
        (i : ℕ) (s : os.State)
        → i < list.num
        → Ready s
        → (d : Connects
            (open_remote_service2 os (node_at list i).ip (node_at list i).port)
            (open_request os g)
            s)
          × (is d.reply.cmd Cmd.open_r ≡ true)
          × Ready d.after
          × Up d.after d.sock
          × ((t : ℕ) → Up s t → Up d.after t)
    pub talks :
        (sock : ℕ) (packet : Packet Text) (s : os.State) → Ready s → Ready (talk sock packet s).1
    pub closes : (sock : ℕ) (s : os.State) → Ready s → Ready (os.close sock s)
    pub valid : (s : os.State) (t : ℕ) → Up s t → t ≢ no_sock
    pub answers :
        (sock : ℕ) (packet : Packet Text) (s : os.State)
        → Ready s
        → Up s sock
        → packet.version ≡ list.version
        → (reply : Packet Text) × (after : os.State) × (talk sock packet s ≡ (some reply, after))
          × (is reply.cmd Cmd.update_version ≡ false)
