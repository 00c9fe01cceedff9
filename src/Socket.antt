-- ===== src/Socket.antt =====
-- The connections of common/Socket.c, over the calls of the operating system.
use distributed_db.Common.{ℕ, Bool, true, false, Option, none, some, ◌==◌, if◌then◌else◌}

-- The bit pattern of -1, which is no connection.
abbrev pub no_sock : ℕ
no_sock = 4294967295

-- What the code calls, on messages of one size. Addresses are as inet_addr gives them, and
-- `local_addr` is that of LOCAL_ADDR. `connect`, `bind` and `listen` are false where the call fails;
-- `accept` gives the connection and the address of the other side; `recv` is none where its result
-- is 0 or negative, and the buffer is then as it was.
pub record Os (Message : Type 0) : Type 1 where
  pub State : Type 0
  pub local_addr : ℕ
  pub socket : State → ℕ × State
  pub reuse : ℕ → State → State
  pub bind : ℕ → ℕ → ℕ → State → Bool × State
  pub listen : ℕ → State → Bool × State
  pub accept : ℕ → State → (ℕ × ℕ) × State
  pub connect : ℕ → ℕ → ℕ → State → Bool × State
  pub send : ℕ → Message → State → State
  pub recv : ℕ → State → Option Message × State
  pub close : ℕ → State → State
  pub port_of : ℕ → State → ℕ

module _ {Message : Type 0} (os : Os Message) where
  open os use {State, local_addr, socket, reuse, bind, listen, accept, connect, send, recv, close}

  -- Without an address, INADDR_ANY, which is 0, or LOCAL_ADDR.
  addr_or : ℕ → Option ℕ → ℕ
  addr_or other none = other
  addr_or other (some addr) = addr

  -- Whether 0 is returned, and the descriptor.
  unfoldable pub initialize_service : Option ℕ → ℕ → State → Bool × ℕ × State
  unfolding addr_or
  initialize_service addr port s =
      let (listen_sock, opened) = socket s in
      let reused = reuse listen_sock opened in
      let (bound, at_port) = bind listen_sock (addr_or 0 addr) port reused in
      let (listens, listening) = listen listen_sock at_port in
      if listen_sock == no_sock
      then (false, listen_sock, reused)
      else if bound
      then (listens, listen_sock, listening)
      else (false, listen_sock, at_port)

  pub shutdown_service : ℕ → State → State
  shutdown_service listen_sock s = close listen_sock s

  -- Whether 0 is returned, the descriptor, and the address, which is only set then.
  unfoldable pub service_start : ℕ → State → (Bool × ℕ × Option ℕ) × State
  service_start listen_sock s =
      let ((accept_sock, ip), accepted) = accept listen_sock s in
      if accept_sock == no_sock
      then ((false, accept_sock, none), accepted)
      else ((true, accept_sock, some ip), accepted)

  unfoldable pub service_stop : ℕ → State → State
  service_stop sock s = close sock s

  unfoldable pub open_remote_service : Option ℕ → ℕ → State → Bool × ℕ × State
  unfolding addr_or
  open_remote_service addr port s =
      let (sock, opened) = socket s in
      let (done, connected) = connect sock (addr_or local_addr addr) port opened in
      if sock == no_sock then (false, sock, opened) else (done, sock, connected)

  unfoldable pub open_remote_service2 : ℕ → ℕ → State → Bool × ℕ × State
  unfolding open_remote_service
  open_remote_service2 ip port s = open_remote_service (some ip) port s

  unfoldable pub close_remote_service : ℕ → State → State
  close_remote_service sock s = close sock s

  -- `none` is the failed assertion.
  unfoldable pub send_msg : ℕ → Message → State → Option State
  send_msg sock buf s = if sock == no_sock then none else some (send sock buf s)

  -- With the message, if one has been received.
  unfoldable pub recv_msg : ℕ → State → Option (Option Message × State)
  recv_msg sock s = if sock == no_sock then none else some (recv sock s)

  pub get_port : ℕ → State → ℕ
  get_port sock s = os.port_of sock s
