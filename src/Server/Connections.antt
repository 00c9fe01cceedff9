-- ===== src/Server/Connections.antt =====
-- The table of connections (server/serversocket.c) over Tokyo Cabinet's in-memory database
-- (server/MemoryDB.c): what a client's database is, between one message and the next.
pub mod Table
use distributed_db.Common.{ℕ, Bool, true, false, Option, none, some, ◌>>=◌, ◌==◌, if◌then◌else◌}
use distributed_db.Socket.{
  Os, no_sock, initialize_service, shutdown_service, service_start, service_stop,
}

-- `ip` is none and `app` is none where the code has not set them.
pub record ClientSockHandle (App : Type 0) : Type 0 where
  pub sock : ℕ
  pub ip : Option ℕ
  pub app : Option App

-- What the code relies on of the in-memory database, with connections as keys: tcmdbnew, tcmdbput,
-- tcmdbout and tcmdbget.
pub record Memory (App : Type 0) : Type 1 where
  pub MemDb : Type 0
  pub new : MemDb
  pub put : MemDb → ℕ → ClientSockHandle App → MemDb
  pub out : MemDb → ℕ → MemDb
  pub get : MemDb → ℕ → Option (ClientSockHandle App)

module _ {Message App : Type 0} (os : Os Message) (mem : Memory App) where
  open os use {State}
  open mem use {MemDb}

  -- The system, and `MDB`.
  pub record Server : Type 0 where
    pub world : State
    pub mdb : MemDb

  -- The result of InitializeService is not looked at.
  unfoldable pub db_initialize_service : Option ℕ → ℕ → State → ℕ × Server
  db_initialize_service addr port s =
      let (ok, sock, after) = initialize_service os addr port s in
      (sock, record { world = after; mdb = mem.new })

  pub db_shutdown_service : ℕ → Server → State
  db_shutdown_service sock s = shutdown_service os sock s.world

  -- The handle is put into the table whether or not a connection has been accepted.
  unfoldable pub db_service_start : ℕ → Server → ClientSockHandle App × Server
  db_service_start listen_sock s =
      let ((ok, sock, ip), after) = service_start os listen_sock s.world in
      let hcsock : ClientSockHandle App = record { sock = sock; ip = ip; app = none } in
      (hcsock, record { world = after; mdb = mem.put s.mdb sock hcsock })

  -- `none` is a connection that is not in the table, where the code reads through NULL.
  unfoldable pub db_service_stop : ℕ → Server → Option Server
  db_service_stop sock s = do
    phcsock ← mem.get s.mdb sock
    some (record { world = service_stop os phcsock.sock s.world; mdb = mem.out s.mdb phcsock.sock })

  -- `none` is the failed assertion. The code sends before it stores the handle, and the loop's thread
  -- may look the handle up in between; here both are one step.
  unfoldable pub db_send_msg : ClientSockHandle App → Message → Server → Option Server
  db_send_msg hcsock buf s =
      if hcsock.sock == no_sock
      then none
      else some (record {
        world = os.send hcsock.sock buf s.world;
        mdb = mem.put s.mdb hcsock.sock hcsock;
      })

  -- The handle, or NULL, and the message, if one has been received.
  unfoldable pub db_recv_msg :
      ℕ → Server → Option (Option (ClientSockHandle App) × Option Message × Server)
  db_recv_msg sock s =
      if sock == no_sock
      then none
      else (let (message, after) = os.recv sock s.world in
          some (mem.get s.mdb sock, message, record s { world = after }))
