-- ===== src/Server/Dispatch.antt =====
-- The loop of server/dbserver.c: who handles a packet that a client or a slave has sent.
use distributed_db.Common.{ℕ, ◌≤◌, ◌<◌, ◌≡◌, ◌⊎◌, not, ◌&&◌, arith, ltb, leb, ◌==◌, if◌then◌else◌}
use distributed_db.Protocol.Cmd.{Cmd, code}

-- HandleSlaveRequest, SendSlaveList, or the message queue.
pub data Route : Type 0 where
  slave_request send_slave_list to_queue : Route

-- `cmd` and `version` of the packet, and GetVersion().
unfoldable pub route : ℕ → ℕ → ℕ → Route
route cmd version current =
    if leb (code Cmd.add_slave) cmd
    then slave_request
    else if ltb version current && (not (cmd == code Cmd.open_db) && not (cmd == code Cmd.close))
    then send_slave_list
    else to_queue

-- A client's request to read or write a key is queued exactly if the client's list is as new as the
-- server's; else the server sends its list, and the request is not carried out.
pub route_by_version :
    (cmd version current : ℕ)
    → cmd ≤ code Cmd.del
    → ((current ≤ version) × (route cmd version current ≡ to_queue))
      ⊎ ((version < current) × (route cmd version current ≡ send_slave_list))
unfolding route
route_by_version cmd version current h = ground arith
