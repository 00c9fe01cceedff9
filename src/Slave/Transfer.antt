-- ===== src/Slave/Transfer.antt =====
-- A file goes from one slave to another: SendFile and RecvFile of server/slave.c in lock step, in
-- packets of bytes, over a connection that delivers what is sent.
pub mod Whole
use distributed_db.Common.{
  ℕ, zero, suc, ◌+◌, Bool, true, false, List, [], ◌++◌, Option, none, some, ◌>>=◌, ltb, ◌==◌,
  if◌then◌else◌, length, take, drop,
}
use distributed_db.Protocol.{
  DbPacketHeader, append_size, write_header, get_header, append, get_append,
}
use distributed_db.Protocol.Cmd.{Cmd, code}

-- `version` is what the header's version holds, which nothing sets.
module _ (version : ℕ) where
  -- What ExchangePacket makes of its buffer before it is sent.
  unfoldable pub packet_of : List ℕ → Cmd → ℕ → List ℕ → List ℕ
  unfolding write_header append
  packet_of buf cmd key bytes =
      let header : DbPacketHeader = record {
        size = 0;
        cmd = code cmd;
        key = key;
        version = version;
      } in
      (append (write_header buf header) bytes (length bytes)).1

  -- SendFile past the first exchange: what fread has left, and `finish_size` and `flen`.
  pub record Sender : Type 0 where
    pub rest : List ℕ
    pub finish_size : ℕ
    pub flen : ℕ

  -- RecvFile: what has been written, `finish_size` and `total_size`, and the buffer of its
  -- ExchangePacket.
  pub record Receiver : Type 0 where
    pub written : List ℕ
    pub finish_size : ℕ
    pub total_size : ℕ
    pub buf : List ℕ

  abbrev pub answers_filetrans : List ℕ → Bool
  answers_filetrans buf = (get_header buf).cmd == code Cmd.filetrans_r

  -- The sender, when it has received `reply` into the buffer of its ExchangePacket: a chunk that it
  -- sends, with what it then waits with, or `none` when it is done. It fails on any reply but
  -- FILETRANS_R.
  unfoldable pub send_next : List ℕ → Sender → Option (Option (List ℕ × Sender))
  send_next reply s =
      if answers_filetrans reply
      then (if ltb s.finish_size s.flen
          then (let chunk = take append_size s.rest in
              some (
                some (
                  packet_of reply Cmd.filetrans (length chunk) chunk,
                  record s {
                    rest = drop append_size s.rest;
                    finish_size = s.finish_size + length chunk;
                  },
                )))
          else some none)
      else none

  -- The receiver, when a chunk comes. fwrite writes all of it.
  unfoldable pub recv_chunk : List ℕ → Receiver → Receiver
  recv_chunk packet r =
      let key = (get_header packet).key in
      record r {
        written = r.written ++ take key (get_append packet);
        finish_size = r.finish_size + key;
        buf = packet;
      }

  -- Both loops, from where the receiver's begins, with at most so many exchanges: the file that the
  -- receiver has when both have returned 0. `szBuf` is the receiver's last, empty buffer. `none` is
  -- a slave that fails, or that waits for what the other does not send.
  unfoldable pub transfer : ℕ → List ℕ → Sender → Receiver → Option (List ℕ)
  transfer zero szBuf s r = none
  transfer (suc n) szBuf s r =
      let more = do
        next ← send_next (packet_of r.buf Cmd.filetrans_r 0 []) s
        (packet, s') ← next
        transfer n szBuf s' (recv_chunk packet r)
      in let last =
          write_header szBuf
            (record { size = 0; cmd = code Cmd.filetrans_r; key = 0; version = version }) in
        if ltb r.finish_size r.total_size
        then more
        else do next ← send_next last s; elim next [ none ↦ some r.written | some p ↦ none ]

  -- The whole of it, from the packet that SendFile sends first, which tells the length of the file
  -- and its name.
  unfoldable pub send_file : ℕ → List ℕ → List ℕ → Cmd → List ℕ → List ℕ → Option (List ℕ)
  send_file n buf szBuf rescmd name file =
      let first = packet_of buf rescmd (length file) name in
      transfer n szBuf (record { rest = file; finish_size = 0; flen = length file })
        (record { written = []; finish_size = 0; total_size = (get_header first).key; buf = first })
