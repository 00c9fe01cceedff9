-- ===== src/Slave/Transfer/Whole.antt =====
-- A file arrives as it was sent.
use mathlib.Core.List.{append-nil, append_assoc}
use distributed_db.Common.{
  ℕ, zero, suc, ◌+◌, ◌^◌, ◌≤◌, ◌<◌, ◌≡◌, refl, sym, ap, ◌∙◌, true, false, inl, inr, List, [], ◌∷◌,
  ◌++◌, none, some, arith, ltb, ==_iff, Bool-cases, length, take, drop, length-append, take-drop,
}
use distributed_db.Protocol.{
  DbPacketHeader, max_packet_len, append_size, write_header, get_header, get_append,
}
use distributed_db.Protocol.Packet.{length-packet, packet_round_trip}
use distributed_db.Protocol.Cmd.{Cmd, code, code-lt}
use distributed_db.Slave.Transfer.{
  packet_of, Sender, Receiver, answers_filetrans, send_next, recv_chunk, transfer, send_file,
}

length-take_le : (n : ℕ) (xs : List ℕ) → length (take n xs) ≤ n
length-take_le zero xs = omega arith
length-take_le (suc n) [] = omega arith
length-take_le (suc n) (x ∷ xs) = omega (arith, length-take_le n xs)

-- Something is taken of a list that is not empty.
take_some : (n : ℕ) (xs : List ℕ) → 0 < n → 0 < length xs → 0 < length (take n xs)
take_some zero xs h l = absurd (omega arith)
take_some (suc n) [] h l = absurd (omega arith)
take_some (suc n) (x ∷ xs) h l = omega arith

length-split : (n : ℕ) (xs : List ℕ) → length (take n xs) + length (drop n xs) ≡ length xs
length-split n xs = sym (length-append (take n xs) (drop n xs)) ∙ ap length (take-drop n xs)

ltb_of : (x y : ℕ) → x < y → ltb x y ≡ true
ltb_of x y h = ground arith

ltb_not : (x y : ℕ) → x ≡ y → ltb x y ≡ false
ltb_not x y h = ground arith

nothing_left : (ys xs : List ℕ) → length xs ≡ 0 → ys ≡ ys ++ xs
nothing_left ys [] e = sym (append-nil ys)
nothing_left ys (x ∷ xs) e = absurd (omega arith)

module _ (version : ℕ) (vh : version < 2 ^ 32) where
  -- A packet that ExchangePacket makes, as the other side reads it.
  packet_lem :
      (buf : List ℕ) (cmd : Cmd) (key : ℕ) (bytes : List ℕ)
      → length buf ≡ max_packet_len
      → length bytes ≤ append_size
      → key < 2 ^ 32
      → let p = packet_of version buf cmd key bytes in
        (length p ≡ max_packet_len)
        × ((get_header p).cmd ≡ code cmd)
        × ((get_header p).key ≡ key)
        × (take (length bytes) (get_append p) ≡ bytes)
  unfolding packet_of
  packet_lem buf cmd key bytes hb hl hk =
      let header : DbPacketHeader = record {
        size = 0;
        cmd = code cmd;
        key = key;
        version = version;
      } in
      let (_, e, t) = packet_round_trip buf bytes header hb hl (code-lt cmd) hk vh in
      (length-packet buf bytes header hb hl, ap (λ h. h.cmd) e, ap (λ h. h.key) e, t)

  asks_for_more :
      (buf : List ℕ)
      → length buf ≡ max_packet_len
      → answers_filetrans version (packet_of version buf Cmd.filetrans_r 0 []) ≡ true
  asks_for_more buf h =
      let (_, e, _, _) = packet_lem buf Cmd.filetrans_r 0 [] h (omega arith) (omega arith) in
      (==_iff _ (code Cmd.filetrans_r)).1 e

  -- The packet that RecvFile sends last.
  abbrev last_answer : List ℕ → List ℕ
  last_answer szBuf =
      write_header szBuf
        (record { size = 0; cmd = code Cmd.filetrans_r; key = 0; version = version })

  has_all : (szBuf : List ℕ) → answers_filetrans version (last_answer szBuf) ≡ true
  unfolding write_header get_header
  has_all szBuf = refl

  -- The chunk that is sent next.
  abbrev chunk_of : Sender version → List ℕ
  chunk_of s = take append_size s.rest

  abbrev sent_to : List ℕ → Sender version → List ℕ
  sent_to reply s = packet_of version reply Cmd.filetrans (length (chunk_of s)) (chunk_of s)

  abbrev after_chunk : Sender version → Sender version
  after_chunk s = record s {
    rest = drop append_size s.rest;
    finish_size = s.finish_size + length (chunk_of s);
  }

  sends_chunk :
      (reply : List ℕ) (s : Sender version)
      → answers_filetrans version reply ≡ true
      → s.finish_size < s.flen
      → send_next version reply s ≡ some (some (sent_to reply s, after_chunk s))
  unfolding send_next
  sends_chunk reply s a h = rw (a, ltb_of s.finish_size s.flen h) refl

  sends_none :
      (reply : List ℕ) (s : Sender version)
      → answers_filetrans version reply ≡ true
      → s.finish_size ≡ s.flen
      → send_next version reply s ≡ some none
  unfolding send_next
  sends_none reply s a h = rw (a, ltb_not s.finish_size s.flen h) refl

  chunk_small : (s : Sender version) → length (chunk_of s) < 2 ^ 32
  chunk_small s = omega (arith, length-take_le append_size s.rest)

  chunk_read :
      (reply : List ℕ) (s : Sender version) (r : Receiver version)
      → length reply ≡ max_packet_len
      → recv_chunk version (sent_to reply s) r ≡ record r {
        written = r.written ++ chunk_of s;
        finish_size = r.finish_size + length (chunk_of s);
        buf = sent_to reply s;
      }
  unfolding recv_chunk
  chunk_read reply s r h =
      let n = length-take_le append_size s.rest in
      let (_, _, k, t) =
        packet_lem reply Cmd.filetrans (length (chunk_of s)) (chunk_of s) h n (chunk_small s) in
      rw (k, t) refl

  transfer_rest :
      (n : ℕ) (szBuf : List ℕ) (s : Sender version) (r : Receiver version)
      → length r.buf ≡ max_packet_len
      → r.total_size ≡ s.flen
      → r.finish_size ≡ s.finish_size
      → s.finish_size + length s.rest ≡ s.flen
      → length s.rest < n
      → transfer version n szBuf s r ≡ some (r.written ++ s.rest)
  unfolding transfer
  transfer_rest zero szBuf s r b t f e l = absurd (omega arith)
  transfer_rest (suc n) szBuf s r b t f e l = elim (Bool-cases (ltb r.finish_size r.total_size)) [
    | inl more ↦
        let ask = packet_of version r.buf Cmd.filetrans_r 0 [] in
        let lt : s.finish_size < s.flen = ground arith in
        let (lb, _, _, _) = packet_lem r.buf Cmd.filetrans_r 0 [] b (omega arith) (omega arith) in
        let (sent, _, _, _) =
          packet_lem ask Cmd.filetrans (length (chunk_of s)) (chunk_of s) lb
            (length-take_le append_size s.rest) (chunk_small s) in
        let split = length-split append_size s.rest in
        let some_more = take_some append_size s.rest (omega arith) (omega arith) in
        rw (more, sends_chunk ask s (asks_for_more r.buf b) lt, chunk_read ask s r lb)
          (transfer_rest n szBuf (after_chunk s)
              (record r {
                written = r.written ++ chunk_of s;
                finish_size = r.finish_size + length (chunk_of s);
                buf = sent_to ask s;
              })
              sent t (ap (λ x. x + length (chunk_of s)) f) (omega (arith, split))
              (omega (arith, split, some_more))
            ∙ ap some (
                append_assoc r.written (chunk_of s) (drop append_size s.rest)
                ∙ ap (λ x. r.written ++ x) (take-drop append_size s.rest)))
    | inr whole ↦
        let all : s.finish_size ≡ s.flen = ground arith in
        rw (whole, sends_none (last_answer szBuf) s (has_all szBuf) all)
          (ap some (nothing_left r.written s.rest (omega arith)))
  ]

  -- Of a file whose length is an int, under a name that fits a packet, the receiver has every byte
  -- when both slaves have returned, and they do return: as many exchanges as the file has bytes, and
  -- one more, are enough.
  pub send_file_lem :
      (n : ℕ) (buf szBuf : List ℕ) (rescmd : Cmd) (name file : List ℕ)
      → length buf ≡ max_packet_len
      → length name ≤ append_size
      → length file < 2 ^ 31
      → length file < n
      → send_file version n buf szBuf rescmd name file ≡ some file
  unfolding send_file
  send_file_lem n buf szBuf rescmd name file hb hn hf hl =
      let (lb, _, k, _) = packet_lem buf rescmd (length file) name hb hn (omega arith) in
      let first = packet_of version buf rescmd (length file) name in
      transfer_rest n szBuf (record { rest = file; finish_size = 0; flen = length file })
        (record { written = []; finish_size = 0; total_size = (get_header first).key; buf = first })
        lb k refl (omega arith) hl
