-- ===== src/Protocol/Packet.antt =====
-- What is written into a packet is read from it.
use distributed_db.Common.{
  ℕ, ◌+◌, ◌*◌, ◌/◌, ◌%◌, ◌^◌, ◌≤◌, ◌<◌, ◌≡◌, refl, ap, true, false, List, [], ◌∷◌, ◌++◌, arith, ltb,
  length, take, drop, length-append, length-take, length-drop, ◌∙◌,
}
use distributed_db.Protocol.{
  DbPacketHeader, max_packet_len, header_size, append_size, write_header, get_header, append,
  get_append, copy_to, word_bytes,
}

-- A word is read as it was written.
pub word_read :
    (v : ℕ)
    → v < 2 ^ 32
    → v % 256 + 256 * (v / 256 % 256) + 65536 * (v / 65536 % 256) + 16777216 * (v / 16777216 % 256)
      ≡ v
word_read v h = omega arith

take-append : (xs ys : List ℕ) → take (length xs) (xs ++ ys) ≡ xs
take-append [] ys = refl
take-append (x ∷ xs) ys = ap (λ r. x ∷ r) (take-append xs ys)

take_all : (xs : List ℕ) → take (length xs) xs ≡ xs
take_all [] = refl
take_all (x ∷ xs) = ap (λ r. x ∷ r) (take_all xs)

-- The header words of a packet stand, its size apart, after data that fits is appended; the size
-- counts the data, and the data is what the receiver finds past the header.
pub packet_round_trip :
    (buf bytes : List ℕ) (header : DbPacketHeader)
    → length buf ≡ max_packet_len
    → length bytes ≤ append_size
    → header.cmd < 2 ^ 32
    → header.key < 2 ^ 32
    → header.version < 2 ^ 32
    → let (done, packet) = append (write_header buf header) bytes (length bytes) in
      (done ≡ true)
      × (get_header packet ≡ record header { size = header_size + length bytes })
      × (take (length bytes) (get_append packet) ≡ bytes)
unfolding write_header append get_append get_header
packet_round_trip buf bytes header hb hl hc hk hv =
    let fits : ltb append_size (length bytes) ≡ false = ground arith in
    rw fits (
      refl,
      λ i. record {
        size = word_read (16 + length bytes) (omega arith) i;
        cmd = word_read header.cmd hc i;
        key = word_read header.key hk i;
        version = word_read header.version hv i;
      },
      rw (take_all bytes, take-append bytes _) refl,
    )

length-copy_to :
    (buf bytes : List ℕ) (at n : ℕ)
    → at + n ≤ length buf
    → n ≤ length bytes
    → length (take at buf ++ (take n bytes ++ drop (at + n) buf)) ≡ length buf
length-copy_to buf bytes at n h l = omega (
  arith,
  length-append (take at buf) (take n bytes ++ drop (at + n) buf),
  length-append (take n bytes) (drop (at + n) buf),
  length-take at buf (omega arith),
  length-take n bytes l,
  length-drop (at + n) buf,
)

-- A packet with data that fits is as long as its buffer.
pub length-packet :
    (buf bytes : List ℕ) (header : DbPacketHeader)
    → length buf ≡ max_packet_len
    → length bytes ≤ append_size
    → length (append (write_header buf header) bytes (length bytes)).1 ≡ max_packet_len
unfolding write_header append get_header
length-packet buf bytes header hb hl =
    let fits : ltb append_size (length bytes) ≡ false = ground arith in
    let w = write_header buf header in
    let n = length bytes in
    let lw : length w ≡ max_packet_len =
      length-copy_to buf
        (word_bytes header_size
          ++ (word_bytes header.cmd ++ (word_bytes header.key ++ word_bytes header.version)))
        0 16 (omega arith) (omega arith)
      ∙ hb in
    let lb : length (copy_to w 16 bytes n) ≡ max_packet_len =
      length-copy_to w bytes 16 n (omega (arith, lw)) (omega arith) ∙ lw in
    rw fits (
      length-copy_to (copy_to w 16 bytes n) (word_bytes (16 + n)) 0 4 (omega (arith, lb))
        (omega arith)
      ∙ lb)
