-- ===== src/Protocol.antt =====
-- The packets of common/dbProtocol.c: a buffer of bytes that begins with four words of 32 bits,
-- low byte first.
pub mod Packet
pub mod Cmd
pub mod Fields
use distributed_db.Common.{
  ℕ, ◌+◌, ◌*◌, ◌/◌, ◌%◌, Bool, true, false, List, [], ◌∷◌, ◌++◌, ltb, if◌then◌else◌, get_or, take,
  drop,
}

abbrev pub max_packet_len : ℕ
max_packet_len = 1024

-- sizeof(DBPacketHeader)
abbrev pub header_size : ℕ
header_size = 16

abbrev pub append_size : ℕ
append_size = 1008

-- The fields are the bit patterns of the ints.
pub record DbPacketHeader : Type 0 where
  pub size : ℕ
  pub cmd : ℕ
  pub key : ℕ
  pub version : ℕ

abbrev pub word_bytes : ℕ → List ℕ
word_bytes v = (v % 256) ∷ (v / 256 % 256) ∷ (v / 65536 % 256) ∷ (v / 16777216 % 256) ∷ []

abbrev pub word_at : List ℕ → ℕ → ℕ
word_at buf i =
    get_or buf i 0
    + 256 * get_or buf (i + 1) 0
    + 65536 * get_or buf (i + 2) 0
    + 16777216 * get_or buf (i + 3) 0

-- memcpy(buf + at, bytes, n), for `n` bytes.
abbrev copy_to : List ℕ → ℕ → List ℕ → ℕ → List ℕ
copy_to buf at bytes n = take at buf ++ (take n bytes ++ drop (at + n) buf)

-- The four assignments, to consecutive words.
unfoldable pub write_header : List ℕ → DbPacketHeader → List ℕ
write_header buf header =
    copy_to buf 0
      (word_bytes header_size
        ++ (word_bytes header.cmd ++ (word_bytes header.key ++ word_bytes header.version)))
      16

unfoldable pub get_header : List ℕ → DbPacketHeader
get_header buf = record {
  size = word_at buf 0;
  cmd = word_at buf 4;
  key = word_at buf 8;
  version = word_at buf 12;
}

-- The buffer with whether 0 is returned. A negative `size` or `len` is compared as a large
-- unsigned number, as its bit pattern is here.
unfoldable pub append : List ℕ → List ℕ → ℕ → Bool × List ℕ
unfolding get_header
append buf bytes len =
    let size = (get_header buf).size in
    if ltb header_size size
    then (false, buf)
    else if ltb append_size len
    then (false, buf)
    else (true, copy_to (copy_to buf size bytes len) 0 (word_bytes (size + len)) 4)

unfoldable pub get_append : List ℕ → List ℕ
get_append buf = drop header_size buf
