-- ===== src/Slaves/Wire.antt =====
-- The slave list as the bytes that are appended to a packet: (char *)&slaves with sizeof(slaves), in
-- HandleRequest of server/master.c and SendSlaveList of server/slave.c, and what ReadCloudNodes of
-- client/netdbapi.c and RegisterAndLoadSlaves of server/slave.c make of them.
use distributed_db.Common.{
  ℕ, zero, suc, ◌*◌, ◌^◌, ◌<◌, ◌≡◌, refl, sym, ap, ap₂, ◌∙◌, List, [], ◌∷◌, ◌++◌, arith, length,
  drop, take-drop,
}
use distributed_db.Slaves.{SlaveNode, SlaveList, max_slave_num}
use distributed_db.Protocol.{
  DbPacketHeader, word_bytes, word_at, write_header, get_header, append, get_append, max_packet_len,
}
use distributed_db.Protocol.Packet.{word_read, packet_round_trip}
use distributed_db.Protocol.Cmd.{Cmd, code, code-lt}

abbrev node_bytes : SlaveNode → List ℕ → List ℕ
node_bytes n rest =
    word_bytes n.ip ++ (word_bytes n.port ++ (word_bytes n.sock ++ (word_bytes n.key ++ rest)))

abbrev nodes_bytes : List SlaveNode → List ℕ
nodes_bytes [] = []
nodes_bytes (n ∷ ns) = node_bytes n (nodes_bytes ns)

-- The bytes of the list in memory.
unfoldable pub list_bytes : SlaveList → List ℕ
list_bytes sl = word_bytes sl.version ++ (word_bytes sl.num ++ nodes_bytes sl.nodes)

abbrev node_in : List ℕ → SlaveNode
node_in bytes = record {
  ip = word_at bytes 0;
  port = word_at bytes 4;
  sock = word_at bytes 8;
  key = word_at bytes 12;
}

abbrev nodes_in : ℕ → List ℕ → List SlaveNode
nodes_in zero bytes = []
nodes_in (suc n) bytes = node_in bytes ∷ nodes_in n (drop 16 bytes)

-- *(SlaveList *)bytes
unfoldable pub list_in : List ℕ → SlaveList
list_in bytes = record {
  version = word_at bytes 0;
  num = word_at bytes 4;
  nodes = nodes_in max_slave_num (drop 8 bytes);
}

-- The packet that HandleRequest answers GET_LIST and ADD_SLAVE with, and SendSlaveList a client with
-- an old list: `buf` is the empty buffer, and `key` and `version` are zero or what the header's
-- fields hold, where they are not set.
unfoldable pub list_packet : List ℕ → Cmd → ℕ → ℕ → SlaveList → List ℕ
unfolding write_header append
list_packet buf cmd key version sl =
    let header : DbPacketHeader = record {
      size = 0;
      cmd = code cmd;
      key = key;
      version = version;
    } in
    (append (write_header buf header) (list_bytes sl) (length (list_bytes sl))).1

-- Every field is an int or an unsigned.
pub record Fits (n : SlaveNode) : Type 0 where
  pub ip : n.ip < 2 ^ 32
  pub port : n.port < 2 ^ 32
  pub sock : n.sock < 2 ^ 32
  pub key : n.key < 2 ^ 32

abbrev pub AllFit : List SlaveNode → Type 0
AllFit [] = Unit
AllFit (n ∷ ns) = Fits n × AllFit ns

node_read : (n : SlaveNode) (rest : List ℕ) → Fits n → node_in (node_bytes n rest) ≡ n
node_read n rest f = λ i. record {
  ip = word_read n.ip f.ip i;
  port = word_read n.port f.port i;
  sock = word_read n.sock f.sock i;
  key = word_read n.key f.key i;
}

append-node_bytes :
    (n : SlaveNode) (xs ys : List ℕ) → node_bytes n xs ++ ys ≡ node_bytes n (xs ++ ys)
append-node_bytes n xs ys = refl

nodes_read :
    (ns : List SlaveNode) (rest : List ℕ)
    → AllFit ns
    → nodes_in (length ns) (nodes_bytes ns ++ rest) ≡ ns
nodes_read [] rest f = refl
nodes_read (n ∷ ns) rest (f, fs) =
    ap₂ ◌∷◌ (node_read n (nodes_bytes ns ++ rest) f) (nodes_read ns rest fs)

length-nodes_bytes : (ns : List SlaveNode) → length (nodes_bytes ns) ≡ 16 * length ns
length-nodes_bytes [] = refl
length-nodes_bytes (n ∷ ns) = omega (arith, length-nodes_bytes ns)

-- sizeof(SlaveList), which a packet has room for.
length-list_bytes :
    (sl : SlaveList) → length sl.nodes ≡ max_slave_num → length (list_bytes sl) ≡ 520
unfolding list_bytes
length-list_bytes sl h = omega (arith, length-nodes_bytes sl.nodes)

list_read :
    (sl : SlaveList) (rest : List ℕ)
    → length sl.nodes ≡ max_slave_num
    → sl.version < 2 ^ 32
    → sl.num < 2 ^ 32
    → AllFit sl.nodes
    → list_in (list_bytes sl ++ rest) ≡ sl
unfolding list_bytes list_in
list_read sl rest h hv hn f =
    let nodes : nodes_in max_slave_num (nodes_bytes sl.nodes ++ rest) ≡ sl.nodes =
      ap (λ n. nodes_in n (nodes_bytes sl.nodes ++ rest)) (sym h) ∙ nodes_read sl.nodes rest f in
    λ i. record {
      version = word_read sl.version hv i;
      num = word_read sl.num hn i;
      nodes = nodes i;
    }

-- A list whose fields are ints fits a packet with a reply code and a key, and the other side reads
-- the code, the key and the same list from it.
pub list_packet_round_trip :
    (buf : List ℕ) (cmd : Cmd) (key version : ℕ) (sl : SlaveList)
    → length buf ≡ max_packet_len
    → key < 2 ^ 32
    → version < 2 ^ 32
    → length sl.nodes ≡ max_slave_num
    → sl.version < 2 ^ 32
    → sl.num < 2 ^ 32
    → AllFit sl.nodes
    → let packet = list_packet buf cmd key version sl in
      ((get_header packet).cmd ≡ code cmd)
      × ((get_header packet).key ≡ key)
      × (list_in (get_append packet) ≡ sl)
unfolding list_packet
list_packet_round_trip buf cmd key version sl hb hk hv h sv sn f =
    let header : DbPacketHeader = record {
      size = 0;
      cmd = code cmd;
      key = key;
      version = version;
    } in
    let bytes = list_bytes sl in
    let (_, e, t) =
      packet_round_trip buf bytes header hb (omega (arith, length-list_bytes sl h)) (code-lt cmd) hk
        hv in
    let body = get_append (append (write_header buf header) bytes (length bytes)).1 in
    let rest = drop (length bytes) body in
    (
      ap (λ q. q.cmd) e,
      ap (λ q. q.key) e,
      ap list_in (sym (take-drop (length bytes) body) ∙ ap (λ b. b ++ rest) t)
          ∙ list_read sl rest h sv sn f,
    )
