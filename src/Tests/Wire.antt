-- ===== src/Tests/Wire.antt =====
-- A list with two slaves goes to a slave that joins.
use distributed_db.Common.{ℕ, zero, suc, ◌<◌, ◌≡◌, refl, List, arith, replicate}
use distributed_db.Slaves.{blank}
use distributed_db.Slaves.Wire.{Fits, AllFit, list_in, list_packet, list_packet_round_trip}
use distributed_db.Protocol.{get_header, get_append}
use distributed_db.Protocol.Cmd.{Cmd}
use distributed_db.Tests.Ring.{two, node}

abbrev buffer : List ℕ
buffer = replicate 1024 0

node-Fits : (sock key : ℕ) → sock < 256 → key < 4000 → Fits (node sock key)
node-Fits sock key hs hk = record {
  ip = omega arith;
  port = omega arith;
  sock = omega arith;
  key = omega arith;
}

blank-Fits : Fits blank
blank-Fits = record { ip = omega arith; port = omega arith; sock = omega arith; key = omega arith }

AllFit-replicate : (n : ℕ) → AllFit (replicate n blank)
AllFit-replicate zero = tt
AllFit-replicate (suc n) = (blank-Fits, AllFit-replicate n)

two-AllFit : AllFit two.nodes
two-AllFit =
    let rest = AllFit-replicate 30 in
    let second = node-Fits 8 2500 (omega arith) (omega arith) in
    (node-Fits 7 100 (omega arith) (omega arith), (second, rest))

list_packet_round_trip_example :
    let packet = list_packet buffer Cmd.add_slave_r 1 0 two in
    ((get_header packet).cmd ≡ 18)
    × ((get_header packet).key ≡ 1)
    × (list_in (get_append packet) ≡ two)
list_packet_round_trip_example =
    list_packet_round_trip buffer Cmd.add_slave_r 1 0 two refl (omega arith) (omega arith) refl
      (omega arith) (omega arith) two-AllFit
