-- ===== src/Tests/Ring.antt =====
-- Two slaves on the ring, and a third that joins them.
use mathlib.Core.Option
use distributed_db.Common.{
  ℕ, ◌+◌, ◌%◌, ◌≤◌, ◌<◌, ◌≡◌, refl, ◌⊎◌, ◌∷◌, some, arith, replicate, insert_at, remove_at,
}
use distributed_db.Slaves.{
  SlaveNode, SlaveList, IsSized, blank, node_at, live, keys, max_key, next_version, add_new_slave,
  remove_slave,
}
use distributed_db.Ring.{covers, IsRing}
use distributed_db.Ring.Join.{moved}
use distributed_db.Ring.Leave.{merged}
use distributed_db.Master.{get_length, find_longest_section, add_to_slave_list}
use distributed_db.Master.Longest.{find_longest_section_lem}
use distributed_db.Master.Join.{add_to_slave_list-IsRing, add_new_slave-agrees}
use distributed_db.Master.Leave.{remove_slave-IsRing}
use distributed_db.Client.Route.{get_socket}
use distributed_db.Client.Route.Owner.{Holds, get_socket_total}
use distributed_db.Client.Route.Moves.{get_socket-add_to_slave_list, get_socket-remove_slave}

abbrev pub node : ℕ → ℕ → SlaveNode
node sock key = record { ip = 1; port = 2; sock = sock; key = key }

-- The longer section is the first slave's, (100, 2500].
abbrev pub two : SlaveList
two = record { version = 2; num = 2; nodes = node 7 100 ∷ node 8 2500 ∷ replicate 30 blank }

abbrev pub third : SlaveNode
third = node 9 0

abbrev pub three : SlaveList
three = record {
  version = 3;
  num = 3;
  nodes = node 7 100 ∷ node 9 1300 ∷ node 8 2500 ∷ replicate 29 blank;
}

abbrev pub one : SlaveList
one = record { version = 4; num = 1; nodes = node 8 2500 ∷ node 8 2500 ∷ replicate 30 blank }

pub two-IsSized : IsSized two
two-IsSized = omega arith

pub two-IsRing : IsRing (keys two)
two-IsRing = omega arith

route_first : get_socket two 1300 ≡ some 0
unfolding get_socket
route_first = refl

-- The section of the last slave goes past the end of the keys.
route_round : get_socket two 4050 ≡ some 1
unfolding get_socket
route_round = refl

join_run : add_to_slave_list 0 third two ≡ some (three, 1)
unfolding add_to_slave_list
join_run = refl

pub leave_run : remove_slave 0 (record two { version = 3 }) ≡ some one
unfolding remove_slave
leave_run = refl

get_socket_total_example : (i : ℕ) × (get_socket two 1300 ≡ some i) × (i < 2) × Holds two i 1300
get_socket_total_example = get_socket_total two 1300 two-IsSized two-IsRing (omega arith)

find_longest_section_lem_example :
    (j : ℕ) × (find_longest_section two ≡ some j)
    × (j < 2)
    × (get_length two 1 ≤ get_length two j)
    × ((get_length two 1 < get_length two j) ⊎ (j ≤ 1))
find_longest_section_lem_example = find_longest_section_lem two 1 (omega arith)

add_to_slave_list-IsRing_example :
    (sl' : SlaveList) × (p : ℕ) × (add_to_slave_list 0 third two ≡ some (sl', p))
    × (live sl' ≡ insert_at p (node_at sl' p) (live two))
    × (p < sl'.num)
    × (sl'.num ≡ two.num + 1)
    × (sl'.version ≡ next_version two.version)
    × IsSized sl'
    × IsRing (keys sl')
add_to_slave_list-IsRing_example =
    add_to_slave_list-IsRing 0 third two two-IsSized two-IsRing (omega arith)

add_new_slave-agrees_example : add_new_slave 1 (node 9 1300) two ≡ some three
add_new_slave-agrees_example =
    add_new_slave-agrees 0 third two three 1 two-IsSized (omega arith) join_run

remove_slave-IsRing_example :
    (sl' : SlaveList) × (remove_slave 0 two ≡ some sl')
    × (live sl' ≡ remove_at 0 (live two))
    × (sl'.num + 1 ≡ two.num)
    × (sl'.version ≡ next_version two.version)
    × IsSized sl'
    × IsRing (keys sl')
remove_slave-IsRing_example = remove_slave-IsRing 0 two two-IsSized two-IsRing (omega arith)

get_socket-add_to_slave_list_example :
    (pos : ℕ) × (1 ≡ pos + 1)
    × (get_socket three 2000
        ≡ Option.map
            (moved pos (covers 1300 (node_at two ((pos + 1) % 2)).key (2000 % max_key)))
            (get_socket two 2000))
get_socket-add_to_slave_list_example =
    get_socket-add_to_slave_list 0 2000 third two three 1 two-IsSized two-IsRing (omega arith)
      (omega arith) join_run

get_socket-remove_slave_example :
    get_socket one 2000 ≡ Option.map (merged 2 0) (get_socket (record two { version = 3 }) 2000)
get_socket-remove_slave_example =
    get_socket-remove_slave 0 2000 (record two { version = 3 }) one (omega arith) (omega arith)
      (omega arith) (omega arith) leave_run
