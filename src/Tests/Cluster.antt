-- ===== src/Tests/Cluster.antt =====
-- A cluster with one slave, which another one joins and leaves.
use distributed_db.Common.{
  ℕ, zero, suc, ◌+◌, ◌-◌, ◌%◌, ◌<◌, ◌≡◌, refl, List, ◌∷◌, some, arith, replicate,
}
use distributed_db.Slaves.{SlaveNode, SlaveList, blank, node_at}
use distributed_db.Master.{add_to_slave_list}
use distributed_db.Client.Route.{get_socket}
use distributed_db.Client.Route.Owner.{Holds}
use distributed_db.Cluster.{Network, Cluster, update, add_slave, start}
use distributed_db.Cluster.{SlaveProcess}
use distributed_db.Common.{if◌then◌else◌, ◌==◌}
use distributed_db.Cluster.Members.{Agrees, IsFresh}
use distributed_db.Cluster.Reach.{joins, Reach, here, next, Reach-Agrees, Reach-get_socket}
use distributed_db.Cluster.{
  rm_slave, handle_master_request, merge_backup1, merge_backup2, nothing, repair_after,
}
use distributed_db.Cluster.Repairs.{repair_after-before}
use distributed_db.Tests.Ring.{two, one, leave_run}

abbrev pub blanks : List SlaveNode
blanks = replicate 32 blank

abbrev pub idle : Network
idle = λ s. record { slaves = record { version = 0; num = 0; nodes = blanks }; pos = 0 }

abbrev pub first_list : SlaveList
first_list = record {
  version = 1;
  num = 1;
  nodes = (record { ip = 1; port = 2; sock = 7; key = 0 }) ∷ replicate 31 blank;
}

abbrev pub first : Cluster
first = record {
  master = first_list;
  net = update idle 7 (record { slaves = first_list; pos = 0 });
}

first_run : add_slave 0 1 2 7 (start blanks idle) ≡ some first
unfolding add_slave add_to_slave_list
first_run = refl

pub IsFresh-at_start : IsFresh 7 (start blanks idle).master
IsFresh-at_start i h = absurd (omega arith)

reached : Reach (start blanks idle) first
reached = next here (joins 0 1 2 7 (omega arith) IsFresh-at_start first_run)

Reach-Agrees_example : Agrees first
Reach-Agrees_example = Reach-Agrees blanks idle refl reached

Reach-get_socket_example :
    (i : ℕ) × (get_socket first_list 1300 ≡ some i) × (i < 1) × Holds first_list i 1300
Reach-get_socket_example = Reach-get_socket blanks idle 1300 refl reached (omega arith)

pub first-Agrees : Agrees first
first-Agrees = record {
  sized = omega arith;
  ring = omega arith;
  apart = λ i j hi hj e. omega arith;
  views = only_view;
}
  where
    only_view :
        (i : ℕ)
        → i < 1
        → first.net (node_at first_list i).sock ≡ record { slaves = first_list; pos = i }
    only_view zero h = refl
    only_view (suc i) h = absurd (omega arith)

pub IsFresh-at_first : IsFresh 8 first_list
IsFresh-at_first zero h e = absurd (omega arith)
IsFresh-at_first (suc i) h e = absurd (omega arith)

abbrev two_later : SlaveList
two_later = record two { version = 3 }

repair_after-before_example :
    (s' : SlaveProcess) × (handle_master_request
        (rm_slave 0)
        (record { slaves = two_later; pos = 1 })
      ≡ some s')
    × (repair_after 0 s' ≡ (
        if 1 == (0 + 2 - 1) % 2
        then merge_backup1
        else if 1 == (0 + 2 - 2) % 2
        then merge_backup2
        else nothing))
repair_after-before_example =
    repair_after-before 0 1 two_later one leave_run refl (omega arith) (omega arith) (omega arith)
