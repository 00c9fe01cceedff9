-- ===== src/Tests/System.antt =====
-- The store of Copies with clients, whose last error is 0.
use distributed_db.Common.{◌≡◌, [], ◌∷◌, some, arith}
use distributed_db.System.{System, find, saved}
use distributed_db.System.Keeps.{Keeps, find-Keeps}
use distributed_db.Tests.Store.{table, table-Documented}
use distributed_db.Tests.Copies.{pair, pair-Agrees, disks, records, disks-Stored}

abbrev store : System table 0
store = record { cluster = pair; disks = disks; turn = 0 }

store-Keeps : Keeps table table-Documented 0 store records
store-Keeps = record { agrees = pair-Agrees; some_slave = omega arith; stored = disks-Stored }

find-Keeps_example : find table 0 1300 store ≡ some 5
find-Keeps_example =
    find-Keeps table table-Documented 0 1300 store records store-Keeps (omega arith)

-- After 3000 is set on the second slave.
abbrev later : System table 0
later = saved table 0 8 ((3000, 9) ∷ (3000, 6) ∷ []) store
