-- ===== src/Tests/Copies.antt =====
-- Two slaves with files, over the database of Store.
use distributed_db.Common.{
  ℕ, zero, suc, ◌+◌, ◌<◌, ◌≡◌, refl, [], ◌∷◌, Option, none, some, arith, ◌==◌, if◌then◌else◌,
}
use distributed_db.Slaves.{node_at}
use distributed_db.Slave.Clip.{goes_to, picks}
use distributed_db.Client.Route.{get_socket}
use distributed_db.Cluster.{Cluster, del_slave}
use distributed_db.Cluster.Members.{Agrees}
use distributed_db.Copies.{Files, closed, current, Disks, alarms, repairs}
use distributed_db.Copies.Backup.{sock_of, HasMain}
use distributed_db.Copies.Current.{SameOwn, IsCurrent}
use distributed_db.Copies.Alarm.{alarms-IsCurrent}
use distributed_db.Copies.Stored.{contents, Stored}
use distributed_db.Copies.Leave.{del_slave-Stored}
use distributed_db.Tests.Ring.{two, two-IsSized, two-IsRing}
use distributed_db.Tests.Store.{table, table-Documented}

abbrev pub pair : Cluster
pair = record { master = two; net = λ t. record { slaves = two; pos = if t == 7 then 0 else 1 } }

pub pair-Agrees : Agrees pair
pair-Agrees = record { sized = two-IsSized; ring = two-IsRing; apart = apart; views = views }
  where
    apart : (i j : ℕ) → i < 2 → j < 2 → (node_at two i).sock ≡ (node_at two j).sock → i ≡ j
    apart zero zero hi hj e = refl
    apart zero (suc zero) hi hj e = absurd (omega arith)
    apart (suc zero) zero hi hj e = absurd (omega arith)
    apart (suc zero) (suc zero) hi hj e = refl
    apart (suc (suc i)) j hi hj e = absurd (omega arith)
    apart i (suc (suc j)) hi hj e = absurd (omega arith)

    views : (i : ℕ) → i < 2 → pair.net (node_at two i).sock ≡ record { slaves = two; pos = i }
    views zero h = refl
    views (suc zero) h = refl
    views (suc (suc i)) h = absurd (omega arith)

-- The second slave has a copy of the first one's data; the first has an old copy.
abbrev pub first_files : Files table
first_files = record {
  main = some ((1300, 5) ∷ []);
  tmp = none;
  backup1 = some [];
  backup2 = none;
  left1 = closed;
  left2 = closed;
}

abbrev pub second_files : Files table
second_files = record {
  main = some ((3000, 6) ∷ []);
  tmp = none;
  backup1 = some ((1300, 5) ∷ []);
  backup2 = none;
  left1 = closed;
  left2 = current;
}

abbrev pub disks : Disks table
disks t = if t == 7 then first_files else if t == 8 then second_files else record {
  main = none;
  tmp = none;
  backup1 = none;
  backup2 = none;
  left1 = closed;
  left2 = closed;
}

abbrev pub records : ℕ → Option ℕ
records k = if k == 1300 then some 5 else if k == 3000 then some 6 else none

route_1300 : get_socket two 1300 ≡ some 0
unfolding get_socket
route_1300 = refl

route_3000 : get_socket two 3000 ≡ some 1
unfolding get_socket
route_3000 = refl

routed : (k : ℕ) → (k ≡ 1300 → get_socket two k ≡ some 0) × (k ≡ 3000 → get_socket two k ≡ some 1)
routed k = (λ e. rw e route_1300, λ e. rw e route_3000)

first_part :
    (k : ℕ) (o : Option ℕ)
    → (k ≡ 1300 → o ≡ some 0)
    → (k ≡ 3000 → o ≡ some 1)
    → (if 1300 == k then some 5 else none) ≡ (if picks 0 o then records k else none)
first_part k none p q = ground arith
first_part k (some i) p q = ground arith

second_part :
    (k : ℕ) (o : Option ℕ)
    → (k ≡ 1300 → o ≡ some 0)
    → (k ≡ 3000 → o ≡ some 1)
    → (if 3000 == k then some 6 else none) ≡ (if picks 1 o then records k else none)
second_part k none p q = ground arith
second_part k (some i) p q = ground arith

pub disks-HasMain : HasMain table pair disks
disks-HasMain zero h = ((1300, 5) ∷ [], refl)
disks-HasMain (suc zero) h = ((3000, 6) ∷ [], refl)
disks-HasMain (suc (suc i)) h = absurd (omega arith)

pub disks-Stored : Stored table pair records disks
disks-Stored = record { held = held; made = disks-HasMain; no_tmp = no_tmp }
  where
    held :
        (i k : ℕ)
        → i < 2
        → k < 4000
        → contents table (disks (sock_of pair i)).main k
          ≡ (if goes_to two i k then records k else none)
    held zero k h l = first_part k (get_socket two k) (routed k).0 (routed k).1
    held (suc zero) k h l = second_part k (get_socket two k) (routed k).0 (routed k).1
    held (suc (suc i)) k h l = absurd (omega arith)

    no_tmp : (i : ℕ) → i < 2 → (disks (sock_of pair i)).tmp ≡ none
    no_tmp zero h = refl
    no_tmp (suc zero) h = refl
    no_tmp (suc (suc i)) h = absurd (omega arith)

pub disks-IsCurrent : IsCurrent table pair pair-Agrees disks 1
disks-IsCurrent = record { first = λ h. refl; second = λ h. absurd (omega arith) }

alarms-IsCurrent_example :
    (pos' : ℕ) × (after : Disks table) × (alarms table 2 pair (5, disks) ≡ some (pos', after))
    × SameOwn table disks after
    × ((i : ℕ) → i < 2 → IsCurrent table pair pair-Agrees after i)
alarms-IsCurrent_example =
    alarms-IsCurrent table pair pair-Agrees disks 5 disks-HasMain (omega arith)

del_slave-Stored_example :
    (c' : Cluster) × (after : Disks table) × (del_slave 0 pair ≡ some c')
    × (repairs table 0 c' c'.master.num 0 disks ≡ some after)
    × Agrees c'
    × (c'.master.num + 1 ≡ 2)
    × Stored table c' records after
del_slave-Stored_example =
    del_slave-Stored table table-Documented 0 pair pair-Agrees records disks (omega arith)
      (omega arith) disks-Stored disks-IsCurrent (λ hdb e. absurd (cc e))
