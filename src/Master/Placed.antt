-- ===== src/Master/Placed.antt =====
-- Where AddToSlaveList puts a slave, and with which key.
use distributed_db.Common.{ℕ, ◌+◌, ◌-◌, ◌/◌, ◌%◌, ◌≤◌, ◌<◌, ◌≡◌, refl, some, arith, set}
use native.Mathlib.Decide.{ℕ_discrete}
use distributed_db.Slaves.{
  SlaveNode, SlaveList, IsSized, max_slave_num, max_key, node_at, shift_up, next_version,
  add_new_slave,
}
use distributed_db.Slaves.Edits.{get_or-shift_up}
use distributed_db.Master.{get_length, find_longest_section, insert_after, add_to_slave_list}
use distributed_db.Master.Longest.{find_longest_section_lem}

-- The key that a new slave gets after index `pos`.
abbrev pub middle_key : SlaveList → ℕ → ℕ
middle_key sl pos = (get_length sl pos / 2 + (node_at sl pos).key) % max_key

moved_up : SlaveList → ℕ → SlaveList
moved_up sl pos = record sl { nodes = shift_up (sl.num - 1 - pos) (pos + 1) sl.nodes }

-- The key is worked out after the nodes have moved up, and comes out as before.
middle_key-moved_up :
    (sl : SlaveList) (pos : ℕ)
    → IsSized sl
    → sl.num < max_slave_num
    → pos < sl.num
    → middle_key (moved_up sl pos) pos ≡ middle_key sl pos
unfolding moved_up get_length
middle_key-moved_up sl pos v h hp =
    rw
      (
        get_or-shift_up (sl.num - 1 - pos) (pos + 1) sl.nodes pos (omega arith) (omega arith),
        get_or-shift_up (sl.num - 1 - pos) (pos + 1) sl.nodes ((pos + 1) % sl.num) (omega arith)
            (omega arith),
      )
      refl

insert_after_lem :
    (pos : ℕ) (sn : SlaveNode) (sl : SlaveList)
    → IsSized sl
    → sl.num < max_slave_num
    → pos < sl.num
    → (add_new_slave (pos + 1) (record sn { key = middle_key sl pos }) sl
        ≡ some (insert_after pos sn sl).0)
      × ((insert_after pos sn sl).1 ≡ pos + 1)
unfolding insert_after add_new_slave moved_up
insert_after_lem pos sn sl v h hp =
    let rounds : sl.num - (pos + 1) ≡ sl.num - 1 - pos = omega arith in
    (rw (← middle_key-moved_up sl pos v h hp, rounds) (ground arith), refl)

-- Where the new slave goes, and what it is: the first at any key, a later one past the index that
-- FindLongestSection picks.
pub data Placed (random : ℕ) (sn : SlaveNode) (sl : SlaveList) : ℕ → SlaveNode → Type 0 where
  only : sl.num ≡ 0 → Placed random sn sl 0 (record sn { key = random % max_key })
  halfway :
      (pos : ℕ)
      → 0 < sl.num
      → find_longest_section sl ≡ some pos
      → pos < sl.num
      → Placed random sn sl (pos + 1) (record sn { key = middle_key sl pos })

pub Placed-le :
    {random : ℕ} {sn : SlaveNode} {sl : SlaveList} {p : ℕ} {nd : SlaveNode}
    → Placed random sn sl p nd
    → p ≤ sl.num
Placed-le (only e) = omega arith
Placed-le (halfway pos h f l) = omega arith

-- On a list with room, AddToSlaveList succeeds, and does what AddNewSlave does with the position
-- and the node that it has chosen.
pub add_to_slave_list_cases :
    (random : ℕ) (sn : SlaveNode) (sl : SlaveList)
    → IsSized sl
    → sl.num < max_slave_num
    → (sl' : SlaveList) × (p : ℕ) × (nd : SlaveNode) × Placed random sn sl p nd
      × (add_to_slave_list random sn sl ≡ some (sl', p))
      × (add_new_slave p nd sl ≡ some sl')
unfolding add_to_slave_list add_new_slave
add_to_slave_list_cases random sn sl v h = elim (ℕ_discrete sl.num 0) [
  | yes e ↦ (
    record {
      version = next_version sl.version;
      num = sl.num + 1;
      nodes = set sl.nodes 0 (record sn { key = random % max_key });
    },
    0,
    record sn { key = random % max_key },
    only e,
    ground arith,
    first e,
  )
  | no ne ↦
      let (pos, f, l, _, _) = find_longest_section_lem sl 0 (omega arith) in
      let (q, r) = insert_after_lem pos sn sl v h l in
      (
        (insert_after pos sn sl).0,
        pos + 1,
        record sn { key = middle_key sl pos },
        halfway pos (omega arith) f l,
        ground (arith, f, r),
        q,
      )
]
  where
    first :
        sl.num ≡ 0
        → add_new_slave 0 (record sn { key = random % max_key }) sl
          ≡ some (record {
            version = next_version sl.version;
            num = sl.num + 1;
            nodes = set sl.nodes 0 (record sn { key = random % max_key });
          })
    first e = let e' : sl.num - 0 ≡ 0 = omega arith in rw (e') (ground arith)
