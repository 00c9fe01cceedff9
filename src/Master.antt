-- ===== src/Master.antt =====
-- The slave list of the master (server/master.c): where a new slave is put, and what it is given.
pub mod Longest
pub mod Placed
pub mod Join
pub mod Leave
use distributed_db.Common.{
  ℕ, zero, suc, ◌+◌, ◌-◌, ◌/◌, ◌%◌, ◌||◌, Option, none, some, ◌>>=◌, ltb, leb, ◌==◌, if◌then◌else◌,
  set,
}
use mathlib.Core.Option
use distributed_db.Slaves.{
  SlaveNode, SlaveList, max_slave_num, max_key, node_at, next_version, shift_up,
}

-- The sum is taken before the difference, which does not go below zero where keys are below
-- `max_key`.
pub get_length : SlaveList → ℕ → ℕ
get_length sl pos =
    ((node_at sl ((pos + 1) % sl.num)).key + (max_key - 1) - (node_at sl pos).key) % max_key + 1

-- `maxlen` and `index` of the loop; `none` is the -1 that they start from.
longer : Option (ℕ × ℕ) → ℕ → ℕ → Option (ℕ × ℕ)
longer none len i = some (len, i)
longer (some (maxlen, index)) len i = if ltb maxlen len then some (len, i) else some (maxlen, index)

-- The loop from index `i`, with the rounds left.
longest_from : SlaveList → ℕ → ℕ → Option (ℕ × ℕ) → Option (ℕ × ℕ)
unfolding longer get_length
longest_from sl zero i best = best
longest_from sl (suc n) i best = longest_from sl n (i + 1) (longer best (get_length sl i) i)

pub find_longest_section : SlaveList → Option ℕ
unfolding longest_from
find_longest_section sl = Option.map (λ (b : ℕ × ℕ). b.1) (longest_from sl sl.num 0 none)

-- The branch for a list in use, with the index of the longest section: the nodes above it move
-- up, and the new node gets the middle of its section.
insert_after : ℕ → SlaveNode → SlaveList → SlaveList × ℕ
unfolding shift_up get_length
insert_after pos sn sl =
    let moved_up = record sl { nodes = shift_up (sl.num - 1 - pos) (pos + 1) sl.nodes } in
    let key = (get_length moved_up pos / 2 + (node_at moved_up pos).key) % max_key in
    (
      record {
        version = next_version sl.version;
        num = sl.num + 1;
        nodes = set moved_up.nodes (pos + 1) (record sn { key = key });
      },
      pos + 1,
    )

-- `random` is what rand() returns. The result is the list with the index of the new slave. `none`
-- is a write past the end of `nodes`, which the code does not guard against.
unfoldable pub add_to_slave_list : ℕ → SlaveNode → SlaveList → Option (SlaveList × ℕ)
unfolding find_longest_section insert_after
add_to_slave_list random sn sl =
    if leb max_slave_num sl.num
    then none
    else if sl.num == 0
    then some (
      record {
        version = next_version sl.version;
        num = sl.num + 1;
        nodes = set sl.nodes 0 (record sn { key = random % max_key });
      },
      0,
    )
    else do pos ← find_longest_section sl; some (insert_after pos sn sl)
