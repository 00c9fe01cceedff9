-- ===== src/Client/Route.antt =====
-- GetSocket of client/netdbapi.c: which slave a key is sent to.
pub mod Owner
pub mod Same
pub mod Moves
use distributed_db.Common.{
  ℕ, zero, suc, ◌+◌, ◌%◌, Bool, ◌&&◌, ◌||◌, Option, none, some, ltb, leb, ◌==◌, if◌then◌else◌,
}
use distributed_db.Slaves.{SlaveList, max_key, node_at}

-- The three tests of one round of the loop, which all end it with this index.
in_section : ℕ → ℕ → ℕ → Bool
in_section lower_b upper_b key =
    if ltb lower_b upper_b && (ltb lower_b key && leb key upper_b)
    then Bool.true
    else if ltb upper_b lower_b && (ltb lower_b key || leb key upper_b)
    then Bool.true
    else lower_b == upper_b

-- The loop from index `i`, with the rounds left. `none` is the end of the loop, with no index found.
find_section : SlaveList → ℕ → ℕ → ℕ → Option ℕ
unfolding in_section
find_section sl key zero i = none
find_section sl key (suc n) i =
    let rest = find_section sl key n (i + 1) in
    let lower_b = (node_at sl i).key in
    let upper_b = (node_at sl ((i + 1) % sl.num)).key in
    if in_section lower_b upper_b key then some i else rest

-- The index of the node whose socket is returned; `none` is the failed assertion.
unfoldable pub get_socket : SlaveList → ℕ → Option ℕ
unfolding find_section
get_socket sl key = find_section sl (key % max_key) sl.num 0
