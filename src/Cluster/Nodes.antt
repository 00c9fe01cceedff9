-- ===== src/Cluster/Nodes.antt =====
-- Which node stands where after a slave joins or leaves.
use distributed_db.Common.{
  ℕ, suc, ◌+◌, ◌-◌, ◌≤◌, ◌<◌, ◌≡◌, some, arith, ltb, ◌==◌, if◌then◌else◌, get_elem?, insert_at,
  remove_at, length-take, get_elem?-eq-get_or, get_elem?-take, get_elem?-insert_at,
  get_elem?-remove_at,
}
use distributed_db.Slaves.{SlaveNode, SlaveList, IsSized, blank, node_at, live}

get_elem?-live :
    (sl : SlaveList) (i : ℕ) → IsSized sl → i < sl.num → get_elem? (live sl) i ≡ some (node_at sl i)
get_elem?-live sl i v h =
    ground (arith, get_elem?-take sl.num sl.nodes i, get_elem?-eq-get_or sl.nodes i blank)

pub node_at-insert_at :
    (sl sl' : SlaveList) (p i : ℕ) (nd : SlaveNode)
    → IsSized sl
    → IsSized sl'
    → sl'.num ≡ sl.num + 1
    → p ≤ sl.num
    → i < sl'.num
    → live sl' ≡ insert_at p nd (live sl)
    → node_at sl' i ≡ (if ltb i p then node_at sl i else if i == p then nd else node_at sl (i - 1))
node_at-insert_at sl sl' p i nd v v' n hp h e = ground (
  arith,
  get_elem?-live sl' i v' h,
  get_elem?-live sl i v,
  get_elem?-live sl (i - 1) v,
  get_elem?-insert_at p nd (live sl) i,
  length-take sl.num sl.nodes,
)

pub node_at-remove_at :
    (sl sl' : SlaveList) (p i : ℕ)
    → IsSized sl
    → IsSized sl'
    → sl'.num + 1 ≡ sl.num
    → i < sl'.num
    → live sl' ≡ remove_at p (live sl)
    → node_at sl' i ≡ (if ltb i p then node_at sl i else node_at sl (i + 1))
node_at-remove_at sl sl' p i v v' n h e = ground (
  arith,
  get_elem?-live sl' i v' h,
  get_elem?-live sl i v,
  get_elem?-live sl (i + 1) v,
  get_elem?-live sl (suc i) v,
  get_elem?-remove_at p (live sl) i,
)
