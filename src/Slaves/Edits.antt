-- ===== src/Slaves/Edits.antt =====
-- What the array loops of AddNewSlave and RemoveSlave do to the entries in use.
use distributed_db.Common.{
  ℕ, zero, suc, ◌+◌, ◌-◌, ◌≤◌, ◌<◌, ◌≡◌, refl, ◌∙◌, ◌&&◌, List, some, arith, ltb, leb,
  if◌then◌else◌, length, get_elem?, get_or, set, insert_at, remove_at, length-set, length-take,
  get_elem?-set, get_elem?-eq-get_or, get_elem?-take, get_elem?-insert_at, get_elem?-remove_at,
  list_ext,
}
use distributed_db.Slaves.{
  SlaveNode, SlaveList, IsSized, blank, node_at, live, shift_up, shift_down, add_new_slave,
  remove_slave, max_slave_num, next_version,
}

pub length-shift_up : (n lo : ℕ) (xs : List SlaveNode) → length (shift_up n lo xs) ≡ length xs
unfolding shift_up
length-shift_up zero lo xs = refl
length-shift_up (suc n) lo xs = length-shift_up n lo _ ∙ length-set xs _ _

pub length-shift_down : (n i : ℕ) (xs : List SlaveNode) → length (shift_down n i xs) ≡ length xs
unfolding shift_down
length-shift_down zero i xs = refl
length-shift_down (suc n) i xs = length-shift_down n (i + 1) _ ∙ length-set xs _ _

get_elem?-shift_up :
    (n lo : ℕ) (xs : List SlaveNode) (i : ℕ)
    → lo + n < length xs
    → get_elem? (shift_up n lo xs) i
      ≡ (if ltb lo i && leb i (lo + n) then get_elem? xs (i - 1) else get_elem? xs i)
unfolding shift_up
get_elem?-shift_up zero lo xs i h = ground arith
get_elem?-shift_up (suc n) lo xs i h = ground (
  arith,
  get_elem?-shift_up n lo (set xs (lo + n + 1) (get_or xs (lo + n) blank)) i,
  length-set xs (lo + n + 1) (get_or xs (lo + n) blank),
  get_elem?-set xs (lo + n + 1) (i - 1) (get_or xs (lo + n) blank),
  get_elem?-set xs (lo + n + 1) i (get_or xs (lo + n) blank),
  get_elem?-eq-get_or xs (lo + n) blank,
)

-- The entries up to the lowest one that is moved stay.
pub get_or-shift_up :
    (n lo : ℕ) (xs : List SlaveNode) (i : ℕ)
    → lo + n < length xs
    → i ≤ lo
    → get_or (shift_up n lo xs) i blank ≡ get_or xs i blank
get_or-shift_up n lo xs i h hi = ground (
  arith,
  get_elem?-shift_up n lo xs i,
  get_elem?-eq-get_or xs i blank,
  get_elem?-eq-get_or (shift_up n lo xs) i blank,
  length-shift_up n lo xs,
)

get_elem?-shift_down :
    (n lo : ℕ) (xs : List SlaveNode) (i : ℕ)
    → lo + n < length xs
    → get_elem? (shift_down n lo xs) i
      ≡ (if leb lo i && ltb i (lo + n) then get_elem? xs (i + 1) else get_elem? xs i)
unfolding shift_down
get_elem?-shift_down zero lo xs i h = ground arith
get_elem?-shift_down (suc n) lo xs i h = ground (
  arith,
  get_elem?-shift_down n (lo + 1) (set xs lo (get_or xs (lo + 1) blank)) i,
  length-set xs lo (get_or xs (lo + 1) blank),
  get_elem?-set xs lo (i + 1) (get_or xs (lo + 1) blank),
  get_elem?-set xs lo i (get_or xs (lo + 1) blank),
  get_elem?-eq-get_or xs (lo + 1) blank,
)

-- AddNewSlave, within the array, puts the node in at `pos`, counts it, and steps the version.
pub add_new_slave_lem :
    (pos : ℕ) (sn : SlaveNode) (sl : SlaveList)
    → IsSized sl
    → sl.num < max_slave_num
    → pos ≤ sl.num
    → (sl' : SlaveList) × (add_new_slave pos sn sl ≡ some sl')
      × (live sl' ≡ insert_at pos sn (live sl))
      × (sl'.num ≡ sl.num + 1)
      × (sl'.version ≡ next_version sl.version)
      × IsSized sl'
unfolding add_new_slave
add_new_slave_lem pos sn sl v h hp = (
  record {
    version = next_version sl.version;
    num = sl.num + 1;
    nodes = set (shift_up (sl.num - pos) pos sl.nodes) pos sn;
  },
  ground arith,
  list_ext _ _ (λ i. ground (
    arith,
    get_elem?-take (sl.num + 1) (set (shift_up (sl.num - pos) pos sl.nodes) pos sn) i,
    get_elem?-set (shift_up (sl.num - pos) pos sl.nodes) pos i sn,
    length-shift_up (sl.num - pos) pos sl.nodes,
    get_elem?-shift_up (sl.num - pos) pos sl.nodes i,
    get_elem?-insert_at pos sn (live sl) i,
    length-take sl.num sl.nodes,
    get_elem?-take sl.num sl.nodes i,
    get_elem?-take sl.num sl.nodes (i - 1),
  )),
  refl,
  refl,
  ground (
    arith,
    length-set (shift_up (sl.num - pos) pos sl.nodes) pos sn,
    length-shift_up (sl.num - pos) pos sl.nodes,
  ),
)

-- The node put in stands at `pos`.
pub node_at-add_new_slave :
    (pos : ℕ) (sn : SlaveNode) (sl : SlaveList) {sl' : SlaveList}
    → IsSized sl
    → pos < max_slave_num
    → add_new_slave pos sn sl ≡ some sl'
    → node_at sl' pos ≡ sn
unfolding add_new_slave
node_at-add_new_slave pos sn sl {sl'} v h e = ground (
  arith,
  get_elem?-set (shift_up (sl.num - pos) pos sl.nodes) pos pos sn,
  length-set (shift_up (sl.num - pos) pos sl.nodes) pos sn,
  get_elem?-eq-get_or (set (shift_up (sl.num - pos) pos sl.nodes) pos sn) pos blank,
  length-shift_up (sl.num - pos) pos sl.nodes,
)

pub remove_slave_lem :
    (pos : ℕ) (sl : SlaveList)
    → IsSized sl
    → pos < sl.num
    → (sl' : SlaveList) × (remove_slave pos sl ≡ some sl')
      × (live sl' ≡ remove_at pos (live sl))
      × (sl'.num + 1 ≡ sl.num)
      × (sl'.version ≡ next_version sl.version)
      × IsSized sl'
unfolding remove_slave
remove_slave_lem pos sl v h = (
  record {
    version = next_version sl.version;
    num = sl.num - 1;
    nodes = shift_down (sl.num - 1 - pos) pos sl.nodes;
  },
  ground arith,
  list_ext _ _ (λ i. ground (
    arith,
    get_elem?-take (sl.num - 1) (shift_down (sl.num - 1 - pos) pos sl.nodes) i,
    get_elem?-shift_down (sl.num - 1 - pos) pos sl.nodes i,
    get_elem?-remove_at pos (live sl) i,
    get_elem?-take sl.num sl.nodes i,
    get_elem?-take sl.num sl.nodes (i + 1),
    get_elem?-take sl.num sl.nodes (suc i),
  )),
  omega arith,
  refl,
  ground (arith, length-shift_down (sl.num - 1 - pos) pos sl.nodes),
)
