-- ===== src/Copies/Join.antt =====
-- A slave joins: the records of its section are in its file, and no record is lost.
use distributed_db.Common.{
  ℕ, ◌+◌, ◌-◌, ◌%◌, ◌<◌, ◌≡◌, ap, ◌∙◌, Bool, not, ◌&&◌, Option, none, some, arith, ltb, ◌==◌,
  if◌then◌else◌,
}
use distributed_db.Slaves.{SlaveNode, max_key, max_slave_num, node_at, live}
use distributed_db.TcDb.{Tchdb}
use distributed_db.TcDb.Split.{Documented}
use distributed_db.Slave.Clip.{goes_to, picks}
use distributed_db.Client.Route.{get_socket}
use distributed_db.Common.{insert_at}
use distributed_db.Ring.{covers}
use distributed_db.Master.{add_to_slave_list}
use distributed_db.Master.Join.{add_to_slave_list-IsRing, sock-add_to_slave_list}
use distributed_db.Client.Route.Moves.{get_socket-add_to_slave_list}
use distributed_db.Cluster.Nodes.{node_at-insert_at}
use distributed_db.Cluster.Joins.{join_net}
use distributed_db.Cluster.{Cluster, add_slave}
use distributed_db.Cluster.Members.{Agrees, IsFresh}
use distributed_db.Copies.{Disks, initial_slave}
use distributed_db.Copies.Backup.{sock_of}
use distributed_db.Copies.Stored.{Stored, Stored-same}
use distributed_db.Copies.Initial.{clip-Clipped, initial_slave-same}
use distributed_db.Copies.Moved.{goes_to-moved, Clipped-Stored}

module _ (tc : Tchdb) (doc : Documented tc) (random ip port sock : ℕ) (c : Cluster) (a : Agrees c)
    (some_slave : 0 < c.master.num) (room : c.master.num < max_slave_num)
    (fresh : IsFresh sock c.master) where
  abbrev asking : SlaveNode
  asking = record { ip = ip; port = port; sock = sock; key = 0 }

  module _ (c' : Cluster) (q : ℕ) (a' : Agrees c')
      (e : add_to_slave_list random asking c.master ≡ some (c'.master, q + 1))
      (grown : c'.master.num ≡ c.master.num + 1) (ql : q < c.master.num)
      (l : live c'.master ≡ insert_at (q + 1) (node_at c'.master (q + 1)) (live c.master)) where
    joined_socks :
        (i : ℕ)
        → i < c'.master.num
        → sock_of c' i
          ≡ (if ltb i (q + 1) then sock_of c i else if i == q + 1 then sock else sock_of c (i - 1))
    joined_socks i h = ground (
      arith,
      node_at-insert_at c.master c'.master (q + 1) i (node_at c'.master (q + 1)) a.sized a'.sized
          grown (omega arith) h l,
      sock-add_to_slave_list random asking c.master c'.master (q + 1) a.sized room e,
    )

    -- Whether a key of the split section is the new slave's.
    abbrev inside : ℕ → Bool
    inside k =
        covers (node_at c'.master (q + 1)).key (node_at c.master ((q + 1) % c.master.num)).key
          (k % max_key)

    joined_whose :
        (i k : ℕ)
        → goes_to c'.master i k ≡ (
            if ltb i q
            then goes_to c.master i k
            else if i == q
            then goes_to c.master q k && not (inside k)
            else if i == q + 1
            then goes_to c.master q k && inside k
            else goes_to c.master (i - 1) k)
    joined_whose i k =
        let (pos, same, r) =
          get_socket-add_to_slave_list random k asking c.master c'.master (q + 1) a.sized a.ring
            some_slave room e in
        let at : pos ≡ q = omega arith in
        ap (picks i) (rw at at r) ∙ goes_to-moved q (inside k) (get_socket c.master k) i

  -- From the master's list on.
  joined-Stored :
      (records : ℕ → Option tc.Value) (disks : Disks tc) (c' : Cluster) (q : ℕ)
      → Stored tc c records disks
      → (disks sock).tmp ≡ none
      → Agrees c'
      → add_to_slave_list random asking c.master ≡ some (c'.master, q + 1)
      → c'.master.num ≡ c.master.num + 1
      → q < c.master.num
      → live c'.master ≡ insert_at (q + 1) (node_at c'.master (q + 1)) (live c.master)
      → (after : Disks tc) × (initial_slave tc c'.net sock disks ≡ some after)
        × Stored tc c' records after
  joined-Stored records disks c' q st t a' e grown ql l =
      let socks = joined_socks c' q a' e grown ql l in
      let whose = joined_whose c' q a' e grown ql l in
      let (own, _) =
        sock-add_to_slave_list random asking c.master c'.master (q + 1) a.sized room e in
      let (m, there) = st.made q ql in
      let at_pre : sock_of c' q ≡ sock_of c q = ground (arith, socks q) in
      let (mid, clipped, x) =
        clip-Clipped tc doc c' a' q disks m (omega arith) (ap (λ y. (disks y).main) at_pre ∙ there)
          (ap (λ y. (disks y).tmp) at_pre ∙ st.no_tmp q ql) in
      let st' =
        Clipped-Stored tc doc c c' a a' q sock (inside c' q a' e grown ql l) ql grown fresh socks
          whose records disks mid m st there t x in
      let (after, run, same) =
        initial_slave-same tc doc c' a' disks mid (q + 1) (omega arith) (omega arith) clipped
          st'.made in
      (after, rw (← own) run, Stored-same tc c' records mid after same st')

  pub add_slave-Stored :
      (records : ℕ → Option tc.Value) (disks : Disks tc)
      → Stored tc c records disks
      → (disks sock).tmp ≡ none
      → (c' : Cluster) × (after : Disks tc) × (add_slave random ip port sock c ≡ some c')
        × (initial_slave tc c'.net sock disks ≡ some after)
        × Agrees c'
        × (c'.master.num ≡ c.master.num + 1)
        × Stored tc c' records after
  add_slave-Stored records disks st t =
      let (sl', p, e, l, hp, n, w, z, g) =
        add_to_slave_list-IsRing random asking c.master a.sized a.ring room in
      let (c', run, a', same) = join_net random ip port sock c a room fresh sl' p e n hp l z g in
      let (q, next, _) =
        get_socket-add_to_slave_list random 0 asking c.master sl' p a.sized a.ring some_slave room
          e in
      let (after, done, st') =
        joined-Stored records disks c' q st t a' (rw (same, ← next) e) (rw same n) (omega arith)
          (rw (same, ← next) l) in
      (c', after, run, done, a', rw same n, st')
