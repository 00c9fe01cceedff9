-- ===== src/System/Keeps.antt =====
-- The whole store is a map from keys to records: every event that may happen goes through and does
-- to the records what it means.
use distributed_db.Common.{
  ℕ, ◌+◌, ◌-◌, ◌%◌, ◌<◌, ◌≡◌, ◌≢◌, refl, sym, ap, ◌∙◌, Option, none, some, arith, ==_iff,
}
use distributed_db.Slaves.{max_key, max_slave_num}
use distributed_db.TcDb.{Tchdb, db_set_key_value, db_del_key_value}
use distributed_db.TcDb.Split.{Documented}
use distributed_db.TcDb.Record.{db_set_key_value_lem, db_get_key_value_lem, db_del_key_value_lem}
use distributed_db.Client.Route.{get_socket}
use distributed_db.Client.Route.Owner.{get_socket_total}
use distributed_db.Cluster.Members.{Agrees, IsFresh}
use distributed_db.Copies.{stale}
use distributed_db.Copies.Backup.{sock_of}
use distributed_db.Copies.Current.{IsCurrent}
use distributed_db.Copies.Alarm.{update_backup_lem}
use distributed_db.Copies.Stored.{contents, Stored, Stored-same}
use distributed_db.Copies.Join.{add_slave-Stored}
use distributed_db.Copies.Leave.{del_slave-Stored}
use distributed_db.System.{
  System, Event, sets, dels, joins, leaves, alarm, asked, saved, find, act, meaning,
}
use distributed_db.System.Record.{write-Stored}

module _ (tc : Tchdb) (doc : Documented tc) (err : tc.Msg) where
  -- The store is in a state that stands for the map.
  pub record Keeps (s : System tc err) (records : ℕ → Option tc.Value) : Type 0 where
    pub agrees : Agrees s.cluster
    pub some_slave : 0 < s.cluster.master.num
    pub stored : Stored tc s.cluster records s.disks

  -- When an event may happen: a client's key is below `max_key`; a slave joins over a new connection
  -- while there is room, with no file left from a split; a slave other than the last one leaves
  -- while the slave before it has a current copy of its data, and on
  -- that copy no stale handle from an earlier merge.
  unfoldable pub MayHappen : Event tc err → (s : System tc err) → Agrees s.cluster → Type 0
  MayHappen (sets key value) s a = key < max_key
  MayHappen (dels key) s a = key < max_key
  MayHappen (joins random ip port sock) s a =
      (s.cluster.master.num < max_slave_num)
      × IsFresh sock s.cluster.master
      × ((s.disks sock).tmp ≡ none)
  MayHappen (leaves pos) s a =
      (pos < s.cluster.master.num)
      × (1 < s.cluster.master.num)
      × IsCurrent tc s.cluster a s.disks ((pos + s.cluster.master.num - 1) % s.cluster.master.num)
      × ((hdb : tc.Hdb)
          → (s.disks
              (sock_of s.cluster ((pos + s.cluster.master.num - 1) % s.cluster.master.num))).left1
            ≢ stale hdb)
  MayHappen alarm s a = Unit

  asked_total :
      (key : ℕ) (s : System tc err) (records : ℕ → Option tc.Value)
      → Keeps s records
      → (i : ℕ) × (main : tc.Hdb) × (asked tc err key s ≡ some (sock_of s.cluster i, main))
        × (i < s.cluster.master.num)
        × (get_socket s.cluster.master key ≡ some i)
        × ((s.disks (sock_of s.cluster i)).main ≡ some main)
  unfolding asked
  asked_total key s records h =
      let a = h.agrees in
      let (i, e, l, _) = get_socket_total s.cluster.master key a.sized a.ring h.some_slave in
      let (main, there) = h.stored.made i l in (i, main, rw (e, there) refl, l, e, there)

  pub act-Keeps :
      (e : Event tc err) (s : System tc err) (records : ℕ → Option tc.Value) (h : Keeps s records)
      → MayHappen e s h.agrees
      → (s' : System tc err) × (act tc err e s ≡ some s') × Keeps s' (meaning tc err e records)
  unfolding act saved meaning MayHappen
  act-Keeps (sets key value) s records h m =
      let (i, main, run, l, e, there) = asked_total key s records h in
      let hdb = (db_set_key_value tc main key value err).1 in
      let st =
        write-Stored tc s.cluster h.agrees records s.disks h.stored key i (some value) main hdb l e
          there (db_set_key_value_lem tc doc main key value err).2 in
      (
        saved tc err (sock_of s.cluster i) hdb s,
        rw run refl,
        record { agrees = h.agrees; some_slave = h.some_slave; stored = st },
      )
  act-Keeps (dels key) s records h m =
      let (i, main, run, l, e, there) = asked_total key s records h in
      let hdb = (db_del_key_value tc main key err).1 in
      let st =
        write-Stored tc s.cluster h.agrees records s.disks h.stored key i none main hdb l e there
          (db_del_key_value_lem tc doc main key err).1 in
      (
        saved tc err (sock_of s.cluster i) hdb s,
        rw run refl,
        record { agrees = h.agrees; some_slave = h.some_slave; stored = st },
      )
  act-Keeps (joins random ip port sock) s records h (room, fresh, clear) =
      let (c', after, run, run', a', n, st) =
        add_slave-Stored tc doc random ip port sock s.cluster h.agrees h.some_slave room fresh
          records s.disks h.stored clear in
      (
        record s { cluster = c'; disks = after },
        rw (run, run') refl,
        record { agrees = a'; some_slave = omega arith; stored = st },
      )
  act-Keeps (leaves pos) s records h (l, several, current, unmerged) =
      let (c', after, run, run', a', n, st) =
        del_slave-Stored tc doc pos s.cluster h.agrees records s.disks l several h.stored current
          unmerged in
      (
        record s { cluster = c'; disks = after },
        rw (run, run') refl,
        record { agrees = a'; some_slave = omega arith; stored = st },
      )
  act-Keeps alarm s records h m =
      let (after, run, same, _, _) =
        update_backup_lem tc s.cluster h.agrees s.disks s.turn h.stored.made h.some_slave in
      (
        record s { disks = after; turn = (s.turn + 1) % s.cluster.master.num },
        rw run refl,
        record {
          agrees = h.agrees;
          some_slave = h.some_slave;
          stored = Stored-same tc s.cluster records s.disks after same h.stored;
        },
      )

  -- What a client finds under a key is the record of the map.
  pub find-Keeps :
      (key : ℕ) (s : System tc err) (records : ℕ → Option tc.Value)
      → Keeps s records
      → key < max_key
      → find tc err key s ≡ records key
  unfolding find
  find-Keeps key s records h l =
      let (i, main, run, hi, e, there) = asked_total key s records h in
      rw run (
        db_get_key_value_lem tc doc main key err
        ∙ ap (λ f. contents tc f key) (sym there)
        ∙ h.stored.held i key hi l
        ∙ rw (e, (==_iff i i).1 refl) refl)
