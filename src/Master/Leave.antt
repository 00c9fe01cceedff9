-- ===== src/Master/Leave.antt =====
-- DelFromSlaveList of server/master.c, which is RemoveSlave of server/slave.c: a slave leaves.
use distributed_db.Common.{ℕ, ◌+◌, ◌<◌, ◌≡◌, some, arith, remove_at, map-remove_at}
use distributed_db.Slaves.{SlaveNode, SlaveList, IsSized, live, keys, next_version, remove_slave}
use distributed_db.Slaves.Edits.{remove_slave_lem}
use distributed_db.Ring.{IsRing}
use distributed_db.Ring.Sections.{remove_at-IsRing}
use distributed_db.Ring.Arcs.{length-keys}

-- DelFromSlaveList, and RemoveSlave with it, keeps the ring: it takes out the slave at the index,
-- closes the gap in order, counts one slave less, steps the version, and the keys of the slaves
-- that stay still go round once.
pub remove_slave-IsRing :
    (pos : ℕ) (sl : SlaveList)
    → IsSized sl
    → IsRing (keys sl)
    → pos < sl.num
    → (sl' : SlaveList) × (remove_slave pos sl ≡ some sl')
      × (live sl' ≡ remove_at pos (live sl))
      × (sl'.num + 1 ≡ sl.num)
      × (sl'.version ≡ next_version sl.version)
      × IsSized sl'
      × IsRing (keys sl')
remove_slave-IsRing pos sl v g h =
    let (sl', e, l, n, w, z) = remove_slave_lem pos sl v h in
    (
      sl',
      e,
      l,
      n,
      w,
      z,
      rw (l, map-remove_at (λ (x : SlaveNode). x.key) pos (live sl))
          (remove_at-IsRing pos (keys sl) g (omega (arith, length-keys sl v))),
    )
