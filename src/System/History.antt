-- ===== src/System/History.antt =====
-- Any sequence of events on the whole store.
use distributed_db.Common.{ℕ, ◌≡◌, List, [], ◌∷◌, Option, some}
use distributed_db.TcDb.{Tchdb}
use distributed_db.TcDb.Split.{Documented}
use distributed_db.Cluster.Members.{Agrees}
use distributed_db.System.{System, Event, act, meaning}
use distributed_db.System.Keeps.{Keeps, MayHappen, act-Keeps}

module _ (tc : Tchdb) (doc : Documented tc) (err : tc.Msg) where
  -- Events that happen in turn, each of them when it may.
  pub data History (s : System tc err) : List (Event tc err) → System tc err → Type 0 where
    here : History s [] s
    next :
        {es : List (Event tc err)} {d d' : System tc err} (e : Event tc err) (a : Agrees d.cluster)
        → History s es d
        → MayHappen tc doc err e d a
        → act tc err e d ≡ some d'
        → History s (e ∷ es) d'

  -- What the events, the last one first, mean together.
  unfoldable pub meanings : List (Event tc err) → (ℕ → Option tc.Value) → ℕ → Option tc.Value
  meanings [] records = records
  meanings (e ∷ es) records = meaning tc err e (meanings es records)

  pub History-Keeps :
      {s s' : System tc err} {es : List (Event tc err)} {records : ℕ → Option tc.Value}
      → Keeps tc doc err s records
      → History s es s'
      → Keeps tc doc err s' (meanings es records)
  unfolding meanings
  History-Keeps h here = h
  History-Keeps {records} h (next {es} {d} {d'} e a r may run) =
      let k = record (History-Keeps h r) { agrees = a } in
      let (after, run', k') = act-Keeps tc doc err e d (meanings es records) k may in
      let same : d' ≡ after = cc (run, run') in rw same k'
