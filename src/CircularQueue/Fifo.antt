-- ===== src/CircularQueue/Fifo.antt =====
-- The queue is a FIFO of at most nine messages.
use distributed_db.Common.{
  ℕ, zero, suc, ◌+◌, ◌-◌, ◌%◌, ◌<◌, ◌≡◌, refl, sym, length-append, ap, ap₂, ◌∙◌, List, [], ◌∷◌,
  ◌++◌, none, some, arith, length, get_or, set, length-set, get_or-set, get_elem?-eq-get_or,
}
use distributed_db.CircularQueue.{
  QueueNode, CircularQueue, max_queue_len, with_bufs, init_queue, enqueue, dequeue,
}

pub record IsValid {Handle : Type 0} (q : CircularQueue Handle) : Type 0 where
  pub slots : length q.slots ≡ max_queue_len
  pub head : q.head < max_queue_len
  pub tail : q.tail < max_queue_len

length-with_bufs :
    {Handle : Type 0} (malloc : ℕ → ℕ) (i : ℕ) (slots : List (QueueNode Handle))
    → length (with_bufs malloc i slots) ≡ length slots
length-with_bufs malloc i [] = refl
length-with_bufs malloc i (node ∷ rest) = ap suc (length-with_bufs malloc (i + 1) rest)

pub init_queue-IsValid :
    {Handle : Type 0} (malloc : ℕ → ℕ) (slots : List (QueueNode Handle))
    → length slots ≡ max_queue_len
    → IsValid (init_queue malloc slots)
unfolding init_queue
init_queue-IsValid malloc slots h = record {
  slots = length-with_bufs malloc 0 slots ∙ h;
  head = omega arith;
  tail = omega arith;
}

-- `blank` is a handle that no window over a valid queue shows.
module _ {Handle : Type 0} (blank : Handle) where
  abbrev no_node : QueueNode Handle
  no_node = record { hcsock = blank; buf = 0 }

  -- The `n` nodes from slot `h` on, going round.
  abbrev window : List (QueueNode Handle) → ℕ → ℕ → List (QueueNode Handle)
  window slots h zero = []
  window slots h (suc n) = get_or slots h no_node ∷ window slots ((h + 1) % max_queue_len) n

  -- The number of nodes held.
  abbrev held : CircularQueue Handle → ℕ
  held q = (q.tail + max_queue_len - q.head) % max_queue_len

  -- The nodes held, oldest first.
  abbrev pub contents : CircularQueue Handle → List (QueueNode Handle)
  contents q = window q.slots q.head (held q)

  length-window : (slots : List (QueueNode Handle)) (h n : ℕ) → length (window slots h n) ≡ n
  length-window slots h zero = refl
  length-window slots h (suc n) = ap suc (length-window slots ((h + 1) % max_queue_len) n)

  -- A write just past a window makes it one longer.
  window-set :
      (slots : List (QueueNode Handle)) (v : QueueNode Handle) (n h t : ℕ)
      → length slots ≡ max_queue_len
      → h < max_queue_len
      → n < max_queue_len
      → t ≡ (h + n) % max_queue_len
      → window (set slots t v) h (suc n) ≡ window slots h n ++ (v ∷ [])
  window-set slots v zero h t hs hh hn e =
      ap (λ x. x ∷ []) (ground (arith, get_or-set slots t h v no_node))
  window-set slots v (suc n) h t hs hh hn e =
      ap₂ ◌∷◌ (ground (arith, get_or-set slots t h v no_node)) (
        window-set slots v n ((h + 1) % max_queue_len) t hs (omega arith) (omega arith)
          (omega arith))

  length-contents : (q : CircularQueue Handle) → length (contents q) ≡ held q
  length-contents q = length-window q.slots q.head (held q)

  pub length-contents_lt : (q : CircularQueue Handle) → length (contents q) < max_queue_len
  length-contents_lt q = omega (arith, length-contents q)

  pub enqueue_full :
      (node : QueueNode Handle) (q : CircularQueue Handle)
      → IsValid q
      → length (contents q) ≡ 9
      → enqueue node q ≡ none
  unfolding enqueue
  enqueue_full node q v h = ground (arith, length-contents q)

  -- EnQueue puts the node last on a queue that holds fewer than nine nodes, and keeps it valid.
  pub enqueue-contents :
      (node : QueueNode Handle) (q : CircularQueue Handle)
      → IsValid q
      → length (contents q) < 9
      → (q' : CircularQueue Handle) × (enqueue node q ≡ some q')
        × (contents q' ≡ contents q ++ (node ∷ []))
        × IsValid q'
  unfolding enqueue
  enqueue-contents node q v h =
      let few : held q < 9 = omega (arith, length-contents q) in
      let q' : CircularQueue Handle = record q {
        slots = set q.slots q.tail node;
        tail = (q.tail + 1) % max_queue_len;
      } in
      let more : held q' ≡ suc (held q) = omega arith in
      (
        q',
        ground arith,
        ap (window q'.slots q.head) more
            ∙ window-set q.slots node (held q) q.head q.tail v.slots v.head (omega arith)
                (omega arith),
        record {
          slots = length-set q.slots q.tail node ∙ v.slots;
          head = v.head;
          tail = omega arith;
        },
      )

  window-pos :
      (slots : List (QueueNode Handle)) (h n : ℕ)
      → 0 < n
      → window slots h n ≡ get_or slots h no_node ∷ window slots ((h + 1) % max_queue_len) (n - 1)
  window-pos slots h zero l = absurd (omega arith)
  window-pos slots h (suc n) l =
      ap (λ k. get_or slots h no_node ∷ window slots ((h + 1) % max_queue_len) k) (omega arith)

  -- DeQueue fails on a queue that holds nothing.
  pub dequeue_empty : (q : CircularQueue Handle) → IsValid q → contents q ≡ [] → dequeue q ≡ none
  unfolding dequeue
  dequeue_empty q v e = ground (arith, length-contents q, ap length e)

  -- DeQueue takes the oldest node off a queue that holds any, and keeps it valid.
  pub dequeue-contents :
      (q : CircularQueue Handle)
      → IsValid q
      → 0 < length (contents q)
      → (node : QueueNode Handle) × (q' : CircularQueue Handle) × (dequeue q ≡ some (node, q'))
        × (contents q ≡ node ∷ contents q')
        × IsValid q'
  unfolding dequeue
  dequeue-contents q v h =
      let some_held : 0 < held q = omega (arith, length-contents q) in
      let q' : CircularQueue Handle = record q { head = (q.head + 1) % max_queue_len } in
      let less : held q - 1 ≡ held q' = omega arith in
      (
        get_or q.slots q.head no_node,
        q',
        ground (arith, get_elem?-eq-get_or q.slots q.head no_node),
        window-pos q.slots q.head (held q) some_held
            ∙ ap (λ k. get_or q.slots q.head no_node ∷ window q.slots q'.head k) less,
        record { slots = v.slots; head = omega arith; tail = v.tail },
      )

  only_one :
      (xs ys : List (QueueNode Handle)) (x y : QueueNode Handle)
      → length xs ≡ 0
      → xs ++ (x ∷ []) ≡ y ∷ ys
      → (y ≡ x) × (ys ≡ [])
  only_one [] ys x y h e =
      let same : y ≡ x = cc e in let none_left : ys ≡ [] = cc e in (same, none_left)
  only_one (z ∷ xs) ys x y h e = absurd (omega (arith, h))

  -- A node that is put into an empty queue is the one that is taken next, and leaves it empty.
  pub dequeue-enqueue_empty :
      (node : QueueNode Handle) (q : CircularQueue Handle)
      → IsValid q
      → length (contents q) ≡ 0
      → (q' : CircularQueue Handle) × (q'' : CircularQueue Handle) × (enqueue node q ≡ some q')
        × (dequeue q' ≡ some (node, q''))
        × IsValid q''
        × (length (contents q'') ≡ 0)
  dequeue-enqueue_empty node q v h =
      let (q', put, shown, v') = enqueue-contents node q v (omega arith) in
      let one = length-append (contents q) (node ∷ []) in
      let (node', q'', took, rest, v'') =
        dequeue-contents q' v' (omega (arith, ap length shown, one)) in
      let (same, left) = only_one (contents q) (contents q'') node node' h (sym shown ∙ rest) in
      (q', q'', put, took ∙ rw same refl, v'', ap length left)
