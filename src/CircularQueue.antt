-- ===== src/CircularQueue.antt =====
-- The message queue of server/CircularQueue.c: an array of `max_queue_len` slots, of which one
-- stays free. Each operation holds the mutex throughout, so it is one step.
pub mod Fifo
use distributed_db.Common.{
  ℕ, ◌+◌, ◌%◌, Bool, List, [], ◌∷◌, Option, none, some, ◌==◌, if◌then◌else◌, get_elem?, set, ◌>>=◌,
}

abbrev pub max_queue_len : ℕ
max_queue_len = 10

-- `hcsock` is a copy of the connection's handle, and `buf` is the address of the message: EnQueue
-- copies the pointer, and not the message.
pub record QueueNode (Handle : Type 0) : Type 0 where
  pub hcsock : Handle
  pub buf : ℕ

pub record CircularQueue (Handle : Type 0) : Type 0 where
  pub slots : List (QueueNode Handle)
  pub head : ℕ
  pub tail : ℕ

module _ {Handle : Type 0} where
  -- Q[i].buf = malloc(MAX_BUF_LEN) from index `i` on, with the address that each call gives.
  abbrev with_bufs : (ℕ → ℕ) → ℕ → List (QueueNode Handle) → List (QueueNode Handle)
  with_bufs malloc i [] = []
  with_bufs malloc i (node ∷ rest) = record node { buf = malloc i } ∷ with_bufs malloc (i + 1) rest

  -- InitQueue; `head` and `tail` are 0 from the start.
  unfoldable pub init_queue : (ℕ → ℕ) → List (QueueNode Handle) → CircularQueue Handle
  init_queue malloc slots = record { slots = with_bufs malloc 0 slots; head = 0; tail = 0 }

  unfoldable pub is_queue_full : CircularQueue Handle → Bool
  is_queue_full q = q.head == (q.tail + 1) % max_queue_len

  unfoldable pub is_queue_empty : CircularQueue Handle → Bool
  is_queue_empty q = q.head == q.tail

  -- `none` is the failed assertion.
  unfoldable pub enqueue : QueueNode Handle → CircularQueue Handle → Option (CircularQueue Handle)
  unfolding is_queue_full
  enqueue node q =
      if is_queue_full q
      then none
      else some (record q { slots = set q.slots q.tail node; tail = (q.tail + 1) % max_queue_len })

  -- The result names the slot by its contents.
  unfoldable pub dequeue : CircularQueue Handle → Option (QueueNode Handle × CircularQueue Handle)
  unfolding is_queue_empty
  dequeue q = if is_queue_empty q then none else do
    node ← get_elem? q.slots q.head
    some (node, record q { head = (q.head + 1) % max_queue_len })
