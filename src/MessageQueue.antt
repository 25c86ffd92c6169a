-- ===== src/MessageQueue.antt =====
-- include/message_queue.h and src/message_queue.cpp. The mutex makes each call one step; a call
-- that waits on the condition variable is a step from the state in which the wait ends.
pub mod Nodes
pub mod Pick
pub mod Arrival
pub mod Model
pub mod Enqueue
pub mod Removal
pub mod Dequeue
pub mod Calls
pub mod Trace
pub mod Conservation
pub mod Refinement
pub mod Wrap
pub mod Close
pub mod Draining
use protocore.Base.{
  ℕ, ◌+◌, ◌-◌, ◌%◌, ◌^◌, Bool, true, false, not, ◌&&◌, ◌||◌, Option, none, some, List, [], ◌∷◌,
  ◌++◌, ltb, if◌then◌else◌, length, take, get_or, Run, ok, abort, undefined, ◌>>=◌,
}
use protocore.Std.Heap.{push_heap, pop_heap}
use protocore.MemoryPool.{
  MemoryPool, Ptr, Memory, Cell, raw, link, object, construct, allocate, deallocate, store,
}
use protocore.Msg.{Msg}
use Nodes.{Node, ptr_less}

pub record MessageQueue : Type 0 where
  pub pool : MemoryPool Node
  -- the vector of pointers
  pub queue : List ℕ
  pub shutdown : Bool
  pub sequence : ℕ

-- The constructor, with blocks of at least the size of a node, as `node_size` gives them; `pool_data`
-- is the address of the pool's storage.
unfoldable pub make_queue : ℕ → ℕ → ℕ → Run MessageQueue
make_queue pool_data msg_size max_msgs = do
  pool ← construct pool_data msg_size max_msgs
  ok (record { pool = pool; queue = []; shutdown = false; sequence = 0 })

-- Placement new, `push_back` and `push_heap`; `sequence++` wraps as a uint32_t.
pub insert_node : MessageQueue → MemoryPool Node → ℕ → Msg → MessageQueue
insert_node q pool a msg =
    let pool' = store pool a (record { message = msg; sequence_number = q.sequence }) in
    record q {
      pool = pool';
      sequence = (q.sequence + 1) % 2 ^ 32;
      queue = push_heap 0 (ptr_less pool'.memory) (q.queue ++ a ∷ []);
    }

pub enqueue_at : MessageQueue → Msg → Ptr × MemoryPool Node → Run MessageQueue
unfolding insert_node
enqueue_at q msg (none, pool) = abort
enqueue_at q msg (some a, pool) = ok (insert_node q pool a msg)

unfoldable pub enqueue : MessageQueue → Msg → Run MessageQueue
unfolding enqueue_at
enqueue q msg = do r ← allocate q.pool; enqueue_at q msg r

abbrev pub empty : List ℕ → Bool
empty [] = true
empty (_ ∷ _) = false

-- `pop_heap`, `back` and `pop_back`.
pub pop_top : MessageQueue → Run (ℕ × MessageQueue)
pop_top q = do
  heap ← pop_heap 0 (ptr_less q.pool.memory) q.queue
  let last = length heap - 1
  ok (get_or heap last 0, record q { queue = take last heap })

-- The copy of the message; a pointer with no node behind it is dangling.
pub load_message : Cell Node → Run Msg
load_message raw = undefined
load_message (link _) = undefined
load_message (object node) = ok node.message

-- Copy the message, destroy the node and return its block.
pub take_message : MessageQueue → ℕ → Run (Msg × MessageQueue)
unfolding load_message
take_message q a = do
  msg ← load_message (q.pool.memory a)
  pool ← deallocate q.pool (some a)
  ok (msg, record q { pool = pool })

-- `if (queue.empty()) sequence = 0`
abbrev reset_if_empty : MessageQueue → MessageQueue
reset_if_empty q = if empty q.queue then record q { sequence = 0 } else q

-- A call that waits, or its result and the queue behind it.
pub data Dequeued : Type 0 where
  waits : Dequeued
  returns : Option Msg → MessageQueue → Dequeued

-- `dequeue` behind its wait and its test for a shutdown.
pub dequeue_next : MessageQueue → Run Dequeued
unfolding pop_top take_message
dequeue_next q = do
  (a, popped) ← pop_top q
  (msg, done) ← take_message (reset_if_empty popped) a
  ok (returns (some msg) done)

unfoldable pub dequeue : MessageQueue → Run Dequeued
unfolding dequeue_next
dequeue q =
    let next = dequeue_next q in
    if not (empty q.queue) || q.shutdown
    then (if q.shutdown && empty q.queue
        then ok (returns none (record q { sequence = 0 }))
        else next)
    else ok waits

-- `q` is the queue when the wait ends, by its condition or by the timeout.
unfoldable pub try_dequeue : MessageQueue → Run (Option Msg × MessageQueue)
unfolding pop_top take_message
try_dequeue q =
    let next : Run (Option Msg × MessageQueue) = do
      (a, popped) ← pop_top q
      (msg, done) ← take_message popped a
      ok (some msg, done)
    in if not (empty q.queue) || q.shutdown then next else ok (none, q)

unfoldable pub is_empty : MessageQueue → Bool
is_empty q = empty q.queue

unfoldable pub notify_shutdown : MessageQueue → MessageQueue
notify_shutdown q = record q { shutdown = true }

-- The loop of the destructor.
pub drain : MemoryPool Node → List ℕ → Run (MemoryPool Node)
drain pool [] = ok pool
drain pool (a ∷ rest) = deallocate pool (some a) >>= λ p. drain p rest

unfoldable pub destroy : MessageQueue → Run MessageQueue
unfolding drain
destroy q = do pool ← drain q.pool q.queue; ok (record q { pool = pool; queue = [] })
