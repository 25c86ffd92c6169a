-- ===== src/Tests/Queues.antt =====
-- A queue of four messages.
use protocore.Base.{
  ℕ, ◌≡◌, refl, subst, false, some, none, List, [], ◌∷◌, arith, Run, ok, if◌then◌else◌, undefined,
}
use protocore.Tests.Pools.{result}
use protocore.MemoryPool.{construct, allocate, store, raw}
use protocore.Std.Heap.{push_heap}
use protocore.Msg.{Msg, of_state, of_heartbeat, less}
use protocore.Msg.Laws.{message}
use protocore.MessageQueue.{
  MessageQueue, make_queue, enqueue, dequeue, try_dequeue, destroy, notify_shutdown, returns,
}
use protocore.MessageQueue.Nodes.{node_less}
use protocore.MessageQueue.Pick.{pick}
use protocore.MessageQueue.Model.{Models}
use protocore.MessageQueue.Enqueue.{make_queue-Models, enqueue-Models}
use protocore.MessageQueue.Dequeue.{dequeue-Models, try_dequeue-Models}
use protocore.MessageQueue.Draining.{Returns, notify_shutdown-drains}
use protocore.MessageQueue.Close.{try_dequeue-empty, destroy-Models}

abbrev no_queue : MessageQueue
no_queue = record {
  pool = record {
    block_size = 0;
    block_count = 0;
    pool_data = 0;
    free_list = none;
    memory = λ _. raw;
  };
  queue = [];
  shutdown = false;
  sequence = 0;
}

abbrev pub beat : ℕ → Msg
beat n = message (some 7) (of_heartbeat (record { unique_id = n; timestamp = 100 }))

abbrev pub order : Msg
order = message none (of_state (record { state = 2 }))

abbrev pub queue0 : MessageQueue
unfolding make_queue construct
queue0 = result (make_queue 4096 64 2) no_queue

abbrev with_message : MessageQueue → Msg → MessageQueue
unfolding enqueue allocate store push_heap node_less less
with_message q m = result (enqueue q m) no_queue

-- The queue that results is the one that the theorem speaks of.
same_queue :
    (q r : MessageQueue) (c : Run MessageQueue) (n : ℕ) (ms : List Msg)
    → c ≡ ok q
    → c ≡ ok r
    → Models n q ms
    → Models n r ms
same_queue q r c n ms e f m = subst (λ q. Models n q ms) (cc) m

pub queue0-Models : Models 2 queue0 []
unfolding make_queue construct
queue0-Models =
    let (q, made, m, _) = make_queue-Models 4096 64 2 (omega arith) (omega arith) in
    same_queue q queue0 (make_queue 4096 64 2) 2 [] made refl m

enqueue-Models_example :
    (q' : MessageQueue) × (enqueue queue0 (beat 1) ≡ ok q')
    × Models 2 q' (beat 1 ∷ [])
    × (q'.shutdown ≡ queue0.shutdown)
unfolding make_queue construct
enqueue-Models_example =
    enqueue-Models 2 queue0 (beat 1) [] queue0-Models (omega arith) (omega arith)

abbrev pub queue1 : MessageQueue
unfolding make_queue construct enqueue allocate store push_heap node_less less
queue1 = with_message queue0 (beat 1)

abbrev pub queue2 : MessageQueue
unfolding make_queue construct enqueue allocate store push_heap node_less less
queue2 = with_message queue1 order

queue1-Models : Models 2 queue1 (beat 1 ∷ [])
unfolding make_queue construct enqueue allocate store push_heap node_less less
queue1-Models =
    let (q, made, m, _) = enqueue-Models_example in
    same_queue q queue1 (enqueue queue0 (beat 1)) 2 _ made refl m

pub queue2-Models : Models 2 queue2 (beat 1 ∷ order ∷ [])
unfolding make_queue construct enqueue allocate store push_heap node_less less
queue2-Models =
    let (q, made, m, _) =
      enqueue-Models 2 queue1 order (beat 1 ∷ []) queue1-Models (omega arith) (omega arith) in
    same_queue q queue2 (enqueue queue1 order) 2 _ made refl m

-- The order overtakes the heartbeat.
dequeue-Models_example :
    (q' : MessageQueue) × (dequeue queue2 ≡ ok (returns (some order) q'))
    × Models 2 q' (beat 1 ∷ [])
    × (q'.shutdown ≡ queue2.shutdown)
unfolding pick less
dequeue-Models_example = dequeue-Models 2 queue2 (beat 1) (order ∷ []) queue2-Models

try_dequeue-Models_example :
    (q' : MessageQueue) × (try_dequeue queue2 ≡ ok (some order, q'))
    × Models 2 q' (beat 1 ∷ [])
    × (q'.shutdown ≡ queue2.shutdown)
unfolding pick less
try_dequeue-Models_example = try_dequeue-Models 2 queue2 (beat 1) (order ∷ []) queue2-Models

notify_shutdown-drains_example :
    (q' : MessageQueue) × Returns
      (notify_shutdown queue2)
      (some order ∷ some (beat 1) ∷ none ∷ [])
      q'
    × Models 2 q' []
notify_shutdown-drains_example =
    notify_shutdown-drains 2 1 queue2 (beat 1 ∷ order ∷ []) queue2-Models

try_dequeue-empty_example :
    try_dequeue queue0 ≡ (if queue0.shutdown then undefined else ok (none, queue0))
try_dequeue-empty_example = try_dequeue-empty 2 queue0 queue0-Models

destroy-Models_example : (q' : MessageQueue) × (destroy queue2 ≡ ok q') × Models 2 q' []
destroy-Models_example = destroy-Models 2 queue2 (beat 1 ∷ order ∷ []) queue2-Models
