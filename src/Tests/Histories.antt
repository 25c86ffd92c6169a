-- ===== src/Tests/Histories.antt =====
-- Histories of a queue of two blocks.
use protocore.Base.{
  Returns, AbortsIf, UndefinedIf, ◌-◌, ◌^◌, ◌≤◌, ◌≡◌, refl, some, true, List, [], ◌∷◌, ◌++◌, Perm,
  ok, Run, ◌>>=◌, arith, length,
}
use protocore.MemoryPool.{construct, allocate, store, deallocate}
use protocore.Std.Heap.{push_heap, pop_heap}
use protocore.Msg.{Msg, less}
use protocore.MessageQueue.{
  MessageQueue, make_queue, enqueue, dequeue, try_dequeue, Dequeued, returns,
}
use protocore.MessageQueue.Nodes.{node_less}
use protocore.MessageQueue.Model.{Models, same_parts}
use protocore.MessageQueue.Calls.{Sound}
use protocore.MessageQueue.Trace.{
  Event, sent, took, Trace, here, next, enqueues, dequeues, Serves, sent_of, taken_of,
}
use protocore.MessageQueue.Conservation.{Trace-conserves, made-Sound}
use protocore.MessageQueue.Refinement.{Trace-Serves}
use protocore.MessageQueue.Wrap.{dequeue-wrap}
use protocore.Tests.Queues.{beat, order, queue0, queue2}

abbrev queue_behind : Run Dequeued → MessageQueue → MessageQueue
queue_behind (ok (returns m q)) other = q
queue_behind r other = other

abbrev queue3 : MessageQueue
unfolding make_queue construct enqueue allocate store push_heap node_less less dequeue
queue3 = queue_behind (dequeue queue2) queue0

-- The order overtakes the heartbeat.
abbrev events : List Event
events = sent (beat 1) ∷ sent order ∷ took order ∷ []

history : Trace queue0 events queue3
unfolding make_queue construct enqueue allocate store push_heap node_less less dequeue pop_heap
    deallocate
history = next (enqueues refl) (next (enqueues refl) (next (dequeues refl) here))

new_queue : make_queue 4096 64 2 ≡ ok queue0
unfolding make_queue construct
new_queue = refl

Trace-conserves_example :
    (waiting : List Msg) × Perm (taken_of events ++ waiting) (sent_of events)
    × (length waiting ≤ 2)
    × ((m : Msg) → AbortsIf (length waiting ≡ 2) (enqueue queue3 m))
    × Returns (dequeue queue3)
    × UndefinedIf ((queue3.shutdown ≡ true) × (waiting ≡ [])) (try_dequeue queue3)
Trace-conserves_example =
    Trace-conserves 4096 64 2 queue0 queue3 events (omega arith) (omega arith) new_queue history

Trace-Serves_example : (waiting : List Msg) × Serves [] events waiting × Models 2 queue3 waiting
Trace-Serves_example =
    Trace-Serves 4096 64 2 queue0 queue3 events (omega arith) (omega arith) new_queue (omega arith)
      history

-- The queue before its last number.
abbrev worn : MessageQueue
worn = record queue0 { sequence = 2 ^ 32 - 1 }

worn-Sound : Sound 2 worn []
worn-Sound =
    let s = made-Sound 4096 64 2 queue0 (omega arith) (omega arith) new_queue in
    record { intact = same_parts s.intact; capacity = s.capacity }

dequeue-wrap_example :
    (after : MessageQueue) × ((enqueue worn (beat 1) >>= λ r. enqueue r (beat 2) >>= dequeue)
      ≡ ok (returns (some (beat 2)) after))
dequeue-wrap_example = dequeue-wrap 2 worn (beat 1) (beat 2) worn-Sound refl (omega arith) refl
