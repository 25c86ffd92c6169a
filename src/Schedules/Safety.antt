-- ===== src/Schedules/Safety.antt =====
-- Systems that calls reach.
use mathlib.Core.List.{Nodup-nil}
use protocore.Base.{Returns, AbortsIf, ReturnsIff, ℕ, ◌<◌, ◌≡◌, sym, subst, true, [], Nodup, ok}
use protocore.MemoryPool.{sizeof_pointer}
use protocore.Msg.{Msg, MsgType}
use protocore.MessageQueue.{MessageQueue, make_queue, dequeue}
use protocore.MessageQueue.Conservation.{dequeue_ends}
use protocore.Broker.{publish, deliver_message}
use protocore.Broker.Single.{HasSender}
use protocore.Supervision.{World}
use protocore.Schedules.Supervised.{Moves, Moves-WellFormed}
use protocore.Schedules.Keeping.{WellFormed}
use protocore.Schedules.Invariant.{made-Healthy}
use protocore.Schedules.Ends.{Full, AllFree, deliver_ends, publish_ends}

-- A queue as its constructor leaves it.
abbrev pub Made : MessageQueue → Type 0
Made q =
    (pool_data : ℕ) × (size : ℕ) × (count : ℕ) × (0 < count)
    × (sizeof_pointer < size)
    × (make_queue pool_data size count ≡ ok q)

-- From a system without subscriptions whose tasks have new queues, after any calls of the broker,
-- of the tasks, of the manager and of the heart beat in any order, the tasks of any classes, also
-- made and destroyed on the way and their sequence numbers wrapped: no subscription list has a task
-- twice; a dequeue of any task's queue returns or waits; a delivery of a message whose sender is
-- there fails its assertion exactly at a queue whose blocks are all in use and else returns; and a
-- publication of such a message returns exactly if the broker is initialized and every live
-- subscriber has a free block, and else fails an assertion.
pub Moves-ends :
    (first last : World)
    → ((t : ℕ) → Made (first.system.tasks t).message_queue)
    → ((type : MsgType) → first.system.subscriber_lists type ≡ [])
    → Moves first last
    → let sys = last.system in
      ((type : MsgType) → Nodup (sys.subscriber_lists type))
      × ((t : ℕ) → Returns (dequeue (sys.tasks t).message_queue))
      × ((t : ℕ) (msg : Msg)
          → HasSender msg.sending_task sys
          → AbortsIf (Full (sys.tasks t).message_queue) (deliver_message t msg sys))
      × ((msg : Msg)
          → HasSender msg.sending_task sys
          → ReturnsIff
              ((sys.initialized ≡ true) × AllFree (sys.subscriber_lists msg.msg_type) sys)
              (publish msg sys))
Moves-ends first last made empty calls =
    let sys = last.system in
    let start : WellFormed first.system = record {
      queues = λ t.
          let (pool_data, size, count, h, s, e) = made t in
          made-Healthy pool_data size count (first.system.tasks t).message_queue h s e;
      lists = λ type. subst Nodup (sym (empty type)) Nodup-nil;
    } in
    let w = Moves-WellFormed first last calls start in
    (
      w.lists,
      λ t. let (ns, s) = w.queues t in dequeue_ends _ (sys.tasks t).message_queue ns s,
      λ t msg. deliver_ends t msg sys w,
      λ msg. publish_ends msg sys w,
    )
