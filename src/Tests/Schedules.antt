-- ===== src/Tests/Schedules.antt =====
-- A task subscribes, gets a heartbeat and is gone; the manager gets a message that it does not
-- handle.
use protocore.Base.{Returns, AbortsIf, ReturnsIff, ℕ, ◌≡◌, refl, true, false, [], Nodup, arith}
use protocore.MemoryPool.{construct, allocate, store}
use protocore.Std.Heap.{push_heap}
use protocore.Msg.{Msg, MsgType, heartbeat_msg, less}
use protocore.MessageQueue.{make_queue, enqueue, dequeue}
use protocore.MessageQueue.Nodes.{node_less}
use protocore.Logger.{log}
use protocore.System.{System}
use protocore.Broker.{initialize, publish, publish_loop, subscribe, deliver_message}
use protocore.Broker.Single.{HasSender}
use protocore.Supervision.{World}
use protocore.Schedules.{initializes, subscribes, publishes, expires, owned}
use protocore.Schedules.Supervised.{Moves, still, then_move, acts, manages}
use protocore.Manager.{process_message}
use protocore.Tests.Supervisors.{world}
use protocore.Schedules.Ends.{Full, AllFree}
use protocore.Schedules.Safety.{Made, Moves-ends}
use protocore.Tests.Pools.{result}
use protocore.Tests.Systems.{system}
use protocore.Tests.Queues.{beat}

abbrev first_system : System
first_system = record system { initialized = false; subscriber_lists = λ _. []; alive = λ _. true }

abbrev started : System
unfolding initialize
started = initialize first_system

abbrev listening : System
unfolding initialize subscribe
listening = result (subscribe 2 heartbeat_msg started) started

abbrev reached : System
unfolding initialize subscribe publish publish_loop deliver_message log make_queue construct enqueue
    allocate store push_heap node_less less
reached = result (publish (beat 1) listening) listening

made : (t : ℕ) → Made (first_system.tasks t).message_queue
unfolding make_queue construct
made t = (4096, 64, 2, omega arith, omega arith, refl)

abbrev first_world : World
first_world = record world { system = first_system }

abbrev last_world : World
last_world = (process_message (beat 2) (record world { system = owned reached 2 false })).0

calls : Moves first_world last_world
unfolding initialize subscribe publish publish_loop deliver_message log make_queue construct enqueue
    allocate store push_heap node_less less
calls = then_move (acts _ initializes) (
    then_move (acts _ (subscribes 2 heartbeat_msg _ refl refl)) (
      then_move (acts _ (publishes (beat 1) reached refl))
        (then_move (acts _ (expires 2)) (then_move (manages (beat 2)) still))))

Moves-ends_example :
    let sys = last_world.system in
    ((type : MsgType) → Nodup (sys.subscriber_lists type))
    × ((t : ℕ) → Returns (dequeue (sys.tasks t).message_queue))
    × ((t : ℕ) (msg : Msg)
        → HasSender msg.sending_task sys
        → AbortsIf (Full (sys.tasks t).message_queue) (deliver_message t msg sys))
    × ((msg : Msg)
        → HasSender msg.sending_task sys
        → ReturnsIff
            ((sys.initialized ≡ true) × AllFree (sys.subscriber_lists msg.msg_type) sys)
            (publish msg sys))
Moves-ends_example = Moves-ends first_world last_world made (λ _. refl) calls
