-- ===== src/Tests/Systems.antt =====
-- Two tasks, a third that is gone, and the broker between them.
use mathlib.Core.List.{mem-cons, not-mem-nil, Nodup, Nodup-cons, Nodup-nil, Mem}
use mathlib.Core.Logic.Or
use mathlib.Core.Logic.{◌∨₁◌}
use mathlib.Core.HLevel.{⊥_prop}
use protocore.Base.{
  ℕ, ◌<◌, ◌≡◌, ◌≢◌, ◌↔◌, refl, Bool, true, false, List, [], ◌∷◌, arith, Run, ok, abort, ◌>>=◌, ltb,
}
use protocore.MemoryPool.{construct}
use protocore.TaskState.{running, stopped, idle}
use protocore.Msg.{
  Msg, MsgType, HeartbeatMsg, type_index, state_ack_msg, heartbeat_msg, heartbeat_ack_msg, less,
  make_msg,
}
use protocore.MessageQueue.{MessageQueue, make_queue, dequeue, notify_shutdown, waits}
use protocore.MessageQueue.Pick.{pick}
use protocore.MessageQueue.Model.{Models}
use protocore.MessageQueue.Close.{notify_shutdown-Models}
use protocore.Logger.{log}
use protocore.System.{system_alone, Task, System, set_task}
use protocore.Broker.{publish, subscribe, set_list}
use protocore.Broker.Delivery.{AllReady, Published, publish-delivers}
use protocore.Broker.Subscribers.{subscribe-Nodup}
use protocore.Tasks.{
  start, stop_signal, stop_join, destroy_task, transition_to_state, entered, handle_heartbeat,
  safe_publish, run_round, run_periodic_round, went, ended, finished, set_queue,
}
use protocore.Tasks.Lifecycle.{
  start-stop_join, stop_signal-ends, round-shutdown, destroy_task-running,
}
use protocore.Tasks.Transition.{
  state_ack, heartbeat_ack, transition_to_state-delivers, handle_heartbeat-delivers,
  run_round-Models,
}
use protocore.Tests.Pools.{result}
use protocore.Tests.Logs.{now, logger}
use protocore.Tests.Queues.{beat, order, queue0, queue2, queue0-Models, queue2-Models}

abbrev pub pump : Bool → MessageQueue → Task
pump runs q = record {
  name = "Pump";
  current_state = idle;
  running = runs;
  queue_thread = runs;
  periodic_thread = false;
  periodic_task_interval_ms = 20;
  message_queue = q;
}

abbrev system_of : Task → System
system_of task = record {
  logger = logger;
  at = now;
  initialized = true;
  subscriber_lists = λ _. 2 ∷ 3 ∷ [];
  tasks = λ _. task;
  alive = λ t. ltb t 3;
}

abbrev pub system : System
system = system_of (pump true queue0)

pub distinct : Nodup {A = ℕ} (2 ∷ 3 ∷ [])
distinct = Nodup-cons.1 (
  λ m. Or.elim ⊥_prop (mem-cons.0 m) (λ e. omega arith) (λ n. not-mem-nil n),
  Nodup-cons.1 (not-mem-nil, Nodup-nil),
)

pub all_ready : (msg : Msg) → AllReady msg (λ _. 2) (λ _. []) (2 ∷ 3 ∷ []) system
unfolding make_queue construct
all_ready msg t m l = record { queue = queue0-Models; room = omega arith; numbers = omega arith }

publish-delivers_example :
    (after : System) × (publish (state_ack 1 running) system
      ≡ ok (record after {
        subscriber_lists = set_list system.subscriber_lists state_ack_msg (2 ∷ []);
      }))
    × Published (state_ack 1 running) (λ _. 2) (λ _. []) (2 ∷ 3 ∷ []) system after
publish-delivers_example =
    publish-delivers (state_ack 1 running) (λ _. 2) (λ _. []) system refl refl distinct
      (all_ready (state_ack 1 running))

subscribe-Nodup_example :
    (lists : MsgType → List ℕ) × (subscribe 1 heartbeat_msg system
      ≡ ok (record system { subscriber_lists = lists }))
    × Nodup (lists heartbeat_msg)
    × ((t : ℕ) → Mem t (lists heartbeat_msg) ↔ (Mem t (2 ∷ 3 ∷ []) ∨₁ (t ≡ 1)))
    × ((u : MsgType)
        → type_index u ≢ type_index heartbeat_msg
        → lists u ≡ system.subscriber_lists u)
subscribe-Nodup_example = subscribe-Nodup 1 heartbeat_msg system refl refl distinct

transition_to_state-delivers_example :
    (after : System) × (transition_to_state 1 running system
      ≡ ok (record after {
        subscriber_lists = set_list system.subscriber_lists state_ack_msg (2 ∷ []);
      }))
    × Published
        (state_ack 1 running)
        (λ _. 2)
        (λ _. [])
        (2 ∷ 3 ∷ [])
        (entered 1 running system)
        after
    × ((after.tasks 1).current_state ≡ running)
transition_to_state-delivers_example =
    transition_to_state-delivers 1 running (λ _. 2) (λ _. []) system refl refl distinct
      (all_ready (state_ack 1 running))

abbrev heartbeat : HeartbeatMsg
heartbeat = record { unique_id = 5; timestamp = 1400 }

handle_heartbeat-delivers_example :
    (after : System) × (handle_heartbeat 1 heartbeat system
      ≡ ok (record after {
        subscriber_lists = set_list system.subscriber_lists heartbeat_ack_msg (2 ∷ []);
      }))
    × Published (heartbeat_ack 1 heartbeat system) (λ _. 2) (λ _. []) (2 ∷ 3 ∷ []) system after
handle_heartbeat-delivers_example =
    handle_heartbeat-delivers 1 heartbeat (λ _. 2) (λ _. []) system refl refl distinct
      (all_ready (heartbeat_ack 1 heartbeat system))

-- A class that ignores its messages.
abbrev ignores : Msg → System → Run System
ignores msg sys = ok sys

abbrev busy : System
busy = system_of (pump true queue2)

run_round-Models_example :
    (q : MessageQueue) × Models 2 q (beat 1 ∷ [])
    × (run_round ignores 1 busy ≡ (ignores order (set_queue busy 1 q) >>= λ done. ok (went done)))
unfolding pick less
run_round-Models_example =
    run_round-Models ignores 1 2 busy (beat 1) (order ∷ []) refl queue2-Models

abbrev resting : System
resting = system_of (pump false queue0)

abbrev started : System
started =
    set_task resting 1
      (record (pump false queue0) { running = true; queue_thread = true; periodic_thread = true })

start-stop_join_example :
    (after : System) × (start 1 (stop_join 1 resting) ≡ ok after)
    × ((after.tasks 1).running ≡ true)
    × ((after.tasks 1).queue_thread ≡ true)
    × (((after.tasks 1).periodic_thread ≡ true) ↔ (0 < (after.tasks 1).periodic_task_interval_ms))
start-stop_join_example = start-stop_join 1 resting refl

-- No task subscribes to anything.
abbrev quiet : System
quiet = record system { subscriber_lists = λ _. [] }

abbrev stopping : System
stopping = result (stop_signal transition_to_state 1 quiet) quiet

stop_signal-ends_example :
    ((stopping.tasks 1).current_state ≡ stopped)
    × (run_round ignores 1 stopping ≡ ok ended)
    × (run_periodic_round (λ sys. ok sys) 1 stopping ≡ ok finished)
    × (dequeue (stopping.tasks 1).message_queue ≢ ok waits)
unfolding stop_signal transition_to_state safe_publish make_msg publish log
stop_signal-ends_example = stop_signal-ends 1 ignores (λ sys. ok sys) quiet stopping refl refl

abbrev closed : System
closed = system_of (pump true (notify_shutdown queue0))

round-shutdown_example :
    run_round ignores 1 closed
    ≡ ok (went (set_queue closed 1 (record (notify_shutdown queue0) { sequence = 0 })))
unfolding notify_shutdown
round-shutdown_example =
    round-shutdown 1 2 ignores closed refl refl (notify_shutdown-Models 2 queue0 [] queue0-Models).0

destroy_task-running_example : destroy_task 3 system ≡ abort
destroy_task-running_example = destroy_task-running 3 system refl refl
