-- ===== src/Tasks.antt =====
-- include/task/task.h and src/task.cpp: the class task::Task. A virtual function of a derived class
-- is an argument. A thread's loop is a step for each round, and `stop` is two steps, before and
-- behind its wait for the threads.
pub mod Lifecycle
pub mod Transition
use protocore.Base.{
  ℕ, ◌+◌, ◌≡◌, Bool, true, false, Option, none, some, List, [], ◌∷◌, ltb, if◌then◌else◌, Run, ok,
  abort, throws, undefined, ◌>>=◌,
}
use protocore.Std.Text.{String, ◌++◌}
use protocore.TaskState.{TaskState, not_started, stopped, to_byte, task_state_to_string}
use protocore.Msg.{Msg, MsgType, HeartbeatMsg, of_state_ack, of_heartbeat_ack, make_msg}
use protocore.Logger.{info}
use protocore.MessageQueue.{
  MessageQueue, make_queue, dequeue, Dequeued, waits, returns, notify_shutdown,
}
use protocore.System.{Task, System, Holder, set_task, log_line}
use protocore.Broker.{publish, subscribe}

-- The constructor; `pool_data` is the address of the queue's storage.
unfoldable pub make_task : String → ℕ → ℕ → ℕ → Run Task
make_task name queue_msg_count node_size pool_data = do
  q ← make_queue pool_data node_size queue_msg_count
  ok (record {
    name = name;
    current_state = not_started;
    running = false;
    queue_thread = false;
    periodic_thread = false;
    periodic_task_interval_ms = 0;
    message_queue = q;
  })

unfoldable pub set_periodic_task_interval : ℕ → Task → Task
set_periodic_task_interval interval_ms t = record t { periodic_task_interval_ms = interval_ms }

-- `shared_from_this` throws where no shared pointer owns the task.
unfoldable pub safe_subscribe : ℕ → MsgType → System → Run System
safe_subscribe self type sys = if sys.alive self then subscribe self type sys else throws

unfoldable pub safe_publish : ℕ → Msg → System → Run System
safe_publish self msg sys = if sys.alive self then publish msg sys else throws

-- The new state and the log line of `transition_to_state`.
abbrev pub entered : ℕ → TaskState → System → System
entered self new_state sys =
    let task = sys.tasks self in
    log_line info task.name ("transitioning to " ++ task_state_to_string new_state)
      (set_task sys self (record task { current_state = new_state }))

unfoldable pub transition_to_state : ℕ → TaskState → System → Run System
transition_to_state self new_state sys = do
  ack ← make_msg (some self) (of_state_ack (record { state = to_byte new_state }))
  safe_publish self ack (entered self new_state sys)

-- A thread assigned over one that is joinable terminates the program.
abbrev pub spawn : Bool → Run Bool
spawn true = abort
spawn false = ok true

unfoldable pub start : ℕ → System → Run System
start self sys =
    let task = sys.tasks self in
    let started : Run System = do
      queue_thread ← spawn task.queue_thread
      periodic_thread ←
          if ltb 0 task.periodic_task_interval_ms
          then spawn task.periodic_thread
          else ok task.periodic_thread
      ok (
          set_task sys self (record task {
            running = true;
            queue_thread = queue_thread;
            periodic_thread = periodic_thread;
          }))
    in if task.running then ok sys else started

-- `stop` up to the joins; `transition` is the class's own `transition_to_state`.
unfoldable pub stop_signal : (ℕ → TaskState → System → Run System) → ℕ → System → Run System
stop_signal transition self sys =
    let task = sys.tasks self in
    let signalled : Run System = do
      done ← transition self stopped (set_task sys self (record task { running = false }))
      let after = done.tasks self
      ok (set_task done self (record after { message_queue = notify_shutdown after.message_queue }))
    in if task.running then signalled else ok sys

-- The joins, when both threads have ended.
unfoldable pub stop_join : ℕ → System → System
stop_join self sys =
    set_task sys self (record (sys.tasks self) { queue_thread = false; periodic_thread = false })

-- A destructor lets no exception out.
abbrev pub in_destructor {ℓ} : {A : Type ℓ} → Run A → Run A
in_destructor (ok a) = ok a
in_destructor abort = abort
in_destructor throws = abort
in_destructor undefined = undefined

unfoldable pub destroy_task : ℕ → System → Run System
destroy_task self sys =
    in_destructor
      (stop_signal transition_to_state self sys >>= λ signalled. ok (stop_join self signalled))

abbrev pub with_queue : System → ℕ → MessageQueue → System
with_queue sys self q = set_task sys self (record (sys.tasks self) { message_queue = q })

-- A round of a thread's loop: it waits for a message, it has gone round, or it ends.
pub data Turn (S : Type 0) : Type 0 where
  blocked ended : Turn S
  went : S → Turn S

-- A round of `run_periodic`, and the time until which it then sleeps.
pub data PeriodicTurn (S : Type 0) : Type 0 where
  finished : PeriodicTurn S
  sleeps_until : ℕ → S → PeriodicTurn S

-- `process` is the class's `process_message` or `periodic_task_process`.
module _ {S : Type 0} ⦃h : Holder S⦄ where
  abbrev pub task_of : S → ℕ → Task
  task_of s self = (h.system s).tasks self

  abbrev pub set_queue : S → ℕ → MessageQueue → S
  set_queue s self q = h.put s (with_queue (h.system s) self q)

  pub handle : (Msg → S → Run S) → ℕ → S → Dequeued → Run (Turn S)
  handle process self s waits = ok blocked
  handle process self s (returns none q) = ok (went (set_queue s self q))
  handle process self s (returns (some msg) q) =
      process msg (set_queue s self q) >>= λ done. ok (went done)

  -- A round of `run`.
  unfoldable pub run_round : (Msg → S → Run S) → ℕ → S → Run (Turn S)
  unfolding handle
  run_round process self s =
      let turn = dequeue (task_of s self).message_queue >>= handle process self s in
      if (task_of s self).running then turn else ok ended

  unfoldable pub run_periodic_round : (S → Run S) → ℕ → S → Run (PeriodicTurn S)
  run_periodic_round process self s =
      let turn : Run (PeriodicTurn S) = do
        done ← process s
        ok (
            sleeps_until
              ((h.system done).at.steady_ms + (task_of done self).periodic_task_interval_ms) done)
      in if (task_of s self).running then turn else ok finished

unfoldable pub handle_heartbeat : ℕ → HeartbeatMsg → System → Run System
handle_heartbeat self heartbeat sys = do
  ack ← make_msg (some self) (
      of_heartbeat_ack (record {
        orig_unique_id = heartbeat.unique_id;
        orig_timestamp = heartbeat.timestamp;
        ack_timestamp = sys.at.steady_ms;
      }))
  safe_publish self ack sys
