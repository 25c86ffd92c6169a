-- ===== src/Schedules.antt =====
-- Schedules of the whole system: the calls of all threads on the objects of System, in any order.
-- What a class of tasks does in its own functions is a sequence of such calls.
pub mod Keeping
pub mod Invariant
pub mod Ends
pub mod Supervised
pub mod Safety
use protocore.Base.{ℕ, ◌<◌, ◌≡◌, Bool, true, false, Option, ok, ◌==◌, if◌then◌else◌}
use protocore.Std.Text.{String}
use protocore.MemoryPool.{sizeof_pointer}
use protocore.TaskState.{TaskState}
use protocore.Msg.{Msg, MsgType, HeartbeatMsg}
use protocore.Logger.{Logger, Surroundings}
use protocore.MessageQueue.{MessageQueue, dequeue, try_dequeue, returns}
use protocore.System.{Task, System, set_task}
use protocore.Broker.{initialize, subscribe, publish, deliver_message}
use protocore.Tasks.{
  make_task, start, stop_signal, stop_join, transition_to_state, handle_heartbeat, with_queue,
}

abbrev pub owned : System → ℕ → Bool → System
owned sys t b = record sys { alive = λ u. if t == u then b else sys.alive u }

-- A call that returned. `constructs` makes a task with a queue of at least one block, `expires` is
-- the end of its last owner, `takes` is the dequeue of a round of `run`, `passes` whatever the
-- logger and the clocks do.
pub data Act (sys : System) : System → Type 0 where
  initializes : Act sys (initialize sys)
  constructs :
      (t : ℕ) (name : String) (count size pool_data : ℕ) (task : Task)
      → 0 < count
      → sizeof_pointer < size
      → make_task name count size pool_data ≡ ok task
      → Act sys (owned (set_task sys t task) t true)
  expires : (t : ℕ) → Act sys (owned sys t false)
  subscribes :
      (t : ℕ) (type : MsgType) (r : System)
      → sys.alive t ≡ true
      → subscribe t type sys ≡ ok r
      → Act sys r
  publishes : (msg : Msg) (r : System) → publish msg sys ≡ ok r → Act sys r
  delivers : (t : ℕ) (msg : Msg) (r : System) → deliver_message t msg sys ≡ ok r → Act sys r
  starts : (t : ℕ) (r : System) → start t sys ≡ ok r → Act sys r
  enters :
      (t : ℕ) (state : TaskState) (r : System) → transition_to_state t state sys ≡ ok r → Act sys r
  stops : (t : ℕ) (r : System) → stop_signal transition_to_state t sys ≡ ok r → Act sys r
  joins : (t : ℕ) → Act sys (stop_join t sys)
  takes :
      (t : ℕ) (m : Option Msg) (q : MessageQueue)
      → dequeue (sys.tasks t).message_queue ≡ ok (returns m q)
      → Act sys (with_queue sys t q)
  polls :
      (t : ℕ) (m : Option Msg) (q : MessageQueue)
      → try_dequeue (sys.tasks t).message_queue ≡ ok (m, q)
      → Act sys (with_queue sys t q)
  answers :
      (t : ℕ) (heartbeat : HeartbeatMsg) (r : System)
      → handle_heartbeat t heartbeat sys ≡ ok r
      → Act sys r
  passes : (l : Logger) (s : Surroundings) → Act sys (record sys { logger = l; at = s })
