-- ===== src/System.antt =====
-- The objects that the components share: the logger, the broker's tables and the tasks. A task is
-- named by a number that no other task ever has; a weak pointer is that number, and it locks as long
-- as a shared pointer owns the task.
use protocore.Base.{ℕ, ◌≡◌, refl, Bool, List, ◌==◌, if◌then◌else◌}
use protocore.Std.Text.{String}
use protocore.TaskState.{TaskState}
use protocore.Msg.{MsgType}
use protocore.MessageQueue.{MessageQueue}
use protocore.Logger.{Logger, LogLevel, Surroundings, log}

-- The fields of task::Task; a thread is kept as whether it is joinable.
pub record Task : Type 0 where
  pub name : String
  pub current_state : TaskState
  pub running : Bool
  pub queue_thread : Bool
  pub periodic_thread : Bool
  pub periodic_task_interval_ms : ℕ
  pub message_queue : MessageQueue

pub record System : Type 0 where
  pub logger : Logger
  pub at : Surroundings
  pub initialized : Bool
  pub subscriber_lists : MsgType → List ℕ
  pub tasks : ℕ → Task
  pub alive : ℕ → Bool

abbrev pub set_task : System → ℕ → Task → System
set_task sys t task = record sys { tasks = λ u. if t == u then task else sys.tasks u }

-- `Logger::instance().log(…)`
abbrev pub log_line : LogLevel → String → String → System → System
log_line level component message sys = record sys {
  logger = log sys.at level component message sys.logger;
}

-- A state that holds a system: the objects of derived classes have fields of their own.
pub record Holder (S : Type 0) : Type 0 where
  pub system : S → System
  pub put : S → System → S
  pub system-put : (s : S) (sys : System) → system (put s sys) ≡ sys

instance abbrev pub system_alone : Holder System
system_alone = record { system = λ sys. sys; put = λ _ sys. sys; system-put = λ _ sys. refl }
