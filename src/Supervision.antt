-- ===== src/Supervision.antt =====
-- include/state_manager.h and include/heart_beat.h: the state manager, the heart beat, and the
-- registration through which the one calls the other. There is one of each.
pub mod Entries
pub mod Registration
use protocore.Base.{ℕ, refl, Bool, true, false, [], Option, none, some, List, ◌==◌, if◌then◌else◌}
use protocore.TaskState.{TaskState, not_started, error}
use protocore.System.{System, Holder}
use Entries.{Table, find, assign}

pub record StateManager : Type 0 where
  -- the manager as a task
  pub self : ℕ
  pub task_states : Table TaskState
  -- hides the field of task::Task
  pub current_state : TaskState
  pub target_state : TaskState
  pub task_registration_observer : Option ℕ

pub record TaskStatus : Type 0 where
  pub awaiting_response : Bool
  pub last_heartbeat_id : ℕ
  pub last_heartbeat_time : ℕ
  pub last_response_time : ℕ

pub record HeartBeat : Type 0 where
  pub self : ℕ
  pub monitored_tasks : Table TaskStatus
  -- whether the pointer to the manager is set
  pub state_manager : Bool
  pub response_timeout_ms : ℕ
  pub next_heartbeat_id : ℕ
  pub unresponsive_action : TaskState

pub record World : Type 0 where
  pub system : System
  pub manager : StateManager
  pub heart_beat : HeartBeat

instance abbrev pub system_of_world : Holder World
system_of_world = record {
  system = λ w. w.system;
  put = λ w sys. record w { system = sys };
  system-put = λ _ _. refl;
}

-- The constructors; the manager's states are what its storage held.
unfoldable pub make_state_manager : ℕ → TaskState → TaskState → StateManager
make_state_manager self current target = record {
  self = self;
  task_states = [];
  current_state = current;
  target_state = target;
  task_registration_observer = none;
}

unfoldable pub make_heart_beat : ℕ → Bool → ℕ → HeartBeat
make_heart_beat self state_manager response_timeout_ms = record {
  self = self;
  monitored_tasks = [];
  state_manager = state_manager;
  response_timeout_ms = response_timeout_ms;
  next_heartbeat_id = 1;
  unresponsive_action = error;
}

abbrev pub set_monitored : HeartBeat → Table TaskStatus → HeartBeat
set_monitored h monitored = record h { monitored_tasks = monitored }

-- `HeartBeatTask::notify_task_registered`
unfoldable pub notify_task_registered : ℕ → ℕ → HeartBeat → HeartBeat
notify_task_registered now task h =
    let status : TaskStatus = record {
      awaiting_response = false;
      last_heartbeat_id = 0;
      last_heartbeat_time = 0;
      last_response_time = now;
    } in
    if task == h.self then h else elim (find task h.monitored_tasks) [
      | none ↦ set_monitored h (assign task status h.monitored_tasks)
      | some _ ↦ h
    ]

unfoldable pub set_unresponsive_action : TaskState → HeartBeat → HeartBeat
set_unresponsive_action action h = record h { unresponsive_action = action }

abbrev pub set_states : StateManager → Table TaskState → StateManager
set_states m states = record m { task_states = states }

-- The call of the observer in `register_task`; it is a HeartBeatTask if it is the heart beat.
pub notify_observer : ℕ → Option ℕ → World → World
notify_observer task none w = w
notify_observer task (some observer) w =
    if observer == w.heart_beat.self
    then record w { heart_beat = notify_task_registered w.system.at.steady_ms task w.heart_beat }
    else w

unfoldable pub register_task : ℕ → World → World
unfolding notify_observer
register_task task w =
    let manager = set_states w.manager (assign task not_started w.manager.task_states) in
    notify_observer task w.manager.task_registration_observer (record w { manager = manager })

unfoldable pub set_task_registration_observer : Option ℕ → StateManager → StateManager
set_task_registration_observer observer m = record m { task_registration_observer = observer }
