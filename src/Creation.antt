-- ===== src/Creation.antt =====
-- include/state_manager.h and include/heart_beat.h: the factories of the state manager and of the
-- heart beat. A number names the object that is made, and addresses and sizes are those of its
-- queue's storage.
pub mod Startup
pub mod Running
use protocore.Base.{ℕ, true, Bool, Run, ◌>>=◌, ◌==◌, if◌then◌else◌}
use protocore.Std.Text.{String}
use protocore.TaskState.{TaskState}
use protocore.System.{Task, System, set_task}
use protocore.Tasks.{make_task, set_periodic_task_interval}
use protocore.Supervision.{World, make_state_manager, make_heart_beat}
use protocore.Manager.{on_initialize as initialize_manager}
use protocore.Heartbeats.{on_initialize as initialize_heart_beat}

-- The default of the constructor of task::Task.
abbrev pub default_msg_count : ℕ
default_msg_count = 64

-- A shared pointer to a new task.
abbrev pub share : ℕ → Task → System → System
share self task sys = record (set_task sys self task) {
  alive = λ u. if self == u then true else sys.alive u;
}

-- `StateManager::create`; the states are what the storage held.
unfoldable pub create_state_manager : ℕ → ℕ → ℕ → TaskState → TaskState → World → Run World
create_state_manager self node_size pool_data current target w = do
  task ← make_task "StateManager" default_msg_count node_size pool_data
  initialize_manager (record w {
    system = share self task w.system;
    manager = make_state_manager self current target;
  })

-- `HeartBeatTask::create`
unfoldable pub create_heart_beat : ℕ → String → ℕ → ℕ → Bool → ℕ → ℕ → World → Run World
create_heart_beat self name node_size pool_data state_manager interval_ms timeout_ms w = do
  task ← make_task name default_msg_count node_size pool_data
  initialize_heart_beat (record w {
    system = share self (set_periodic_task_interval interval_ms task) w.system;
    heart_beat = make_heart_beat self state_manager timeout_ms;
  })
