-- ===== src/Rounds.antt =====
-- Rounds of the queue threads of src/task.cpp with the objects of src/state_manager.cpp and
-- src/heart_beat.cpp: what one task sends, the round of another takes.
pub mod Obeying
pub mod Recording
pub mod Orders
pub mod Responding
pub mod Clearing
pub mod Answers
use protocore.Base.{ℕ, Run, ok}
use protocore.Msg.{Msg}
use protocore.Logger.{Surroundings}
use protocore.Supervision.{World, system_of_world}
use protocore.Tasks.{Turn, run_round}
use protocore.Manager.{process_message as manager_process}
use protocore.Heartbeats.{process_message as heart_beat_process}

-- A round of the manager's queue thread; the wake-up of the caller that waits is no change of state.
abbrev pub manager_round : World → Run (Turn World)
manager_round w = run_round (λ msg w. ok (manager_process msg w).0) w.manager.self w

abbrev pub heart_beat_round : World → Run (Turn World)
heart_beat_round w = run_round heart_beat_process w.heart_beat.self w

-- The clocks have moved.
abbrev pub at_time : Surroundings → World → World
at_time s w = record w { system = record w.system { at = s } }
