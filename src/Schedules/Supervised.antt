-- ===== src/Schedules/Supervised.antt =====
-- Schedules with the manager and the heart beat among the tasks.
use protocore.Base.{ℕ, ◌≡◌, ok}
use protocore.TaskState.{TaskState}
use protocore.Msg.{Msg}
use protocore.System.{System}
use protocore.Supervision.{World, StateManager, HeartBeat}
use protocore.Manager.{
  stop_manager, demand_signal, request_state_transition, initialize_signal,
  mark_task_as_unresponsive,
}
use protocore.Manager.{process_message as manager_process}
use protocore.Manager.Keeping.{
  demand-WellFormed, request-WellFormed, initialize-WellFormed, mark-WellFormed,
}
use protocore.Manager.Keeping.{stop-WellFormed as manager_stop-WellFormed}
use protocore.Manager.Keeping.{process-WellFormed as manager-WellFormed}
use protocore.Heartbeats.{set_system, check_for_timeouts, send_heartbeat, periodic_task_process}
use protocore.Heartbeats.{process_message as heart_beat_process}
use protocore.Heartbeats.Keeping.{
  check-WellFormed, send-WellFormed, periodic-WellFormed, process-WellFormed,
}
use protocore.Schedules.{Act}
use protocore.Schedules.Keeping.{WellFormed}
use protocore.Schedules.Invariant.{Act-WellFormed}

-- A call that returned: of the broker or a task, of the manager, or of the heart beat. `becomes` is
-- whatever other calls make of these two objects, like `register_task` of the manager.
pub data Move (w : World) : World → Type 0 where
  acts : (sys : System) → Act w.system sys → Move w (set_system w sys)
  becomes : (m : StateManager) (h : HeartBeat) → Move w (record w { manager = m; heart_beat = h })
  requests : (s : TaskState) (r : World) → request_state_transition s w ≡ ok r → Move w r
  demands : (s : TaskState) (r : World) → demand_signal s w ≡ ok r → Move w r
  initializes : (r : World) → initialize_signal w ≡ ok r → Move w r
  stops_manager : (r : World) → stop_manager w ≡ ok r → Move w r
  marks : (t : ℕ) (r : World) → mark_task_as_unresponsive t w ≡ ok r → Move w r
  manages : (msg : Msg) → Move w (manager_process msg w).0
  checks : (r : World) → check_for_timeouts w ≡ ok r → Move w r
  sends : (r : World) → send_heartbeat w ≡ ok r → Move w r
  periodic : (r : World) → periodic_task_process w ≡ ok r → Move w r
  beats : (msg : Msg) (r : World) → heart_beat_process msg w ≡ ok r → Move w r

pub data Moves : World → World → Type 0 where
  still : {w : World} → Moves w w
  then_move : {w v r : World} → Move w v → Moves v r → Moves w r

Move-WellFormed : (w r : World) → Move w r → WellFormed w.system → WellFormed r.system
Move-WellFormed w _ (acts sys act) f = Act-WellFormed w.system sys act f
Move-WellFormed w _ (becomes m h) f = f
Move-WellFormed w _ (requests s r e) f = request-WellFormed s w r f e
Move-WellFormed w _ (demands s r e) f = demand-WellFormed s w r f e
Move-WellFormed w _ (initializes r e) f = initialize-WellFormed w r f e
Move-WellFormed w _ (stops_manager r e) f = manager_stop-WellFormed w r f e
Move-WellFormed w _ (marks t r e) f = mark-WellFormed t w r f e
Move-WellFormed w _ (manages msg) f = manager-WellFormed msg w f
Move-WellFormed w _ (checks r e) f = check-WellFormed w r f e
Move-WellFormed w _ (sends r e) f = send-WellFormed w r f e
Move-WellFormed w _ (periodic r e) f = periodic-WellFormed w r f e
Move-WellFormed w _ (beats msg r e) f = process-WellFormed msg w r f e

pub Moves-WellFormed : (w r : World) → Moves w r → WellFormed w.system → WellFormed r.system
Moves-WellFormed w r still f = f
Moves-WellFormed w r (then_move {v = v} move rest) f =
    Moves-WellFormed v r rest (Move-WellFormed w v move f)
