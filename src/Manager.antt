-- ===== src/Manager.antt =====
-- src/state_manager.cpp: the operations of the class StateManager. `demand_state_transition` is two
-- steps, before its wait and from where the wait ends; its callers are split at the same place.
pub mod Acknowledgment
pub mod Demand
pub mod Agreement
pub mod Initializing
pub mod Keeping
use protocore.Base.{
  ℕ, Bool, true, false, not, ◌&&◌, Option, none, some, List, [], ◌∷◌, ◌==◌, if◌then◌else◌, Run, ok,
  ◌>>=◌,
}
use protocore.Std.Text.{String, ◌++◌}
use protocore.TaskState.{
  TaskState, value, idle, stopped, error, to_state, to_byte, task_state_to_string,
}
use protocore.Msg.{
  Msg, StateAckMsg, state_ack_msg, of_state, make_msg, get_data_as, type_index, msg_type_to_string,
}
use protocore.Logger.{LogLevel, info}
use protocore.Logger.{error as error_level}
use protocore.System.{Task, System, log_line}
use protocore.Broker.{deliver_message}
use protocore.Tasks.{
  start, stop_signal, stop_join, safe_publish, safe_subscribe, transition_to_state,
}
use protocore.Supervision.{StateManager, World, set_states}
use protocore.Supervision.Entries.{Table, find, assign}

-- `this->get_name()`
abbrev pub name_of_manager : World → String
name_of_manager w = (w.system.tasks w.manager.self).name

abbrev pub manager_logs : LogLevel → String → World → World
manager_logs level message w = record w {
  system = log_line level (name_of_manager w) message w.system;
}

unfoldable pub on_initialize : World → Run World
on_initialize w = do
  system ← safe_subscribe w.manager.self state_ack_msg w.system
  ok (record w { system = system })

-- What the manager's `transition_to_state` does to the system.
pub announce : ℕ → TaskState → System → Run System
announce self new_state sys =
    let logged =
      log_line info (sys.tasks self).name ("transitioning to " ++ task_state_to_string new_state)
        sys in
    make_msg (some self) (of_state (record { state = to_byte new_state })) >>= λ msg.
    safe_publish self msg logged

-- `StateManager::transition_to_state`, which is also `request_state_transition`.
unfoldable pub request_state_transition : TaskState → World → Run World
unfolding announce
request_state_transition new_state w = do
  system ← announce w.manager.self new_state w.system
  ok (record w { system = system; manager = record w.manager { current_state = new_state } })

abbrev pub same_state : TaskState → TaskState → Bool
same_state s t = value s == value t

unfoldable pub all_tasks_in_state : TaskState → Table TaskState → Bool
all_tasks_in_state state [] = true
all_tasks_in_state state ((task, s) ∷ rest) =
    if not (same_state s state) then false else all_tasks_in_state state rest

-- `demand_state_transition` up to its wait.
unfoldable pub demand_signal : TaskState → World → Run World
demand_signal new_state w =
    let logged =
      manager_logs info ("demanding transition to " ++ task_state_to_string new_state) w in
    request_state_transition new_state
      (record logged { manager = record w.manager { target_state = new_state } })

-- The lines on the tasks that are not in the state.
pub report : TaskState → Table TaskState → World → World
report new_state [] w = w
report new_state ((task, s) ∷ rest) w =
    let line =
      manager_logs error_level
        ("\tTask " ++ (w.system.tasks task).name ++ " still in state " ++ task_state_to_string s)
        w in
    report new_state rest (if not (same_state s new_state) then line else w)

-- `demand_state_transition` from where its wait ends: at the timeout or before, the answer is that
-- of the condition.
unfoldable pub demand_result : TaskState → World → Bool × World
unfolding report
demand_result new_state w =
    let late =
      manager_logs error_level
        ("Timeout waiting for tasks to state transition to " ++ task_state_to_string new_state) w in
    if all_tasks_in_state new_state w.manager.task_states
    then (true, w)
    else (false, report new_state w.manager.task_states late)

pub start_all : Table TaskState → System → Run System
start_all [] sys = ok sys
start_all ((task, s) ∷ rest) sys = start task sys >>= λ started. start_all rest started

-- `initialize` up to the wait, and from there.
unfoldable pub initialize_signal : World → Run World
unfolding start_all
initialize_signal w = do
  let logged = manager_logs info "initializing tasks..." w
  own ← start w.manager.self logged.system
  all ← start_all w.manager.task_states own
  demand_signal idle (record logged { system = all })

unfoldable pub initialize_result : World → World
initialize_result w =
    let (success, done) = demand_result idle w in
    if not success
    then manager_logs error_level
        "Timeout while waiting for tasks to transition to IDLE during initialization" done
    else done

-- Each task is stopped and joined; what its threads do until they end is their rounds.
pub stop_all : Table TaskState → System → Run System
stop_all [] sys = ok sys
stop_all ((task, s) ∷ rest) sys = stop_signal transition_to_state task sys >>= λ signalled.
    stop_all rest (if (sys.tasks task).running then stop_join task signalled else signalled)

-- `stop` of the manager, whose transition is its own.
pub stop_manager : World → Run World
unfolding announce
stop_manager w =
    let self = w.manager.self in
    let signalled : Run World = do
      system ← stop_signal announce self w.system
      ok (record w {
        system = stop_join self system;
        manager = record w.manager { current_state = stopped };
      })
    in if (w.system.tasks self).running then signalled else ok w

-- `shutdown` up to the wait, and from there.
unfoldable pub shutdown_signal : World → Run World
shutdown_signal w = demand_signal stopped (manager_logs info "shutting down tasks..." w)

unfoldable pub shutdown_result : World → Run World
unfolding stop_all stop_manager
shutdown_result w = do
  let (success, waited) = demand_result stopped w
  let reported =
      if not success
      then manager_logs error_level "Timeout while waiting for tasks to stop during shutdown" waited
      else waited
  system ← stop_all reported.manager.task_states reported.system
  stop_manager (record reported { system = system })

-- The acknowledgment of a registered task: the world behind it, and whether it wakes the caller that
-- waits for the transition.
pub acknowledge : ℕ → StateAckMsg → World → World × Bool
acknowledge sender ack w =
    let states = assign sender (to_state ack.state) w.manager.task_states in
    let logged =
      manager_logs info
        ("Task "
          ++ (w.system.tasks sender).name
          ++ " acknowledged transition to state "
          ++ task_state_to_string (to_state ack.state))
        w in
    (
      record logged { manager = set_states w.manager states },
      all_tasks_in_state w.manager.target_state states,
    )

pub acknowledge_data : ℕ → Option StateAckMsg → World → World × Bool
unfolding acknowledge
acknowledge_data sender none w =
    (manager_logs error_level "Received StateAckMsg with no data" w, false)
acknowledge_data sender (some ack) w = acknowledge sender ack w

-- Behind the search for the sender's entry.
pub acknowledge_entry : Option TaskState → ℕ → Msg → World → World × Bool
unfolding acknowledge_data
acknowledge_entry none sender msg w =
    (manager_logs error_level "State ACK from unknown sender" w, false)
acknowledge_entry (some _) sender msg w = acknowledge_data sender (get_data_as state_ack_msg msg) w

pub acknowledge_from : Option ℕ → Msg → World → World × Bool
unfolding acknowledge_entry
acknowledge_from none msg w = (manager_logs error_level "State ACK from unknown sender" w, false)
acknowledge_from (some sender) msg w =
    acknowledge_entry (find sender w.manager.task_states) sender msg w

unfoldable pub handle_acknowledgment : Msg → World → World × Bool
unfolding acknowledge_from
handle_acknowledgment msg w = acknowledge_from msg.sending_task msg w

unfoldable pub process_message : Msg → World → World × Bool
process_message msg w =
    if type_index msg.msg_type == type_index state_ack_msg then handle_acknowledgment msg w else (
      manager_logs error_level ("Unhandled message type: " ++ msg_type_to_string msg.msg_type) w,
      false,
    )

unfoldable pub mark_task_as_unresponsive : ℕ → World → Run World
mark_task_as_unresponsive task w = do
  let logged =
      manager_logs error_level
        ("Task "
          ++ (w.system.tasks task).name
          ++ " marked as unresponsive, setting to "
          ++ task_state_to_string error)
        w
  msg ← make_msg (some w.manager.self) (of_state (record { state = to_byte error }))
  system ← deliver_message task msg logged.system
  ok (record w {
    system = system;
    manager = set_states w.manager (assign task error w.manager.task_states);
  })
