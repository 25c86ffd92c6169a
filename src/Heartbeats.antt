-- ===== src/Heartbeats.antt =====
-- src/heart_beat.cpp: the operations of the class HeartBeatTask. Times are those of the steady clock
-- in milliseconds, which a call reads once; `tasks_mutex` makes each call one step.
pub mod Numbering
pub mod Sending
pub mod Marking
pub mod Timeouts
pub mod Answers
pub mod Entering
pub mod Noting
pub mod Keeping
use protocore.Base.{
  ℕ, ◌+◌, ◌-◌, ◌%◌, ◌^◌, Bool, true, false, ◌&&◌, Option, none, some, List, [], ◌∷◌, ltb, ◌==◌,
  if◌then◌else◌, Run, ok, undefined, ◌>>=◌,
}
use protocore.Std.Text.{String, ◌++◌, to_string}
use protocore.TaskState.{TaskState, value, running, to_state, task_state_to_string}
use protocore.Msg.{
  Msg, MsgType, StateMsg, HeartbeatAckMsg, state_msg, state_ack_msg, heartbeat_msg,
  heartbeat_ack_msg, of_heartbeat, make_msg, get_data_as, msg_type_to_string,
}
use protocore.Logger.{LogLevel, info, warn}
use protocore.Logger.{error as error_level}
use protocore.System.{Task, System, log_line}
use protocore.Broker.{deliver_message}
use protocore.Tasks.{safe_subscribe, transition_to_state}
use protocore.Supervision.{
  StateManager, HeartBeat, TaskStatus, World, set_monitored, set_task_registration_observer,
}
use protocore.Supervision.Entries.{Table, find, assign}
use protocore.Manager.{mark_task_as_unresponsive}

abbrev pub heart_beat_logs : LogLevel → String → World → World
heart_beat_logs level message w = record w {
  system = log_line level (w.system.tasks w.heart_beat.self).name message w.system;
}

abbrev pub set_system : World → System → World
set_system w system = record w { system = system }

unfoldable pub on_initialize : World → Run World
on_initialize w = do
  states ← safe_subscribe w.heart_beat.self state_msg w.system
  system ← safe_subscribe w.heart_beat.self heartbeat_ack_msg states
  ok (record w {
    system = system;
    manager =
        if w.heart_beat.state_manager
        then set_task_registration_observer (some w.heart_beat.self) w.manager
        else w.manager;
  })

-- `next_heartbeat_id++`
unfoldable pub generate_heartbeat_id : HeartBeat → ℕ × HeartBeat
generate_heartbeat_id h =
    (h.next_heartbeat_id, record h { next_heartbeat_id = (h.next_heartbeat_id + 1) % 2 ^ 32 })

unfoldable pub handle_unresponsive_task : ℕ → World → Run World
handle_unresponsive_task task w =
    if w.heart_beat.state_manager then mark_task_as_unresponsive task w else ok w

-- The source cuts the difference of finer times to milliseconds; here the times are cut.
abbrev pub is_overdue : ℕ → ℕ → TaskStatus → Bool
is_overdue now timeout status =
    status.awaiting_response && ltb timeout (now - status.last_heartbeat_time)

abbrev pub warned : ℕ → TaskStatus → World → World
warned task status w =
    heart_beat_logs warn
      ("Task "
        ++ (w.system.tasks task).name
        ++ " failed to respond to Heartbeat ID: "
        ++ to_string status.last_heartbeat_id
        ++ " Taking action: "
        ++ task_state_to_string w.heart_beat.unresponsive_action)
      w

abbrev pub answered : TaskStatus → TaskStatus
answered status = record status { awaiting_response = false }

-- The loop of `check_for_timeouts`: the entries as it leaves them, and the world.
pub check_entries : ℕ → Table TaskStatus → World → Run (Table TaskStatus × World)
check_entries now [] w = ok ([], w)
check_entries now ((task, status) ∷ rest) w =
    elim (is_overdue now w.heart_beat.response_timeout_ms status) [
      | true ↦ handle_unresponsive_task task (warned task status w) >>= λ marked.
          check_entries now rest marked >>= λ (later, done).
          ok ((task, answered status) ∷ later, done)
      | false ↦ check_entries now rest w >>= λ (later, done). ok ((task, status) ∷ later, done)
    ]

abbrev pub with_entries : Table TaskStatus × World → World
with_entries (entries, w) = record w { heart_beat = set_monitored w.heart_beat entries }

unfoldable pub check_for_timeouts : World → Run World
unfolding check_entries
check_for_timeouts w =
    check_entries w.system.at.steady_ms w.heart_beat.monitored_tasks w >>= λ r. ok (with_entries r)

-- The heartbeat to one task.
abbrev pub sent : ℕ → ℕ → TaskStatus → TaskStatus
sent now id status = record status {
  awaiting_response = true;
  last_heartbeat_id = id;
  last_heartbeat_time = now;
}

pub send_to : ℕ → ℕ → World → Run (ℕ × World)
send_to now task w = do
  let (id, h) = generate_heartbeat_id w.heart_beat
  msg ←
      make_msg (some w.heart_beat.self) (of_heartbeat (record { unique_id = id; timestamp = now }))
  system ← deliver_message task msg w.system
  ok (id, record w { system = system; heart_beat = h })

-- The loop of `send_heartbeat`.
pub send_entries : ℕ → Table TaskStatus → World → Run (Table TaskStatus × World)
unfolding send_to
send_entries now [] w = ok ([], w)
send_entries now ((task, status) ∷ rest) w = elim status.awaiting_response [
  | false ↦ send_to now task w >>= λ (id, delivered).
      send_entries now rest delivered >>= λ (later, done).
      ok ((task, sent now id status) ∷ later, done)
  | true ↦ send_entries now rest w >>= λ (later, done). ok ((task, status) ∷ later, done)
]

unfoldable pub send_heartbeat : World → Run World
unfolding send_entries
send_heartbeat w =
    send_entries w.system.at.steady_ms w.heart_beat.monitored_tasks w >>= λ r. ok (with_entries r)

-- A matching answer of a monitored task.
pub record_answer : ℕ → TaskStatus → HeartbeatAckMsg → World → World
record_answer task status ack w =
    let now = w.system.at.steady_ms in
    let noted = record status { awaiting_response = false; last_response_time = now } in
    let entries = assign task noted w.heart_beat.monitored_tasks in
    let logged =
      heart_beat_logs info
        ("Received Heartbeat ACK from "
          ++ (w.system.tasks task).name
          ++ " for Heartbeat ID: "
          ++ to_string ack.orig_unique_id
          ++ " at time: "
          ++ to_string ack.ack_timestamp)
        w in
    if status.last_heartbeat_id == ack.orig_unique_id
    then record logged { heart_beat = set_monitored w.heart_beat entries }
    else w

-- Behind the search for the sender's entry; the data of a message of another type is a null pointer.
pub answer_entry : Option TaskStatus → ℕ → Option HeartbeatAckMsg → World → Run World
unfolding record_answer
answer_entry none task ack w = ok w
answer_entry (some status) task none w = undefined
answer_entry (some status) task (some ack) w = ok (record_answer task status ack w)

pub answer_from : Option ℕ → Msg → World → Run World
unfolding answer_entry
answer_from none msg w = ok w
answer_from (some task) msg w =
    answer_entry (find task w.heart_beat.monitored_tasks) task (get_data_as heartbeat_ack_msg msg) w

unfoldable pub handle_acknowledgment : Msg → World → Run World
unfolding answer_from
handle_acknowledgment msg w = answer_from msg.sending_task msg w

-- The case of a StateMsg; its data is read through a pointer.
pub enter_state : Option StateMsg → World → Run World
enter_state none w = undefined
enter_state (some order) w =
    transition_to_state w.heart_beat.self (to_state order.state) w.system >>= λ system.
    ok (set_system w system)

pub dispatch : MsgType → Msg → World → Run World
unfolding enter_state
dispatch state_msg msg w = enter_state (get_data_as state_msg msg) w
dispatch heartbeat_ack_msg msg w = handle_acknowledgment msg w
dispatch type msg w =
    ok (heart_beat_logs error_level ("Unhandled message type: " ++ msg_type_to_string type) w)

unfoldable pub process_message : Msg → World → Run World
unfolding dispatch
process_message msg w = dispatch msg.msg_type msg w

unfoldable pub periodic_task_process : World → Run World
periodic_task_process w = check_for_timeouts w >>= λ checked.
    if value (checked.system.tasks checked.heart_beat.self).current_state == value running
    then send_heartbeat checked
    else ok checked
