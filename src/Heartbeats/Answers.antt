-- ===== src/Heartbeats/Answers.antt =====
-- What `handle_acknowledgment` makes of the answers that `Task::handle_heartbeat` sends.
use protocore.Base.{
  ℕ, ◌≡◌, refl, ap, false, ◌&&◌, Bool-cases, inl, inr, none, some, ◌==◌, if◌then◌else◌, ok,
}
use protocore.Msg.{HeartbeatMsg, HeartbeatAckMsg, heartbeat_ack_msg, get_data_as}
use protocore.System.{System}
use protocore.Tasks.Transition.{heartbeat_ack}
use protocore.Supervision.{TaskStatus, World}
use protocore.Supervision.Entries.{find, find-assign}
use protocore.Heartbeats.{handle_acknowledgment, answer_from, answer_entry, record_answer}

abbrev pub cleared : ℕ → TaskStatus → TaskStatus
cleared now status = record status { awaiting_response = false; last_response_time = now }

ack_of : HeartbeatMsg → System → HeartbeatAckMsg
ack_of heartbeat sys = record {
  orig_unique_id = heartbeat.unique_id;
  orig_timestamp = heartbeat.timestamp;
  ack_timestamp = sys.at.steady_ms;
}

answered_by :
    (task : ℕ) (heartbeat : HeartbeatMsg) (sys : System) (status : TaskStatus) (w : World)
    → find task w.heart_beat.monitored_tasks ≡ some status
    → handle_acknowledgment (heartbeat_ack task heartbeat sys) w
      ≡ ok (record_answer task status (ack_of heartbeat sys) w)
unfolding handle_acknowledgment answer_from answer_entry get_data_as ack_of
answered_by task heartbeat sys status w monitored =
    ap (λ o. answer_entry o task (some (ack_of heartbeat sys)) w) monitored

-- A monitored task's answer clears its entry, and no other, if it answers the last heartbeat sent to
-- the task; its answer to an older heartbeat clears none. What the manager
-- records stays, and so do the tasks.
pub handle_acknowledgment-clears :
    (task : ℕ) (heartbeat : HeartbeatMsg) (sys : System) (status : TaskStatus) (w : World)
    → find task w.heart_beat.monitored_tasks ≡ some status
    → (after : World) × (handle_acknowledgment (heartbeat_ack task heartbeat sys) w ≡ ok after)
      × (after.manager ≡ w.manager)
      × (after.system.tasks ≡ w.system.tasks)
      × ((t : ℕ)
          → find t after.heart_beat.monitored_tasks ≡ (
              if (status.last_heartbeat_id == heartbeat.unique_id) && (t == task)
              then some (cleared w.system.at.steady_ms status)
              else find t w.heart_beat.monitored_tasks))
unfolding record_answer ack_of
handle_acknowledgment-clears task heartbeat sys status w monitored = (
  record_answer task status (ack_of heartbeat sys) w,
  answered_by task heartbeat sys status w monitored,
  elim (Bool-cases (status.last_heartbeat_id == heartbeat.unique_id)) [
    | inl e ↦ rw e
    | inr e ↦ rw e
  ],
  elim (Bool-cases (status.last_heartbeat_id == heartbeat.unique_id)) [
    | inl e ↦ rw e refl
    | inr e ↦ rw e refl
  ],
  λ t. elim (Bool-cases (status.last_heartbeat_id == heartbeat.unique_id)) [
    | inl e ↦
        rw e
          (find-assign task t (cleared w.system.at.steady_ms status) w.heart_beat.monitored_tasks)
    | inr e ↦ rw e
  ],
)

-- An answer of a task that is not monitored changes nothing.
pub handle_acknowledgment-unmonitored :
    (task : ℕ) (heartbeat : HeartbeatMsg) (sys : System) (w : World)
    → find task w.heart_beat.monitored_tasks ≡ none
    → handle_acknowledgment (heartbeat_ack task heartbeat sys) w ≡ ok w
unfolding handle_acknowledgment answer_from answer_entry get_data_as
handle_acknowledgment-unmonitored task heartbeat sys w unknown =
    ap
      (λ o.
        answer_entry o task (get_data_as heartbeat_ack_msg (heartbeat_ack task heartbeat sys)) w)
      unknown
