-- ===== src/Heartbeats/Keeping.antt =====
-- The invariant of the system, and the calls of the heart beat.
use protocore.Base.{
  ℕ, ◌≡◌, ap, subst, Bool, true, false, Bool-cases, inl, inr, Option, none, some, [], ◌∷◌, ok,
  >>=-eq-ok, ok-injective, ◌==◌, if◌then◌else◌,
}
use protocore.TaskState.{to_state, value, running}
use protocore.Msg.{
  Msg, MsgType, StateMsg, HeartbeatAckMsg, state_msg, state_ack_msg, heartbeat_msg,
  heartbeat_ack_msg, make_msg, of_heartbeat, get_data_as,
}
use protocore.Broker.{deliver_message}
use protocore.Tasks.{transition_to_state}
use protocore.Supervision.{World, TaskStatus}
use protocore.Supervision.Entries.{Table, find}
use protocore.Schedules.Keeping.{WellFormed, deliver-WellFormed}
use protocore.Schedules.Invariant.{transition-WellFormed}
use protocore.Manager.{mark_task_as_unresponsive}
use protocore.Manager.Keeping.{logged-WellFormed, mark-WellFormed}
use protocore.Heartbeats.{
  handle_unresponsive_task, is_overdue, warned, check_entries, check_for_timeouts,
  generate_heartbeat_id, send_to, send_entries, send_heartbeat, record_answer, answer_entry,
  answer_from, handle_acknowledgment, enter_state, dispatch, process_message, periodic_task_process,
}

handle-WellFormed :
    (task : ℕ) (v r : World)
    → WellFormed v.system
    → handle_unresponsive_task task v ≡ ok r
    → WellFormed r.system
unfolding handle_unresponsive_task
handle-WellFormed task v r w e = either v.heart_beat.state_manager e
  where
    either :
        (b : Bool)
        → (if b then mark_task_as_unresponsive task v else ok v) ≡ ok r
        → WellFormed r.system
    either true e = mark-WellFormed task v r w e
    either false e = subst (λ (r : World). WellFormed r.system) (ok-injective e) w

checked-WellFormed :
    (now : ℕ) (entries after : Table TaskStatus) (v r : World)
    → WellFormed v.system
    → check_entries now entries v ≡ ok (after, r)
    → WellFormed r.system
unfolding check_entries
checked-WellFormed now [] after v r w e =
    subst (λ (r : World). WellFormed r.system) (ap (λ r. r.1) (ok-injective e)) w
checked-WellFormed now ((task, status) ∷ rest) after v r w e =
    elim (Bool-cases (is_overdue now v.heart_beat.response_timeout_ms status)) [
      | inl h ↦
          let (marked, made, e') =
            >>=-eq-ok (handle_unresponsive_task task (warned task status v)) _
              (rw (h, check_entries) at e) in
          let ((later, done), checked, e'') = >>=-eq-ok (check_entries now rest marked) _ e' in
          subst (λ (r : World). WellFormed r.system) (ap (λ r. r.1) (ok-injective e''))
            (checked-WellFormed now rest later marked done
              (handle-WellFormed task (warned task status v) marked (logged-WellFormed w) made)
              checked)
      | inr h ↦
          let ((later, done), checked, e') =
            >>=-eq-ok (check_entries now rest v) _ (rw (h, check_entries) at e) in
          subst (λ (r : World). WellFormed r.system) (ap (λ r. r.1) (ok-injective e'))
            (checked-WellFormed now rest later v done w checked)
    ]

pub check-WellFormed :
    (v r : World) → WellFormed v.system → check_for_timeouts v ≡ ok r → WellFormed r.system
unfolding check_for_timeouts
check-WellFormed v r w e =
    let ((after, done), checked, e') =
      >>=-eq-ok (check_entries v.system.at.steady_ms v.heart_beat.monitored_tasks v) _ e in
    subst (λ (r : World). WellFormed r.system) (ok-injective e')
      (checked-WellFormed v.system.at.steady_ms v.heart_beat.monitored_tasks after v done w checked)

send_to-WellFormed :
    (now task id : ℕ) (v r : World)
    → WellFormed v.system
    → send_to now task v ≡ ok (id, r)
    → WellFormed r.system
unfolding send_to generate_heartbeat_id
send_to-WellFormed now task id v r w e =
    let (msg, _, e') =
      >>=-eq-ok
        (make_msg (some v.heart_beat.self)
          (of_heartbeat (record { unique_id = v.heart_beat.next_heartbeat_id; timestamp = now })))
        _ e in
    let (sys, delivered, e'') = >>=-eq-ok (deliver_message task msg v.system) _ e' in
    subst (λ (r : World). WellFormed r.system) (ap (λ r. r.1) (ok-injective e''))
      (deliver-WellFormed task msg v.system sys w delivered)

sent-WellFormed :
    (now : ℕ) (entries after : Table TaskStatus) (v r : World)
    → WellFormed v.system
    → send_entries now entries v ≡ ok (after, r)
    → WellFormed r.system
unfolding send_entries
sent-WellFormed now [] after v r w e =
    subst (λ (r : World). WellFormed r.system) (ap (λ r. r.1) (ok-injective e)) w
sent-WellFormed now ((task, status) ∷ rest) after v r w e =
    elim (Bool-cases status.awaiting_response) [
      | inl h ↦
          let ((later, done), sent, e') =
            >>=-eq-ok (send_entries now rest v) _ (rw (h, send_entries) at e) in
          subst (λ (r : World). WellFormed r.system) (ap (λ r. r.1) (ok-injective e'))
            (sent-WellFormed now rest later v done w sent)
      | inr h ↦
          let ((id, mid), made, e') =
            >>=-eq-ok (send_to now task v) _ (rw (h, send_entries) at e) in
          let ((later, done), sent, e'') = >>=-eq-ok (send_entries now rest mid) _ e' in
          subst (λ (r : World). WellFormed r.system) (ap (λ r. r.1) (ok-injective e''))
            (sent-WellFormed now rest later mid done (send_to-WellFormed now task id v mid w made)
              sent)
    ]

pub send-WellFormed :
    (v r : World) → WellFormed v.system → send_heartbeat v ≡ ok r → WellFormed r.system
unfolding send_heartbeat
send-WellFormed v r w e =
    let ((after, done), sent, e') =
      >>=-eq-ok (send_entries v.system.at.steady_ms v.heart_beat.monitored_tasks v) _ e in
    subst (λ (r : World). WellFormed r.system) (ok-injective e')
      (sent-WellFormed v.system.at.steady_ms v.heart_beat.monitored_tasks after v done w sent)

pub periodic-WellFormed :
    (v r : World) → WellFormed v.system → periodic_task_process v ≡ ok r → WellFormed r.system
unfolding periodic_task_process
periodic-WellFormed v r w e =
    let (mid, checked, e') = >>=-eq-ok (check_for_timeouts v) _ e in
    let kept = check-WellFormed v mid w checked in
    elim (Bool-cases
      (value (mid.system.tasks mid.heart_beat.self).current_state == value running)) [
        | inl h ↦ send-WellFormed mid r kept (rw h at e')
        | inr h ↦ subst (λ (r : World). WellFormed r.system) (ok-injective (rw h at e')) kept
      ]

entry_kept :
    (o : Option TaskStatus) (task : ℕ) (ack : Option HeartbeatAckMsg) (v r : World)
    → WellFormed v.system
    → answer_entry o task ack v ≡ ok r
    → WellFormed r.system
unfolding answer_entry record_answer
entry_kept none task ack v r w e = subst (λ (r : World). WellFormed r.system) (ok-injective e) w
entry_kept (some s) task none v r w e = cc
entry_kept (some s) task (some ack) v r w e =
    subst (λ (r : World). WellFormed r.system) (ok-injective e)
      (elim (Bool-cases (s.last_heartbeat_id == ack.orig_unique_id)) [
        | inl h ↦ rw h (logged-WellFormed w)
        | inr h ↦ rw h w
      ])

sender_kept :
    (o : Option ℕ) (msg : Msg) (v r : World)
    → WellFormed v.system
    → answer_from o msg v ≡ ok r
    → WellFormed r.system
unfolding answer_from
sender_kept none msg v r w e = subst (λ (r : World). WellFormed r.system) (ok-injective e) w
sender_kept (some task) msg v r w e =
    entry_kept (find task v.heart_beat.monitored_tasks) task (get_data_as heartbeat_ack_msg msg) v r
      w e

order_kept :
    (o : Option StateMsg) (v r : World)
    → WellFormed v.system
    → enter_state o v ≡ ok r
    → WellFormed r.system
unfolding enter_state
order_kept none v r w e = cc
order_kept (some order) v r w e =
    let (sys, moved, e') =
      >>=-eq-ok (transition_to_state v.heart_beat.self (to_state order.state) v.system) _ e in
    subst (λ (r : World). WellFormed r.system) (ok-injective e')
      (transition-WellFormed v.heart_beat.self (to_state order.state) v.system sys w moved)

type_kept :
    (type : MsgType) (msg : Msg) (v r : World)
    → WellFormed v.system
    → dispatch type msg v ≡ ok r
    → WellFormed r.system
unfolding dispatch handle_acknowledgment
type_kept state_msg msg v r w e = order_kept (get_data_as state_msg msg) v r w e
type_kept heartbeat_ack_msg msg v r w e = sender_kept msg.sending_task msg v r w e
type_kept state_ack_msg msg v r w e =
    subst (λ (r : World). WellFormed r.system) (ok-injective e) (logged-WellFormed w)
type_kept heartbeat_msg msg v r w e =
    subst (λ (r : World). WellFormed r.system) (ok-injective e) (logged-WellFormed w)

pub process-WellFormed :
    (msg : Msg) (v r : World)
    → WellFormed v.system
    → process_message msg v ≡ ok r
    → WellFormed r.system
unfolding process_message
process-WellFormed msg v r w e = type_kept msg.msg_type msg v r w e
