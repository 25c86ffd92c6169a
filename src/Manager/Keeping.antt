-- ===== src/Manager/Keeping.antt =====
-- The invariant of the system, and the calls of the manager.
use protocore.Base.{
  Run, ◌>>=◌, Bool, true, false, if◌then◌else◌, ℕ, ◌≡◌, subst, Bool-cases, inl, inr, Option, none,
  some, [], ◌∷◌, ok, >>=-eq-ok, ok-injective, ◌==◌,
}
use protocore.TaskState.{stopped, TaskState, idle, error, to_byte}
use protocore.Msg.{Msg, StateAckMsg, state_ack_msg, make_msg, of_state, get_data_as, type_index}
use protocore.Logger.{Logger}
use protocore.System.{System}
use protocore.Broker.{deliver_message}
use protocore.Tasks.{stop_signal, stop_join, start}
use protocore.Supervision.{World}
use protocore.Supervision.Entries.{Table, find}
use protocore.Schedules.Keeping.{WellFormed, placed-WellFormed, deliver-WellFormed}
use protocore.Schedules.Invariant.{safe_publish-WellFormed, start-WellFormed}
use protocore.Schedules.Invariant.{stop-WellFormed as task_stop-WellFormed}
use protocore.Manager.{
  stop_manager, announce, request_state_transition, demand_signal, start_all, initialize_signal,
  mark_task_as_unresponsive, process_message, handle_acknowledgment, acknowledge_from,
  acknowledge_entry, acknowledge_data, acknowledge,
}

pub logged-WellFormed :
    {sys : System} {l : Logger} → WellFormed sys → WellFormed (record sys { logger = l })
logged-WellFormed w = record { queues = w.queues; lists = w.lists }

announce-WellFormed :
    (self : ℕ) (state : TaskState) (sys r : System)
    → WellFormed sys
    → announce self state sys ≡ ok r
    → WellFormed r
unfolding announce
announce-WellFormed self state sys r w e =
    let (msg, _, sent) =
      >>=-eq-ok (make_msg (some self) (of_state (record { state = to_byte state }))) _ e in
    safe_publish-WellFormed self msg _ r (logged-WellFormed w) sent

pub request-WellFormed :
    (state : TaskState) (v r : World)
    → WellFormed v.system
    → request_state_transition state v ≡ ok r
    → WellFormed r.system
unfolding request_state_transition
request-WellFormed state v r w e =
    let (sys, sent, e') = >>=-eq-ok (announce v.manager.self state v.system) _ e in
    subst (λ (r : World). WellFormed r.system) (ok-injective e')
      (announce-WellFormed v.manager.self state v.system sys w sent)

pub demand-WellFormed :
    (state : TaskState) (v r : World)
    → WellFormed v.system
    → demand_signal state v ≡ ok r
    → WellFormed r.system
unfolding demand_signal
demand-WellFormed state v r w e = request-WellFormed state _ r (logged-WellFormed w) e

start_all-WellFormed :
    (tasks : Table TaskState) (sys r : System)
    → WellFormed sys
    → start_all tasks sys ≡ ok r
    → WellFormed r
unfolding start_all
start_all-WellFormed [] sys r w e = subst WellFormed (ok-injective e) w
start_all-WellFormed ((task, s) ∷ rest) sys r w e =
    let (mid, started, e') = >>=-eq-ok (start task sys) _ e in
    start_all-WellFormed rest mid r (start-WellFormed task sys mid w started) e'

pub initialize-WellFormed :
    (v r : World) → WellFormed v.system → initialize_signal v ≡ ok r → WellFormed r.system
unfolding initialize_signal
initialize-WellFormed v r w e =
    let (own, started, e') = >>=-eq-ok (start v.manager.self _) _ e in
    let (all, started', e'') = >>=-eq-ok (start_all v.manager.task_states own) _ e' in
    demand-WellFormed idle _ r
      (start_all-WellFormed v.manager.task_states own all
        (start-WellFormed v.manager.self _ own (logged-WellFormed w) started) started')
      e''

pub stop-WellFormed :
    (v r : World) → WellFormed v.system → stop_manager v ≡ ok r → WellFormed r.system
unfolding stop_manager stop_join
stop-WellFormed v r w e = either (v.system.tasks v.manager.self).running e
  where
    left : System → Run World
    left system = ok (record v {
      system = stop_join v.manager.self system;
      manager = record v.manager { current_state = stopped };
    })

    either :
        (b : Bool)
        → (if b then (stop_signal announce v.manager.self v.system >>= left) else ok v) ≡ ok r
        → WellFormed r.system
    either false e = subst (λ (r : World). WellFormed r.system) (ok-injective e) w
    either true e =
        let (sys, signalled, e') = >>=-eq-ok (stop_signal announce v.manager.self v.system) _ e in
        let kept =
          task_stop-WellFormed announce announce-WellFormed v.manager.self v.system sys w
            signalled in
        subst (λ (r : World). WellFormed r.system) (ok-injective e')
          (placed-WellFormed v.manager.self _ sys kept (kept.queues v.manager.self))

pub mark-WellFormed :
    (task : ℕ) (v r : World)
    → WellFormed v.system
    → mark_task_as_unresponsive task v ≡ ok r
    → WellFormed r.system
unfolding mark_task_as_unresponsive
mark-WellFormed task v r w e =
    let (msg, _, e') =
      >>=-eq-ok (make_msg (some v.manager.self) (of_state (record { state = to_byte error }))) _
        e in
    let (sys, sent, e'') = >>=-eq-ok (deliver_message task msg _) _ e' in
    subst (λ (r : World). WellFormed r.system) (ok-injective e'')
      (deliver-WellFormed task msg _ sys (logged-WellFormed w) sent)

data_kept :
    (sender : ℕ) (o : Option StateAckMsg) (v : World)
    → WellFormed v.system
    → WellFormed (acknowledge_data sender o v).0.system
unfolding acknowledge_data acknowledge
data_kept sender none v w = logged-WellFormed w
data_kept sender (some ack) v w = logged-WellFormed w

entry_kept :
    (o : Option TaskState) (sender : ℕ) (msg : Msg) (v : World)
    → WellFormed v.system
    → WellFormed (acknowledge_entry o sender msg v).0.system
unfolding acknowledge_entry
entry_kept none sender msg v w = logged-WellFormed w
entry_kept (some s) sender msg v w = data_kept sender (get_data_as state_ack_msg msg) v w

sender_kept :
    (o : Option ℕ) (msg : Msg) (v : World)
    → WellFormed v.system
    → WellFormed (acknowledge_from o msg v).0.system
unfolding acknowledge_from
sender_kept none msg v w = logged-WellFormed w
sender_kept (some sender) msg v w = entry_kept (find sender v.manager.task_states) sender msg v w

pub process-WellFormed :
    (msg : Msg) (v : World) → WellFormed v.system → WellFormed (process_message msg v).0.system
unfolding process_message handle_acknowledgment
process-WellFormed msg v w =
    elim (Bool-cases (type_index msg.msg_type == type_index state_ack_msg)) [
      | inl e ↦ rw e (sender_kept msg.sending_task msg v w)
      | inr e ↦ rw e (logged-WellFormed w)
    ]
