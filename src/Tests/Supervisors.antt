-- ===== src/Tests/Supervisors.antt =====
-- A manager of two tasks and the heart beat that monitors them.
use mathlib.Core.List.{
  not-mem-nil, Nodup, Nodup-cons, Nodup-nil, Mem, map, mem-cons_self, mem-cons_of_mem,
}
use protocore.Base.{
  ℕ, ◌≡◌, ◌≢◌, ◌↔◌, ◌&&◌, not, refl, inr, true, false, some, [], ◌∷◌, All, arith, ok, ◌==◌,
  if◌then◌else◌, Bool-cases, inl, ==→eq,
}
use protocore.MemoryPool.{construct}
use protocore.TaskState.{TaskState, not_started, idle, stopped, error, to_state}
use protocore.Msg.{Msg, of_state_ack, state_msg, get_data_as}
use protocore.Msg.Laws.{message}
use protocore.MessageQueue.{make_queue}
use protocore.MessageQueue.Model.{Models}
use protocore.System.{System}
use protocore.Broker.{set_list}
use protocore.Broker.Single.{Ready}
use protocore.Tasks.Transition.{heartbeat_ack}
use protocore.Supervision.{TaskStatus, World, set_monitored, register_task}
use protocore.Supervision.Entries.{find}
use protocore.Supervision.Registration.{register_task-monitors, registered, is_none}
use protocore.Manager.{
  handle_acknowledgment, demand_signal, demand_result, mark_task_as_unresponsive,
}
use protocore.Manager.Agreement.{acknowledge_all, demand_result-acknowledge_all}
use protocore.Manager.Acknowledgment.{handle_acknowledgment-records}
use protocore.Manager.Demand.{
  order, demand_signal-delivers, demand_result-All, mark_task_as_unresponsive-records,
}
use protocore.Heartbeats.{check_for_timeouts, send_heartbeat}
use protocore.Heartbeats.{handle_acknowledgment as handle_answer}
use protocore.Heartbeats.Timeouts.{check_for_timeouts-Marked}
use protocore.Heartbeats.Marking.{Marked, settled}
use protocore.Heartbeats.Sending.{send_heartbeat-Sent}
use protocore.Heartbeats.Numbering.{Sent, noted}
use protocore.Heartbeats.Answers.{cleared, handle_acknowledgment-clears}
use protocore.Tests.Queues.{queue0-Models}
use protocore.Tests.Systems.{system, distinct, all_ready}

-- Task 1 has not answered its heartbeat 7 for 1400 ms, task 2 waits for none; the manager is task 0.
abbrev late : TaskStatus
late = record {
  awaiting_response = true;
  last_heartbeat_id = 7;
  last_heartbeat_time = 100;
  last_response_time = 50;
}

abbrev pub rested : TaskStatus
rested = record {
  awaiting_response = false;
  last_heartbeat_id = 6;
  last_heartbeat_time = 100;
  last_response_time = 110;
}

abbrev pub world : World
world = record {
  system = system;
  manager = record {
    self = 0;
    task_states = (1, idle) ∷ (2, not_started) ∷ [];
    current_state = idle;
    target_state = idle;
    task_registration_observer = some 2;
  };
  heart_beat = record {
    self = 2;
    monitored_tasks = (1, late) ∷ (2, rested) ∷ [];
    state_manager = true;
    response_timeout_ms = 1000;
    next_heartbeat_id = 8;
    unresponsive_action = error;
  };
}

abbrev answer : Msg
answer = message (some 2) (of_state_ack (record { state = 1 }))

handle_acknowledgment-records_example :
    let (after, wakes) = handle_acknowledgment answer world in
    ((task : ℕ)
      → find task after.manager.task_states
        ≡ (if task == 2 then some (to_state 1) else find task world.manager.task_states))
    × ((wakes ≡ true) ↔ All (λ (entry : ℕ × TaskState). entry.1 ≡ idle) after.manager.task_states)
    × (after.manager.target_state ≡ idle)
unfolding get_data_as find
handle_acknowledgment-records_example =
    handle_acknowledgment-records answer (record { state = 1 }) 2 not_started world refl refl refl

demand_signal-delivers_example :
    (after : System) × (demand_signal stopped world
      ≡ ok (record world {
        system = record after {
          subscriber_lists = set_list world.system.subscriber_lists state_msg (2 ∷ []);
        };
        manager = record world.manager { current_state = stopped; target_state = stopped };
      }))
    × ((t : ℕ)
        → Mem t (2 ∷ 3 ∷ [])
        → world.system.alive t ≡ true
        → Models 2 (after.tasks t).message_queue (order 0 stopped ∷ []))
    × ((t : ℕ) → ¬ Mem t (2 ∷ 3 ∷ []) → after.tasks t ≡ world.system.tasks t)
demand_signal-delivers_example =
    demand_signal-delivers stopped (λ _. 2) (λ _. []) world refl refl distinct
      (all_ready (order 0 stopped))

demand_result-All_example :
    let (success, after) = demand_result idle world in
    ((success ≡ true) ↔ All (λ (entry : ℕ × TaskState). entry.1 ≡ idle) world.manager.task_states)
    × (after.manager ≡ world.manager)
demand_result-All_example = demand_result-All idle world

pub ready : (t : ℕ) → Ready world.system t 2 []
unfolding make_queue construct
ready t = record { queue = queue0-Models; room = omega arith; numbers = omega arith }

mark_task_as_unresponsive-records_example :
    (after : World) × (mark_task_as_unresponsive 1 world ≡ ok after)
    × Models 2 (after.system.tasks 1).message_queue (order 0 error ∷ [])
    × ((t : ℕ) → t ≢ 1 → after.system.tasks t ≡ world.system.tasks t)
    × ((t : ℕ)
        → find t after.manager.task_states
          ≡ (if t == 1 then some error else find t world.manager.task_states))
mark_task_as_unresponsive-records_example =
    mark_task_as_unresponsive-records 1 2 [] world refl (ready 1)

pub one : (t : ℕ) → Nodup {A = ℕ} (t ∷ [])
one t = Nodup-cons.1 (not-mem-nil, Nodup-nil)

check_for_timeouts-Marked_example :
    (after : World) × (check_for_timeouts world
      ≡ ok (record after {
        heart_beat =
            set_monitored world.heart_beat
              (map (settled 1500 1000) world.heart_beat.monitored_tasks);
      }))
    × Marked (λ _. 2) (λ _. []) (1 ∷ []) world after
check_for_timeouts-Marked_example =
    check_for_timeouts-Marked (λ _. 2) (λ _. []) world refl refl (one 1) (λ t _. ready t)

send_heartbeat-Sent_example :
    (after : World) × (send_heartbeat world
      ≡ ok (record after {
        heart_beat = set_monitored after.heart_beat (noted 1500 8 world.heart_beat.monitored_tasks);
      }))
    × Sent (λ _. 2) (λ _. []) 1500 8 (2 ∷ []) world after
    × All
        (λ (entry : ℕ × TaskStatus). entry.1.awaiting_response ≡ true)
        (noted 1500 8 world.heart_beat.monitored_tasks)
send_heartbeat-Sent_example =
    send_heartbeat-Sent (λ _. 2) (λ _. []) world refl (one 2) (λ t _. ready t)

handle_acknowledgment-clears_example :
    (after : World) × (handle_answer
        (heartbeat_ack 1 (record { unique_id = 7; timestamp = 100 }) system)
        world
      ≡ ok after)
    × (after.manager ≡ world.manager)
    × (after.system.tasks ≡ world.system.tasks)
    × ((t : ℕ)
        → find t after.heart_beat.monitored_tasks ≡ (
            if (7 == 7) && (t == 1)
            then some (cleared 1500 late)
            else find t world.heart_beat.monitored_tasks))
unfolding find
handle_acknowledgment-clears_example =
    handle_acknowledgment-clears 1 (record { unique_id = 7; timestamp = 100 }) system late world
      refl

register_task-monitors_example :
    let after = register_task 3 world in
    let monitored = world.heart_beat.monitored_tasks in
    ((t : ℕ)
      → find t after.manager.task_states
        ≡ (if t == 3 then some not_started else find t world.manager.task_states))
    × ((t : ℕ)
        → find t after.heart_beat.monitored_tasks ≡ (
            if (not (3 == 2) && is_none (find 3 monitored)) && (t == 3)
            then some (registered 1500)
            else find t monitored))
register_task-monitors_example = register_task-monitors 3 world refl

in_list :
    (task : ℕ) (recorded : TaskState)
    → find task world.manager.task_states ≡ some recorded
    → Mem {A = ℕ} task (1 ∷ 2 ∷ 1 ∷ [])
unfolding find
in_list task recorded f = elim (Bool-cases (task == 1)) [
  | inl e ↦ rw (==→eq task 1 e) mem-cons_self
  | inr e ↦ elim (Bool-cases (task == 2)) [
    | inl g ↦ rw (==→eq task 2 g) (mem-cons_of_mem 1 mem-cons_self)
    | inr g ↦ absurd (ground arith)
  ]
]

-- Both tasks acknowledge, the first one twice.
demand_result-acknowledge_all_example :
    (demand_result stopped (acknowledge_all (1 ∷ 2 ∷ 1 ∷ []) stopped world)).0 ≡ true
demand_result-acknowledge_all_example =
    demand_result-acknowledge_all (1 ∷ 2 ∷ 1 ∷ []) stopped world (omega arith)
      ((omega arith, tt), (tt, tt)) in_list
