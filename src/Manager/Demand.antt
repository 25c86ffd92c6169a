-- ===== src/Manager/Demand.antt =====
-- What a demand for a state sends, and what it answers.
use protocore.Base.{
  ℕ, ◌≡◌, ◌≢◌, ◌↔◌, refl, ap, ◌∙◌, Bool, true, Bool-cases, inl, inr, some, List, [], ◌∷◌, ◌++◌, All,
  Mem, Nodup, Run, ok, ◌>>=◌, if◌then◌else◌, ◌==◌, throws,
}
use protocore.TaskState.{TaskState, error, to_byte, task_state_to_string}
use protocore.Logger.{info}
use protocore.Logger.{error as error_level}
use protocore.Std.Text.{◌++◌ as join}
use protocore.Msg.{Msg, of_state, state_msg, make_msg}
use protocore.Msg.Laws.{message, make_msg-message}
use protocore.MessageQueue.Model.{Models}
use protocore.System.{System}
use protocore.Broker.{publish, set_list}
use protocore.Broker.Delivery.{AllReady, Published, live, publish-delivers}
use protocore.Broker.Single.{Ready, deliver_ok}
use protocore.Tasks.{safe_publish}
use protocore.Supervision.{World, set_states}
use protocore.Supervision.Entries.{Table, find, assign, find-assign}
use protocore.Manager.{
  demand_signal, demand_result, request_state_transition, announce, same_state, all_tasks_in_state,
  report, manager_logs, mark_task_as_unresponsive,
}
use protocore.Manager.Acknowledgment.{all_tasks_in_state-All}

-- The order to enter a state.
abbrev pub order : ℕ → TaskState → Msg
order self new_state = message (some self) (of_state (record { state = to_byte new_state }))

-- The system with the lines that a demand logs first.
abbrev pub demand_logged : TaskState → World → System
demand_logged new_state w =
    (manager_logs info (join "transitioning to " (task_state_to_string new_state)) (
      manager_logs info (join "demanding transition to " (task_state_to_string new_state))
        w)).system

-- A demand publishes its order.
pub demand_signal-Published :
    (new_state : TaskState) (room : ℕ → ℕ) (inbox : ℕ → List Msg) (w : World)
    → let subscribers = w.system.subscriber_lists state_msg in
      let self = w.manager.self in
      w.system.initialized ≡ true
      → w.system.alive self ≡ true
      → Nodup subscribers
      → AllReady (order self new_state) room inbox subscribers w.system
      → (after : System) × (demand_signal new_state w
          ≡ ok (record w {
            system = record after {
              subscriber_lists =
                  set_list w.system.subscriber_lists state_msg (live w.system.alive subscribers);
            };
            manager = record w.manager { current_state = new_state; target_state = new_state };
          }))
        × Published (order self new_state) room inbox subscribers (demand_logged new_state w) after
unfolding demand_signal request_state_transition announce safe_publish
demand_signal-Published new_state room inbox w started owned d r =
    let self = w.manager.self in
    let before = demand_logged new_state w in
    let (after, sent, p) =
      publish-delivers (order self new_state) room inbox before started owned d (λ t m l.
        let q = r t m l in record { queue = q.queue; room = q.room; numbers = q.numbers }) in
    (
      after,
      ap (λ (m : Run Msg). (m >>= λ msg. safe_publish self msg before) >>= finish)
            (make_msg-message (some self) (of_state (record { state = to_byte new_state })))
          ∙ ap
              (λ (b : Bool).
                (if b then publish (order self new_state) before else throws) >>= finish)
              owned
          ∙ ap (λ (s : Run System). s >>= finish) sent,
      p,
    )
  where
    finish : System → Run World
    finish system = ok (record w {
      system = system;
      manager = record w.manager { current_state = new_state; target_state = new_state };
    })

-- A demand makes the state the target and the manager's own state, and sends the order once to each
-- live subscriber of StateMsg, behind what its queue held; no recorded state changes. It asks for a
-- manager that a shared pointer owns, an initialized broker, a list without duplicates, and room
-- and numbers in the subscribers' queues.
pub demand_signal-delivers :
    (new_state : TaskState) (room : ℕ → ℕ) (inbox : ℕ → List Msg) (w : World)
    → let subscribers = w.system.subscriber_lists state_msg in
      let self = w.manager.self in
      w.system.initialized ≡ true
      → w.system.alive self ≡ true
      → Nodup subscribers
      → AllReady (order self new_state) room inbox subscribers w.system
      → (after : System) × (demand_signal new_state w
          ≡ ok (record w {
            system = record after {
              subscriber_lists =
                  set_list w.system.subscriber_lists state_msg (live w.system.alive subscribers);
            };
            manager = record w.manager { current_state = new_state; target_state = new_state };
          }))
        × ((t : ℕ)
            → Mem t subscribers
            → w.system.alive t ≡ true
            → Models (room t) (after.tasks t).message_queue (inbox t ++ order self new_state ∷ []))
        × ((t : ℕ) → ¬ Mem t subscribers → after.tasks t ≡ w.system.tasks t)
demand_signal-delivers new_state room inbox w started owned d r =
    let (after, sent, p) = demand_signal-Published new_state room inbox w started owned d r in
    (after, sent, p.received, λ t n. p.untouched t (inl n))

report-manager :
    (new_state : TaskState) (states : Table TaskState) (w : World)
    → (report new_state states w).manager ≡ w.manager
unfolding report
report-manager new_state [] w = refl
report-manager new_state ((task, s) ∷ rest) w = elim (Bool-cases (same_state s new_state)) [
  | inl e ↦ rw (e, report) (report-manager new_state rest w)
  | inr e ↦ rw (e, report) (report-manager new_state rest _)
]

-- A demand answers, when its wait ends, whether every registered task is then recorded in the state,
-- and changes no recorded state.
pub demand_result-All :
    (new_state : TaskState) (w : World)
    → let (success, after) = demand_result new_state w in
      ((success ≡ true)
        ↔ All (λ (entry : ℕ × TaskState). entry.1 ≡ new_state) w.manager.task_states)
      × (after.manager ≡ w.manager)
unfolding demand_result
demand_result-All new_state w =
    elim (Bool-cases (all_tasks_in_state new_state w.manager.task_states)) [
      | inl e ↦
          rw e
            ((λ _. (all_tasks_in_state-All new_state w.manager.task_states).0 e, λ _. refl), refl)
      | inr e ↦ rw e (
        (λ h. cc, λ h. let p = (all_tasks_in_state-All new_state w.manager.task_states).1 h in cc),
        report-manager new_state w.manager.task_states _,
      )
    ]

pub mark_result :
    (task n : ℕ) (ms : List Msg) (w : World)
    → w.system.alive w.manager.self ≡ true
    → Ready w.system task n ms
    → (after : System) × (mark_task_as_unresponsive task w
        ≡ ok (record w {
          system = after;
          manager = set_states w.manager (assign task error w.manager.task_states);
        }))
      × (after.alive ≡ w.system.alive)
      × Models n (after.tasks task).message_queue (ms ++ order w.manager.self error ∷ [])
      × ((t : ℕ) → t ≢ task → after.tasks t ≡ w.system.tasks t)
unfolding mark_task_as_unresponsive make_msg
mark_result task n ms w owned r =
    let self = w.manager.self in
    let before =
      (manager_logs error_level
        (join "Task " (
          join (w.system.tasks task).name
            (join " marked as unresponsive, setting to " (task_state_to_string error))))
        w).system in
    let (after, delivered, same, queued, others) =
      deliver_ok (order self error) before task n ms owned
        (record { queue = r.queue; room = r.room; numbers = r.numbers }) in
    (
      after,
      ap
          (λ (s : Run System). s >>= λ system. ok (record w {
            system = system;
            manager = set_states w.manager (assign task error w.manager.task_states);
          }))
          delivered,
      same.owners,
      queued,
      others,
    )

-- A task with room and numbers in its queue that is marked gets the order to enter the error state,
-- behind what its queue held, and is recorded in the error state; no other task's record or queue
-- changes. It asks for a manager that a shared pointer owns.
pub mark_task_as_unresponsive-records :
    (task n : ℕ) (ms : List Msg) (w : World)
    → w.system.alive w.manager.self ≡ true
    → Ready w.system task n ms
    → (after : World) × (mark_task_as_unresponsive task w ≡ ok after)
      × Models n (after.system.tasks task).message_queue (ms ++ order w.manager.self error ∷ [])
      × ((t : ℕ) → t ≢ task → after.system.tasks t ≡ w.system.tasks t)
      × ((t : ℕ)
          → find t after.manager.task_states
            ≡ (if t == task then some error else find t w.manager.task_states))
mark_task_as_unresponsive-records task n ms w owned r =
    let (after, made, _, queued, others) = mark_result task n ms w owned r in
    (
      record w {
        system = after;
        manager = set_states w.manager (assign task error w.manager.task_states);
      },
      made,
      queued,
      others,
      λ t. find-assign task t error w.manager.task_states,
    )
