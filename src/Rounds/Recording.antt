-- ===== src/Rounds/Recording.antt =====
-- The manager's round at the acknowledgment of a registered task.
use protocore.Base.{
  ℕ, ◌≡◌, ◌<◌, refl, sym, ap, subst, ◌∙◌, true, false, some, ==_refl, List, [], ◌∷◌, ◌++◌, All, ok,
  ◌==◌, if◌then◌else◌, arith,
}
use protocore.TaskState.{TaskState, value, to_byte_round_trip}
use protocore.Msg.{Msg, get_data_as, less}
use protocore.MessageQueue.{MessageQueue}
use protocore.MessageQueue.Model.{Models}
use protocore.System.{Task}
use protocore.Tasks.{went, set_queue}
use protocore.Tasks.Transition.{state_ack, round_takes}
use protocore.Supervision.{World, system_of_world}
use protocore.Supervision.Entries.{find, assign}
use protocore.Manager.{process_message}
use protocore.Manager.Acknowledgment.{
  handle_acknowledgment-records, handle_acknowledgment-tasks, handle_acknowledgment-assign,
}
use protocore.Rounds.{manager_round}

module _ (task n : ℕ) (new_state recorded : TaskState) (ms : List Msg) (w : World)
    (small : value new_state < 256)
    (registered : find task w.manager.task_states ≡ some recorded) where
  -- What the round leaves: one more record, the target and the tasks but for the manager's queue.
  pub record Recorded (after : World) : Type 0 where
    pub records :
        (t : ℕ)
        → find t after.manager.task_states
          ≡ (if t == task then some new_state else find t w.manager.task_states)
    pub states : after.manager.task_states ≡ assign task new_state w.manager.task_states
    pub target : after.manager.target_state ≡ w.manager.target_state
    pub left : Models n (after.system.tasks w.manager.self).message_queue ms
    pub others : (t : ℕ) → (w.manager.self == t) ≡ false → after.system.tasks t ≡ w.system.tasks t

  abbrev round_end : MessageQueue → World
  round_end q = (process_message (state_ack task new_state) (set_queue w w.manager.self q)).0

  records_ack : (q : MessageQueue) → Models n q ms → Recorded (round_end q)
  unfolding process_message get_data_as
  records_ack q left =
      let ack = state_ack task new_state in
      let taken = set_queue w w.manager.self q in
      let back = (to_byte_round_trip new_state 0 small (omega arith)).0 in
      let (records, _, target) =
        handle_acknowledgment-records ack _ task recorded taken refl registered refl in
      let tasks = handle_acknowledgment-tasks ack _ task recorded taken refl registered refl in
      record {
        records = λ t.
            records t ∙ ap (λ s. if t == task then some s else find t w.manager.task_states) back;
        states =
            handle_acknowledgment-assign ack _ task recorded taken refl registered refl
            ∙ ap (λ s. assign task s w.manager.task_states) back;
        target = target;
        left =
            subst (λ (t : Task). Models n t.message_queue ms)
              (sym (ap (λ (f : ℕ → Task). f w.manager.self) tasks))
              (rw (==_refl w.manager.self) left);
        others = λ t e. ap (λ (f : ℕ → Task). f t) tasks ∙ rw e refl;
      }

  pub manager_records :
      (w.system.tasks w.manager.self).running ≡ true
      → Models n (w.system.tasks w.manager.self).message_queue (ms ++ state_ack task new_state ∷ [])
      → All (λ m. less m (state_ack task new_state) ≡ true) ms
      → (after : World) × (manager_round w ≡ ok (went after)) × Recorded after
  manager_records runs queued lower =
      let (q, left, round) =
        round_takes (λ msg w. ok (process_message msg w).0) w.manager.self n w
          (state_ack task new_state) ms runs queued lower in
      (round_end q, round, records_ack q left)
