-- ===== src/Manager/Acknowledgment.antt =====
-- What a state acknowledgment records, and when it wakes the caller that waits.
use protocore.Base.{
  ℕ, ◌≡◌, ◌↔◌, ◌⊎◌, refl, sym, ap, subst, ◌∙◌, Bool, true, false, Bool-cases, inl, inr, Option,
  none, some, [], ◌∷◌, All, arith, ◌==◌, if◌then◌else◌, ==→eq,
}
use protocore.TaskState.{TaskState, value, to_state, to_state-value}
use protocore.Msg.{Msg, StateAckMsg, state_ack_msg, get_data_as}
use protocore.Supervision.{World}
use protocore.Supervision.Entries.{Table, find, assign, find-assign}
use protocore.Manager.{
  handle_acknowledgment, acknowledge_from, acknowledge_data, acknowledge_entry, acknowledge,
  all_tasks_in_state, same_state,
}

same_state-eq : (s t : TaskState) → (same_state s t ≡ true) ↔ (s ≡ t)
same_state-eq s t = (
  λ h. sym (to_state-value s) ∙ ap to_state (==→eq (value s) (value t) h) ∙ to_state-value t,
  λ e. rw e (ground arith),
)

-- `all_tasks_in_state` answers whether every entry has the state.
pub all_tasks_in_state-All :
    (state : TaskState) (states : Table TaskState)
    → (all_tasks_in_state state states ≡ true)
      ↔ All (λ (entry : ℕ × TaskState). entry.1 ≡ state) states
unfolding all_tasks_in_state
all_tasks_in_state-All state [] = (λ _. tt, λ _. refl)
all_tasks_in_state-All state ((task, s) ∷ rest) = elim (Bool-cases (same_state s state)) [
  | inl e ↦ rw e (
    λ h. ((same_state-eq s state).0 e, (all_tasks_in_state-All state rest).0 h),
    λ (_, h). (all_tasks_in_state-All state rest).1 h,
  )
  | inr e ↦ rw e (λ h. cc, λ (p, _). let r = (same_state-eq s state).1 p in cc)
]

registered_ack :
    (msg : Msg) (ack : StateAckMsg) (sender : ℕ) (recorded : TaskState) (w : World)
    → msg.sending_task ≡ some sender
    → find sender w.manager.task_states ≡ some recorded
    → get_data_as state_ack_msg msg ≡ some ack
    → acknowledge sender ack w ≡ handle_acknowledgment msg w
unfolding handle_acknowledgment acknowledge_from acknowledge_entry acknowledge_data
registered_ack msg ack sender recorded w from registered holds = sym (
    ap (λ o. acknowledge_from o msg w) from
    ∙ ap (λ o. acknowledge_entry o sender msg w) registered
    ∙ ap (λ o. acknowledge_data sender o w) holds)

-- An acknowledgment of a registered task records its state for this task alone, and wakes the caller
-- that waits exactly when every task is then recorded in the target state.
pub handle_acknowledgment-records :
    (msg : Msg) (ack : StateAckMsg) (sender : ℕ) (recorded : TaskState) (w : World)
    → msg.sending_task ≡ some sender
    → find sender w.manager.task_states ≡ some recorded
    → get_data_as state_ack_msg msg ≡ some ack
    → let (after, wakes) = handle_acknowledgment msg w in
      ((task : ℕ)
        → find task after.manager.task_states
          ≡ (if task == sender then some (to_state ack.state) else find task w.manager.task_states))
      × ((wakes ≡ true)
          ↔ All
              (λ (entry : ℕ × TaskState). entry.1 ≡ w.manager.target_state)
              after.manager.task_states)
      × (after.manager.target_state ≡ w.manager.target_state)
unfolding acknowledge
handle_acknowledgment-records msg ack sender recorded w from registered holds =
    subst
      (λ (r : World × Bool).
        ((task : ℕ)
          → find task r.0.manager.task_states ≡ (
              if task == sender
              then some (to_state ack.state)
              else find task w.manager.task_states))
        × ((r.1 ≡ true)
            ↔ All (λ (entry : ℕ × TaskState). entry.1 ≡ w.manager.target_state)
                r.0.manager.task_states)
        × (r.0.manager.target_state ≡ w.manager.target_state))
      (registered_ack msg ack sender recorded w from registered holds)
      (
        λ task. find-assign sender task (to_state ack.state) w.manager.task_states,
        all_tasks_in_state-All w.manager.target_state _,
        refl,
      )

-- Beside the records it changes nothing but the log.
pub handle_acknowledgment-tasks :
    (msg : Msg) (ack : StateAckMsg) (sender : ℕ) (recorded : TaskState) (w : World)
    → msg.sending_task ≡ some sender
    → find sender w.manager.task_states ≡ some recorded
    → get_data_as state_ack_msg msg ≡ some ack
    → (handle_acknowledgment msg w).0.system.tasks ≡ w.system.tasks
unfolding acknowledge
handle_acknowledgment-tasks msg ack sender recorded w from registered holds =
    subst (λ (r : World × Bool). r.0.system.tasks ≡ w.system.tasks)
      (registered_ack msg ack sender recorded w from registered holds) refl

pub handle_acknowledgment-assign :
    (msg : Msg) (ack : StateAckMsg) (sender : ℕ) (recorded : TaskState) (w : World)
    → msg.sending_task ≡ some sender
    → find sender w.manager.task_states ≡ some recorded
    → get_data_as state_ack_msg msg ≡ some ack
    → (handle_acknowledgment msg w).0.manager.task_states
      ≡ assign sender (to_state ack.state) w.manager.task_states
unfolding acknowledge
handle_acknowledgment-assign msg ack sender recorded w from registered holds =
    subst
      (λ (r : World × Bool).
        r.0.manager.task_states ≡ assign sender (to_state ack.state) w.manager.task_states)
      (registered_ack msg ack sender recorded w from registered holds) refl

Ignored : World → World × Bool → Type 0
Ignored w r = (r.0.manager ≡ w.manager) × (r.1 ≡ false)

-- An acknowledgment without a sender, or from a task that is not registered, or without an
-- acknowledgment's data, records nothing and wakes nobody.
pub handle_acknowledgment-unknown :
    (msg : Msg) (w : World)
    → ((sender : ℕ) → msg.sending_task ≡ some sender → find sender w.manager.task_states ≡ none)
      ⊎ (get_data_as state_ack_msg msg ≡ none)
    → let (after, wakes) = handle_acknowledgment msg w in
      (after.manager ≡ w.manager) × (wakes ≡ false)
unfolding handle_acknowledgment Ignored
handle_acknowledgment-unknown msg w h = by_sender msg.sending_task refl
  where
    by_data :
        (sender : ℕ) (o : Option StateAckMsg) → o ≡ none → Ignored w (acknowledge_data sender o w)
    by_data sender none e = (refl, refl)
    by_data sender (some ack) e = cc

    clash : (s : TaskState) → some s ≡ none → ⊥
    clash s e = cc

    by_entry :
        (sender : ℕ) (o : Option TaskState)
        → msg.sending_task ≡ some sender
        → find sender w.manager.task_states ≡ o
        → Ignored w (acknowledge_entry o sender msg w)
    by_entry sender none from e = (refl, refl)
    by_entry sender (some s) from e = elim h [
      | inl unknown ↦ absurd (clash s (sym e ∙ unknown sender from))
      | inr nothing ↦ by_data sender (get_data_as state_ack_msg msg) nothing
    ]

    by_sender : (o : Option ℕ) → msg.sending_task ≡ o → Ignored w (acknowledge_from o msg w)
    by_sender none e = (refl, refl)
    by_sender (some sender) e = by_entry sender (find sender w.manager.task_states) e refl
