-- ===== src/Supervision/Registration.antt =====
-- What registering a task records, at the manager and at the heart beat.
use protocore.Base.{
  ℕ, ◌≡◌, sym, ap, ◌∙◌, Bool, true, false, ◌&&◌, not, Bool-cases, Option-cases, inl, inr, Option,
  none, some, ◌==◌, if◌then◌else◌, ==_refl,
}
use protocore.TaskState.{not_started}
use protocore.Supervision.{
  HeartBeat, TaskStatus, World, register_task, notify_observer, notify_task_registered, set_states,
}
use protocore.Supervision.Entries.{find, assign, find-assign}

-- The entry of a task that was registered at the time `now`.
abbrev pub registered : ℕ → TaskStatus
registered now = record {
  awaiting_response = false;
  last_heartbeat_id = 0;
  last_heartbeat_time = 0;
  last_response_time = now;
}

abbrev pub is_none {ℓ} : {A : Type ℓ} → Option A → Bool
is_none none = true
is_none (some _) = false

notify-monitors :
    (now task : ℕ) (h : HeartBeat) (t : ℕ)
    → find t (notify_task_registered now task h).monitored_tasks ≡ (
        if not (task == h.self) && is_none (find task h.monitored_tasks) && (t == task)
        then some (registered now)
        else find t h.monitored_tasks)
unfolding notify_task_registered
notify-monitors now task h t = elim (Bool-cases (task == h.self)) [
  | inl e ↦ rw e
  | inr e ↦ elim (Option-cases (find task h.monitored_tasks)) [
    | inl unknown ↦ rw (e, unknown) (find-assign task t (registered now) h.monitored_tasks)
    | inr (status, known) ↦ rw (e, known)
  ]
]

-- Where the heart beat observes the manager, registering a task records it as not started, and no
-- other record changes; the heart beat monitors it from then on, without a heartbeat to answer,
-- unless it did already or the task is the heart beat itself, and then no entry changes.
pub register_task-monitors :
    (task : ℕ) (w : World)
    → w.manager.task_registration_observer ≡ some w.heart_beat.self
    → let after = register_task task w in
      let monitored = w.heart_beat.monitored_tasks in
      let is_new = not (task == w.heart_beat.self) && is_none (find task monitored) in
      ((t : ℕ)
        → find t after.manager.task_states
          ≡ (if t == task then some not_started else find t w.manager.task_states))
      × ((t : ℕ)
          → find t after.heart_beat.monitored_tasks ≡ (
              if is_new && (t == task)
              then some (registered w.system.at.steady_ms)
              else find t monitored))
unfolding register_task notify_observer
register_task-monitors task w observed =
    let manager = set_states w.manager (assign task not_started w.manager.task_states) in
    let start = record w { manager = manager } in
    let done = record start {
      heart_beat = notify_task_registered w.system.at.steady_ms task w.heart_beat;
    } in
    let notified : done ≡ register_task task w = sym (
      ap (λ o. notify_observer task o start) observed
      ∙ ap (λ (b : Bool). if b then done else start) (==_refl w.heart_beat.self)) in
    (
      λ t.
          ap (λ (u : World). find t u.manager.task_states) (sym notified)
          ∙ find-assign task t not_started w.manager.task_states,
      λ t.
          ap (λ (u : World). find t u.heart_beat.monitored_tasks) (sym notified)
          ∙ notify-monitors w.system.at.steady_ms task w.heart_beat t,
    )

-- The heart beat registers, and does not monitor itself.
pub register_task-observer :
    (task : ℕ) (w : World)
    → w.manager.task_registration_observer ≡ some task
    → w.heart_beat.self ≡ task
    → register_task task w
      ≡ record w { manager = set_states w.manager (assign task not_started w.manager.task_states) }
unfolding register_task notify_observer notify_task_registered
register_task-observer task w observes self =
    let manager = set_states w.manager (assign task not_started w.manager.task_states) in
    let own : (task == w.heart_beat.self) ≡ true = rw self (==_refl task) in
    ap (λ o. notify_observer task o (record w { manager = manager })) observes ∙ rw own
