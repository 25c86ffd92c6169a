-- ===== src/Heartbeats/Timeouts.antt =====
-- Which tasks `check_for_timeouts` marks, and what it leaves.
use mathlib.Core.List.{mem-cons_self, mem-cons_of_mem, not-mem-nil, Nodup-cons}
use protocore.Base.{
  ℕ, ◌≡◌, refl, sym, ap, ◌∙◌, Bool, true, Bool-cases, inl, inr, List, [], ◌∷◌, map, Nodup, ok,
  ◌>>=◌,
}
use protocore.TaskState.{error}
use protocore.Msg.{Msg}
use protocore.Broker.Single.{Ready-same}
use protocore.Supervision.{HeartBeat, TaskStatus, World, set_states, set_monitored}
use protocore.Supervision.Entries.{Table, assign, find-assign}
use protocore.Heartbeats.{check_for_timeouts, check_entries, answered, with_entries}
use protocore.Heartbeats.Marking.{
  unanswered, is_overdue-unanswered, overdue, settled, Marked, LateReady, Marked-cons, marks,
}

module _ (room : ℕ → ℕ) (inbox : ℕ → List Msg) where
  checks :
      (now : ℕ) (entries : Table TaskStatus) (w : World)
      → w.system.alive w.manager.self ≡ true
      → w.heart_beat.state_manager ≡ true
      → let late = overdue now w.heart_beat.response_timeout_ms entries in
        Nodup late
        → LateReady room inbox late w
        → (after : World) × (check_entries now entries w
            ≡ ok (map (settled now w.heart_beat.response_timeout_ms) entries, after))
          × Marked room inbox late w after
  unfolding check_entries
  checks now [] w owned set d r = (
    w,
    refl,
    record {
      owners = refl;
      same_self = refl;
      same_beat = refl;
      marked = λ t m. absurd (not-mem-nil m);
      others = λ t n. (refl, refl);
    },
  )
  checks now ((task, status) ∷ rest) w owned set d r =
      let timeout = w.heart_beat.response_timeout_ms in
      let tests = is_overdue-unanswered now timeout status in
      elim (Bool-cases (unanswered now timeout status)) [
        | inl e ↦
            let late = overdue now w.heart_beat.response_timeout_ms rest in
            let (fresh, distinct) = Nodup-cons.0 (rw e at d) in
            let ready : LateReady room inbox (task ∷ late) w = rw e at r in
            let (sys, made, owners, queued, apart) =
              marks room inbox task status w owned set (ready task mem-cons_self) in
            let mid = record w {
              system = sys;
              manager = set_states w.manager (assign task error w.manager.task_states);
            } in
            let (after, checked, m) =
              checks now rest mid (ap (λ (f : ℕ → Bool). f w.manager.self) owners ∙ owned) set
                distinct
                λ t i.
                  Ready-same (sym (apart t (λ q. fresh (rw (← q) i))))
                    (ready t (mem-cons_of_mem task i)) in
            (
              after,
              rw (e, check_entries, tests, e, made)
                  (ap (λ c. c >>= λ (later, done). ok ((task, answered status) ∷ later, done))
                    checked),
              rw e (
                  Marked-cons room inbox task late w mid after fresh owners refl refl
                    (λ t. find-assign task t error w.manager.task_states) queued apart m),
            )
        | inr e ↦
            let (after, checked, m) = checks now rest w owned set (rw e at d) (rw e at r) in
            (
              after,
              rw (e, check_entries, tests, e)
                  (ap (λ c. c >>= λ (later, done). ok ((task, status) ∷ later, done)) checked),
              rw e m,
            )
      ]

-- Checking for timeouts marks at the manager exactly the tasks that have not answered a heartbeat sent
-- more than the timeout ago: each gets the order to enter the error state, behind what its queue
-- held, and is recorded in it; their entries wait no longer and keep the number and the times that
-- they had, and every other task, record and entry stays. It asks for a manager that is set
-- and owned, distinct overdue tasks, and room and numbers in their queues.
pub check_for_timeouts-Marked :
    (room : ℕ → ℕ) (inbox : ℕ → List Msg) (w : World)
    → w.system.alive w.manager.self ≡ true
    → w.heart_beat.state_manager ≡ true
    → let timeout = w.heart_beat.response_timeout_ms in
      let entries = w.heart_beat.monitored_tasks in
      let late = overdue w.system.at.steady_ms timeout entries in
      Nodup late
      → LateReady room inbox late w
      → (after : World) × (check_for_timeouts w
          ≡ ok (record after {
            heart_beat =
                set_monitored w.heart_beat (map (settled w.system.at.steady_ms timeout) entries);
          }))
        × Marked room inbox late w after
unfolding check_for_timeouts
check_for_timeouts-Marked room inbox w owned set d r =
    let now = w.system.at.steady_ms in
    let (after, checked, m) = checks room inbox now w.heart_beat.monitored_tasks w owned set d r in
    let entries = map (settled now w.heart_beat.response_timeout_ms) w.heart_beat.monitored_tasks in
    (
      after,
      ap (λ c. c >>= λ r. ok (with_entries r)) checked
          ∙ ap (λ (h : HeartBeat). ok (record after { heart_beat = set_monitored h entries }))
              m.same_beat,
      m,
    )
