-- ===== src/Heartbeats/Marking.antt =====
-- Marking the overdue tasks, one after the other.
use mathlib.Core.List.{mem-cons, mem-cons_self, mem-cons_of_mem}
use mathlib.Core.Logic.Or
use protocore.Base.{
  ℕ, ◌+◌, ◌≡◌, ◌≢◌, ltb, ◌&&◌, sym, ap, subst, ◌∙◌, Bool, true, false, Bool-cases, inl, inr, some,
  List, [], ◌∷◌, ◌++◌, Mem, ok, if◌then◌else◌, ◌==◌, ==_refl, ==→eq, arith,
}
use protocore.TaskState.{error}
use protocore.Msg.{Msg}
use protocore.MessageQueue.Model.{Models}
use protocore.System.{Task, System}
use protocore.Broker.Single.{Ready}
use protocore.Supervision.{TaskStatus, World, set_states}
use protocore.Supervision.Entries.{Table, find, assign}
use protocore.Manager.{mark_task_as_unresponsive}
use protocore.Manager.Demand.{order, mark_result}
use protocore.Heartbeats.{handle_unresponsive_task, is_overdue, warned}

-- A heartbeat that was sent more than `timeout` before `now` and waits for its answer.
abbrev pub unanswered : ℕ → ℕ → TaskStatus → Bool
unanswered now timeout status =
    status.awaiting_response && ltb (status.last_heartbeat_time + timeout) now

pub is_overdue-unanswered :
    (now timeout : ℕ) (status : TaskStatus)
    → is_overdue now timeout status ≡ unanswered now timeout status
is_overdue-unanswered now timeout status = ground arith

-- The tasks with such a heartbeat, and the entries, of which theirs wait no longer.
abbrev pub overdue : ℕ → ℕ → Table TaskStatus → List ℕ
overdue now timeout [] = []
overdue now timeout ((task, status) ∷ rest) =
    let later = overdue now timeout rest in
    if unanswered now timeout status then task ∷ later else later

abbrev pub settled : ℕ → ℕ → ℕ × TaskStatus → ℕ × TaskStatus
settled now timeout (task, status) = (
  task,
  if unanswered now timeout status
      then (record {
        awaiting_response = false;
        last_heartbeat_id = status.last_heartbeat_id;
        last_heartbeat_time = status.last_heartbeat_time;
        last_response_time = status.last_response_time;
      })
      else status,
)

-- The tasks of `late` were marked, each once, and nothing else changed in tasks and records.
pub record Marked (room : ℕ → ℕ) (inbox : ℕ → List Msg) (late : List ℕ) (before after : World)
    : Type 0 where
  pub owners : after.system.alive ≡ before.system.alive
  pub same_self : after.manager.self ≡ before.manager.self
  pub same_beat : after.heart_beat ≡ before.heart_beat
  pub marked :
      (t : ℕ)
      → Mem t late
      → (find t after.manager.task_states ≡ some error)
        × Models
            (room t)
            (after.system.tasks t).message_queue
            (inbox t ++ order before.manager.self error ∷ [])
  pub others :
      (t : ℕ)
      → ¬ Mem t late
      → (find t after.manager.task_states ≡ find t before.manager.task_states)
        × (after.system.tasks t ≡ before.system.tasks t)

module _ (room : ℕ → ℕ) (inbox : ℕ → List Msg) where
  abbrev pub LateReady : List ℕ → World → Type 0
  LateReady late w = (t : ℕ) → Mem t late → Ready w.system t (room t) (inbox t)

  pub Marked-cons :
      (x : ℕ) (late : List ℕ) (before mid after : World)
      → ¬ Mem x late
      → mid.system.alive ≡ before.system.alive
      → mid.manager.self ≡ before.manager.self
      → mid.heart_beat ≡ before.heart_beat
      → ((t : ℕ)
          → find t mid.manager.task_states
            ≡ (if t == x then some error else find t before.manager.task_states))
      → Models
          (room x)
          (mid.system.tasks x).message_queue
          (inbox x ++ order before.manager.self error ∷ [])
      → ((t : ℕ) → t ≢ x → mid.system.tasks t ≡ before.system.tasks t)
      → Marked room inbox late mid after
      → Marked room inbox (x ∷ late) before after
  Marked-cons x late before mid after fresh owners same_self same_beat recorded queued apart m =
      record {
        owners = m.owners ∙ owners;
        same_self = m.same_self ∙ same_self;
        same_beat = m.same_beat ∙ same_beat;
        marked = λ t i. elim (Bool-cases (t == x)) [
          | inl e ↦
              let to_x = ==→eq t x e in
              subst
                (λ t.
                  (find t after.manager.task_states ≡ some error)
                  × Models (room t) (after.system.tasks t).message_queue
                      (inbox t ++ order before.manager.self error ∷ []))
                (sym to_x)
                (
                  (m.others x fresh).0 ∙ recorded x ∙ here,
                  subst
                      (λ (task : Task).
                        Models (room x) task.message_queue
                          (inbox x ++ order before.manager.self error ∷ []))
                      (sym (m.others x fresh).1) queued,
                )
          | inr e ↦
              let (found, got) = m.marked t (later t i e) in
              (
                found,
                subst
                    (λ self.
                      Models (room t) (after.system.tasks t).message_queue
                        (inbox t ++ order self error ∷ []))
                    same_self got,
              )
        ];
        others = λ t n.
            let (found, kept) = m.others t (λ i. n (mem-cons_of_mem x i)) in
            let elsewhere : t ≢ x = λ e. n (rw e mem-cons_self) in
            (found ∙ recorded t ∙ other t elsewhere, kept ∙ apart t elsewhere);
      }
    where
      later : (t : ℕ) → Mem t (x ∷ late) → (t == x) ≡ false → Mem t late
      later t i e = Or.elim squash₁ (mem-cons.0 i) (λ p. absurd (ground arith)) (λ i'. i')

      here : (if x == x then some error else find x before.manager.task_states) ≡ some error
      here = rw (==_refl x)

      other :
          (t : ℕ)
          → t ≢ x
          → (if t == x then some error else find t before.manager.task_states)
            ≡ find t before.manager.task_states
      other t n = ground arith

  pub marks :
      (task : ℕ) (status : TaskStatus) (w : World)
      → w.system.alive w.manager.self ≡ true
      → w.heart_beat.state_manager ≡ true
      → Ready w.system task (room task) (inbox task)
      → (after : System) × (handle_unresponsive_task task (warned task status w)
          ≡ ok (record w {
            system = after;
            manager = set_states w.manager (assign task error w.manager.task_states);
          }))
        × (after.alive ≡ w.system.alive)
        × Models
            (room task)
            (after.tasks task).message_queue
            (inbox task ++ order w.manager.self error ∷ [])
        × ((t : ℕ) → t ≢ task → after.tasks t ≡ w.system.tasks t)
  unfolding handle_unresponsive_task
  marks task status w owned set r =
      let call = mark_task_as_unresponsive task (warned task status w) in
      let (after, made, owners, queued, apart) =
        mark_result task (room task) (inbox task) (warned task status w) owned
          (record { queue = r.queue; room = r.room; numbers = r.numbers }) in
      (
        after,
        ap (λ (b : Bool). if b then call else ok (warned task status w)) set ∙ made,
        owners,
        queued,
        apart,
      )
