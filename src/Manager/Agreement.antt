-- ===== src/Manager/Agreement.antt =====
-- A demand succeeds once every registered task has sent the acknowledgment of `transition_to_state`.
use mathlib.Core.List.{mem-cons, not-mem-nil}
use mathlib.Core.Logic.Or
use mathlib.Core.HLevel.{hedberg}
use mathlib.Core.Logic.{◌∨₁◌, ∨₁_prop}
use protocore.Base.{
  ℕ, ◌<◌, ◌≡◌, ◌≢◌, refl, sym, subst, ◌∙◌, true, false, Bool-cases, inl, inr, Option, none, some,
  List, [], ◌∷◌, Mem, arith, ◌==◌,
}
use protocore.TaskState.{
  TaskState, TaskState-discrete, value, to_state, to_byte, to_byte_round_trip,
}
use protocore.Msg.{get_data_as}
use protocore.Tasks.Transition.{state_ack}
use protocore.Supervision.{World}
use protocore.Supervision.Entries.{Table, find, assign, find-assign}
use protocore.Supervision.Entries.Order.{Ordered, assign-Ordered, find-All}
use protocore.Manager.{handle_acknowledgment, acknowledge_from, acknowledge_entry, demand_result}
use protocore.Manager.Demand.{demand_result-All}

-- The manager handles the acknowledgments of these tasks, one after the other.
abbrev pub acknowledge_all : List ℕ → TaskState → World → World
acknowledge_all [] s w = w
acknowledge_all (task ∷ tasks) s w =
    acknowledge_all tasks s (handle_acknowledgment (state_ack task s) w).0

-- The records of a task in another state wait for an acknowledgment of one of `tasks`.
Pending : List ℕ → TaskState → Table TaskState → Type 0
Pending tasks s table = (k : ℕ) (v : TaskState) → find k table ≡ some v → (v ≡ s) ∨₁ Mem k tasks

handled :
    (task : ℕ) (s : TaskState) (w : World)
    → (handle_acknowledgment (state_ack task s) w).0.manager.task_states
      ≡ elim (find task w.manager.task_states) [
        | none ↦ w.manager.task_states
        | some _ ↦ assign task (to_state (to_byte s)) w.manager.task_states
      ]
unfolding handle_acknowledgment acknowledge_from get_data_as
handled task s w = entry (find task w.manager.task_states)
  where
    entry :
        (o : Option TaskState)
        → (acknowledge_entry o task (state_ack task s) w).0.manager.task_states ≡ elim o [
          | none ↦ w.manager.task_states
          | some _ ↦ assign task (to_state (to_byte s)) w.manager.task_states
        ]
    entry none = refl
    entry (some v) = refl

drop_task :
    (task k : ℕ) (v s : TaskState) (tasks : List ℕ)
    → k ≢ task
    → (v ≡ s) ∨₁ Mem k (task ∷ tasks)
    → (v ≡ s) ∨₁ Mem k tasks
drop_task task k v s tasks apart h =
    Or.elim ∨₁_prop h Or.inl (λ m. Or.elim ∨₁_prop (mem-cons.0 m) (λ e. absurd (apart e)) Or.inr)

Waiting : List ℕ → TaskState → Table TaskState → Type 0
Waiting tasks s table = Ordered table × Pending tasks s table

step :
    (task : ℕ) (tasks : List ℕ) (s : TaskState) (w : World)
    → value s < 256
    → Waiting (task ∷ tasks) s w.manager.task_states
    → Waiting tasks s (handle_acknowledgment (state_ack task s) w).0.manager.task_states
unfolding Waiting Pending
step task tasks s w h (ordered, pending) =
    subst (Waiting tasks s) (sym (handled task s w)) (entry (find task table) refl)
  where
    table : Table TaskState
    table = w.manager.task_states

    back : to_state (to_byte s) ≡ s
    back = (to_byte_round_trip s 0 h (omega arith)).0

    entry :
        (o : Option TaskState)
        → find task table ≡ o
        → Waiting tasks s
            (elim o [ none ↦ table | some _ ↦ assign task (to_state (to_byte s)) table ])
    entry none e =
        (ordered, λ k v f. drop_task task k v s tasks (λ q. clash k v f q) (pending k v f))
      where
        clash : (k : ℕ) (v : TaskState) → find k table ≡ some v → k ≡ task → ⊥
        clash k v f q = cc
    entry (some u) e = (
      assign-Ordered task (to_state (to_byte s)) table ordered,
      λ k v f. elim (Bool-cases (k == task)) [
        | inl q ↦ Or.inl (first k v q f)
        | inr q ↦ drop_task task k v s tasks (λ p. ground arith) (pending k v (others k v q f))
      ],
    )
      where
        first :
            (k : ℕ) (v : TaskState)
            → (k == task) ≡ true
            → find k (assign task (to_state (to_byte s)) table) ≡ some v
            → v ≡ s
        first k v q f =
            let g = rw (find-assign task k (to_state (to_byte s)) table, q) at f in
            let same : to_state (to_byte s) ≡ v = cc in sym same ∙ back

        others :
            (k : ℕ) (v : TaskState)
            → (k == task) ≡ false
            → find k (assign task (to_state (to_byte s)) table) ≡ some v
            → find k table ≡ some v
        others k v q f = rw (find-assign task k (to_state (to_byte s)) table, q) at f

settles :
    (tasks : List ℕ) (s : TaskState) (w : World)
    → value s < 256
    → Waiting tasks s w.manager.task_states
    → Waiting [] s (acknowledge_all tasks s w).manager.task_states
settles [] s w h p = p
settles (task ∷ tasks) s w h p =
    settles tasks s (handle_acknowledgment (state_ack task s) w).0 h (step task tasks s w h p)

-- Once the acknowledgments of `transition_to_state` of all registered tasks have been handled, in any
-- order, perhaps more than once and among those of other tasks, a demand for that state succeeds. The
-- state fits a byte, and the records stand in the order of their keys.
pub demand_result-acknowledge_all :
    (tasks : List ℕ) (new_state : TaskState) (w : World)
    → value new_state < 256
    → Ordered w.manager.task_states
    → ((task : ℕ) (recorded : TaskState)
        → find task w.manager.task_states ≡ some recorded
        → Mem task tasks)
    → (demand_result new_state (acknowledge_all tasks new_state w)).0 ≡ true
unfolding Waiting Pending
demand_result-acknowledge_all tasks new_state w h ordered registered =
    let (in_order, settled) =
      settles tasks new_state w h (ordered, λ k v f. Or.inr (registered k v f)) in
    (demand_result-All new_state (acknowledge_all tasks new_state w)).0.1 (
      find-All (λ v. v ≡ new_state) (acknowledge_all tasks new_state w).manager.task_states in_order
        (λ k v f. final v (settled k v f)))
  where
    states : IsSet TaskState
    states = hedberg TaskState-discrete

    final : {k : ℕ} (v : TaskState) → (v ≡ new_state) ∨₁ Mem k [] → v ≡ new_state
    final v o = Or.elim (states v new_state) o (λ e. e) (λ m. absurd (not-mem-nil m))
