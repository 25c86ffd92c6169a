-- ===== src/Manager/Initializing.antt =====
-- What `initialize` does up to its wait with one registered task.
use protocore.Base.{ℕ, ◌≡◌, ap, ◌∙◌, [], ◌∷◌, Run, ok, ◌>>=◌}
use protocore.TaskState.{TaskState, idle}
use protocore.Logger.{info}
use protocore.System.{System}
use protocore.Tasks.{start}
use protocore.Supervision.{World}
use protocore.Supervision.Entries.{Table}
use protocore.Manager.{initialize_signal, start_all, demand_signal, manager_logs}

abbrev pub initialize_logged : World → World
initialize_logged w = manager_logs info "initializing tasks..." w

pub initialize_signal-start :
    (w : World) (task : ℕ) (s : TaskState) (own all : System)
    → w.manager.task_states ≡ (task, s) ∷ []
    → start w.manager.self (initialize_logged w).system ≡ ok own
    → start task own ≡ ok all
    → initialize_signal w ≡ demand_signal idle (record (initialize_logged w) { system = all })
unfolding initialize_signal start_all
initialize_signal-start w task s own all one made made' =
    ap (λ (r : Run System). r >>= λ own. start_all w.manager.task_states own >>= demand) made
    ∙ ap (λ (states : Table TaskState). start_all states own >>= demand) one
    ∙ ap (λ (r : Run System). (r >>= λ all. ok all) >>= demand) made'
  where
    demand : System → Run World
    demand all = demand_signal idle (record (initialize_logged w) { system = all })
