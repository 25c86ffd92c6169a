-- ===== src/Creation/Running.antt =====
-- A system of a manager and a heart beat from its creation until it is idle.
use protocore.Base.{
  only_member, ℕ, ◌<◌, ◌≡◌, ◌≢◌, refl, sym, ap, subst, ◌∙◌, true, false, [], All, ok, ltb, ◌==◌,
  ==_refl, arith,
}
use mathlib.Core.List.{mem-cons_self}
use protocore.Std.Text.{String}
use protocore.MemoryPool.{sizeof_pointer}
use protocore.TaskState.{TaskState, not_started, idle}
use protocore.Logger.{Surroundings}
use protocore.System.{Task, System, set_task}
use protocore.Broker.Listener.{listener-Nodup, listener-AllReady}
use protocore.Broker.Single.{Ready}
use protocore.Tasks.{set_periodic_task_interval, went}
use protocore.Tasks.Lifecycle.{start_from}
use protocore.Supervision.{World, set_states, make_state_manager, make_heart_beat, register_task}
use protocore.Supervision.Entries.{find, assign}
use protocore.Supervision.Registration.{register_task-observer}
use protocore.Manager.{demand_signal, initialize_signal, demand_result}
use protocore.Manager.Demand.{order, demand_result-All}
use protocore.Manager.Initializing.{initialize_logged, initialize_signal-start}
use protocore.Rounds.{heart_beat_round, manager_round, at_time}
use protocore.Rounds.Obeying.{Linked}
use protocore.Rounds.Orders.{demand_signal-records}
use protocore.Creation.Startup.{Fresh, new_task, both, created, create_both}

abbrev running_task : Task → Task
running_task t = record t {
  running = true;
  queue_thread = true;
  periodic_thread = ltb 0 t.periodic_task_interval_ms;
}

module _ (m b : ℕ) (two : m ≢ b) (name : String)
    (node_size manager_data beat_data interval_ms timeout_ms : ℕ) (current target : TaskState)
    (w : World) (t u : Task) (ft : Fresh t) (fu : Fresh u) where
  abbrev made : World
  made = both m b name node_size manager_data beat_data interval_ms timeout_ms current target t u w

  abbrev registered : World
  registered = record made { manager = set_states made.manager (assign b not_started []) }

  abbrev timed : Task
  timed = record u { periodic_task_interval_ms = interval_ms }

  abbrev own_started : System
  own_started = set_task (initialize_logged registered).system m (running_task t)

  abbrev all_started : System
  all_started = set_task own_started b (running_task timed)

  abbrev at_idle : World
  at_idle = record (initialize_logged registered) { system = all_started }

  no : (b == m) ≡ false
  no = ground arith

  no' : (m == b) ≡ false
  no' = ground arith

  starts : initialize_signal registered ≡ demand_signal idle at_idle
  unfolding make_state_manager set_periodic_task_interval assign
  starts =
      let before = (initialize_logged registered).system in
      let at_m : before.tasks m ≡ t = rw (no, ==_refl m) refl in
      let at_b : own_started.tasks b ≡ timed = rw (no', ==_refl b) refl in
      initialize_signal-start registered b not_started own_started all_started refl
        (start_from m before (ap (λ (t : Task). t.running) at_m ∙ ft.not_running)
            (ap (λ (t : Task). t.queue_thread) at_m ∙ ft.no_thread)
            (ap (λ (t : Task). t.periodic_thread) at_m ∙ ft.no_periodic_thread)
          ∙ ap (λ t. ok (set_task before m (running_task t))) at_m)
        (start_from b own_started (ap (λ (t : Task). t.running) at_b ∙ fu.not_running)
            (ap (λ (t : Task). t.queue_thread) at_b ∙ fu.no_thread)
            (ap (λ (t : Task). t.periodic_thread) at_b ∙ fu.no_periodic_thread)
          ∙ ap (λ t. ok (set_task own_started b (running_task t))) at_b)

  linked : Linked idle (λ _. 64) (λ _. []) at_idle
  unfolding make_state_manager make_heart_beat set_periodic_task_interval
  linked = record {
    small = omega arith;
    initialized = refl;
    manager_there = rw (no, ==_refl m) refl;
    beat_there = rw (==_refl b) refl;
    two = two;
    manager_runs = rw (no, ==_refl m) refl;
    beat_runs = rw (==_refl b) refl;
    listens = refl;
    lower = tt;
    ready = record {
      queue = rw (no, ==_refl m) ft.models;
      room = omega arith;
      numbers = rw (no, ==_refl m) (omega (arith, ft.number));
    };
  }

  beat-Ready : Ready at_idle.system b 64 []
  beat-Ready = record {
    queue = rw (==_refl b) fu.models;
    room = omega arith;
    numbers = rw (==_refl b) (omega (arith, fu.number));
  }

  registers : register_task b made ≡ registered
  unfolding make_heart_beat make_state_manager
  registers = register_task-observer b made refl refl

  reaches :
      (s s' : Surroundings)
      → (ordered obeyed after : World) × (initialize_signal registered ≡ ok ordered)
        × (heart_beat_round (at_time s ordered) ≡ ok (went obeyed))
        × (manager_round (at_time s' obeyed) ≡ ok (went after))
        × ((demand_result idle after).0 ≡ true)
        × ((after.system.tasks b).current_state ≡ idle)
  unfolding make_state_manager make_heart_beat assign find
  reaches s s' =
      let (ordered, obeyed, after, demanded, round, round', entered, _, _, states, _, _) =
        demand_signal-records idle not_started (λ _. 64) (λ _. []) at_idle s s' linked
          (listener-Nodup refl) mem-cons_self (λ e. two (only_member e))
          (listener-AllReady refl (order m idle) (λ _. 64) (λ _. []) beat-Ready)
          (rw (==_refl b) refl) tt in
      let all_idle : All (λ (entry : ℕ × TaskState). entry.1 ≡ idle) after.manager.task_states =
        subst (All (λ (entry : ℕ × TaskState). entry.1 ≡ idle)) (sym states)
          (rw (==_refl b) (refl, tt)) in
      (
        ordered,
        obeyed,
        after,
        starts ∙ demanded,
        round,
        round',
        (demand_result-All idle after).0.1 all_idle,
        entered,
      )

-- From a broker behind its `initialize` without subscribers: the factories of the state manager and
-- of the heart beat return, and once the heart beat is registered, `initialize` of the manager up
-- to its wait, a round of the heart beat and a round of the manager bring the heart beat into the
-- state IDLE, and the wait of `initialize` ends with success, whatever the times, the name, the
-- interval, the timeout, the storage and what it held. It asks for two objects, and for nodes
-- larger than a pointer.
pub create_both-idle :
    (m b : ℕ) (name : String) (node_size manager_data beat_data interval_ms timeout_ms : ℕ)
    (current target : TaskState) (w : World) (s s' : Surroundings)
    → m ≢ b
    → sizeof_pointer < node_size
    → (first ordered obeyed after : World) × (create_both m b name node_size manager_data beat_data
          interval_ms timeout_ms current target w
        ≡ ok first)
      × (initialize_signal (register_task b first) ≡ ok ordered)
      × (heart_beat_round (at_time s ordered) ≡ ok (went obeyed))
      × (manager_round (at_time s' obeyed) ≡ ok (went after))
      × ((demand_result idle after).0 ≡ true)
      × ((after.system.tasks b).current_state ≡ idle)
create_both-idle m b name node_size manager_data beat_data interval_ms timeout_ms current target w s
      s' two large =
    let (t, made_t, ft) = new_task "StateManager" node_size manager_data large in
    let (u, made_u, fu) = new_task name node_size beat_data large in
    let first =
      both m b name node_size manager_data beat_data interval_ms timeout_ms current target t u w in
    let (ordered, obeyed, after, starts, round, round', success, entered) =
      reaches m b two name node_size manager_data beat_data interval_ms timeout_ms current target w
        t u ft fu s s' in
    (
      first,
      ordered,
      obeyed,
      after,
      created m b name node_size manager_data beat_data interval_ms timeout_ms current target w t u
          made_t made_u,
      ap initialize_signal (
            registers m b two name node_size manager_data beat_data interval_ms timeout_ms current
              target w t u ft fu)
          ∙ starts,
      round,
      round',
      success,
      entered,
    )
