-- ===== src/Rounds/Orders.antt =====
-- An order from the manager to the heart beat, and the acknowledgment back.
use protocore.Base.{
  ℕ, ◌≡◌, sym, ap, subst, ◌∙◌, Bool, true, some, List, All, Mem, Nodup, ok, ◌==◌, if◌then◌else◌,
  inl, arith,
}
use protocore.TaskState.{TaskState}
use protocore.Msg.{Msg, state_msg, less}
use protocore.MessageQueue.Model.{Models}
use protocore.System.{Task, System}
use protocore.Broker.Delivery.{AllReady, Published, live}
use protocore.Broker.Single.{Ready-same}
use protocore.Tasks.{went}
use protocore.Tasks.Transition.{state_ack}
use protocore.Logger.{Surroundings}
use protocore.Supervision.{World}
use protocore.Supervision.Entries.{find, assign}
use protocore.Manager.{demand_signal}
use protocore.Heartbeats.{set_system}
use protocore.Broker.{set_list}
use protocore.Manager.Demand.{order, demand_logged, demand_signal-Published}
use protocore.Rounds.{manager_round, heart_beat_round, at_time}
use protocore.Rounds.Obeying.{Linked, obeys}
use protocore.Rounds.Recording.{manager_records}

-- A demand leaves the two tasks linked.
demanded :
    (new_state : TaskState) (room : ℕ → ℕ) (inbox : ℕ → List Msg) (w : World) (after : System)
    (ts : List ℕ) (s : Surroundings)
    → let lists = set_list w.system.subscriber_lists state_msg ts in
      Linked new_state room inbox w
      → ¬ Mem w.manager.self (w.system.subscriber_lists state_msg)
      → Published
          (order w.manager.self new_state)
          room
          inbox
          (w.system.subscriber_lists state_msg)
          (demand_logged new_state w)
          after
      → Linked new_state room inbox (record w {
        system = record after { subscriber_lists = lists; at = s };
        manager = record w.manager { current_state = new_state; target_state = new_state };
      })
demanded new_state room inbox w after ts s l apart p = record {
  small = l.small;
  initialized = p.same.started ∙ l.initialized;
  manager_there = ap (λ (f : ℕ → Bool). f w.manager.self) p.same.owners ∙ l.manager_there;
  beat_there = ap (λ (f : ℕ → Bool). f w.heart_beat.self) p.same.owners ∙ l.beat_there;
  two = l.two;
  manager_runs = ap (λ (t : Task). t.running) (p.same.rest w.manager.self) ∙ l.manager_runs;
  beat_runs = ap (λ (t : Task). t.running) (p.same.rest w.heart_beat.self) ∙ l.beat_runs;
  listens = l.listens;
  lower = l.lower;
  ready = Ready-same (sym (p.untouched w.manager.self (inl apart))) l.ready;
}

-- The manager's demand, a round of the heart beat and a round of the manager bring the heart beat
-- into the state that is demanded, and the manager records it for this task alone; both queues are
-- again as they were. The times of the three calls are any. It asks for a state that fits a byte;
-- an initialized broker, where the manager alone listens to acknowledgments and the list of the
-- listeners to orders has no duplicates, the heart beat on it and the manager not; room and numbers
-- in the queues; the two tasks owned, running and not the same, the heart beat registered; and that
-- no order waits at the heart beat and no order or acknowledgment at the manager.
pub demand_signal-records :
    (new_state recorded : TaskState) (room : ℕ → ℕ) (inbox : ℕ → List Msg) (w : World)
    (s s' : Surroundings)
    → let subscribers = w.system.subscriber_lists state_msg in
      let self = w.manager.self in
      let beat = w.heart_beat.self in
      Linked new_state room inbox w
      → Nodup subscribers
      → Mem beat subscribers
      → ¬ Mem self subscribers
      → AllReady (order self new_state) room inbox subscribers w.system
      → find beat w.manager.task_states ≡ some recorded
      → All (λ m. less m (state_ack beat new_state) ≡ true) (inbox self)
      → (ordered obeyed after : World) × (demand_signal new_state w ≡ ok ordered)
        × (heart_beat_round (at_time s ordered) ≡ ok (went obeyed))
        × (manager_round (at_time s' obeyed) ≡ ok (went after))
        × ((after.system.tasks beat).current_state ≡ new_state)
        × (after.manager.target_state ≡ new_state)
        × ((t : ℕ)
            → find t after.manager.task_states
              ≡ (if t == beat then some new_state else find t w.manager.task_states))
        × (after.manager.task_states ≡ assign beat new_state w.manager.task_states)
        × Models (room beat) (after.system.tasks beat).message_queue (inbox beat)
        × Models (room self) (after.system.tasks self).message_queue (inbox self)
demand_signal-records new_state recorded room inbox w s s' l d listening apart ready registered
      lower =
    let (sys, made, p) =
      demand_signal-Published new_state room inbox w l.initialized l.manager_there d ready in
    let ordered = record w {
      system = record sys {
        subscriber_lists =
            set_list w.system.subscriber_lists state_msg
              (live w.system.alive (w.system.subscriber_lists state_msg));
      };
      manager = record w.manager { current_state = new_state; target_state = new_state };
    } in
    let (sys', round, o) =
      obeys new_state room inbox (at_time s ordered)
        (demanded new_state room inbox w sys _ s l apart p)
        (p.received w.heart_beat.self listening l.beat_there) in
    let (after, round', r) =
      manager_records w.heart_beat.self (room w.manager.self) new_state recorded
        (inbox w.manager.self) (at_time s' (set_system ordered sys')) l.small registered
        o.manager_runs o.answered lower in
    let beat_stays = r.others w.heart_beat.self (let two = l.two in ground arith) in
    (
      ordered,
      set_system ordered sys',
      after,
      made,
      round,
      round',
      ap (λ (t : Task). t.current_state) beat_stays ∙ o.entered_state,
      r.target,
      r.records,
      r.states,
      subst
          (λ (t : Task). Models (room w.heart_beat.self) t.message_queue (inbox w.heart_beat.self))
          (sym beat_stays) o.left,
      r.left,
    )
