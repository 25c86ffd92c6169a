-- ===== src/Tests/Rounds.antt =====
-- The manager 0 orders, the heart beat 2 obeys.
use mathlib.Core.List.{not-mem-nil, mem-cons, mem-cons_self}
use mathlib.Core.Logic.Or
use mathlib.Core.HLevel.{⊥_prop}
use protocore.Base.{
  only_member, ℕ, ◌≡◌, refl, some, List, [], ◌∷◌, Mem, arith, Option, none, false, ◌≢◌, ap, Run, ok,
  ◌>>=◌, ◌==◌, if◌then◌else◌,
}
use protocore.MemoryPool.{construct}
use protocore.MessageQueue.{make_queue}
use protocore.TaskState.{stopped, not_started}
use protocore.Msg.{
  HeartbeatMsg, get_data_as, MsgType, state_msg, state_ack_msg, heartbeat_msg, heartbeat_ack_msg,
}
use protocore.MessageQueue.Model.{Models}
use protocore.Broker.Single.{Ready}
use protocore.Tasks.{went, run_round, handle_heartbeat}
use protocore.Supervision.{World, system_of_world}
use protocore.Heartbeats.{send_heartbeat, set_system}
use protocore.Supervision.Entries.{find, assign}
use protocore.Manager.{demand_signal}
use protocore.Rounds.{manager_round, heart_beat_round, at_time}
use protocore.Rounds.Obeying.{Linked}
use protocore.Rounds.Orders.{demand_signal-records}
use protocore.Rounds.Responding.{Responder, Heard}
use protocore.Rounds.Answers.{send_heartbeat-answered}
use protocore.Logger.{Surroundings}
use protocore.Tests.Logs.{now}
use protocore.Tests.Queues.{queue0-Models}
use protocore.Tests.Systems.{system, distinct}
use protocore.Tests.Supervisors.{world, rested, one}

abbrev later : Surroundings
later = record now { steady_ms = 1600 }

abbrev listeners : MsgType → List ℕ
listeners state_msg = 2 ∷ 3 ∷ []
listeners state_ack_msg = 0 ∷ []
listeners heartbeat_msg = []
listeners heartbeat_ack_msg = 2 ∷ []

abbrev linked : World
linked = record world { system = record system { subscriber_lists = listeners } }

linked-Ready : (t : ℕ) → Ready linked.system t 2 []
unfolding make_queue construct
linked-Ready t = record { queue = queue0-Models; room = omega arith; numbers = omega arith }

linked-Linked : Linked stopped (λ _. 2) (λ _. []) linked
linked-Linked = record {
  small = omega arith;
  initialized = refl;
  manager_there = refl;
  beat_there = refl;
  two = λ e. omega arith;
  manager_runs = refl;
  beat_runs = refl;
  listens = refl;
  lower = tt;
  ready = linked-Ready 0;
}

not_listening : ¬ Mem {A = ℕ} 0 (2 ∷ 3 ∷ [])
not_listening m =
    Or.elim ⊥_prop (mem-cons.0 m) (λ e. omega arith)
      λ k. Or.elim ⊥_prop (mem-cons.0 k) (λ e. omega arith) (λ n. not-mem-nil n)

demand_signal-records_example :
    (ordered obeyed after : World) × (demand_signal stopped linked ≡ ok ordered)
    × (heart_beat_round (at_time now ordered) ≡ ok (went obeyed))
    × (manager_round (at_time later obeyed) ≡ ok (went after))
    × ((after.system.tasks 2).current_state ≡ stopped)
    × (after.manager.target_state ≡ stopped)
    × ((t : ℕ)
        → find t after.manager.task_states
          ≡ (if t == 2 then some stopped else find t linked.manager.task_states))
    × (after.manager.task_states ≡ assign 2 stopped linked.manager.task_states)
    × Models 2 (after.system.tasks 2).message_queue []
    × Models 2 (after.system.tasks 0).message_queue []
unfolding find
demand_signal-records_example =
    demand_signal-records stopped not_started (λ _. 2) (λ _. []) linked now later linked-Linked
      distinct mem-cons_self not_listening (λ t _ _. linked-Ready t) refl tt

-- Task 1 answers heartbeats.
respond : Option HeartbeatMsg → World → Run World
respond none w = ok w
respond (some data_of) w =
    handle_heartbeat 1 data_of w.system >>= λ system. ok (set_system w system)

abbrev responder : Responder 1
unfolding respond
responder = record {
  process = λ msg w. respond (get_data_as heartbeat_msg msg) w;
  responds = λ msg asked w e. ap (λ o. respond o w) e;
}

abbrev monitoring : World
monitoring = record linked {
  heart_beat = record linked.heart_beat { monitored_tasks = (1, rested) ∷ [] };
}

monitoring-Heard : Heard 1 responder 1500 0 (λ _. 2) (λ _. []) monitoring
monitoring-Heard = record {
  initialized = refl;
  task_there = refl;
  beat_there = refl;
  two = λ e. omega arith;
  task_runs = refl;
  beat_runs = refl;
  listens = refl;
  lower = tt;
  ready = linked-Ready 2;
}

send_heartbeat-answered_example :
    (sent answered after : World) × (id : ℕ) × (send_heartbeat monitoring ≡ ok sent)
    × (run_round responder.process 1 (at_time now sent) ≡ ok (went answered))
    × (heart_beat_round (at_time later answered) ≡ ok (went after))
    × (find 1 after.heart_beat.monitored_tasks
        ≡ some (record {
          awaiting_response = false;
          last_heartbeat_id = id;
          last_heartbeat_time = 1500;
          last_response_time = 1600;
        }))
    × ((t : ℕ)
        → t ≢ 1
        → find t after.heart_beat.monitored_tasks ≡ find t sent.heart_beat.monitored_tasks)
    × (after.manager ≡ monitoring.manager)
    × Models 2 (after.system.tasks 1).message_queue []
    × Models 2 (after.system.tasks 2).message_queue []
unfolding find
send_heartbeat-answered_example =
    send_heartbeat-answered 1 responder (λ _. 2) (λ _. []) monitoring rested now later
      monitoring-Heard (one 1) (λ t _. linked-Ready t)
      (λ m. let e : 2 ≡ 1 = only_member m in omega arith) refl refl tt
