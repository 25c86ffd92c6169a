-- ===== src/Tests/Creations.antt =====
-- The manager 0 and the heart beat 2 are made and reach the state IDLE.
use protocore.Base.{◌≡◌, true, ok, arith}
use protocore.TaskState.{running, stopped, idle}
use protocore.Tasks.{went}
use protocore.Supervision.{World, register_task}
use protocore.Manager.{initialize_signal, demand_result}
use protocore.Rounds.{heart_beat_round, manager_round, at_time}
use protocore.Creation.Startup.{create_both}
use protocore.Creation.Running.{create_both-idle}
use protocore.Tests.Logs.{now}
use protocore.Tests.Supervisors.{world}

create_both-idle_example :
    (first ordered obeyed after : World) × (create_both 0 2 "HeartBeat" 64 4096 65536 10000 3000
        running stopped world
      ≡ ok first)
    × (initialize_signal (register_task 2 first) ≡ ok ordered)
    × (heart_beat_round (at_time now ordered) ≡ ok (went obeyed))
    × (manager_round (at_time now obeyed) ≡ ok (went after))
    × ((demand_result idle after).0 ≡ true)
    × ((after.system.tasks 2).current_state ≡ idle)
create_both-idle_example =
    create_both-idle 0 2 "HeartBeat" 64 4096 65536 10000 3000 running stopped world now now
      (λ e. omega arith) (omega arith)
