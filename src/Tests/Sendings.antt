-- ===== src/Tests/Sendings.antt =====
-- The heart beat of task 2 monitors the tasks 2 and 3.
use protocore.Base.{ℕ, ◌≡◌, ◌≢◌, refl, some, [], ◌∷◌, ok, arith}
use protocore.MessageQueue.Model.{Models}
use protocore.Supervision.{World}
use protocore.Supervision.Entries.{find}
use protocore.Heartbeats.{send_heartbeat}
use protocore.Heartbeats.Numbering.{awaited}
use protocore.Heartbeats.Numbering.{heartbeat}
use protocore.Heartbeats.Sending.{send_heartbeat-distinct}
use protocore.Tests.Systems.{distinct}
use protocore.Tests.Supervisors.{world, rested, ready}

abbrev pair : World
pair = record world {
  heart_beat = record world.heart_beat { monitored_tasks = (2, rested) ∷ (3, rested) ∷ [] };
}

send_heartbeat-distinct_example :
    (after : World) × (i : ℕ) × (j : ℕ) × (send_heartbeat pair ≡ ok after)
    × (i ≢ j)
    × (find 2 after.heart_beat.monitored_tasks ≡ some (awaited 1500 i rested))
    × (find 3 after.heart_beat.monitored_tasks ≡ some (awaited 1500 j rested))
    × Models 2 (after.system.tasks 2).message_queue (heartbeat 2 1500 i ∷ [])
    × Models 2 (after.system.tasks 3).message_queue (heartbeat 2 1500 j ∷ [])
unfolding find
send_heartbeat-distinct_example =
    send_heartbeat-distinct (λ _. 2) (λ _. []) pair 2 3 rested rested refl distinct (λ t _. ready t)
      (omega arith) (omega arith) refl refl refl refl (λ e. omega arith)
