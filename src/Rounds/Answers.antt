-- ===== src/Rounds/Answers.antt =====
-- A heartbeat to a monitored task, and the answer back.
use protocore.Base.{
  ℕ, ◌≡◌, ◌≢◌, refl, sym, ap, ap₂, subst, ◌∙◌, Bool, true, false, some, List, All, Mem, Nodup, ok,
}
use protocore.Logger.{Surroundings}
use protocore.Msg.{Msg, MsgType, heartbeat_ack_msg, less}
use protocore.MessageQueue.Model.{Models}
use protocore.System.{Task, System}
use protocore.Broker.Single.{Ready-same, SameBut}
use protocore.Tasks.{went, run_round}
use protocore.Tasks.Transition.{heartbeat_ack}
use protocore.Supervision.{World, TaskStatus, system_of_world, set_monitored}
use protocore.Supervision.Entries.{find}
use protocore.Heartbeats.{send_heartbeat, set_system}
use protocore.Heartbeats.Numbering.{advanced, idle_tasks, noted, IdleReady}
use protocore.Heartbeats.Noting.{find-noted}
use protocore.Heartbeats.Sending.{send_heartbeat-Sent}
use protocore.Rounds.{heart_beat_round, at_time}
use protocore.Rounds.Responding.{Responder, Heard, heartbeat_taken}
use protocore.Rounds.Clearing.{answer_taken}

-- The world behind a sending.
abbrev sending_done : World → System → World
sending_done w sys =
    let entries = w.heart_beat.monitored_tasks in
    let id = w.heart_beat.next_heartbeat_id in
    record w {
      system = sys;
      heart_beat = record w.heart_beat {
        next_heartbeat_id = advanced id (idle_tasks entries);
        monitored_tasks = noted w.system.at.steady_ms id entries;
      };
    }

-- A heartbeat leaves the task and the heart beat ready for it, whatever its number and the time.
heard :
    (task i : ℕ) (class : Responder task) (room : ℕ → ℕ) (inbox : ℕ → List Msg) (w : World)
    (sys : System) (s : Surroundings)
    → let now = w.system.at.steady_ms in
      Heard task class now 0 room inbox w
      → SameBut w.system sys
      → sys.tasks w.heart_beat.self ≡ w.system.tasks w.heart_beat.self
      → Heard task class now i room inbox (at_time s (sending_done w sys))
unfolding less
heard task i class room inbox w sys s l same untouched = record {
  initialized = same.started ∙ l.initialized;
  task_there = ap (λ (f : ℕ → Bool). f task) same.owners ∙ l.task_there;
  beat_there = ap (λ (f : ℕ → Bool). f w.heart_beat.self) same.owners ∙ l.beat_there;
  two = l.two;
  task_runs = ap (λ (t : Task). t.running) (same.rest task) ∙ l.task_runs;
  beat_runs = ap (λ (t : Task). t.running) (same.rest w.heart_beat.self) ∙ l.beat_runs;
  listens = ap (λ (f : MsgType → List ℕ). f heartbeat_ack_msg) same.lists ∙ l.listens;
  lower = l.lower;
  ready = Ready-same (sym untouched) l.ready;
}

-- A sending of heartbeats, a round of a monitored task and a round of the heart beat clear the
-- entry of the task, which notes the heartbeat's number, the time it was sent and the time of the
-- answer; the other entries are as the sending left them, the manager's records as before, and the
-- queues of both tasks again as they were. The times of the three calls are any. It asks for what
-- `send_heartbeat` asks for; an initialized broker where the heart beat alone listens to answers; a
-- task that hands heartbeats to `handle_heartbeat`, is monitored and not awaited; both tasks owned,
-- running and not the same, no heartbeat for the heart beat itself; room and numbers in its queue;
-- and that the queues hold only messages of lower priority than the heartbeat and than the answer.
pub send_heartbeat-answered :
    (task : ℕ) (class : Responder task) (room : ℕ → ℕ) (inbox : ℕ → List Msg) (w : World)
    (status : TaskStatus) (s s' : Surroundings)
    → let now = w.system.at.steady_ms in
      let beat = w.heart_beat.self in
      let entries = w.heart_beat.monitored_tasks in
      Heard task class now 0 room inbox w
      → Nodup (idle_tasks entries)
      → IdleReady room inbox now (idle_tasks entries) w
      → ¬ Mem beat (idle_tasks entries)
      → find task entries ≡ some status
      → status.awaiting_response ≡ false
      → All
          (λ m.
            less m (heartbeat_ack task (record { unique_id = 0; timestamp = now }) w.system) ≡ true)
          (inbox beat)
      → (sent answered after : World) × (id : ℕ) × (send_heartbeat w ≡ ok sent)
        × (run_round class.process task (at_time s sent) ≡ ok (went answered))
        × (heart_beat_round (at_time s' answered) ≡ ok (went after))
        × (find task after.heart_beat.monitored_tasks
            ≡ some (record {
              awaiting_response = false;
              last_heartbeat_id = id;
              last_heartbeat_time = now;
              last_response_time = s'.steady_ms;
            }))
        × ((t : ℕ)
            → t ≢ task
            → find t after.heart_beat.monitored_tasks ≡ find t sent.heart_beat.monitored_tasks)
        × (after.manager ≡ w.manager)
        × Models (room task) (after.system.tasks task).message_queue (inbox task)
        × Models (room beat) (after.system.tasks beat).message_queue (inbox beat)
unfolding less
send_heartbeat-answered task class room inbox w status s s' l d ready apart found idle lower =
    let now = w.system.at.steady_ms in
    let beat = w.heart_beat.self in
    let entries = w.heart_beat.monitored_tasks in
    let (done, made, m, _) = send_heartbeat-Sent room inbox w l.beat_there d ready in
    let (i, numbered, noted_i) =
      find-noted now w.heart_beat.next_heartbeat_id task status entries found idle in
    let sent = sending_done w done.system in
    let (sys, round, r) =
      heartbeat_taken task class now i room inbox (at_time s sent)
        (heard task i class room inbox w done.system s l m.same (m.others beat apart))
        (m.received task i numbered) in
    let answered = set_system (at_time s sent) sys in
    let (after, round', c) =
      answer_taken task (room beat) (record { unique_id = i; timestamp = now })
        (at_time s sent).system _ (inbox beat) (at_time s' answered) noted_i refl r.beat_runs
        r.answered lower in
    (
      sent,
      answered,
      after,
      i,
      made
          ∙ ap₂
              (λ manager h. ok (record {
                system = done.system;
                manager = manager;
                heart_beat = set_monitored h (noted now w.heart_beat.next_heartbeat_id entries);
              }))
              m.same_manager m.next_id,
      round,
      round',
      c.entry,
      c.entries,
      c.same_manager,
      subst (λ (t : Task). Models (room task) t.message_queue (inbox task))
          (sym (c.others task (λ e. l.two (sym e)))) r.left,
      c.left,
    )
