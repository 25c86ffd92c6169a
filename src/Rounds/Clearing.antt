-- ===== src/Rounds/Clearing.antt =====
-- The heart beat's round at the answer of a monitored task.
use protocore.Base.{
  ℕ, ◌≡◌, ◌≢◌, refl, sym, ap, subst, ◌∙◌, true, false, some, List, [], ◌∷◌, ◌++◌, All, Run, ok,
  ◌>>=◌, ◌==◌, ==_refl, arith,
}
use protocore.Msg.{Msg, HeartbeatMsg, less}
use protocore.MessageQueue.{MessageQueue}
use protocore.MessageQueue.Model.{Models}
use protocore.System.{Task, System}
use protocore.Tasks.{went, set_queue}
use protocore.Tasks.Transition.{heartbeat_ack, round_takes}
use protocore.Supervision.{World, TaskStatus, system_of_world}
use protocore.Supervision.Entries.{find}
use protocore.Heartbeats.{process_message as heart_beat_process}
use protocore.Heartbeats.Answers.{cleared, handle_acknowledgment-clears}
use protocore.Heartbeats.Entering.{process_message-handle_acknowledgment}
use protocore.Rounds.{heart_beat_round}

-- The heart beat's round at the answer to the last heartbeat that a task got.
module _ (task n : ℕ) (heartbeat : HeartbeatMsg) (sys : System) (status : TaskStatus)
    (ms : List Msg) (w : World) (monitored : find task w.heart_beat.monitored_tasks ≡ some status)
    (last : status.last_heartbeat_id ≡ heartbeat.unique_id) where
  abbrev beat : ℕ
  beat = w.heart_beat.self

  -- What the round leaves: the entry cleared, the other entries and tasks as they were.
  pub record Cleared (after : World) : Type 0 where
    pub entry :
        find task after.heart_beat.monitored_tasks ≡ some (cleared w.system.at.steady_ms status)
    pub entries :
        (t : ℕ)
        → t ≢ task
        → find t after.heart_beat.monitored_tasks ≡ find t w.heart_beat.monitored_tasks
    pub same_manager : after.manager ≡ w.manager
    pub left : Models n (after.system.tasks beat).message_queue ms
    pub others : (t : ℕ) → beat ≢ t → after.system.tasks t ≡ w.system.tasks t

  clears :
      (q : MessageQueue)
      → Models n q ms
      → (after : World) × (heart_beat_process
            (heartbeat_ack task heartbeat sys)
            (set_queue w beat q)
          ≡ ok after)
        × Cleared after
  clears q left =
      let taken = set_queue w beat q in
      let (after, made, same_manager, tasks, entries) =
        handle_acknowledgment-clears task heartbeat sys status taken monitored in
      (
        after,
        process_message-handle_acknowledgment task heartbeat sys taken ∙ made,
        record {
          entry = entries task ∙ rw (last, ==_refl heartbeat.unique_id, ==_refl task) refl;
          entries = λ t apart.
              let no : (t == task) ≡ false = ground arith in
              entries t ∙ rw (last, ==_refl heartbeat.unique_id, no) refl;
          same_manager = same_manager;
          left =
              subst (λ (t : Task). Models n t.message_queue ms)
                (sym (ap (λ (f : ℕ → Task). f beat) tasks)) (rw (==_refl beat) left);
          others = λ t apart.
              let no : (beat == t) ≡ false = ground arith in
              ap (λ (f : ℕ → Task). f t) tasks ∙ rw no refl;
        },
      )

  pub answer_taken :
      (w.system.tasks beat).running ≡ true
      → Models n (w.system.tasks beat).message_queue (ms ++ heartbeat_ack task heartbeat sys ∷ [])
      → All (λ m. less m (heartbeat_ack task heartbeat sys) ≡ true) ms
      → (after : World) × (heart_beat_round w ≡ ok (went after)) × Cleared after
  answer_taken runs queued lower =
      let (q, left, round) =
        round_takes heart_beat_process beat n w (heartbeat_ack task heartbeat sys) ms runs queued
          lower in
      let (after, made, done) = clears q left in
      (after, round ∙ ap (λ (r : Run World). r >>= λ done. ok (went done)) made, done)
