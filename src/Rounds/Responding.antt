-- ===== src/Rounds/Responding.antt =====
-- The round of a monitored task at a heartbeat. The class of the task is not part of the library:
-- it is one that hands heartbeats to `handle_heartbeat`.
use protocore.Base.{
  ℕ, ◌≡◌, ◌≢◌, refl, sym, ap, subst, ◌∙◌, true, false, some, List, [], ◌∷◌, ◌++◌, All, Mem, Run, ok,
  ◌>>=◌, ◌==◌, ==_refl, inl, arith,
}
use protocore.Msg.{Msg, MsgType, HeartbeatMsg, heartbeat_msg, heartbeat_ack_msg, less, get_data_as}
use protocore.MessageQueue.{MessageQueue}
use protocore.MessageQueue.Model.{Models}
use protocore.System.{Task, System}
use protocore.Broker.{set_list}
use protocore.Broker.Delivery.{Published, live}
use protocore.Broker.Listener.{listener_only, listener-Mem, listener-Nodup, listener-AllReady}
use protocore.Broker.Single.{Ready, Ready-same}
use protocore.Tasks.{went, run_round, set_queue, handle_heartbeat}
use protocore.Tasks.Transition.{heartbeat_ack, handle_heartbeat-delivers, round_takes}
use protocore.Supervision.{World, system_of_world}
use protocore.Heartbeats.{set_system}
use protocore.Heartbeats.Numbering.{heartbeat}

-- A class of tasks by its `process_message`, which hands each heartbeat to `handle_heartbeat`.
pub record Responder (task : ℕ) : Type 0 where
  pub process : Msg → World → Run World
  pub responds :
      (msg : Msg) (asked : HeartbeatMsg) (w : World)
      → get_data_as heartbeat_msg msg ≡ some asked
      → process msg w
        ≡ (handle_heartbeat task asked w.system >>= λ system. ok (set_system w system))

module _ (task : ℕ) (class : Responder task) (now id : ℕ) (room : ℕ → ℕ) (inbox : ℕ → List Msg)
    (w : World) where
  abbrev beat : ℕ
  beat = w.heart_beat.self

  abbrev asked : HeartbeatMsg
  asked = record { unique_id = id; timestamp = now }

  -- Both tasks run, and the heart beat alone listens to answers.
  pub record Heard : Type 0 where
    pub initialized : w.system.initialized ≡ true
    pub task_there : w.system.alive task ≡ true
    pub beat_there : w.system.alive beat ≡ true
    pub two : task ≢ beat
    pub task_runs : (w.system.tasks task).running ≡ true
    pub beat_runs : (w.system.tasks beat).running ≡ true
    pub listens : w.system.subscriber_lists heartbeat_ack_msg ≡ beat ∷ []
    pub lower : All (λ m. less m (heartbeat beat now id) ≡ true) (inbox task)
    pub ready : Ready w.system beat (room beat) (inbox beat)

  -- What the task leaves: its queue as it was, the answer at the heart beat.
  pub record Responded (after : System) : Type 0 where
    pub beat_runs : (after.tasks beat).running ≡ true
    pub left : Models (room task) (after.tasks task).message_queue (inbox task)
    pub answered :
        Models
          (room beat)
          (after.tasks beat).message_queue
          (inbox beat ++ heartbeat_ack task asked w.system ∷ [])

  leaves :
      (q : MessageQueue) (after : System) (lists : MsgType → List ℕ)
      → Heard
      → Models (room task) q (inbox task)
      → Published
          (heartbeat_ack task asked w.system)
          room
          inbox
          (w.system.subscriber_lists heartbeat_ack_msg)
          (set_queue w task q).system
          after
      → Responded (record after { subscriber_lists = lists })
  leaves q after lists l left p =
      let apart : (task == beat) ≡ false = let two = l.two in ground arith in
      let other = λ (m : Mem task (w.system.subscriber_lists heartbeat_ack_msg)).
        l.two (listener_only l.listens m) in
      record {
        beat_runs = ap (λ (t : Task). t.running) (p.same.rest beat) ∙ rw apart l.beat_runs;
        left =
            subst (λ (t : Task). Models (room task) t.message_queue (inbox task))
              (sym (p.untouched task (inl other))) (rw (==_refl task) left);
        answered = p.received beat (listener-Mem l.listens) l.beat_there;
      }

  -- With its message off the queue the task answers it.
  responds_to :
      (q : MessageQueue)
      → Heard
      → Models (room task) q (inbox task)
      → (after : System) × (class.process (heartbeat beat now id) (set_queue w task q)
          ≡ ok (set_system w after))
        × Responded after
  unfolding get_data_as
  responds_to q l left =
      let taken = set_queue w task q in
      let apart : (task == beat) ≡ false = let two = l.two in ground arith in
      let beat_ready : Ready taken.system beat (room beat) (inbox beat) =
        Ready-same (rw apart refl) l.ready in
      let (after, sent, p) =
        handle_heartbeat-delivers task asked room inbox taken.system l.initialized l.task_there
          (listener-Nodup l.listens)
          (listener-AllReady l.listens (heartbeat_ack task asked w.system) room inbox beat_ready) in
      (
        record after {
          subscriber_lists =
              set_list w.system.subscriber_lists heartbeat_ack_msg
                (live w.system.alive (w.system.subscriber_lists heartbeat_ack_msg));
        },
        class.responds (heartbeat beat now id) asked taken refl
            ∙ ap (λ (r : Run System). r >>= λ system. ok (set_system taken system)) sent,
        leaves q after _ l left p,
      )

  pub heartbeat_taken :
      Heard
      → Models
          (room task)
          (w.system.tasks task).message_queue
          (inbox task ++ heartbeat beat now id ∷ [])
      → (after : System) × (run_round class.process task w ≡ ok (went (set_system w after)))
        × Responded after
  heartbeat_taken l queued =
      let (q, left, round) =
        round_takes class.process task (room task) w (heartbeat beat now id) (inbox task)
          l.task_runs queued l.lower in
      let (after, made, responded) = responds_to q l left in
      (after, round ∙ ap (λ (r : Run World). r >>= λ done. ok (went done)) made, responded)
