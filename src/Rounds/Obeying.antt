-- ===== src/Rounds/Obeying.antt =====
-- The heart beat's round at an order of the manager.
use protocore.Base.{
  ℕ, ◌≡◌, ◌≢◌, ◌<◌, refl, sym, ap, subst, ◌∙◌, true, false, some, List, [], ◌∷◌, ◌++◌, All, Mem,
  Run, ok, ◌>>=◌, ◌==◌, ==_refl, inl, arith,
}
use protocore.TaskState.{TaskState, value}
use protocore.Msg.{Msg, MsgType, state_ack_msg, less}
use protocore.MessageQueue.{MessageQueue}
use protocore.MessageQueue.Model.{Models}
use protocore.System.{Task, System}
use protocore.Broker.{set_list}
use protocore.Broker.Delivery.{Published, live}
use protocore.Broker.Listener.{listener_only, listener-Mem, listener-Nodup, listener-AllReady}
use protocore.Broker.Single.{Ready, Ready-same}
use protocore.Tasks.{went, set_queue, entered}
use protocore.Tasks.Transition.{state_ack, transition_to_state-delivers, round_takes}
use protocore.Supervision.{World, system_of_world}
use protocore.Manager.Demand.{order}
use protocore.Heartbeats.{process_message as heart_beat_process, set_system}
use protocore.Heartbeats.Entering.{process_message-transition_to_state}
use protocore.Rounds.{heart_beat_round}

-- The heart beat with the order in its queue.
module _ (new_state : TaskState) (room : ℕ → ℕ) (inbox : ℕ → List Msg) (w : World) where
  abbrev manager : ℕ
  manager = w.manager.self

  abbrev beat : ℕ
  beat = w.heart_beat.self

  -- What a state that fits a byte asks of the two tasks: both run, the manager alone listens to
  -- acknowledgments.
  pub record Linked : Type 0 where
    pub small : value new_state < 256
    pub initialized : w.system.initialized ≡ true
    pub manager_there : w.system.alive manager ≡ true
    pub beat_there : w.system.alive beat ≡ true
    pub two : manager ≢ beat
    pub manager_runs : (w.system.tasks manager).running ≡ true
    pub beat_runs : (w.system.tasks beat).running ≡ true
    pub listens : w.system.subscriber_lists state_ack_msg ≡ manager ∷ []
    pub lower : All (λ m. less m (order manager new_state) ≡ true) (inbox beat)
    pub ready : Ready w.system manager (room manager) (inbox manager)

  -- What the heart beat leaves: the state, its queue as it was, the acknowledgment at the manager.
  pub record Obeyed (after : System) : Type 0 where
    pub entered_state : (after.tasks beat).current_state ≡ new_state
    pub manager_runs : (after.tasks manager).running ≡ true
    pub left : Models (room beat) (after.tasks beat).message_queue (inbox beat)
    pub answered :
        Models
          (room manager)
          (after.tasks manager).message_queue
          (inbox manager ++ state_ack beat new_state ∷ [])

  distinct : Linked → (beat == manager) ≡ false
  distinct l = let two = l.two in ground arith

  leaves :
      (q : MessageQueue) (after : System) (lists : MsgType → List ℕ)
      → Linked
      → Models (room beat) q (inbox beat)
      → Published
          (state_ack beat new_state)
          room
          inbox
          (w.system.subscriber_lists state_ack_msg)
          (entered beat new_state (set_queue w beat q).system)
          after
      → (after.tasks beat).current_state ≡ new_state
      → Obeyed (record after { subscriber_lists = lists })
  leaves q after lists l left p done =
      let apart = distinct l in
      let other = λ (m : Mem beat (w.system.subscriber_lists state_ack_msg)).
        l.two (sym (listener_only l.listens m)) in
      record {
        entered_state = done;
        manager_runs = ap (λ (t : Task). t.running) (p.same.rest manager) ∙ rw apart l.manager_runs;
        left =
            subst (λ (t : Task). Models (room beat) t.message_queue (inbox beat))
              (sym (p.untouched beat (inl other))) (rw (==_refl beat) left);
        answered = p.received manager (listener-Mem l.listens) l.manager_there;
      }

  -- With its message off the queue the heart beat enters the state and acknowledges it.
  enters :
      (q : MessageQueue)
      → Linked
      → Models (room beat) q (inbox beat)
      → (after : System) × (heart_beat_process (order manager new_state) (set_queue w beat q)
          ≡ ok (set_system w after))
        × Obeyed after
  enters q l left =
      let taken = set_queue w beat q in
      let apart = distinct l in
      let manager_ready : Ready taken.system manager (room manager) (inbox manager) =
        Ready-same (rw apart refl) l.ready in
      let (after, sent, p, entered) =
        transition_to_state-delivers beat new_state room inbox taken.system l.initialized
          l.beat_there (listener-Nodup l.listens)
          (listener-AllReady l.listens (state_ack beat new_state) room inbox manager_ready) in
      (
        record after {
          subscriber_lists =
              set_list w.system.subscriber_lists state_ack_msg
                (live w.system.alive (w.system.subscriber_lists state_ack_msg));
        },
        process_message-transition_to_state (some manager) new_state taken l.small
            ∙ ap (λ (r : Run System). r >>= λ system. ok (set_system taken system)) sent,
        leaves q after _ l left p entered,
      )

  pub obeys :
      Linked
      → Models
          (room beat)
          (w.system.tasks beat).message_queue
          (inbox beat ++ order manager new_state ∷ [])
      → (after : System) × (heart_beat_round w ≡ ok (went (set_system w after))) × Obeyed after
  obeys l queued =
      let (q, left, round) =
        round_takes heart_beat_process beat (room beat) w (order manager new_state) (inbox beat)
          l.beat_runs queued l.lower in
      let (after, made, obeyed) = enters q l left in
      (after, round ∙ ap (λ (r : Run World). r >>= λ done. ok (went done)) made, obeyed)
