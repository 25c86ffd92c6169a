-- ===== src/Tasks/Transition.antt =====
-- What `transition_to_state` and `handle_heartbeat` send, and what a round of `run` takes.
use protocore.Base.{
  ℕ, ◌≡◌, ap, ◌∙◌, Bool, true, Bool-cases, inl, inr, some, List, [], ◌∷◌, ◌++◌, All, Nodup, Run, ok,
  throws, ◌>>=◌, if◌then◌else◌, ◌==◌, ==_refl, ==→eq,
}
use protocore.TaskState.{TaskState, to_byte}
use protocore.Msg.{
  Msg, HeartbeatMsg, of_state_ack, of_heartbeat_ack, less, state_ack_msg, heartbeat_ack_msg,
}
use protocore.Msg.Laws.{message, make_msg-message}
use protocore.MessageQueue.{MessageQueue, dequeue, Dequeued}
use protocore.MessageQueue.Pick.{pick, pick-last}
use protocore.MessageQueue.Model.{Models}
use protocore.MessageQueue.Dequeue.{dequeue-Models}
use protocore.System.{Holder, Task, System}
use protocore.Broker.{publish, set_list}
use protocore.Broker.Delivery.{AllReady, Published, live, publish-delivers}
use protocore.Broker.Single.{Ready}
use protocore.Tasks.{
  transition_to_state, entered, safe_publish, handle_heartbeat, handle, run_round, went, ended,
  set_queue, task_of,
}

-- The acknowledgment that announces a state, and the one that answers a heartbeat.
abbrev pub state_ack : ℕ → TaskState → Msg
state_ack self new_state = message (some self) (of_state_ack (record { state = to_byte new_state }))

abbrev pub heartbeat_ack : ℕ → HeartbeatMsg → System → Msg
heartbeat_ack self heartbeat sys = message (some self) (
    of_heartbeat_ack (record {
      orig_unique_id = heartbeat.unique_id;
      orig_timestamp = heartbeat.timestamp;
      ack_timestamp = sys.at.steady_ms;
    }))

entered-Ready :
    (self n : ℕ) (new_state : TaskState) (sys : System) (t : ℕ) (ms : List Msg)
    → Ready sys t n ms
    → Ready (entered self new_state sys) t n ms
entered-Ready self n new_state sys t ms r = elim (Bool-cases (self == t)) [
  | inl e ↦ record {
    queue = rw (e, ==→eq self t e) r.queue;
    room = r.room;
    numbers = rw (e, ==→eq self t e) r.numbers;
  }
  | inr e ↦ record { queue = rw e r.queue; room = r.room; numbers = rw e r.numbers }
]

-- Entering a state announces it: the message goes once to each live subscriber of StateAckMsg, behind
-- what its queue held, and the task is in the new state. It asks for a task that a shared pointer
-- owns, an initialized broker, a list without duplicates, and room and numbers in the
-- subscribers' queues.
pub transition_to_state-delivers :
    (self : ℕ) (new_state : TaskState) (room : ℕ → ℕ) (inbox : ℕ → List Msg) (sys : System)
    → let subscribers = sys.subscriber_lists state_ack_msg in
      sys.initialized ≡ true
      → sys.alive self ≡ true
      → Nodup subscribers
      → AllReady (state_ack self new_state) room inbox subscribers sys
      → (after : System) × (transition_to_state self new_state sys
          ≡ ok (record after {
            subscriber_lists =
                set_list sys.subscriber_lists state_ack_msg (live sys.alive subscribers);
          }))
        × Published
            (state_ack self new_state)
            room
            inbox
            subscribers
            (entered self new_state sys)
            after
        × ((after.tasks self).current_state ≡ new_state)
unfolding transition_to_state safe_publish
transition_to_state-delivers self new_state room inbox sys started owned d r =
    let ack = state_ack self new_state in
    let (after, sent, p) =
      publish-delivers ack room inbox (entered self new_state sys) started owned d
        (λ t m l. entered-Ready self (room t) new_state sys t (inbox t) (r t m l)) in
    (
      after,
      ap (λ (m : Run Msg). m >>= λ msg. safe_publish self msg (entered self new_state sys))
            (make_msg-message (some self) (of_state_ack (record { state = to_byte new_state })))
          ∙ ap (λ (b : Bool). if b then publish ack (entered self new_state sys) else throws) owned
          ∙ sent,
      p,
      ap (λ (t : Task). t.current_state) (p.same.rest self) ∙ rw (==_refl self),
    )

-- A heartbeat is answered with its own number and time, and the time of the answer, once to each live
-- subscriber of HeartbeatAckMsg; nothing else of the task changes but its queue. It asks for the same
-- as a transition does.
pub handle_heartbeat-delivers :
    (self : ℕ) (heartbeat : HeartbeatMsg) (room : ℕ → ℕ) (inbox : ℕ → List Msg) (sys : System)
    → let subscribers = sys.subscriber_lists heartbeat_ack_msg in
      sys.initialized ≡ true
      → sys.alive self ≡ true
      → Nodup subscribers
      → AllReady (heartbeat_ack self heartbeat sys) room inbox subscribers sys
      → (after : System) × (handle_heartbeat self heartbeat sys
          ≡ ok (record after {
            subscriber_lists =
                set_list sys.subscriber_lists heartbeat_ack_msg (live sys.alive subscribers);
          }))
        × Published (heartbeat_ack self heartbeat sys) room inbox subscribers sys after
unfolding handle_heartbeat safe_publish
handle_heartbeat-delivers self heartbeat room inbox sys started owned d r =
    let ack = heartbeat_ack self heartbeat sys in
    let (after, sent, p) = publish-delivers ack room inbox sys started owned d r in
    (
      after,
      ap (λ (m : Run Msg). m >>= λ msg. safe_publish self msg sys)
            (make_msg-message (some self) ack.msg_data)
          ∙ ap (λ (b : Bool). if b then publish ack sys else throws) owned
          ∙ sent,
      p,
    )

-- A round of a running task's queue thread gives `process_message` the first message of the highest
-- priority, with the task's queue already standing for the others in their order; the round then
-- ends as that call does.
pub run_round-Models :
    {S : Type 0} ⦃h : Holder S⦄ (process : Msg → S → Run S) (self n : ℕ) (s : S) (m : Msg)
    (ms : List Msg)
    → (task_of s self).running ≡ true
    → Models n (task_of s self).message_queue (m ∷ ms)
    → let (best, rest) = pick less m ms in
      (q : MessageQueue) × Models n q rest
      × (run_round process self s ≡ (process best (set_queue s self q) >>= λ done. ok (went done)))
unfolding run_round handle
run_round-Models process self n s m ms runs v =
    let (q, taken, left, _) = dequeue-Models n (task_of s self).message_queue m ms v in
    let turn = dequeue (task_of s self).message_queue >>= handle process self s in
    (
      q,
      left,
      ap (λ (b : Bool). if b then turn else ok ended) runs
          ∙ ap (λ (d : Run Dequeued). d >>= handle process self s) taken,
    )

-- A message that exceeds all that wait is taken first though it came last.
pub round_takes :
    {S : Type 0} ⦃h : Holder S⦄ (process : Msg → S → Run S) (self n : ℕ) (s : S) (best : Msg)
    (ms : List Msg)
    → (task_of s self).running ≡ true
    → Models n (task_of s self).message_queue (ms ++ best ∷ [])
    → All (λ m. less m best ≡ true) ms
    → (q : MessageQueue) × Models n q ms
      × (run_round process self s ≡ (process best (set_queue s self q) >>= λ done. ok (went done)))
unfolding pick
round_takes process self n s best [] runs v _ = run_round-Models process self n s best [] runs v
round_takes process self n s best (x ∷ ms) runs v lower =
    rw (pick-last less best x ms lower) at
      (run_round-Models process self n s x (ms ++ best ∷ []) runs v)
