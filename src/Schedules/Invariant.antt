-- ===== src/Schedules/Invariant.antt =====
-- The invariant of a system, for each kind of call.
use protocore.Base.{
  ℕ, ◌<◌, ◌≡◌, refl, subst, Bool, true, false, Bool-cases, inl, inr, none, some, [], Run, ok,
  throws, >>=-eq-ok, ok-injective, ltb, if◌then◌else◌,
}
use protocore.Std.Text.{String}
use protocore.MemoryPool.{sizeof_pointer}
use protocore.TaskState.{TaskState, stopped, to_byte}
use protocore.Msg.{Msg, HeartbeatMsg, make_msg, of_state_ack}
use protocore.MessageQueue.{MessageQueue, make_queue, notify_shutdown}
use protocore.MessageQueue.Trace.{dequeues, ends, tries, misses, closes}
use protocore.MessageQueue.Conservation.{made-Sound}
use protocore.System.{Task, System, set_task}
use protocore.Broker.{initialize}
use protocore.Tasks.{
  make_task, start, spawn, stop_signal, stop_join, transition_to_state, handle_heartbeat,
  safe_publish, entered,
}
use protocore.Schedules.{
  Act, initializes, constructs, expires, subscribes, publishes, delivers, starts, enters, stops,
  joins, takes, polls, answers, passes,
}
use protocore.Schedules.Keeping.{
  Healthy, WellFormed, placed-WellFormed, stepped, publish-WellFormed, subscribe-WellFormed,
  deliver-WellFormed,
}

pub made-Healthy :
    (pool_data size count : ℕ) (q : MessageQueue)
    → 0 < count
    → sizeof_pointer < size
    → make_queue pool_data size count ≡ ok q
    → Healthy q
made-Healthy pool_data size count q h s e =
    let sound = made-Sound pool_data size count q h s e in
    ([], record { intact = sound.intact; capacity = refl })

constructed-Healthy :
    (name : String) (count size pool_data : ℕ) (task : Task)
    → 0 < count
    → sizeof_pointer < size
    → make_task name count size pool_data ≡ ok task
    → Healthy task.message_queue
unfolding make_task
constructed-Healthy name count size pool_data task h s e =
    let (q, made, e') = >>=-eq-ok (make_queue pool_data size count) _ e in
    subst (λ (t : Task). Healthy t.message_queue) (ok-injective e')
      (made-Healthy pool_data size count q h s made)

-- A publication by a task that a shared pointer owns.
pub safe_publish-WellFormed :
    (self : ℕ) (msg : Msg) (sys r : System)
    → WellFormed sys
    → safe_publish self msg sys ≡ ok r
    → WellFormed r
unfolding safe_publish
safe_publish-WellFormed self msg sys r w e =
    publish-WellFormed msg sys r w (locked (sys.alive self) _ e)
  where
    locked : (b : Bool) (m : Run System) → (if b then m else throws) ≡ ok r → m ≡ ok r
    locked true m e = e
    locked false m e = cc

pub transition-WellFormed :
    (self : ℕ) (state : TaskState) (sys r : System)
    → WellFormed sys
    → transition_to_state self state sys ≡ ok r
    → WellFormed r
unfolding transition_to_state
transition-WellFormed self state sys r w e =
    let (ack, _, sent) =
      >>=-eq-ok (make_msg (some self) (of_state_ack (record { state = to_byte state }))) _ e in
    let changed =
      placed-WellFormed self (record (sys.tasks self) { current_state = state }) sys w
        (w.queues self) in
    safe_publish-WellFormed self ack (entered self state sys) r
      (record { queues = changed.queues; lists = changed.lists }) sent

answer-WellFormed :
    (self : ℕ) (heartbeat : HeartbeatMsg) (sys r : System)
    → WellFormed sys
    → handle_heartbeat self heartbeat sys ≡ ok r
    → WellFormed r
unfolding handle_heartbeat
answer-WellFormed self heartbeat sys r w e =
    let (ack, _, sent) = >>=-eq-ok (make_msg (some self) _) _ e in
    safe_publish-WellFormed self ack sys r w sent

pub start-WellFormed :
    (self : ℕ) (sys r : System) → WellFormed sys → start self sys ≡ ok r → WellFormed r
unfolding start
start-WellFormed self sys r w e = elim (Bool-cases (sys.tasks self).running) [
  | inl runs ↦ subst WellFormed (ok-injective (rw runs at e)) w
  | inr rests ↦
      let (queue_thread, _, e') =
        >>=-eq-ok (spawn (sys.tasks self).queue_thread) _ (rw rests at e) in
      let (periodic_thread, _, e'') =
        >>=-eq-ok
          (if ltb 0 (sys.tasks self).periodic_task_interval_ms
            then spawn (sys.tasks self).periodic_thread
            else ok (sys.tasks self).periodic_thread)
          _ e' in
      subst WellFormed (ok-injective e'') (
        placed-WellFormed self
          (record (sys.tasks self) {
            running = true;
            queue_thread = queue_thread;
            periodic_thread = periodic_thread;
          })
          sys w (w.queues self))
]

pub stop-WellFormed :
    (transition : ℕ → TaskState → System → Run System)
    → ((self : ℕ) (state : TaskState) (sys r : System)
        → WellFormed sys
        → transition self state sys ≡ ok r
        → WellFormed r)
    → (self : ℕ) (sys r : System) → WellFormed sys
    → stop_signal transition self sys ≡ ok r
    → WellFormed r
unfolding stop_signal
stop-WellFormed transition keeps self sys r w e = elim (Bool-cases (sys.tasks self).running) [
  | inl runs ↦
      let before = set_task sys self (record (sys.tasks self) { running = false }) in
      let (done, moved, e') = >>=-eq-ok (transition self stopped before) _ (rw runs at e) in
      let kept =
        keeps self stopped before done (placed-WellFormed self _ sys w (w.queues self)) moved in
      subst WellFormed (ok-injective e') (
        placed-WellFormed self
          (record (done.tasks self) {
            message_queue = notify_shutdown (done.tasks self).message_queue;
          })
          done kept (stepped (closes refl) (kept.queues self)))
  | inr rests ↦ subst WellFormed (ok-injective (rw rests at e)) w
]

pub Act-WellFormed : (sys r : System) → Act sys r → WellFormed sys → WellFormed r
unfolding initialize stop_join
Act-WellFormed sys _ initializes w = record { queues = w.queues; lists = w.lists }
Act-WellFormed sys _ (constructs t name count size pool_data task h s e) w =
    let placed =
      placed-WellFormed t task sys w (constructed-Healthy name count size pool_data task h s e) in
    record { queues = placed.queues; lists = placed.lists }
Act-WellFormed sys _ (expires t) w = record { queues = w.queues; lists = w.lists }
Act-WellFormed sys _ (subscribes t type r l e) w = subscribe-WellFormed t type sys r w l e
Act-WellFormed sys _ (publishes msg r e) w = publish-WellFormed msg sys r w e
Act-WellFormed sys _ (delivers t msg r e) w = deliver-WellFormed t msg sys r w e
Act-WellFormed sys _ (starts t r e) w = start-WellFormed t sys r w e
Act-WellFormed sys _ (enters t state r e) w = transition-WellFormed t state sys r w e
Act-WellFormed sys _ (stops t r e) w =
    stop-WellFormed transition_to_state transition-WellFormed t sys r w e
Act-WellFormed sys _ (joins t) w = placed-WellFormed t _ sys w (w.queues t)
Act-WellFormed sys _ (takes t none q e) w =
    placed-WellFormed t _ sys w (stepped (ends e) (w.queues t))
Act-WellFormed sys _ (takes t (some m) q e) w =
    placed-WellFormed t _ sys w (stepped (dequeues e) (w.queues t))
Act-WellFormed sys _ (polls t none q e) w =
    placed-WellFormed t _ sys w (stepped (misses e) (w.queues t))
Act-WellFormed sys _ (polls t (some m) q e) w =
    placed-WellFormed t _ sys w (stepped (tries e) (w.queues t))
Act-WellFormed sys _ (answers t heartbeat r e) w = answer-WellFormed t heartbeat sys r w e
Act-WellFormed sys _ (passes l s) w = record { queues = w.queues; lists = w.lists }
