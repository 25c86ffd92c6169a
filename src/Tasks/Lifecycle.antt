-- ===== src/Tasks/Lifecycle.antt =====
-- `start`, `stop` and the destructor.
use protocore.Base.{
  none, ℕ, ◌<◌, ◌≡◌, ◌≢◌, ◌↔◌, refl, sym, ap, subst, ◌∙◌, Bool, true, false, Bool-cases, inl, inr,
  [], arith, Run, ok, abort, throws, >>=-eq-ok, ok-injective, if◌then◌else◌, ltb, ==_refl, ◌>>=◌,
  some,
}
use protocore.TaskState.{TaskState, stopped}
use protocore.Msg.{Msg, make_msg}
use protocore.MessageQueue.{MessageQueue, dequeue, Dequeued, waits, returns, notify_shutdown}
use protocore.MessageQueue.Model.{Models}
use protocore.MessageQueue.Close.{dequeue-empty, dequeue-shutdown}
use protocore.System.{Task, System, system_alone, set_task}
use protocore.Broker.Keeps.{publish-SameTasks}
use protocore.Tasks.{
  transition_to_state, entered, safe_publish, start, spawn, stop_signal, stop_join, destroy_task,
  run_round, run_periodic_round, handle, finished, ended, went, set_queue,
}

abbrev periodic : ℕ → System → Run Bool
periodic self sys =
    let task = sys.tasks self in
    if ltb 0 task.periodic_task_interval_ms
    then spawn task.periodic_thread
    else ok task.periodic_thread

-- After a start that returned the task runs, and starting it again changes nothing.
pub start-start :
    (self : ℕ) (sys after : System)
    → start self sys ≡ ok after
    → ((after.tasks self).running ≡ true) × (start self after ≡ ok after)
unfolding start
start-start self sys after e =
    let runs : (after.tasks self).running ≡ true = elim (Bool-cases (sys.tasks self).running) [
      | inl r ↦ subst (λ (s : System). (s.tasks self).running ≡ true) (ok-injective (simp r at e)) r
      | inr r ↦
          let (q, _, e') = >>=-eq-ok (spawn (sys.tasks self).queue_thread) _ (simp r at e) in
          let (p, _, e'') = >>=-eq-ok (periodic self sys) _ e' in
          subst (λ (s : System). (s.tasks self).running ≡ true) (ok-injective e'')
            (rw (==_refl self))
    ] in
    (runs, rw runs)

pub start_from :
    (self : ℕ) (sys : System)
    → (sys.tasks self).running ≡ false
    → (sys.tasks self).queue_thread ≡ false
    → (sys.tasks self).periodic_thread ≡ false
    → start self sys
      ≡ ok (
          set_task sys self (record (sys.tasks self) {
            running = true;
            queue_thread = true;
            periodic_thread = ltb 0 (sys.tasks self).periodic_task_interval_ms;
          }))
unfolding start
start_from self sys h q p = simp (h, q, p) (ground arith)

-- A task that has stopped has both threads joined and can be started; its queue thread then runs, and
-- its periodic thread exactly with an interval above 0.
pub start-stop_join :
    (self : ℕ) (sys : System)
    → (sys.tasks self).running ≡ false
    → (after : System) × (start self (stop_join self sys) ≡ ok after)
      × ((after.tasks self).running ≡ true)
      × ((after.tasks self).queue_thread ≡ true)
      × (((after.tasks self).periodic_thread ≡ true)
          ↔ (0 < (after.tasks self).periodic_task_interval_ms))
unfolding start stop_join
start-stop_join self sys h =
    let task = record (sys.tasks self) { queue_thread = false; periodic_thread = false } in
    let joined = set_task sys self task in
    let at_self : joined.tasks self ≡ task = rw (==_refl self) in
    let timed = ltb 0 task.periodic_task_interval_ms in
    (
      set_task joined self
          (record task { running = true; queue_thread = true; periodic_thread = timed }),
      start_from self joined (rw (==_refl self) h) (rw (==_refl self)) (rw (==_refl self))
          ∙ ap
              (λ (t : Task). ok (
                set_task joined self (record t {
                  running = true;
                  queue_thread = true;
                  periodic_thread = ltb 0 t.periodic_task_interval_ms;
                })))
              at_self,
      rw (==_refl self),
      rw (==_refl self),
      rw (==_refl self) (ground arith),
    )

-- A transition that returns leaves the task in the new state and its other fields but the queue
-- alone.
pub transition-state :
    (self : ℕ) (new_state : TaskState) (sys after : System)
    → transition_to_state self new_state sys ≡ ok after
    → after.tasks self ≡ record (sys.tasks self) {
      current_state = new_state;
      message_queue = (after.tasks self).message_queue;
    }
unfolding transition_to_state safe_publish
transition-state self new_state sys after e =
    let before = entered self new_state sys in
    let (ack, _, sent) = >>=-eq-ok (make_msg (some self) _) _ e in
    let kept = publish-SameTasks ack before after (owned (before.alive self) _ sent) in
    kept.rest self
    ∙ ap (λ (t : Task). record t { message_queue = (after.tasks self).message_queue }) at_self
  where
    owned : (b : Bool) (m : Run System) → (if b then m else throws) ≡ ok after → m ≡ ok after
    owned true m e = e
    owned false m e = cc

    at_self :
        (entered self new_state sys).tasks self
        ≡ record (sys.tasks self) { current_state = new_state }
    at_self = rw (==_refl self)

notify_shutdown-shutdown : (q : MessageQueue) → (notify_shutdown q).shutdown ≡ true
unfolding notify_shutdown
notify_shutdown-shutdown q = refl

-- If the first half of `stop` returns at a running task, the state is STOPPED, neither thread's loop
-- goes round again, and a dequeue of the task's queue does not wait.
pub stop_signal-ends :
    (self : ℕ) (process : Msg → System → Run System) (periodic_process : System → Run System)
    (sys after : System)
    → (sys.tasks self).running ≡ true
    → stop_signal transition_to_state self sys ≡ ok after
    → ((after.tasks self).current_state ≡ stopped)
      × (run_round process self after ≡ ok ended)
      × (run_periodic_round periodic_process self after ≡ ok finished)
      × (dequeue (after.tasks self).message_queue ≢ ok waits)
unfolding stop_signal run_round run_periodic_round
stop_signal-ends self process periodic_process sys after runs e =
    let before = set_task sys self (record (sys.tasks self) { running = false }) in
    let signalled : Run System = transition_to_state self stopped before >>= λ done. ok (
      set_task done self (record (done.tasks self) {
        message_queue = notify_shutdown (done.tasks self).message_queue;
      })) in
    let (done, moved, ends) =
      >>=-eq-ok (transition_to_state self stopped before) _
        (ap (λ (b : Bool). if b then signalled else ok sys) (sym runs) ∙ e) in
    let left = transition-state self stopped before done moved in
    let at_before : (before.tasks self).running ≡ false = rw (==_refl self) in
    let last = record (done.tasks self) {
      message_queue = notify_shutdown (done.tasks self).message_queue;
    } in
    let at_after : after.tasks self ≡ last =
      subst (λ (s : System). s.tasks self ≡ last) (ok-injective ends) (rw (==_refl self)) in
    let rests : (after.tasks self).running ≡ false =
      ap (λ (t : Task). t.running) at_after ∙ ap (λ (t : Task). t.running) left ∙ at_before in
    let closed : (after.tasks self).message_queue.shutdown ≡ true =
      ap (λ (t : Task). t.message_queue.shutdown) at_after
      ∙ notify_shutdown-shutdown (done.tasks self).message_queue in
    (
      ap (λ (t : Task). t.current_state) at_after ∙ ap (λ (t : Task). t.current_state) left,
      rw rests,
      rw rests,
      dequeue-shutdown (after.tasks self).message_queue closed,
    )

-- A task that runs again behind a stop whose queue held nothing never waits: its queue is still shut
-- down, so a round changes only the number of the next message.
pub round-shutdown :
    (self n : ℕ) (process : Msg → System → Run System) (sys : System)
    → let q = (sys.tasks self).message_queue in
      (sys.tasks self).running ≡ true
      → q.shutdown ≡ true
      → Models n q []
      → run_round process self sys ≡ ok (went (set_queue sys self (record q { sequence = 0 })))
unfolding run_round handle
round-shutdown self n process sys runs closed m =
    let turn = dequeue (sys.tasks self).message_queue >>= handle process self sys in
    let last = record (sys.tasks self).message_queue { sequence = 0 } in
    ap (λ (b : Bool). if b then turn else ok ended) runs
    ∙ ap (λ (d : Run Dequeued). d >>= handle process self sys)
        (dequeue-empty n (sys.tasks self).message_queue m
          ∙ ap (λ (b : Bool). ok (if b then returns none last else waits)) closed)

-- Destroying a task that still runs ends the program: nothing owns the task any more, so its last
-- publication throws, out of a destructor.
pub destroy_task-running :
    (self : ℕ) (sys : System)
    → (sys.tasks self).running ≡ true
    → sys.alive self ≡ false
    → destroy_task self sys ≡ abort
unfolding destroy_task stop_signal transition_to_state safe_publish make_msg
destroy_task-running self sys runs gone = rw (runs, gone)
