-- ===== src/Heartbeats/Sending.antt =====
-- To whom `send_heartbeat` sends, and what it notes.
use mathlib.Core.List.{mem-cons_self, mem-cons_of_mem, not-mem-nil, Nodup-cons}
use protocore.Base.{
  ℕ, ◌+◌, ◌%◌, ◌^◌, ◌<◌, ◌≤◌, ◌≢◌, ◌++◌, length, false, some, ◌≡◌, refl, sym, ap, ◌∙◌, Bool, true,
  Bool-cases, inl, inr, List, [], ◌∷◌, Nodup, ok, ◌>>=◌, All,
}
use protocore.Msg.{Msg}
use protocore.Broker.Single.{Ready-same, SameBut-refl}
use protocore.Supervision.{TaskStatus, World, set_monitored}
use protocore.Supervision.Entries.{Table, find}
use protocore.Heartbeats.{send_heartbeat, send_entries, sent, with_entries}
use protocore.Heartbeats.Noting.{find-noted, numbers_unique}
use protocore.MessageQueue.Model.{Models}
use protocore.Heartbeats.Numbering.{
  awaited, heartbeat, idle_tasks, noted, Sent, IdleReady, sends_one, Sent-cons,
}

module _ (room : ℕ → ℕ) (inbox : ℕ → List Msg) (now : ℕ) where
  sending :
      (entries : Table TaskStatus) (w : World)
      → w.system.alive w.heart_beat.self ≡ true
      → let id = w.heart_beat.next_heartbeat_id in
        Nodup (idle_tasks entries)
        → IdleReady room inbox now (idle_tasks entries) w
        → (after : World) × (send_entries now entries w ≡ ok (noted now id entries, after))
          × Sent room inbox now id (idle_tasks entries) w after
  unfolding send_entries
  sending [] w owned d r = (
    w,
    refl,
    record {
      same = SameBut-refl w.system;
      same_manager = refl;
      next_id = refl;
      received = λ t i m. absurd (not-mem-nil m);
      others = λ t n. refl;
    },
  )
  sending ((task, status) ∷ rest) w owned d r = elim (Bool-cases status.awaiting_response) [
    | inl e ↦
        let (after, done, m) = sending rest w owned (rw e at d) (rw e at r) in
        (
          after,
          simp (e, send_entries)
              (ap (λ c. c >>= λ (later, done). ok ((task, status) ∷ later, done)) done),
          rw e m,
        )
    | inr e ↦
        let (fresh, distinct) = Nodup-cons.0 (rw e at d) in
        let ready : IdleReady room inbox now (task ∷ idle_tasks rest) w = rw e at r in
        let id = w.heart_beat.next_heartbeat_id in
        let (sys, made, same, queued, apart) =
          sends_one room inbox now task w owned (ready task mem-cons_self) in
        let mid = record w {
          system = sys;
          heart_beat = record w.heart_beat { next_heartbeat_id = (id + 1) % 2 ^ 32 };
        } in
        let (after, done, m) =
          sending rest mid (ap (λ (f : ℕ → Bool). f w.heart_beat.self) same.owners ∙ owned) distinct
            λ t i.
              Ready-same (sym (apart t (λ q. fresh (rw (← q) i))))
                (ready t (mem-cons_of_mem task i)) in
        (
          after,
          rw (e, send_entries, made)
              (ap (λ c. c >>= λ (later, done). ok ((task, sent now id status) ∷ later, done)) done),
          rw e (
              Sent-cons room inbox now task id (idle_tasks rest) w mid after fresh same refl refl
                queued apart m),
        )
  ]

-- Sending heartbeats sends one to each monitored task from which no answer is awaited, behind what
-- its queue held, the numbers counting up from the next one in the order of the entries; the number
-- and the time are noted with the task, which is then awaited, and every other task and entry stays.
-- It asks for a heart beat that a shared pointer owns, distinct tasks, and room and numbers in
-- their queues.
pub send_heartbeat-Sent :
    (room : ℕ → ℕ) (inbox : ℕ → List Msg) (w : World)
    → w.system.alive w.heart_beat.self ≡ true
    → let now = w.system.at.steady_ms in
      let id = w.heart_beat.next_heartbeat_id in
      let entries = w.heart_beat.monitored_tasks in
      Nodup (idle_tasks entries)
      → IdleReady room inbox now (idle_tasks entries) w
      → (after : World) × (send_heartbeat w
          ≡ ok
              (record after { heart_beat = set_monitored after.heart_beat (noted now id entries) }))
        × Sent room inbox now id (idle_tasks entries) w after
        × All (λ (entry : ℕ × TaskStatus). entry.1.awaiting_response ≡ true) (noted now id entries)
unfolding send_heartbeat
send_heartbeat-Sent room inbox w owned d r =
    let now = w.system.at.steady_ms in
    let (after, done, m) = sending room inbox now w.heart_beat.monitored_tasks w owned d r in
    (
      after,
      ap (λ c. c >>= λ r. ok (with_entries r)) done,
      m,
      all_awaited now w.heart_beat.next_heartbeat_id w.heart_beat.monitored_tasks,
    )
  where
    all_awaited :
        (now id : ℕ) (entries : Table TaskStatus)
        → All (λ (entry : ℕ × TaskStatus). entry.1.awaiting_response ≡ true) (noted now id entries)
    all_awaited now id [] = tt
    all_awaited now id ((task, status) ∷ rest) = elim (Bool-cases status.awaiting_response) [
      | inl e ↦ rw e (refl, all_awaited now id rest)
      | inr e ↦ rw e (refl, all_awaited now ((id + 1) % 2 ^ 32) rest)
    ]

-- Two tasks to which one sending sends get different numbers, in their messages as in their
-- entries, if at most 2 ^ 32 tasks get one. It asks for what `send_heartbeat` asks for, and a
-- counter of 32 bits.
pub send_heartbeat-distinct :
    (room : ℕ → ℕ) (inbox : ℕ → List Msg) (w : World) (t u : ℕ) (s s' : TaskStatus)
    → w.system.alive w.heart_beat.self ≡ true
    → let now = w.system.at.steady_ms in
      let entries = w.heart_beat.monitored_tasks in
      Nodup (idle_tasks entries)
      → IdleReady room inbox now (idle_tasks entries) w
      → w.heart_beat.next_heartbeat_id < 2 ^ 32
      → length (idle_tasks entries) ≤ 2 ^ 32
      → find t entries ≡ some s
      → s.awaiting_response ≡ false
      → find u entries ≡ some s'
      → s'.awaiting_response ≡ false
      → t ≢ u
      → (after : World) × (i : ℕ) × (j : ℕ) × (send_heartbeat w ≡ ok after)
        × (i ≢ j)
        × (find t after.heart_beat.monitored_tasks ≡ some (awaited now i s))
        × (find u after.heart_beat.monitored_tasks ≡ some (awaited now j s'))
        × Models
            (room t)
            (after.system.tasks t).message_queue
            (inbox t ++ heartbeat w.heart_beat.self now i ∷ [])
        × Models
            (room u)
            (after.system.tasks u).message_queue
            (inbox u ++ heartbeat w.heart_beat.self now j ∷ [])
send_heartbeat-distinct room inbox w t u s s' owned d r small few found idle found' idle' apart =
    let now = w.system.at.steady_ms in
    let id = w.heart_beat.next_heartbeat_id in
    let entries = w.heart_beat.monitored_tasks in
    let (after, made, m, _) = send_heartbeat-Sent room inbox w owned d r in
    let (i, at_i, noted_i) = find-noted now id t s entries found idle in
    let (j, at_j, noted_j) = find-noted now id u s' entries found' idle' in
    (
      _,
      i,
      j,
      made,
      λ e. apart (numbers_unique id t u j (idle_tasks entries) small few (rw e at at_i) at_j),
      noted_i,
      noted_j,
      m.received t i at_i,
      m.received u j at_j,
    )
