-- ===== src/Heartbeats/Numbering.antt =====
-- The numbers of heartbeats, and the sending of one after the other.
use mathlib.Core.List.{mem-cons, mem-cons_self, mem-cons_of_mem, not-mem-nil}
use mathlib.Core.Logic.Or
use protocore.Base.{
  ℕ, ◌+◌, ◌%◌, ◌^◌, ◌≡◌, ◌≢◌, sym, ap, subst, ◌∙◌, true, false, Bool-cases, inl, inr, some, List,
  [], ◌∷◌, ◌++◌, Mem, Run, ok, ◌>>=◌, if◌then◌else◌, ◌==◌, ==→eq, arith,
}
use native.Mathlib.Nat.{ℕ_set}
use protocore.Msg.{Msg, of_heartbeat, make_msg}
use protocore.Msg.Laws.{message}
use protocore.MessageQueue.Model.{Models}
use protocore.System.{Task, System}
use protocore.Broker.Single.{Ready, deliver_ok, SameBut, SameBut-trans}
use protocore.Supervision.{HeartBeat, TaskStatus, World}
use protocore.Supervision.Entries.{Table}
use protocore.Heartbeats.{send_to, generate_heartbeat_id}

-- The tasks from which no answer is awaited.
abbrev pub idle_tasks : Table TaskStatus → List ℕ
idle_tasks [] = []
idle_tasks ((task, status) ∷ rest) =
    let later = idle_tasks rest in if status.awaiting_response then later else task ∷ later

-- The heartbeat with the number `id`.
abbrev pub heartbeat : ℕ → ℕ → ℕ → Msg
heartbeat self now id =
    message (some self) (of_heartbeat (record { unique_id = id; timestamp = now }))

-- The numbers that the tasks got, from `id` on, each with the task.
abbrev pub numbers : ℕ → List ℕ → List (ℕ × ℕ)
numbers id [] = []
numbers id (task ∷ rest) = (task, id) ∷ numbers ((id + 1) % 2 ^ 32) rest

-- The entry of a task that was sent the heartbeat `id` at the time `now`.
abbrev pub awaited : ℕ → ℕ → TaskStatus → TaskStatus
awaited now id status = record {
  awaiting_response = true;
  last_heartbeat_id = id;
  last_heartbeat_time = now;
  last_response_time = status.last_response_time;
}

-- The entries behind a sending.
abbrev pub noted : ℕ → ℕ → Table TaskStatus → Table TaskStatus
noted now id [] = []
noted now id ((task, status) ∷ rest) =
    if status.awaiting_response
    then (task, status) ∷ noted now id rest
    else (task, awaited now id status) ∷ noted now ((id + 1) % 2 ^ 32) rest

abbrev pub advanced : ℕ → List ℕ → ℕ
advanced id [] = id
advanced id (task ∷ rest) = advanced ((id + 1) % 2 ^ 32) rest

-- Each of the tasks `ts` has its heartbeat, numbered from `id` on, behind what its queue held; other
-- tasks are as before.
pub record Sent (room : ℕ → ℕ) (inbox : ℕ → List Msg) (now id : ℕ) (ts : List ℕ)
    (before after : World) : Type 0 where
  pub same : SameBut before.system after.system
  pub same_manager : after.manager ≡ before.manager
  pub next_id : after.heart_beat ≡ record before.heart_beat { next_heartbeat_id = advanced id ts }
  pub received :
      (t i : ℕ)
      → Mem (t, i) (numbers id ts)
      → Models
          (room t)
          (after.system.tasks t).message_queue
          (inbox t ++ heartbeat before.heart_beat.self now i ∷ [])
  pub others : (t : ℕ) → ¬ Mem t ts → after.system.tasks t ≡ before.system.tasks t

numbered : (t i id : ℕ) (ts : List ℕ) → Mem (t, i) (numbers id ts) → Mem t ts
numbered t i id [] m = absurd (not-mem-nil m)
numbered t i id (x ∷ ts) m =
    Or.elim squash₁ (mem-cons.0 m) (λ e. rw (ap (λ (p : ℕ × ℕ). p.0) e) mem-cons_self)
      (λ m'. mem-cons_of_mem x (numbered t i ((id + 1) % 2 ^ 32) ts m'))

module _ (room : ℕ → ℕ) (inbox : ℕ → List Msg) (now : ℕ) where
  abbrev pub IdleReady : List ℕ → World → Type 0
  IdleReady ts w = (t : ℕ) → Mem t ts → Ready w.system t (room t) (inbox t)

  pub sends_one :
      (task : ℕ) (w : World)
      → w.system.alive w.heart_beat.self ≡ true
      → Ready w.system task (room task) (inbox task)
      → let id = w.heart_beat.next_heartbeat_id in
        (after : System) × (send_to now task w
          ≡ ok (
            id,
            record w {
              system = after;
              heart_beat = record w.heart_beat { next_heartbeat_id = (id + 1) % 2 ^ 32 };
            },
          ))
        × SameBut w.system after
        × Models
            (room task)
            (after.tasks task).message_queue
            (inbox task ++ heartbeat w.heart_beat.self now id ∷ [])
        × ((t : ℕ) → t ≢ task → after.tasks t ≡ w.system.tasks t)
  unfolding send_to make_msg generate_heartbeat_id
  sends_one task w owned r =
      let id = w.heart_beat.next_heartbeat_id in
      let (after, delivered, same, queued, apart) =
        deliver_ok (heartbeat w.heart_beat.self now id) w.system task (room task) (inbox task) owned
          r in
      (
        after,
        ap
            (λ (s : Run System). s >>= λ system. ok (
              id,
              record w {
                system = system;
                heart_beat = record w.heart_beat { next_heartbeat_id = (id + 1) % 2 ^ 32 };
              },
            ))
            delivered,
        same,
        queued,
        apart,
      )

  pub Sent-cons :
      (x id : ℕ) (ts : List ℕ) (before mid after : World)
      → ¬ Mem x ts
      → SameBut before.system mid.system
      → mid.manager ≡ before.manager
      → mid.heart_beat ≡ record before.heart_beat { next_heartbeat_id = (id + 1) % 2 ^ 32 }
      → Models
          (room x)
          (mid.system.tasks x).message_queue
          (inbox x ++ heartbeat before.heart_beat.self now id ∷ [])
      → ((t : ℕ) → t ≢ x → mid.system.tasks t ≡ before.system.tasks t)
      → Sent room inbox now ((id + 1) % 2 ^ 32) ts mid after
      → Sent room inbox now id (x ∷ ts) before after
  Sent-cons x id ts before mid after fresh same same_manager beat queued apart m = record {
    same = SameBut-trans before.system mid.system after.system same m.same;
    same_manager = m.same_manager ∙ same_manager;
    next_id =
        m.next_id
        ∙ ap (λ (h : HeartBeat). record h { next_heartbeat_id = advanced ((id + 1) % 2 ^ 32) ts })
            beat;
    received = λ t i n. elim (Bool-cases (t == x)) [
      | inl e ↦
          subst
            (λ (p : ℕ × ℕ).
              Models (room p.0) (after.system.tasks p.0).message_queue
                (inbox p.0 ++ heartbeat before.heart_beat.self now p.1 ∷ []))
            (sym (here t i (==→eq t x e) n))
            (subst
              (λ (task : Task).
                Models (room x) task.message_queue
                  (inbox x ++ heartbeat before.heart_beat.self now id ∷ []))
              (sym (m.others x fresh)) queued)
      | inr e ↦
          subst
            (λ (h : HeartBeat).
              Models (room t) (after.system.tasks t).message_queue
                (inbox t ++ heartbeat h.self now i ∷ []))
            beat (m.received t i (later t i e n))
    ];
    others =
        λ t n. m.others t (λ i. n (mem-cons_of_mem x i)) ∙ apart t (λ e. n (rw e mem-cons_self));
  }
    where
      apart_from : (t : ℕ) → (t == x) ≡ false → t ≡ x → ⊥
      apart_from t e p = ground arith

      pairs : IsSet (ℕ × ℕ)
      pairs = hlevel ℕ_set

      here :
          (t i : ℕ)
          → t ≡ x
          → Mem (t, i) ((x, id) ∷ numbers ((id + 1) % 2 ^ 32) ts)
          → ◌≡◌ {A = ℕ × ℕ} (t, i) (x, id)
      here t i e n =
          Or.elim (pairs _ _) (mem-cons.0 n) (λ p. p)
            (λ n'. absurd (fresh (rw (← e) (numbered t i ((id + 1) % 2 ^ 32) ts n'))))

      later :
          (t i : ℕ)
          → (t == x) ≡ false
          → Mem (t, i) ((x, id) ∷ numbers ((id + 1) % 2 ^ 32) ts)
          → Mem (t, i) (numbers ((id + 1) % 2 ^ 32) ts)
      later t i e n =
          Or.elim squash₁ (mem-cons.0 n) (λ p. absurd (apart_from t e (ap (λ (q : ℕ × ℕ). q.0) p)))
            (λ n'. n')
