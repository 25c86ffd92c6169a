-- ===== src/Schedules/Ends.antt =====
-- How calls end in a system that is well formed.
use mathlib.Core.List.{mem-cons_self, mem-cons_of_mem, not-mem-nil, Nodup-cons}
use native.Mathlib.Decide.{dec_lt}
use protocore.Base.{
  AbortsIf, ReturnsIff, AbortsIf-bind, ReturnsIff-bind, widened, guarded, ℕ, ◌≡◌, ◌≢◌, refl, sym,
  ap, subst, ◌∙◌, Bool, true, false, Bool-cases, inl, inr, List, [], ◌∷◌, Mem, Nodup, Run, ok,
  abort, throws, undefined, ◌>>=◌, >>=-eq-ok, ok-injective, ◌==◌, ==→eq, arith, length, ltb,
}
use protocore.Msg.{Msg, MsgType, type_index, str}
use protocore.Logger.{msg_traffic}
use protocore.MessageQueue.{MessageQueue, enqueue}
use protocore.MessageQueue.Calls.{Sound-length, Sound-room, enqueue-Sound, enqueue-abort}
use protocore.System.{Task, System, set_task, log_line}
use protocore.Broker.{publish, deliver_message, sender_name, publish_loop, message_type_count}
use protocore.Broker.Single.{HasSender, HasSender-same, name_of}
use protocore.Broker.Delivery.{mem_other}
use protocore.Broker.Keeps.{deliver-SameBut}
use protocore.Schedules.Keeping.{Healthy, WellFormed, deliver-WellFormed}

-- All blocks of the queue's pool are in use.
abbrev pub Full : MessageQueue → Type 0
Full q = length q.queue ≡ q.pool.block_count

pub enqueue_ends : (q : MessageQueue) (m : Msg) → Healthy q → AbortsIf (Full q) (enqueue q m)
enqueue_ends q m (ns, s) = elim (dec_lt (length ns) q.pool.block_count) [
  | yes h ↦
      let (q', made, _, _, _) = enqueue-Sound q.pool.block_count q m ns s h in
      subst (AbortsIf (Full q)) (sym made) (λ e. omega (arith, Sound-length s))
  | no h ↦
      subst (AbortsIf (Full q))
        (sym (enqueue-abort q.pool.block_count q m ns s (omega (arith, Sound-room s))))
        (omega (arith, Sound-length s, Sound-room s))
]

pub deliver_ends :
    (t : ℕ) (msg : Msg) (sys : System)
    → WellFormed sys
    → HasSender msg.sending_task sys
    → AbortsIf (Full (sys.tasks t).message_queue) (deliver_message t msg sys)
unfolding deliver_message
deliver_ends t msg sys w sender =
    let (name, named) = name_of msg.sending_task sys sender in
    rw named (
      AbortsIf-bind _
        (λ q.
          set_task (log_line msg_traffic name (str msg) sys) t
            (record (sys.tasks t) { message_queue = q }))
        (enqueue (sys.tasks t).message_queue msg)
        (enqueue_ends (sys.tasks t).message_queue msg (w.queues t)))

deliver_others :
    (t : ℕ) (msg : Msg) (sys r : System)
    → deliver_message t msg sys ≡ ok r
    → (u : ℕ) → u ≢ t
    → r.tasks u ≡ sys.tasks u
unfolding deliver_message
deliver_others t msg sys r e u apart =
    let (name, _, e') = >>=-eq-ok (sender_name msg.sending_task sys) _ e in
    let (q, _, e'') = >>=-eq-ok (enqueue (sys.tasks t).message_queue msg) _ e' in
    let no : (t == u) ≡ false = ground arith in
    subst (λ (r : System). r.tasks u ≡ sys.tasks u) (ok-injective e'') (rw no refl)

-- Each live task of the list has a free block.
abbrev pub AllFree : List ℕ → System → Type 0
AllFree ts sys = (t : ℕ) → Mem t ts → sys.alive t ≡ true → ¬ Full (sys.tasks t).message_queue

module _ (msg : Msg) (t : ℕ) (ts : List ℕ) (sys mid : System) (fresh : ¬ Mem t ts)
    (delivered : deliver_message t msg sys ≡ ok mid) where
  abbrev owner : (u : ℕ) → mid.alive u ≡ sys.alive u
  owner u = ap (λ (f : ℕ → Bool). f u) (deliver-SameBut t msg sys mid delivered).owners

  same_queue : (u : ℕ) → u ≢ t → (mid.tasks u).message_queue ≡ (sys.tasks u).message_queue
  same_queue u apart =
      ap (λ (t : Task). t.message_queue) (deliver_others t msg sys mid delivered u apart)

  free_before : ¬ Full (sys.tasks t).message_queue → AllFree ts mid → AllFree (t ∷ ts) sys
  free_before room free u m l = elim (Bool-cases (u == t)) [
    | inl e ↦ rw (==→eq u t e) room
    | inr e ↦
        let apart : u ≢ t = ground arith in
        λ full.
          free u (mem_other m apart) (owner u ∙ l) (subst Full (sym (same_queue u apart)) full)
  ]

  free_behind : AllFree (t ∷ ts) sys → AllFree ts mid
  free_behind free u m l =
      let apart = λ (e : u ≡ t). fresh (subst (λ u. Mem u ts) e m) in
      λ full.
        free u (mem-cons_of_mem t m) (sym (owner u) ∙ l) (subst Full (same_queue u apart) full)

-- A task that is gone needs no block.
expired :
    (t : ℕ) (ts : List ℕ) (sys : System)
    → sys.alive t ≡ false
    → AllFree ts sys
    → AllFree (t ∷ ts) sys
expired t ts sys gone free u m l =
    let apart = λ (e : u ≡ t). clash (sys.alive t) gone (subst (λ u. sys.alive u ≡ true) e l) in
    free u (mem_other m apart) l
  where
    clash : (b : Bool) → b ≡ false → b ≡ true → ⊥
    clash b e f = cc

Loops : Msg → List ℕ → System → Type 0
Loops msg ts sys = ReturnsIff (AllFree ts sys) (publish_loop msg ts sys)

-- The loop behind the delivery to a live task.
behind :
    (msg : Msg) (t : ℕ) (ts : List ℕ) (sys : System) (c : Run System)
    → WellFormed sys
    → HasSender msg.sending_task sys
    → ¬ Mem t ts
    → sys.alive t ≡ true
    → ((mid : System) → WellFormed mid → HasSender msg.sending_task mid → Loops msg ts mid)
    → deliver_message t msg sys ≡ c
    → AbortsIf (Full (sys.tasks t).message_queue) c
    → ReturnsIff {A = List ℕ × System}
        (AllFree (t ∷ ts) sys)
        (c >>= λ delivered. publish_loop msg ts delivered >>= λ (rest, done). ok (t ∷ rest, done))
unfolding Loops
behind msg t ts sys abort w sender fresh l later e full = λ free. free t mem-cons_self l full
behind msg t ts sys throws w sender fresh l later e h = absurd h
behind msg t ts sys undefined w sender fresh l later e h = absurd h
behind msg t ts sys (ok mid) w sender fresh l later e room =
    let same = deliver-SameBut t msg sys mid e in
    ReturnsIff-bind _ (publish_loop msg ts mid) (free_before msg t ts sys mid fresh e room)
      (free_behind msg t ts sys mid fresh e)
      (later mid (deliver-WellFormed t msg sys mid w e)
        (HasSender-same msg.sending_task sys mid (sym same.owners) sender))

loop_ends :
    (msg : Msg) (ts : List ℕ) (sys : System)
    → WellFormed sys
    → HasSender msg.sending_task sys
    → Nodup ts
    → Loops msg ts sys
unfolding publish_loop Loops
loop_ends msg [] sys w sender d = λ t m. absurd (not-mem-nil m)
loop_ends msg (t ∷ ts) sys w sender d =
    let (fresh, distinct) = Nodup-cons.0 d in
    elim (Bool-cases (sys.alive t)) [
      | inl l ↦
          rw (l, publish_loop)
            (behind msg t ts sys _ w sender fresh l
              (λ mid w' s'. loop_ends msg ts mid w' s' distinct) refl
              (deliver_ends t msg sys w sender))
      | inr l ↦
          rw (l, publish_loop)
            (widened (publish_loop msg ts sys) (expired t ts sys l)
              (λ free u m. free u (mem-cons_of_mem t m)) (loop_ends msg ts sys w sender distinct))
    ]

known : (t : MsgType) → ltb (type_index t) message_type_count ≡ true
known t = ground arith

pub publish_ends :
    (msg : Msg) (sys : System)
    → WellFormed sys
    → HasSender msg.sending_task sys
    → ReturnsIff
        ((sys.initialized ≡ true) × AllFree (sys.subscriber_lists msg.msg_type) sys)
        (publish msg sys)
unfolding publish Loops
publish_ends msg sys w sender =
    guarded sys.initialized (ltb (type_index msg.msg_type) message_type_count) _ _
      (known msg.msg_type)
      (ReturnsIff-bind _ (publish_loop msg (sys.subscriber_lists msg.msg_type) sys) (λ free. free)
        (λ free. free)
        (loop_ends msg (sys.subscriber_lists msg.msg_type) sys w sender (w.lists msg.msg_type)))
