-- ===== src/Schedules/Keeping.antt =====
-- The invariant of a system, and the calls of the broker.
use mathlib.Core.List.{mem-cons, mem-cons_self, mem-cons_of_mem, Nodup-cons}
use mathlib.Core.Logic.Or
use protocore.Base.{
  ℕ, zero, suc, ◌≡◌, ◌≢◌, refl, sym, ap, subst, ◌∙◌, Bool, true, false, Bool-cases, inl, inr, List,
  [], ◌∷◌, Mem, Nodup, Run, ok, abort, >>=-eq-ok, ok-injective, assert-ok, ltb, ◌==◌, ==→eq,
  if◌then◌else◌, arith,
}
use protocore.Msg.{
  Msg, MsgType, type_index, state_msg, state_ack_msg, heartbeat_msg, heartbeat_ack_msg, str,
}
use protocore.MessageQueue.{MessageQueue, enqueue}
use protocore.MessageQueue.Nodes.{Node}
use protocore.MessageQueue.Calls.{Sound}
use protocore.MessageQueue.Trace.{Event, Step, enqueues}
use protocore.MessageQueue.Conservation.Steps.{moved_by}
use protocore.System.{Task, System, set_task, log_line}
use protocore.Broker.{
  publish, subscribe, deliver_message, sender_name, publish_loop, message_type_count, set_list,
}
use protocore.Logger.{msg_traffic}
use protocore.Broker.Keeps.{deliver-SameBut}
use protocore.Broker.Delivery.{live}
use protocore.Broker.Subscribers.{subscribe-Nodup}

abbrev pub Healthy : MessageQueue → Type 0
Healthy q = (ns : List Node) × Sound q.pool.block_count q ns

pub record WellFormed (sys : System) : Type 0 where
  pub queues : (t : ℕ) → Healthy (sys.tasks t).message_queue
  pub lists : (type : MsgType) → Nodup (sys.subscriber_lists type)

pub stepped : {q r : MessageQueue} {e : Event} → Step q e r → Healthy q → Healthy r
stepped {q = q} {r = r} {e = e} step (ns, s) =
    let (ns', s', _) = moved_by q.pool.block_count q r ns e s step in
    (ns', record { intact = s'.intact; capacity = refl })

pub placed-WellFormed :
    (t : ℕ) (task : Task) (sys : System)
    → WellFormed sys
    → Healthy task.message_queue
    → WellFormed (set_task sys t task)
placed-WellFormed t task sys w h = record {
  queues = λ u. elim (Bool-cases (t == u)) [ inl e ↦ rw e h | inr e ↦ rw e (w.queues u) ];
  lists = w.lists;
}

pub deliver-WellFormed :
    (t : ℕ) (msg : Msg) (sys r : System)
    → WellFormed sys
    → deliver_message t msg sys ≡ ok r
    → WellFormed r
unfolding deliver_message
deliver-WellFormed t msg sys r w e =
    let (name, _, e') = >>=-eq-ok (sender_name msg.sending_task sys) _ e in
    let (q, queued, e'') = >>=-eq-ok (enqueue (sys.tasks t).message_queue msg) _ e' in
    let logged = log_line msg_traffic name (str msg) sys in
    subst WellFormed (ok-injective e'') (
      placed-WellFormed t (record (sys.tasks t) { message_queue = q }) logged
        (record { queues = w.queues; lists = w.lists }) (stepped (enqueues queued) (w.queues t)))

live-Mem : (alive : ℕ → Bool) (t : ℕ) (ts : List ℕ) → Mem t (live alive ts) → Mem t ts
live-Mem alive t [] m = m
live-Mem alive t (x ∷ ts) m = elim (Bool-cases (alive x)) [
  | inl e ↦
      Or.elim squash₁ (mem-cons.0 (rw e at m)) (λ p. rw p mem-cons_self)
        (λ k. mem-cons_of_mem x (live-Mem alive t ts k))
  | inr e ↦ mem-cons_of_mem x (live-Mem alive t ts (rw e at m))
]

live-Nodup : (alive : ℕ → Bool) (ts : List ℕ) → Nodup ts → Nodup (live alive ts)
live-Nodup alive [] d = d
live-Nodup alive (x ∷ ts) d =
    let (fresh, distinct) = Nodup-cons.0 d in
    elim (Bool-cases (alive x)) [
      | inl e ↦
          rw e (Nodup-cons.1 (λ m. fresh (live-Mem alive x ts m), live-Nodup alive ts distinct))
      | inr e ↦ rw e (live-Nodup alive ts distinct)
    ]

loop-WellFormed :
    (msg : Msg) (ts rest : List ℕ) (sys r : System)
    → WellFormed sys
    → publish_loop msg ts sys ≡ ok (rest, r)
    → WellFormed r × (rest ≡ live sys.alive ts)
unfolding publish_loop
loop-WellFormed msg [] rest sys r w e =
    let same = ok-injective e in (subst WellFormed (ap (λ r. r.1) same) w, sym (ap (λ r. r.0) same))
loop-WellFormed msg (t ∷ ts) rest sys r w e = elim (Bool-cases (sys.alive t)) [
  | inl l ↦
      let (mid, delivered, e') =
        >>=-eq-ok (deliver_message t msg sys) _ (rw (l, publish_loop) at e) in
      let ((rest', done), looped, e'') = >>=-eq-ok (publish_loop msg ts mid) _ e' in
      let same = ok-injective e'' in
      let (kept, left) =
        loop-WellFormed msg ts rest' mid done (deliver-WellFormed t msg sys mid w delivered)
          looped in
      let owners = (deliver-SameBut t msg sys mid delivered).owners in
      (
        subst WellFormed (ap (λ r. r.1) same) kept,
        rw l (sym (ap (λ r. r.0) same) ∙ ap (λ ts. t ∷ ts) (left ∙ ap (λ f. live f ts) owners)),
      )
  | inr l ↦
      let (kept, left) = loop-WellFormed msg ts rest sys r w (rw (l, publish_loop) at e) in
      (kept, rw l left)
]

of_index : ℕ → MsgType
of_index zero = state_msg
of_index (suc zero) = state_ack_msg
of_index (suc (suc zero)) = heartbeat_msg
of_index (suc (suc (suc n))) = heartbeat_ack_msg

index_back : (t : MsgType) → of_index (type_index t) ≡ t
unfolding of_index
index_back state_msg = refl
index_back state_ack_msg = refl
index_back heartbeat_msg = refl
index_back heartbeat_ack_msg = refl

-- A list that is replaced by one without duplicates.
set_list-Nodup :
    (lists : MsgType → List ℕ) (type u : MsgType) (l : List ℕ)
    → ((u : MsgType) → Nodup (lists u))
    → Nodup l
    → Nodup (set_list lists type l u)
set_list-Nodup lists type u l d h = elim (Bool-cases (type_index type == type_index u)) [
  | inl e ↦ rw e h
  | inr e ↦ rw e (d u)
]

pub publish-WellFormed :
    (msg : Msg) (sys r : System) → WellFormed sys → publish msg sys ≡ ok r → WellFormed r
unfolding publish
publish-WellFormed msg sys r w e =
    let ts = sys.subscriber_lists msg.msg_type in
    let ((rest, done), looped, e') = >>=-eq-ok (publish_loop msg ts sys) _ (
      assert-ok (ltb (type_index msg.msg_type) message_type_count) _
        (assert-ok sys.initialized _ e)) in
    let (kept, left) = loop-WellFormed msg ts rest sys done w looped in
    subst WellFormed (ok-injective e') (record {
      queues = kept.queues;
      lists = λ u.
          set_list-Nodup done.subscriber_lists msg.msg_type u rest kept.lists
            (subst Nodup (sym left) (live-Nodup sys.alive ts (w.lists msg.msg_type)));
    })

subscribe-initialized :
    (t : ℕ) (type : MsgType) (sys r : System) → subscribe t type sys ≡ ok r → sys.initialized ≡ true
unfolding subscribe
subscribe-initialized t type sys r e = held sys.initialized _ e
  where
    held : (b : Bool) (m : Run System) → (if b then m else abort) ≡ ok r → b ≡ true
    held true m e = refl
    held false m e = cc

pub subscribe-WellFormed :
    (t : ℕ) (type : MsgType) (sys r : System)
    → WellFormed sys
    → sys.alive t ≡ true
    → subscribe t type sys ≡ ok r
    → WellFormed r
subscribe-WellFormed t type sys r w l e =
    let (lists, made, d, _, others) =
      subscribe-Nodup t type sys (subscribe-initialized t type sys r e) l (w.lists type) in
    let same : record sys { subscriber_lists = lists } ≡ r = ok-injective (sym made ∙ e) in
    subst WellFormed same (record {
      queues = w.queues;
      lists = λ u. elim (Bool-cases (type_index u == type_index type)) [
        | inl p ↦
            subst (λ u. Nodup (lists u))
              (sym (sym (index_back u) ∙ ap of_index (==→eq _ _ p) ∙ index_back type)) d
        | inr p ↦
            let apart : type_index u ≢ type_index type = ground arith in
            subst Nodup (sym (others u apart)) (w.lists u)
      ];
    })
