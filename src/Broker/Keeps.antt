-- ===== src/Broker/Keeps.antt =====
-- What a publication that returns leaves alone: all but the queues, the log and the lists.
use protocore.Base.{
  ℕ, ◌≡◌, ap, subst, Bool-cases, inl, inr, List, [], ◌∷◌, ok, >>=-eq-ok, ok-injective, assert-ok,
  ltb,
}
use protocore.Msg.{Msg, type_index}
use protocore.MessageQueue.{enqueue}
use protocore.System.{System}
use protocore.Broker.{sender_name, deliver_message, publish_loop, publish, message_type_count}
use protocore.Broker.Single.{SameBut-refl, SameBut-trans}
use protocore.Broker.Single.{SameBut, queued-SameBut}

pub deliver-SameBut :
    (t : ℕ) (msg : Msg) (sys after : System)
    → deliver_message t msg sys ≡ ok after
    → SameBut sys after
unfolding deliver_message
deliver-SameBut t msg sys after e =
    let (name, named, e') = >>=-eq-ok (sender_name msg.sending_task sys) _ e in
    let (q, queued, e'') = >>=-eq-ok (enqueue (sys.tasks t).message_queue msg) _ e' in
    subst (SameBut sys) (ok-injective e'') (queued-SameBut sys t q name msg)

loop-SameBut :
    (msg : Msg) (ts rest : List ℕ) (sys after : System)
    → publish_loop msg ts sys ≡ ok (rest, after)
    → SameBut sys after
unfolding publish_loop
loop-SameBut msg [] rest sys after e =
    subst (SameBut sys) (ap (λ r. r.1) (ok-injective e)) (SameBut-refl sys)
loop-SameBut msg (t ∷ ts) rest sys after e = elim (Bool-cases (sys.alive t)) [
  | inl l ↦
      let (mid, delivered, e') =
        >>=-eq-ok (deliver_message t msg sys) _ (rw (l, publish_loop) at e) in
      let ((rest', done), looped, e'') = >>=-eq-ok (publish_loop msg ts mid) _ e' in
      let same : done ≡ after = ap (λ r. r.1) (ok-injective e'') in
      subst (SameBut sys) same (
        SameBut-trans sys mid done (deliver-SameBut t msg sys mid delivered)
          (loop-SameBut msg ts rest' mid done looped))
  | inr l ↦ loop-SameBut msg ts rest sys after (rw (l, publish_loop) at e)
]

-- Two systems whose tasks differ in their queues alone.
pub record SameTasks (before after : System) : Type 0 where
  pub owners : after.alive ≡ before.alive
  pub rest :
      (t : ℕ)
      → after.tasks t ≡ record (before.tasks t) { message_queue = (after.tasks t).message_queue }

pub publish-SameTasks :
    (msg : Msg) (sys after : System) → publish msg sys ≡ ok after → SameTasks sys after
unfolding publish
publish-SameTasks msg sys after e =
    let ts = sys.subscriber_lists msg.msg_type in
    let ((rest, done), looped, e') = >>=-eq-ok (publish_loop msg ts sys) _ (
      assert-ok (ltb (type_index msg.msg_type) message_type_count) _
        (assert-ok sys.initialized _ e)) in
    let kept = loop-SameBut msg ts rest sys done looped in
    subst (SameTasks sys) (ok-injective e') (record { owners = kept.owners; rest = kept.rest })
