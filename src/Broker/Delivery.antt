-- ===== src/Broker/Delivery.antt =====
-- What `publish` does to the queues of the subscribers.
use mathlib.Core.List.{mem-cons, mem-cons_self, mem-cons_of_mem, not-mem-nil, Nodup-cons}
use mathlib.Core.Logic.Or
use protocore.Base.{
  ℕ, ◌≡◌, ◌≢◌, ◌⊎◌, inl, inr, refl, sym, ap, ◌∙◌, Bool, true, false, Bool-cases, List, [], ◌∷◌,
  ◌++◌, Mem, Nodup, arith, ◌==◌, ==→eq, if◌then◌else◌, ok, ltb, subst,
}
use protocore.Msg.{Msg, MsgType, type_index}
use protocore.MessageQueue.Model.{Models}
use protocore.System.{Task, System}
use protocore.Broker.{publish_loop, publish, set_list, message_type_count}
use protocore.Broker.Single.{
  HasSender, Ready, SameBut, HasSender-same, deliver_ok, SameBut-refl, SameBut-trans, Ready-same,
}

-- The entries that lock.
abbrev pub live : (ℕ → Bool) → List ℕ → List ℕ
live alive [] = []
live alive (t ∷ ts) = if alive t then t ∷ live alive ts else live alive ts

-- The message came once to each live task of the list, behind what its queue held, and to no other.
pub record Published (msg : Msg) (room : ℕ → ℕ) (inbox : ℕ → List Msg) (ts : List ℕ)
    (before after : System) : Type 0 where
  pub same : SameBut before after
  pub received :
      (t : ℕ)
      → Mem t ts
      → before.alive t ≡ true
      → Models (room t) (after.tasks t).message_queue (inbox t ++ msg ∷ [])
  pub untouched : (t : ℕ) → (¬ Mem t ts) ⊎ (before.alive t ≡ false) → after.tasks t ≡ before.tasks t

pub mem_other : {t x : ℕ} {ts : List ℕ} → Mem t (x ∷ ts) → t ≢ x → Mem t ts
mem_other m apart = Or.elim squash₁ (mem-cons.0 m) (λ e. absurd (apart e)) (λ m'. m')

module _ (msg : Msg) (room : ℕ → ℕ) (inbox : ℕ → List Msg) (x : ℕ) (ts : List ℕ)
    (before : System) where
  Published-skip :
      (after : System)
      → before.alive x ≡ false
      → Published msg room inbox ts before after
      → Published msg room inbox (x ∷ ts) before after
  Published-skip after gone p = record {
    same = p.same;
    received = λ t m l. p.received t (mem_other m (λ e. cc (ap before.alive e))) l;
    untouched = λ t h.
        p.untouched t (elim h [ inl n ↦ inl (λ m. n (mem-cons_of_mem x m)) | inr dead ↦ inr dead ]);
  }

  Published-cons :
      (mid after : System)
      → ¬ Mem x ts
      → before.alive x ≡ true
      → SameBut before mid
      → Models (room x) (mid.tasks x).message_queue (inbox x ++ msg ∷ [])
      → ((u : ℕ) → u ≢ x → mid.tasks u ≡ before.tasks u)
      → Published msg room inbox ts mid after
      → Published msg room inbox (x ∷ ts) before after
  Published-cons mid after fresh l same queued others p = record {
    same = SameBut-trans before mid after same p.same;
    received = λ t m lt. elim (Bool-cases (x == t)) [
      | inl e ↦
          subst (λ t. Models (room t) (after.tasks t).message_queue (inbox t ++ msg ∷ []))
            (==→eq x t e)
            (subst (λ (task : Task). Models (room x) task.message_queue (inbox x ++ msg ∷ []))
              (sym (p.untouched x (inl fresh))) queued)
      | inr e ↦ p.received t (mem_other m (apart t e)) (ap (λ (f : ℕ → Bool). f t) same.owners ∙ lt)
    ];
    untouched = λ t h.
        p.untouched t (elim h [
          | inl n ↦ inl (λ m. n (mem-cons_of_mem x m))
          | inr dead ↦ inr (ap (λ (f : ℕ → Bool). f t) same.owners ∙ dead)
        ])
        ∙ others t (elim h [
          | inl n ↦ λ e. n (rw e mem-cons_self)
          | inr dead ↦ λ e. cc (ap before.alive e)
        ]);
  }
    where
      apart : (t : ℕ) → (x == t) ≡ false → t ≢ x
      apart t e = ground arith

module _ (msg : Msg) (room : ℕ → ℕ) (inbox : ℕ → List Msg) where
  abbrev pub AllReady : List ℕ → System → Type 0
  AllReady ts sys = (t : ℕ) → Mem t ts → sys.alive t ≡ true → Ready sys t (room t) (inbox t)

  loop_publishes :
      (ts : List ℕ) (before : System)
      → HasSender msg.sending_task before
      → Nodup ts
      → AllReady ts before
      → (after : System) × (publish_loop msg ts before ≡ ok (live before.alive ts, after))
        × Published msg room inbox ts before after
  unfolding publish_loop
  loop_publishes [] before sender d r = (
    before,
    refl,
    record {
      same = SameBut-refl before;
      received = λ t m. absurd (not-mem-nil m);
      untouched = λ t h. refl;
    },
  )
  loop_publishes (x ∷ ts) before sender d r = elim (Bool-cases (before.alive x)) [
    | inl e ↦
        let (mid, delivered, same, queued, others) =
          deliver_ok msg before x (room x) (inbox x) sender (r x mem-cons_self e) in
        let (fresh, distinct) = Nodup-cons.0 d in
        let (after, sent, p) =
          loop_publishes ts mid
            (HasSender-same msg.sending_task before mid (sym same.owners) sender) distinct
            λ t m l.
              Ready-same (sym (others t (λ (q : t ≡ x). fresh (rw (← q) m))))
                (r t (mem-cons_of_mem x m) (ap (λ (f : ℕ → Bool). f t) (sym same.owners) ∙ l)) in
        (
          after,
          rw (e, publish_loop, delivered, sent, same.owners),
          Published-cons msg room inbox x ts before mid after fresh e same queued others p,
        )
    | inr e ↦
        let (after, sent, p) =
          loop_publishes ts before sender (Nodup-cons.0 d).1 (λ t m. r t (mem-cons_of_mem x m)) in
        (after, rw (e, publish_loop) sent, Published-skip msg room inbox x ts before after e p)
  ]

-- Publishing sends the message once to each live subscriber of its type, behind what the task's
-- queue held, leaves every other task and the rest of these tasks alone, and takes the entries of
-- tasks that are gone off this type's list. It asks for an initialized broker, a sender that is
-- there, a list without duplicates, and room and numbers in the live subscribers'
-- queues.
pub publish-delivers :
    (msg : Msg) (room : ℕ → ℕ) (inbox : ℕ → List Msg) (before : System)
    → let subscribers = before.subscriber_lists msg.msg_type in
      before.initialized ≡ true
      → HasSender msg.sending_task before
      → Nodup subscribers
      → AllReady msg room inbox subscribers before
      → (after : System) × (publish msg before
          ≡ ok (record after {
            subscriber_lists =
                set_list before.subscriber_lists msg.msg_type (live before.alive subscribers);
          }))
        × Published msg room inbox subscribers before after
unfolding publish
publish-delivers msg room inbox before started sender d r =
    let (after, sent, p) =
      loop_publishes msg room inbox (before.subscriber_lists msg.msg_type) before sender d r in
    (
      after,
      sends after (live before.alive (before.subscriber_lists msg.msg_type)) sent p.same.lists,
      p,
    )
  where
    known : (t : MsgType) → ltb (type_index t) message_type_count ≡ true
    known t = ground arith

    sends :
        (done : System) (rest : List ℕ)
        → publish_loop msg (before.subscriber_lists msg.msg_type) before ≡ ok (rest, done)
        → done.subscriber_lists ≡ before.subscriber_lists
        → publish msg before
          ≡ ok (record done {
            subscriber_lists = set_list before.subscriber_lists msg.msg_type rest;
          })
    sends done rest e f = simp (started, known msg.msg_type, e, f)
