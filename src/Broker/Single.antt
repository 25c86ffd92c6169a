-- ===== src/Broker/Single.antt =====
-- What `deliver_message` does to the queue of one task.
use protocore.Base.{
  ℕ, ◌+◌, ◌<◌, ◌^◌, ◌≡◌, ◌≢◌, inl, inr, refl, sym, ap, ◌∙◌, Bool, true, Bool-cases, Option, none,
  some, List, [], ◌∷◌, ◌++◌, length, ◌==◌, ==_refl, ==→eq, ok, subst,
}
use protocore.Std.Text.{String}
use protocore.Msg.{Msg, str}
use protocore.Logger.{msg_traffic}
use protocore.MessageQueue.{MessageQueue}
use protocore.MessageQueue.Model.{Models}
use protocore.MessageQueue.Enqueue.{enqueue-Models}
use protocore.System.{Task, System, set_task, log_line}
use protocore.Broker.{sender_name, deliver_message}

-- The sender of a message is absent or still there.
abbrev pub HasSender : Option ℕ → System → Type 0
HasSender none sys = Unit {0}
HasSender (some s) sys = sys.alive s ≡ true

-- The task's queue stands for these messages, and has room and numbers for one more.
pub record Ready (sys : System) (t n : ℕ) (ms : List Msg) : Type 0 where
  pub queue : Models n (sys.tasks t).message_queue ms
  pub room : length ms < n
  pub numbers : (sys.tasks t).message_queue.sequence + 1 < 2 ^ 32

-- `after` differs from `before` in what tasks have in their queues and in the log.
pub record SameBut (before after : System) : Type 0 where
  pub owners : after.alive ≡ before.alive
  pub started : after.initialized ≡ before.initialized
  pub lists : after.subscriber_lists ≡ before.subscriber_lists
  pub rest :
      (t : ℕ)
      → after.tasks t ≡ record (before.tasks t) { message_queue = (after.tasks t).message_queue }

pub HasSender-same :
    (s : Option ℕ) (a b : System) → a.alive ≡ b.alive → HasSender s a → HasSender s b
HasSender-same none a b e h = tt
HasSender-same (some s) a b e h = ap (λ (f : ℕ → Bool). f s) (sym e) ∙ h

pub name_of :
    (s : Option ℕ) (sys : System)
    → HasSender s sys
    → (name : String) × (sender_name s sys ≡ ok name)
unfolding sender_name
name_of none sys h = ("UnknownSender", refl)
name_of (some s) sys h = ((sys.tasks s).name, rw h)

pub queued-SameBut :
    (sys : System) (t : ℕ) (q : MessageQueue) (name : String) (msg : Msg)
    → SameBut sys (
        set_task
          (log_line msg_traffic name (str msg) sys)
          t
          (record (sys.tasks t) { message_queue = q }))
queued-SameBut sys t q name msg = record {
  owners = refl;
  started = refl;
  lists = refl;
  rest = λ u. elim (Bool-cases (t == u)) [
    | inl e ↦ rw e (ap (λ (v : ℕ). record (sys.tasks v) { message_queue = q }) (==→eq t u e))
    | inr e ↦ rw e
  ];
}

pub deliver_ok :
    (msg : Msg) (sys : System) (t n : ℕ) (ms : List Msg)
    → HasSender msg.sending_task sys
    → Ready sys t n ms
    → (after : System) × (deliver_message t msg sys ≡ ok after)
      × SameBut sys after
      × Models n (after.tasks t).message_queue (ms ++ msg ∷ [])
      × ((u : ℕ) → u ≢ t → after.tasks u ≡ sys.tasks u)
unfolding deliver_message
deliver_ok msg sys t n ms sender r =
    let (name, named) = name_of msg.sending_task sys sender in
    let (q, made, queued, _) =
      enqueue-Models n (sys.tasks t).message_queue msg ms r.queue r.room r.numbers in
    let task = record (sys.tasks t) { message_queue = q } in
    (
      set_task (log_line msg_traffic name (str msg) sys) t task,
      rw (named, made),
      queued-SameBut sys t q name msg,
      rw (==_refl t) queued,
      λ u apart. elim (Bool-cases (t == u)) [
        | inl e ↦ absurd (apart (sym (==→eq t u e)))
        | inr e ↦ rw e
      ],
    )

pub SameBut-refl : (sys : System) → SameBut sys sys
SameBut-refl sys = record { owners = refl; started = refl; lists = refl; rest = λ t. refl }

pub SameBut-trans : (a b c : System) → SameBut a b → SameBut b c → SameBut a c
SameBut-trans a b c p q = record {
  owners = q.owners ∙ p.owners;
  started = q.started ∙ p.started;
  lists = q.lists ∙ p.lists;
  rest = λ t.
      q.rest t
      ∙ ap (λ (task : Task). record task { message_queue = (c.tasks t).message_queue }) (p.rest t);
}

pub Ready-same :
    {a b : System} {t n : ℕ} {ms : List Msg}
    → a.tasks t ≡ b.tasks t
    → Ready a t n ms
    → Ready b t n ms
Ready-same {t = t} {n = n} {ms = ms} e r = record {
  queue = subst (λ (task : Task). Models n task.message_queue ms) e r.queue;
  room = r.room;
  numbers = subst (λ (task : Task). task.message_queue.sequence + 1 < 2 ^ 32) e r.numbers;
}
