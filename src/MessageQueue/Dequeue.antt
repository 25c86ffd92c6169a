-- ===== src/MessageQueue/Dequeue.antt =====
-- `dequeue` and `try_dequeue` against the abstract queue.
use protocore.Base.{
  ℕ, ◌≡◌, refl, sym, ap, subst, subst₂, ◌∙◌, List, [], ◌∷◌, map, arith, length, length-perm,
  length-map, ok, some,
}
use protocore.Msg.{Msg, less}
use protocore.MessageQueue.{MessageQueue, dequeue, try_dequeue, reset_if_empty, returns}
use protocore.MessageQueue.Nodes.{Node, node_at}
use protocore.MessageQueue.Pick.{pick, pick-map}
use protocore.MessageQueue.Model.{Holds, Models}
use protocore.MessageQueue.Removal.{
  left, picked, left-Holds, dequeue_takes, try_dequeue_takes, reset-Holds,
}

-- What a call that takes a message leaves: the queue of the others, with the flag as it was.
abbrev Taken : ℕ → MessageQueue → Msg → List Msg → (Msg → MessageQueue → Type 0) → Type 0
Taken n q m ms result =
    let (best, rest) = pick less m ms in
    (q' : MessageQueue) × result best q' × Models n q' rest × (q'.shutdown ≡ q.shutdown)

abbrev Dequeues : MessageQueue → Msg → MessageQueue → Type 0
Dequeues q best q' = dequeue q ≡ ok (returns (some best) q')

abbrev TryDequeues : MessageQueue → Msg → MessageQueue → Type 0
TryDequeues q best q' = try_dequeue q ≡ ok (some best, q')

-- The pointer and the node that stand first in a queue that is not empty.
record First (q : MessageQueue) (m : Msg) (ms : List Msg) : Type 0 where
  pointer : ℕ
  pointers : List ℕ
  node : Node
  others : List Node
  vector : q.queue ≡ pointer ∷ pointers
  holds : Holds q (node ∷ others)
  message : node.message ≡ m
  messages : map (λ (x : Node). x.message) others ≡ ms

split_list :
    (q : MessageQueue) (m : Msg) (ms : List Msg) (ps : List ℕ) (nodes : List Node)
    → q.queue ≡ ps
    → Holds q nodes
    → map (λ (x : Node). x.message) nodes ≡ m ∷ ms
    → First q m ms
split_list q m ms ps [] e h p = cc
split_list q m ms [] (a ∷ ns) e h p =
    absurd (
      omega
        (arith, ap length e, length-perm h.contents, length-map (node_at q.pool.memory) q.queue))
split_list q m ms (x ∷ xs) (a ∷ ns) e h p = record {
  pointer = x;
  pointers = xs;
  node = a;
  others = ns;
  vector = e;
  holds = h;
  message = cc;
  messages = cc;
}

module _ (n : ℕ) (q : MessageQueue) (x : ℕ) (xs : List ℕ) (a : Node) (ns : List Node)
    (h : Holds (record q { queue = x ∷ xs }) (a ∷ ns)) (e : q.pool.block_count ≡ n) where
  abbrev start : MessageQueue
  start = record q { queue = x ∷ xs }

  abbrev rest : MessageQueue
  rest = left q x xs (a ∷ ns) h.intact

  reset_keeps :
      (r : MessageQueue) (zs : List ℕ)
      → let r' = reset_if_empty (record r { queue = zs }) in
        (r'.pool.block_count ≡ r.pool.block_count) × (r'.shutdown ≡ r.shutdown)
  reset_keeps r [] = (refl, refl)
  reset_keeps r (z ∷ zs) = (refl, refl)

  taken : Taken n start a.message (map (λ (x : Node). x.message) ns) (Dequeues start)
  taken =
      let (count, flag) = reset_keeps rest rest.queue in
      rw (pick-map less (λ (x : Node). x.message) a ns) (
        reset_if_empty rest,
        dequeue_takes q x xs (a ∷ ns) h.intact
            ∙ ap (λ (n : Node). ok (returns (some n.message) (reset_if_empty rest)))
                (picked q x xs a ns h).0,
        record {
          nodes = _;
          holds = reset-Holds rest rest.queue _ (left-Holds q x xs a ns h);
          messages = refl;
          capacity = count ∙ e;
        },
        flag,
      )

  try_taken : Taken n start a.message (map (λ (x : Node). x.message) ns) (TryDequeues start)
  try_taken = rw (pick-map less (λ (x : Node). x.message) a ns) (
    rest,
    try_dequeue_takes q x xs (a ∷ ns) h.intact
        ∙ ap (λ (n : Node). ok (some n.message, rest)) (picked q x xs a ns h).0,
    record { nodes = _; holds = left-Holds q x xs a ns h; messages = refl; capacity = e },
    refl,
  )

abbrev Takes :
    (MessageQueue → Msg → MessageQueue → Type 0) → ℕ → MessageQueue → Msg → List Msg → Type 0
Takes result n q m ms = Taken n q m ms (result q)

at_first :
    (result : MessageQueue → Msg → MessageQueue → Type 0) (n : ℕ) (q : MessageQueue) (m : Msg)
    (ms : List Msg)
    → ((x : ℕ) (xs : List ℕ) (a : Node) (ns : List Node)
        → Holds (record q { queue = x ∷ xs }) (a ∷ ns)
        → Takes result n (record q { queue = x ∷ xs }) a.message (map (λ (x : Node). x.message) ns))
    → Models n q (m ∷ ms)
    → Takes result n q m ms
at_first result n q m ms step v =
    let f = split_list q m ms q.queue v.nodes refl v.holds v.messages in
    let held = subst (λ l. Holds (record q { queue = l }) (f.node ∷ f.others)) f.vector f.holds in
    let taken = step f.pointer f.pointers f.node f.others held in
    let back =
      subst
        (λ l.
          Takes result n (record q { queue = l }) f.node.message
            (map (λ (x : Node). x.message) f.others))
        (sym f.vector) taken in
    subst₂ (Takes result n q) f.message f.messages back

-- A queue that is not empty gives the first message among those of the highest priority, and keeps
-- the others in their order, whether or not it was told to shut down.
pub dequeue-Models :
    (n : ℕ) (q : MessageQueue) (m : Msg) (ms : List Msg)
    → Models n q (m ∷ ms)
    → let (best, rest) = pick less m ms in
      (q' : MessageQueue) × (dequeue q ≡ ok (returns (some best) q'))
      × Models n q' rest
      × (q'.shutdown ≡ q.shutdown)
dequeue-Models n q m ms v =
    at_first Dequeues n q m ms (λ x xs a ns h. taken n q x xs a ns h v.capacity) v

-- At a queue that is not empty `try_dequeue` gives the first message among those of the highest
-- priority and keeps the others in their order, whether or not the queue was told to shut down.
pub try_dequeue-Models :
    (n : ℕ) (q : MessageQueue) (m : Msg) (ms : List Msg)
    → Models n q (m ∷ ms)
    → let (best, rest) = pick less m ms in
      (q' : MessageQueue) × (try_dequeue q ≡ ok (some best, q'))
      × Models n q' rest
      × (q'.shutdown ≡ q.shutdown)
try_dequeue-Models n q m ms v =
    at_first TryDequeues n q m ms (λ x xs a ns h. try_taken n q x xs a ns h v.capacity) v
