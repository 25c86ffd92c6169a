-- ===== src/MessageQueue/Conservation.antt =====
-- Where the messages of a history go; the sequence numbers may wrap.
pub mod Steps
use mathlib.Core.List.Perm
use mathlib.Core.List.{append_assoc, append-nil}
use protocore.Base.{
  Returns, AbortsIf, UndefinedIf, ℕ, ◌+◌, ◌≤◌, ◌<◌, ◌≡◌, refl, sym, ap, subst, ◌∙◌, Bool, true,
  false, Option, none, List, [], ◌∷◌, ◌++◌, Perm, arith, length, length-map, ok, undefined,
  if◌then◌else◌,
}
use native.Mathlib.Decide.{dec_lt}
use protocore.MemoryPool.{sizeof_pointer}
use protocore.Msg.{Msg}
use protocore.MessageQueue.{MessageQueue, make_queue, enqueue, dequeue, try_dequeue, waits, returns}
use protocore.MessageQueue.Nodes.{Node}
use protocore.MessageQueue.Model.{Intact}
use protocore.MessageQueue.Enqueue.{make_queue-Models}
use protocore.MessageQueue.Close.{dequeue_empty_vector, try_dequeue_empty_vector}
use protocore.MessageQueue.Calls.{
  Sound, Sound-room, Sound-nil, enqueue-Sound, enqueue-abort, dequeue-Took, try_dequeue-Took,
}
use protocore.MessageQueue.Trace.{Event, sent, took, nothing, Trace, here, next, sent_of, taken_of}
use Steps.{messages_of, Moves, moved_by}

kept_by :
    (n : ℕ) (q r : MessageQueue) (ns : List Node) (es : List Event)
    → Sound n q ns
    → Trace q es r
    → (ns' : List Node) × Sound n r ns'
      × Perm (taken_of es ++ messages_of ns') (messages_of ns ++ sent_of es)
kept_by n q r ns [] s here = (ns, s, rw (append-nil (messages_of ns)) Perm.rfl)
kept_by n q r ns (e ∷ es) s (next {r = mid} step rest) =
    let (ns', s', moved) = moved_by n q mid ns e s step in
    let (ns'', s'', kept) = kept_by n mid r ns' es s' rest in
    (ns'', s'', joined e es ns' ns'' moved kept)
  where
    joined :
        (e : Event) (es : List Event) (ns' ns'' : List Node)
        → Moves (messages_of ns) e (messages_of ns')
        → Perm (taken_of es ++ messages_of ns'') (messages_of ns' ++ sent_of es)
        → Perm (taken_of (e ∷ es) ++ messages_of ns'') (messages_of ns ++ sent_of (e ∷ es))
    joined (sent m) es ns' ns'' moved kept =
        subst (Perm (taken_of es ++ messages_of ns''))
          (ap (λ ms. ms ++ sent_of es) moved ∙ append_assoc (messages_of ns) (m ∷ []) (sent_of es))
          kept
    joined (took m) es ns' ns'' moved kept =
        Perm.trans (Perm.cons m kept) (Perm.append_right (sent_of es) moved)
    joined nothing es ns' ns'' moved kept =
        subst (λ ms. Perm (taken_of es ++ messages_of ns'') (ms ++ sent_of es)) moved kept

-- A new queue of `n` blocks holds no node.
pub made-Sound :
    (pool_data msg_size n : ℕ) (q : MessageQueue)
    → 0 < n
    → sizeof_pointer < msg_size
    → make_queue pool_data msg_size n ≡ ok q
    → Sound n q []
made-Sound pool_data msg_size n q h s e =
    let (q', made, m, _) = make_queue-Models pool_data msg_size n h s in
    let same : q' ≡ q = cc in
    let none_left = no_nodes m.nodes m.messages in
    subst (λ q. Sound n q []) same
      (record { intact = subst (Intact q') none_left m.holds.intact; capacity = m.capacity })
  where
    no_nodes : (ns : List Node) → messages_of ns ≡ [] → ns ≡ []
    no_nodes [] e = refl
    no_nodes (x ∷ ns) e = cc

module _ (n : ℕ) (q : MessageQueue) where
  enqueue_ends :
      (ns : List Node)
      → Sound n q ns
      → (m : Msg) → AbortsIf (length (messages_of ns) ≡ n) (enqueue q m)
  enqueue_ends ns s m = elim (dec_lt (length ns) n) [
    | yes h ↦
        let (q', made, _, _, _) = enqueue-Sound n q m ns s h in
        subst (AbortsIf (length (messages_of ns) ≡ n)) (sym made)
          (λ e. omega (arith, length-map (λ (x : Node). x.message) ns))
    | no h ↦
        subst (AbortsIf (length (messages_of ns) ≡ n))
          (sym (enqueue-abort n q m ns s (omega (arith, Sound-room s))))
          (omega (arith, length-map (λ (x : Node). x.message) ns, Sound-room s))
  ]

  pub dequeue_ends : (ns : List Node) → Sound n q ns → Returns (dequeue q)
  dequeue_ends [] s = subst Returns (sym (dequeue_empty_vector q (Sound-nil s))) tt
  dequeue_ends (x ∷ ns) s = subst Returns (sym (dequeue-Took n q (x ∷ ns) s (omega arith)).gives) tt

  try_dequeue_ends :
      (ns : List Node)
      → Sound n q ns
      → UndefinedIf ((q.shutdown ≡ true) × (messages_of ns ≡ [])) (try_dequeue q)
  try_dequeue_ends [] s =
      subst (UndefinedIf ((q.shutdown ≡ true) × (messages_of [] ≡ [])))
        (sym (try_dequeue_empty_vector q (Sound-nil s))) (at_flag q.shutdown refl)
    where
      at_flag :
          (b : Bool)
          → q.shutdown ≡ b
          → UndefinedIf {A = Option Msg × MessageQueue}
              ((q.shutdown ≡ true) × (messages_of [] ≡ []))
              (if b then undefined else ok (none, q))
      at_flag true e = (e, refl)
      at_flag false e = λ (h, _). cc
  try_dequeue_ends (x ∷ ns) s =
      subst (UndefinedIf ((q.shutdown ≡ true) × (messages_of (x ∷ ns) ≡ [])))
        (sym (try_dequeue-Took n q (x ∷ ns) s (omega arith)).gives) (λ (_, h). cc)

-- Whatever calls a new queue has served, however often its sequence number has wrapped, the messages
-- taken and those that still wait are the messages sent, each as often; at most `n` wait. A further
-- `enqueue` fails its assertion exactly if `n` wait and is never undefined, a `dequeue` returns or
-- waits, and `try_dequeue` is undefined exactly on a queue that is shut down and empty, and else
-- returns.
pub Trace-conserves :
    (pool_data msg_size n : ℕ) (q r : MessageQueue) (es : List Event)
    → 0 < n
    → sizeof_pointer < msg_size
    → make_queue pool_data msg_size n ≡ ok q
    → Trace q es r
    → (waiting : List Msg) × Perm (taken_of es ++ waiting) (sent_of es)
      × (length waiting ≤ n)
      × ((m : Msg) → AbortsIf (length waiting ≡ n) (enqueue r m))
      × Returns (dequeue r)
      × UndefinedIf ((r.shutdown ≡ true) × (waiting ≡ [])) (try_dequeue r)
Trace-conserves pool_data msg_size n q r es h s made t =
    let (ns, sound, kept) = kept_by n q r [] es (made-Sound pool_data msg_size n q h s made) t in
    (
      messages_of ns,
      kept,
      omega (arith, Sound-room sound, length-map (λ (x : Node). x.message) ns),
      enqueue_ends n r ns sound,
      dequeue_ends n r ns sound,
      try_dequeue_ends n r ns sound,
    )
