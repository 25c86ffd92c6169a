-- ===== src/MessageQueue/Conservation/Steps.antt =====
-- One call of a history: what it moves between the messages that wait and those taken.
use mathlib.Core.List.Perm
use mathlib.Core.List.{map-append}
use protocore.Base.{
  ℕ, ◌<◌, ◌≡◌, refl, sym, subst, ◌∙◌, Bool, true, false, Option, none, some, List, [], ◌∷◌, ◌++◌,
  map, Perm, arith, length, Run, ok, abort, undefined, if◌then◌else◌,
}
use native.Mathlib.Decide.{dec_lt}
use protocore.Msg.{Msg}
use protocore.MessageQueue.{
  MessageQueue, enqueue, dequeue, try_dequeue, notify_shutdown, waits, returns,
}
use protocore.MessageQueue.Nodes.{Node}
use protocore.MessageQueue.Model.{same_parts}
use protocore.MessageQueue.Close.{dequeue_empty_vector, try_dequeue_empty_vector}
use protocore.MessageQueue.Calls.{
  Sound, Sound-room, Sound-nil, enqueue-Sound, enqueue-abort, arrived, Took, dequeue-Took,
  try_dequeue-Took,
}
use protocore.MessageQueue.Trace.{
  Event, sent, took, nothing, Step, enqueues, dequeues, ends, tries, misses, closes,
}

abbrev pub messages_of : List Node → List Msg
messages_of = map (λ (x : Node). x.message)

abbrev pub TryResult : Type 0
TryResult = Run (Option Msg × MessageQueue)

-- How the messages that wait change with an event.
abbrev pub Moves : List Msg → Event → List Msg → Type 0
Moves before (sent m) after = after ≡ before ++ m ∷ []
Moves before (took m) after = Perm (m ∷ after) before
Moves before nothing after = after ≡ before

abbrev pub Left : ℕ → MessageQueue → List Node → Event → Type 0
Left n r ns e = (ns' : List Node) × Sound n r ns' × Moves (messages_of ns) e (messages_of ns')

module _ (n : ℕ) (q : MessageQueue) where
  pub has_room :
      (m : Msg) (r : MessageQueue) (ns : List Node)
      → Sound n q ns
      → enqueue q m ≡ ok r
      → length ns < n
  has_room m r ns s e = elim (dec_lt (length ns) n) [
    | yes h ↦ h
    | no h ↦
        let full : length ns ≡ n = omega (arith, Sound-room s) in
        absurd (clash (enqueue-abort n q m ns s full))
  ]
    where
      clash : enqueue q m ≡ abort → ⊥
      clash a = cc

  after_sending :
      (m : Msg) (r : MessageQueue) (ns : List Node)
      → Sound n q ns
      → enqueue q m ≡ ok r
      → Left n r ns (sent m)
  after_sending m r ns s e =
      let (q', made, sound, _, _) = enqueue-Sound n q m ns s (has_room m r ns s e) in
      let same : q' ≡ r = cc in
      let node = arrived n q m ns in
      (
        ns ++ node ∷ [],
        subst (λ r. Sound n r (ns ++ node ∷ [])) same sound,
        map-append (λ (x : Node). x.message) ns (node ∷ []),
      )

  after_taking :
      (m : Msg) (r : MessageQueue) (ns : List Node) (result : Msg → MessageQueue → Type 0)
      → (t : Took n q ns result) → t.top.message ≡ m
      → t.after ≡ r
      → Left n r ns (took m)
  after_taking m r ns result t same_message same_queue = (
    t.rest,
    subst (λ r. Sound n r t.rest) same_queue t.sound,
    subst (λ m. Perm (m ∷ messages_of t.rest) (messages_of ns)) same_message
        (Perm.map (λ (x : Node). x.message) t.same),
  )

  after_dequeue :
      (m : Msg) (r : MessageQueue) (ns : List Node)
      → Sound n q ns
      → dequeue q ≡ ok (returns (some m) r)
      → Left n r ns (took m)
  after_dequeue m r [] s e =
      absurd (clash q.shutdown (sym e ∙ dequeue_empty_vector q (Sound-nil s)))
    where
      clash :
          (b : Bool)
          → ok (returns (some m) r)
            ≡ ok (if b then returns none (record q { sequence = 0 }) else waits)
          → ⊥
      clash true h = cc
      clash false h = cc
  after_dequeue m r (x ∷ ns) s e =
      let t = dequeue-Took n q (x ∷ ns) s (omega arith) in
      let got : ok (returns (some t.top.message) t.after) ≡ ok (returns (some m) r) =
        sym t.gives ∙ e in
      after_taking m r (x ∷ ns) _ t (cc) (cc)

  after_end :
      (r : MessageQueue) (ns : List Node)
      → Sound n q ns
      → dequeue q ≡ ok (returns none r)
      → Left n r ns nothing
  after_end r [] s e = ([], ended q.shutdown (sym e ∙ dequeue_empty_vector q (Sound-nil s)), refl)
    where
      ended :
          (b : Bool)
          → ok (returns none r) ≡ ok (if b then returns none (record q { sequence = 0 }) else waits)
          → Sound n r []
      ended true h =
          let same : record q { sequence = 0 } ≡ r = cc in
          subst (λ r. Sound n r []) same
            (record { intact = same_parts s.intact; capacity = s.capacity })
      ended false h = cc
  after_end r (x ∷ ns) s e =
      let t = dequeue-Took n q (x ∷ ns) s (omega arith) in
      let got : ok (returns (some t.top.message) t.after) ≡ ok (returns none r) = sym t.gives ∙ e in
      cc

  after_try :
      (m : Msg) (r : MessageQueue) (ns : List Node)
      → Sound n q ns
      → try_dequeue q ≡ ok (some m, r)
      → Left n r ns (took m)
  after_try m r [] s e =
      absurd (clash q.shutdown (sym e ∙ try_dequeue_empty_vector q (Sound-nil s)))
    where
      clash :
          (b : Bool)
          → ◌≡◌ {A = TryResult} (ok (some m, r)) (if b then undefined else ok (none, q))
          → ⊥
      clash true h = cc
      clash false h = cc
  after_try m r (x ∷ ns) s e =
      let t = try_dequeue-Took n q (x ∷ ns) s (omega arith) in
      let got : ◌≡◌ {A = TryResult} (ok (some t.top.message, t.after)) (ok (some m, r)) =
        sym t.gives ∙ e in
      after_taking m r (x ∷ ns) _ t (cc) (cc)

  after_miss :
      (r : MessageQueue) (ns : List Node)
      → Sound n q ns
      → try_dequeue q ≡ ok (none, r)
      → Left n r ns nothing
  after_miss r [] s e =
      ([], missed q.shutdown (sym e ∙ try_dequeue_empty_vector q (Sound-nil s)), refl)
    where
      missed :
          (b : Bool)
          → ◌≡◌ {A = TryResult} (ok (none, r)) (if b then undefined else ok (none, q))
          → Sound n r []
      missed true h = cc
      missed false h = let same : q ≡ r = cc in subst (λ r. Sound n r []) same s
  after_miss r (x ∷ ns) s e =
      let t = try_dequeue-Took n q (x ∷ ns) s (omega arith) in
      let got : ◌≡◌ {A = TryResult} (ok (some t.top.message, t.after)) (ok (none, r)) =
        sym t.gives ∙ e in
      cc

closed-Sound :
    (n : ℕ) (q : MessageQueue) (ns : List Node) → Sound n q ns → Sound n (notify_shutdown q) ns
unfolding notify_shutdown
closed-Sound n q ns s = record { intact = same_parts s.intact; capacity = s.capacity }

pub moved_by :
    (n : ℕ) (q r : MessageQueue) (ns : List Node) (e : Event)
    → Sound n q ns
    → Step q e r
    → Left n r ns e
moved_by n q r ns (sent m) s (enqueues e) = after_sending n q m r ns s e
moved_by n q r ns (took m) s (dequeues e) = after_dequeue n q m r ns s e
moved_by n q r ns nothing s (ends e) = after_end n q r ns s e
moved_by n q r ns (took m) s (tries e) = after_try n q m r ns s e
moved_by n q r ns nothing s (misses e) = after_miss n q r ns s e
moved_by n q r ns nothing s (closes e) =
    (ns, subst (λ r. Sound n r ns) (sym e) (closed-Sound n q ns s), refl)
