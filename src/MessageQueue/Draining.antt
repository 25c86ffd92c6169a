-- ===== src/MessageQueue/Draining.antt =====
-- What consumers get of a queue that was told to shut down (src/message_queue.cpp).
use protocore.Base.{
  ℕ, zero, suc, ◌≡◌, refl, sym, ap, subst, ◌∙◌, Bool, true, Bool-cases, inl, inr, Option, none,
  some, List, [], ◌∷◌, ◌++◌, map, arith, ok, ltb, length, length-perm, if◌then◌else◌,
}
use protocore.Msg.{Msg, less}
use protocore.MessageQueue.{MessageQueue, dequeue, notify_shutdown, returns, waits}
use protocore.MessageQueue.Pick.{pick, pick-perm}
use protocore.MessageQueue.Model.{Models}
use protocore.MessageQueue.Dequeue.{dequeue-Models}
use protocore.MessageQueue.Close.{dequeue-empty, notify_shutdown-Models, reset-Models}

-- Messages in the order of their priorities, those of one priority in the order of arrival.
abbrev pub insert : Msg → List Msg → List Msg
insert m [] = m ∷ []
insert m (x ∷ xs) =
    let rest = insert m xs in if ltb m.msg_priority x.msg_priority then x ∷ rest else m ∷ x ∷ xs

abbrev pub by_priority : List Msg → List Msg
by_priority [] = []
by_priority (m ∷ ms) = insert m (by_priority ms)

abbrev pub nothing_left : ℕ → List (Option Msg)
nothing_left zero = []
nothing_left (suc k) = none ∷ nothing_left k

-- Calls of `dequeue`, one after the other, return these results without a wait.
abbrev pub Returns : MessageQueue → List (Option Msg) → MessageQueue → Type 0
Returns q [] q' = q ≡ q'
Returns q (r ∷ rs) q' =
    (next : MessageQueue) × (dequeue q ≡ ok (returns r next)) × Returns next rs q'

by_priority-pick :
    (m : Msg) (ms : List Msg)
    → let (best, rest) = pick less m ms in by_priority (m ∷ ms) ≡ best ∷ by_priority rest
unfolding pick less
by_priority-pick m [] = refl
by_priority-pick m (x ∷ xs) = elim (Bool-cases (less m (pick less x xs).0)) [
  | inl e ↦ rw (by_priority-pick x xs, e) refl
  | inr e ↦ rw (by_priority-pick x xs, e) (ap (λ rest. m ∷ rest) (sym (by_priority-pick x xs)))
]

ends :
    (n k : ℕ) (q : MessageQueue)
    → Models n q []
    → q.shutdown ≡ true
    → (q' : MessageQueue) × Returns q (nothing_left k) q' × Models n q' []
ends n zero q v shut = (q, refl, v)
ends n (suc k) q v shut =
    let cleared = record q { sequence = 0 } in
    let (q', others, v') = ends n k cleared (reset-Models n q v) shut in
    let done : dequeue q ≡ ok (returns none cleared) =
      dequeue-empty n q v
      ∙ ap (λ (b : Bool). ok (if b then returns none cleared else waits)) shut in
    (q', (cleared, done, others), v')

drains :
    (n k left : ℕ) (q : MessageQueue) (ms : List Msg)
    → length ms ≡ left
    → Models n q ms
    → q.shutdown ≡ true
    → (q' : MessageQueue) × Returns q (map some (by_priority ms) ++ nothing_left k) q'
      × Models n q' []
drains n k left q [] e v shut = ends n k q v shut
drains n k zero q (m ∷ ms) e v shut = absurd (omega arith)
drains n k (suc left) q (m ∷ ms) e v shut =
    let (next, made, v', same) = dequeue-Models n q m ms v in
    let (best, rest) = pick less m ms in
    let (q', others, v'') =
      drains n k left next rest (omega (arith, e, length-perm (pick-perm less m ms))) v'
        (same ∙ shut) in
    (
      q',
      subst (λ ordered. Returns q (map some ordered ++ nothing_left k) q')
          (sym (by_priority-pick m ms)) (next, made, others),
      v'',
    )

-- Once a queue is told to shut down, its consumers get all messages that it holds without a wait, by
-- priority and those of one priority in the order of arrival; every further call returns nothing at
-- once, and the queue is left empty.
pub notify_shutdown-drains :
    (n k : ℕ) (q : MessageQueue) (ms : List Msg)
    → Models n q ms
    → (q' : MessageQueue) × Returns
        (notify_shutdown q)
        (map some (by_priority ms) ++ nothing_left k)
        q'
      × Models n q' []
notify_shutdown-drains n k q ms v =
    let (v', shut) = notify_shutdown-Models n q ms v in
    drains n k (length ms) (notify_shutdown q) ms refl v' shut
