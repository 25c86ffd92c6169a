-- ===== src/MessageQueue/Trace.antt =====
-- Histories of a queue: the calls of its producers and consumers, one after the other.
use protocore.Base.{◌≡◌, none, some, List, [], ◌∷◌, ◌++◌, ok}
use protocore.Msg.{Msg, less}
use protocore.MessageQueue.{MessageQueue, enqueue, dequeue, try_dequeue, notify_shutdown, returns}
use protocore.MessageQueue.Pick.{pick}

-- What a call shows: a message sent, a message taken, or neither.
pub data Event : Type 0 where
  sent took : Msg → Event
  nothing : Event

-- A call that returned.
pub data Step (q : MessageQueue) : Event → MessageQueue → Type 0 where
  enqueues : {m : Msg} {r : MessageQueue} → enqueue q m ≡ ok r → Step q (sent m) r
  dequeues : {m : Msg} {r : MessageQueue} → dequeue q ≡ ok (returns (some m) r) → Step q (took m) r
  ends : {r : MessageQueue} → dequeue q ≡ ok (returns none r) → Step q nothing r
  tries : {m : Msg} {r : MessageQueue} → try_dequeue q ≡ ok (some m, r) → Step q (took m) r
  misses : {r : MessageQueue} → try_dequeue q ≡ ok (none, r) → Step q nothing r
  closes : {r : MessageQueue} → r ≡ notify_shutdown q → Step q nothing r

pub data Trace : MessageQueue → List Event → MessageQueue → Type 0 where
  here : {q : MessageQueue} → Trace q [] q
  next :
      {q r s : MessageQueue} {e : Event} {es : List Event}
      → Step q e r
      → Trace r es s
      → Trace q (e ∷ es) s

-- The abstract queue on the same events: the messages that wait, oldest first. It gives the first
-- message among those of the highest priority.
abbrev pub Serve : List Msg → Event → List Msg → Type 0
Serve before (sent m) after = after ≡ before ++ m ∷ []
Serve [] (took m) after = ⊥
Serve (x ∷ before) (took m) after = (m ≡ (pick less x before).0) × (after ≡ (pick less x before).1)
Serve before nothing after = after ≡ before

pub data Serves : List Msg → List Event → List Msg → Type 0 where
  still : {ms : List Msg} → Serves ms [] ms
  serve :
      {ms mid ls : List Msg} {e : Event} {es : List Event}
      → Serve ms e mid
      → Serves mid es ls
      → Serves ms (e ∷ es) ls

abbrev pub sent_of : List Event → List Msg
sent_of [] = []
sent_of (sent m ∷ es) = m ∷ sent_of es
sent_of (took m ∷ es) = sent_of es
sent_of (nothing ∷ es) = sent_of es

abbrev pub taken_of : List Event → List Msg
taken_of [] = []
taken_of (sent m ∷ es) = taken_of es
taken_of (took m ∷ es) = m ∷ taken_of es
taken_of (nothing ∷ es) = taken_of es
