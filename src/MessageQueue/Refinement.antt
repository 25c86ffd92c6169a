-- ===== src/MessageQueue/Refinement.antt =====
-- Histories against those of the abstract queue.
pub mod Steps
use protocore.Base.{
  ℕ, ◌+◌, ◌^◌, ◌≤◌, ◌<◌, ◌≡◌, sym, ap, subst, List, [], ◌∷◌, arith, length, ok, >>=-eq-ok,
  ok-injective,
}
use protocore.MemoryPool.{sizeof_pointer, construct}
use protocore.Msg.{Msg}
use protocore.MessageQueue.{MessageQueue, make_queue}
use protocore.MessageQueue.Model.{Models}
use protocore.MessageQueue.Enqueue.{make_queue-Models}
use protocore.MessageQueue.Trace.{
  Event, sent, took, nothing, Trace, here, next, Serves, still, serve, sent_of,
}
use Steps.{raise, simulate}

simulate_all :
    (n : ℕ) (q r : MessageQueue) (ms : List Msg) (es : List Event)
    → Models n q ms
    → q.sequence + length (sent_of es) < 2 ^ 32
    → Trace q es r
    → (ls : List Msg) × Serves ms es ls × Models n r ls
simulate_all n q r ms [] v h here = (ms, still, v)
simulate_all n q r ms (e ∷ es) v h (next {r = mid} step rest) =
    let (ms', v', served, numbers) = simulate n q mid ms e v (first e es h) step in
    let (ls, serves, w) = simulate_all n mid r ms' es v' (later e es mid.sequence numbers h) rest in
    (ls, serve served serves, w)
  where
    first :
        (e : Event) (es : List Event)
        → q.sequence + length (sent_of (e ∷ es)) < 2 ^ 32
        → q.sequence + length (sent_of (e ∷ [])) < 2 ^ 32
    first (sent m) es h = omega arith
    first (took m) es h = omega arith
    first nothing es h = omega arith

    later :
        (e : Event) (es : List Event) (k : ℕ)
        → k ≤ raise e q.sequence
        → q.sequence + length (sent_of (e ∷ es)) < 2 ^ 32
        → k + length (sent_of es) < 2 ^ 32
    later (sent m) es k le h = omega arith
    later (took m) es k le h = omega arith
    later nothing es k le h = omega arith

pub made_number :
    (pool_data msg_size n : ℕ) (q : MessageQueue)
    → make_queue pool_data msg_size n ≡ ok q
    → q.sequence ≡ 0
unfolding make_queue
made_number pool_data msg_size n q e =
    let (pool, _, made) = >>=-eq-ok (construct pool_data msg_size n) _ e in
    sym (ap (λ (q : MessageQueue). q.sequence) (ok-injective made))

-- Up to 2 ^ 32 - 1 messages sent to a new queue, each history of it is one of the abstract queue,
-- which keeps its messages in the order of arrival and gives the first among those of the highest
-- priority; and the queue then stands for the messages that wait there.
pub Trace-Serves :
    (pool_data msg_size n : ℕ) (q r : MessageQueue) (es : List Event)
    → 0 < n
    → sizeof_pointer < msg_size
    → make_queue pool_data msg_size n ≡ ok q
    → length (sent_of es) < 2 ^ 32
    → Trace q es r
    → (waiting : List Msg) × Serves [] es waiting × Models n r waiting
Trace-Serves pool_data msg_size n q r es h s made few t =
    let (q', made', v, _) = make_queue-Models pool_data msg_size n h s in
    let same : q' ≡ q = cc in
    simulate_all n q r [] es (subst (λ q. Models n q []) same v)
      (omega (arith, made_number pool_data msg_size n q made)) t
