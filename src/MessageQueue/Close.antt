-- ===== src/MessageQueue/Close.antt =====
-- The empty queue, the shutdown flag and the destructor.
use mathlib.Core.List.Perm
use protocore.Base.{
  map, ℕ, ◌≡◌, ◌≢◌, ◌↔◌, Bool-cases, inl, inr, >>=-eq-ok, refl, sym, ap, ◌∙◌, Bool, true, false,
  none, List, [], ◌∷◌, arith, ok, undefined, length, if◌then◌else◌, not, ◌&&◌, ◌||◌,
}
use protocore.Std.Heap.{pop_heap}
use protocore.MemoryPool.{MemoryPool, released}
use protocore.MemoryPool.Invariant.{Owned, deallocate-Owned}
use protocore.Msg.{Msg}
use protocore.MessageQueue.Arrival.{Ascending}
use protocore.MessageQueue.{
  MessageQueue, dequeue, dequeue_next, try_dequeue, is_empty, notify_shutdown, drain, destroy,
  empty, pop_top, take_message, reset_if_empty, waits, returns,
}
use protocore.MessageQueue.Nodes.{Node, ptr_less}
use protocore.MessageQueue.Model.{none_held, same_parts, Models, Models-length}

no_vector : (n : ℕ) (q : MessageQueue) → Models n q [] → q.queue ≡ []
no_vector n q m = vector q.queue (Models-length m)
  where
    vector : (xs : List ℕ) → length xs ≡ 0 → xs ≡ []
    vector [] e = refl
    vector (x ∷ xs) e = absurd (omega arith)

pop_heap-nil : (less : ℕ → ℕ → Bool) (xs : List ℕ) → xs ≡ [] → pop_heap 0 less xs ≡ undefined
unfolding pop_heap
pop_heap-nil less xs e = rw (e, pop_heap)

pub dequeue_empty_vector :
    (q : MessageQueue)
    → q.queue ≡ []
    → dequeue q ≡ ok (if q.shutdown then returns none (record q { sequence = 0 }) else waits)
unfolding dequeue
dequeue_empty_vector q none_left = both (empty q.queue) q.shutdown (ap empty none_left)
  where
    both :
        (e s : Bool)
        → e ≡ true
        → (if not e || s
            then (if s && e then ok (returns none (record q { sequence = 0 })) else dequeue_next q)
            else ok waits)
          ≡ ok (if s then returns none (record q { sequence = 0 }) else waits)
    both true true h = refl
    both true false h = refl
    both false s h = cc

pub try_dequeue_empty_vector :
    (q : MessageQueue)
    → q.queue ≡ []
    → try_dequeue q ≡ (if q.shutdown then undefined else ok (none, q))
unfolding try_dequeue
try_dequeue_empty_vector q none_left = elim (Bool-cases q.shutdown) [
  | inl h ↦ rw (e, pop_heap-nil (ptr_less q.pool.memory) q.queue none_left, h)
  | inr h ↦ rw (e, h)
]
  where
    e : empty q.queue ≡ true
    e = ap empty none_left

-- A consumer waits at an empty queue until it is told to shut down, and then gets nothing, and the
-- sequence number is reset.
pub dequeue-empty :
    (n : ℕ) (q : MessageQueue)
    → Models n q []
    → dequeue q ≡ ok (if q.shutdown then returns none (record q { sequence = 0 }) else waits)
dequeue-empty n q m = dequeue_empty_vector q (no_vector n q m)

-- At an empty queue `try_dequeue` gives nothing, but once the queue is shut down it takes the back of
-- an empty vector.
pub try_dequeue-empty :
    (n : ℕ) (q : MessageQueue)
    → Models n q []
    → try_dequeue q ≡ (if q.shutdown then undefined else ok (none, q))
try_dequeue-empty n q m = try_dequeue_empty_vector q (no_vector n q m)

-- `is_empty` answers whether no message is held.
pub is_empty-Models :
    (n : ℕ) (q : MessageQueue) (ms : List Msg) → Models n q ms → (is_empty q ≡ true) ↔ (ms ≡ [])
unfolding is_empty
is_empty-Models n q ms m = both q.queue ms (Models-length m)
  where
    both : (xs : List ℕ) (ms : List Msg) → length xs ≡ length ms → (empty xs ≡ true) ↔ (ms ≡ [])
    both [] [] e = (λ _. refl, λ _. refl)
    both [] (m ∷ ms) e = absurd (omega arith)
    both (x ∷ xs) [] e = absurd (omega arith)
    both (x ∷ xs) (m ∷ ms) e = (λ p. cc, λ p. cc)

drain-Owned :
    (p : MemoryPool Node) (free xs : List ℕ)
    → Owned p free xs
    → (p' : MemoryPool Node) × (free' : List ℕ) × (drain p xs ≡ ok p')
      × Owned p' free' []
      × (p'.block_count ≡ p.block_count)
unfolding drain
drain-Owned p free [] o = (p, free, refl, o, refl)
drain-Owned p free (x ∷ xs) o =
    let (made, o') = deallocate-Owned p x free (x ∷ xs) xs o Perm.rfl in
    let (p', free', drained, o'', same) = drain-Owned (released p x) (x ∷ free) xs o' in
    (p', free', rw made drained, o'', same)

-- The destructor returns the block of every node to the pool, without a failed assertion.
pub destroy-Models :
    (n : ℕ) (q : MessageQueue) (ms : List Msg)
    → Models n q ms
    → (q' : MessageQueue) × (destroy q ≡ ok q') × Models n q' []
unfolding destroy
destroy-Models n q ms m =
    let (pool, free, drained, o, same) = drain-Owned q.pool m.holds.free q.queue m.holds.owned in
    let done = record q { pool = pool; queue = [] } in
    (
      done,
      rw drained,
      record {
        nodes = [];
        holds = record { intact = none_held done o; ascending = omega arith };
        messages = refl;
        capacity = same ∙ m.capacity;
      },
    )

dequeue_next-ne-waits : (q : MessageQueue) → dequeue_next q ≢ ok waits
unfolding dequeue_next
dequeue_next-ne-waits q e =
    let ((a, popped), _, taken) = >>=-eq-ok (pop_top q) _ e in
    let (_, _, returned) = >>=-eq-ok (take_message (reset_if_empty popped) a) _ taken in cc

closes :
    (q : MessageQueue)
    → q.shutdown ≡ true
    → empty q.queue ≡ true
    → dequeue q ≡ ok (returns none (record q { sequence = 0 }))
unfolding dequeue
closes q h l = rw (l, h)

goes_on :
    (q : MessageQueue) → q.shutdown ≡ true → empty q.queue ≡ false → dequeue q ≡ dequeue_next q
unfolding dequeue
goes_on q h l = rw (l, h)

-- Once the queue is shut down no consumer waits.
pub dequeue-shutdown : (q : MessageQueue) → q.shutdown ≡ true → dequeue q ≢ ok waits
dequeue-shutdown q h e = elim (Bool-cases (empty q.queue)) [
  | inl none_left ↦ cc (closes q h none_left)
  | inr some_left ↦ dequeue_next-ne-waits q (sym (goes_on q h some_left) ∙ e)
]

-- The shutdown keeps the messages that the queue holds.
pub notify_shutdown-Models :
    (n : ℕ) (q : MessageQueue) (ms : List Msg)
    → Models n q ms
    → Models n (notify_shutdown q) ms × ((notify_shutdown q).shutdown ≡ true)
unfolding notify_shutdown
notify_shutdown-Models n q ms m = (
  record {
    nodes = m.nodes;
    holds = record { intact = same_parts m.holds.intact; ascending = m.holds.ascending };
    messages = m.messages;
    capacity = m.capacity;
  },
  refl,
)

-- An empty queue may start its numbers again.
pub reset-Models :
    (n : ℕ) (q : MessageQueue) → Models n q [] → Models n (record q { sequence = 0 }) []
reset-Models n q m = record {
  nodes = m.nodes;
  holds = record { intact = same_parts m.holds.intact; ascending = none_rise m.nodes m.messages };
  messages = m.messages;
  capacity = m.capacity;
}
  where
    none_rise : (ns : List Node) → map (λ (x : Node). x.message) ns ≡ [] → Ascending 0 ns 0
    none_rise [] e = omega arith
    none_rise (x ∷ ns) e = cc
