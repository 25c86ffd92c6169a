-- ===== src/MessageQueue/Calls.antt =====
-- The calls on a queue that is intact, whatever its sequence numbers.
use protocore.Base.{
  ℕ, ◌+◌, ◌%◌, ◌^◌, ◌≤◌, ◌<◌, ◌≡◌, refl, ◌∙◌, false, some, List, [], ◌∷◌, ◌++◌, Mem, Perm, arith,
  length, length-map, length-perm, ok, abort,
}
use protocore.MemoryPool.{store}
use protocore.MemoryPool.Invariant.{Owned, Owned-length, allocate-Owned, allocate-exhausted}
use protocore.Msg.{Msg}
use protocore.MessageQueue.{
  MessageQueue, enqueue, insert_node, dequeue, try_dequeue, reset_if_empty, returns,
}
use protocore.MessageQueue.Nodes.{Node, node_at, node_less}
use protocore.MessageQueue.Model.{Intact}
use protocore.MessageQueue.Enqueue.{insert_node-Intact}
use protocore.MessageQueue.Removal.{
  first, others, left, left-Intact, together, greatest, dequeue_takes, try_dequeue_takes,
  reset-Intact,
}

-- The queue is intact and its pool has `n` blocks.
pub record Sound (n : ℕ) (q : MessageQueue) (ns : List Node) : Type 0 where
  pub intact : Intact q ns
  pub capacity : q.pool.block_count ≡ n

pub Sound-length :
    {n : ℕ} {q : MessageQueue} {ns : List Node} → Sound n q ns → length q.queue ≡ length ns
Sound-length {q = q} s =
    omega (arith, length-map (node_at q.pool.memory) q.queue, length-perm s.intact.contents)

pub Sound-room : {n : ℕ} {q : MessageQueue} {ns : List Node} → Sound n q ns → length ns ≤ n
Sound-room s = omega (arith, Sound-length s, Owned-length s.intact.owned, s.capacity)

module _ (n : ℕ) (q : MessageQueue) (msg : Msg) (ns : List Node) where
  abbrev pub arrived : Node
  arrived = record { message = msg; sequence_number = q.sequence }

  enqueue_in :
      (free : List ℕ)
      → Owned q.pool free q.queue
      → Sound n q ns
      → length ns < n
      → (q' : MessageQueue) × (enqueue q msg ≡ ok q')
        × Sound n q' (ns ++ arrived ∷ [])
        × (q'.sequence ≡ (q.sequence + 1) % 2 ^ 32)
        × (q'.shutdown ≡ q.shutdown)
  unfolding enqueue store
  enqueue_in [] o s room = absurd (omega (arith, Owned-length o, Sound-length s, s.capacity))
  enqueue_in (a ∷ free) o s room =
      let (next, made, o') = allocate-Owned q.pool a free q.queue o in
      (
        insert_node q (record q.pool { free_list = next }) a msg,
        rw made,
        record {
          intact = insert_node-Intact q a free msg ns s.intact next o';
          capacity = s.capacity;
        },
        refl,
        refl,
      )

  -- `enqueue` adds a node where there is room, and else fails the assertion.
  pub enqueue-Sound :
      Sound n q ns
      → length ns < n
      → (q' : MessageQueue) × (enqueue q msg ≡ ok q')
        × Sound n q' (ns ++ arrived ∷ [])
        × (q'.sequence ≡ (q.sequence + 1) % 2 ^ 32)
        × (q'.shutdown ≡ q.shutdown)
  enqueue-Sound s = enqueue_in s.intact.free s.intact.owned s

  full_in :
      (free : List ℕ)
      → Owned q.pool free q.queue
      → Sound n q ns
      → length ns ≡ n
      → enqueue q msg ≡ abort
  unfolding enqueue
  full_in [] o s full = rw (allocate-exhausted q.pool q.queue o)
  full_in (a ∷ free) o s full = absurd (omega (arith, Owned-length o, Sound-length s, s.capacity))

  pub enqueue-abort : Sound n q ns → length ns ≡ n → enqueue q msg ≡ abort
  enqueue-abort s = full_in s.intact.free s.intact.owned s

-- What a call that takes a node leaves: `result` says what the call gives.
pub record Took (n : ℕ) (q : MessageQueue) (ns : List Node) (result : Msg → MessageQueue → Type 0)
    : Type 0 where
  pub after : MessageQueue
  pub top : Node
  pub rest : List Node
  pub gives : result top.message after
  pub sound : Sound n after rest
  pub same : Perm (top ∷ rest) ns
  pub highest : (x : Node) → Mem x (top ∷ rest) → node_less top x ≡ false
  pub numbers : after.sequence ≤ q.sequence
  pub flag : after.shutdown ≡ q.shutdown

abbrev pub Dequeues : MessageQueue → Msg → MessageQueue → Type 0
Dequeues q m after = dequeue q ≡ ok (returns (some m) after)

abbrev pub TryDequeues : MessageQueue → Msg → MessageQueue → Type 0
TryDequeues q m after = try_dequeue q ≡ ok (some m, after)

reset_lem :
    (r : MessageQueue) (zs : List ℕ)
    → let after = reset_if_empty (record r { queue = zs }) in
      (after.pool.block_count ≡ r.pool.block_count)
      × (after.sequence ≤ r.sequence)
      × (after.shutdown ≡ r.shutdown)
reset_lem r [] = (refl, omega arith, refl)
reset_lem r (z ∷ zs) = (refl, omega arith, refl)

module _ (n : ℕ) (q : MessageQueue) (ns : List Node) where
  dequeue_on :
      (xs : List ℕ)
      → Sound n (record q { queue = xs }) ns
      → 0 < length ns
      → Took n (record q { queue = xs }) ns (Dequeues (record q { queue = xs }))
  dequeue_on [] s some_held = absurd (omega (arith, Sound-length s))
  dequeue_on (x ∷ xs) s some_held =
      let rest = left q x xs ns s.intact in
      let (count, numbers, flag) = reset_lem rest rest.queue in
      record {
        after = reset_if_empty rest;
        top = first q x xs ns s.intact;
        rest = others q x xs ns s.intact;
        gives = dequeue_takes q x xs ns s.intact;
        sound = record {
          intact = reset-Intact rest rest.queue _ (left-Intact q x xs ns s.intact);
          capacity = count ∙ s.capacity;
        };
        same = together q x xs ns s.intact;
        highest = greatest q x xs ns s.intact;
        numbers = numbers;
        flag = flag;
      }

  try_dequeue_on :
      (xs : List ℕ)
      → Sound n (record q { queue = xs }) ns
      → 0 < length ns
      → Took n (record q { queue = xs }) ns (TryDequeues (record q { queue = xs }))
  try_dequeue_on [] s some_held = absurd (omega (arith, Sound-length s))
  try_dequeue_on (x ∷ xs) s some_held = record {
    after = left q x xs ns s.intact;
    top = first q x xs ns s.intact;
    rest = others q x xs ns s.intact;
    gives = try_dequeue_takes q x xs ns s.intact;
    sound = record { intact = left-Intact q x xs ns s.intact; capacity = s.capacity };
    same = together q x xs ns s.intact;
    highest = greatest q x xs ns s.intact;
    numbers = omega arith;
    flag = refl;
  }

  pub dequeue-Took : Sound n q ns → 0 < length ns → Took n q ns (Dequeues q)
  dequeue-Took = dequeue_on q.queue

  pub try_dequeue-Took : Sound n q ns → 0 < length ns → Took n q ns (TryDequeues q)
  try_dequeue-Took = try_dequeue_on q.queue

pub Sound-nil : {n : ℕ} {q : MessageQueue} → Sound n q [] → q.queue ≡ []
Sound-nil {q = q} s = vector q.queue (Sound-length s)
  where
    vector : (xs : List ℕ) → length xs ≡ 0 → xs ≡ []
    vector [] e = refl
    vector (x ∷ xs) e = absurd (omega arith)
