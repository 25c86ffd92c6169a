-- ===== src/MessageQueue/Enqueue.antt =====
-- The constructor and `enqueue` against the abstract queue.
use mathlib.Core.List.{mem-cons, mem-cons_self, map-append, Nodup-cons, Nodup-append}
use mathlib.Core.List.Perm
use mathlib.Core.Logic.Or
use native.Mathlib.Nat.{mod-eq_of_lt}
use protocore.Base.{
  ℕ, ◌+◌, ◌<◌, ◌^◌, ◌≡◌, refl, sym, ap, ◌∙◌, List, [], ◌∷◌, ◌++◌, map, Mem, Perm, arith, length, ok,
  abort, false, perm-snoc, ==_refl,
}
use protocore.Std.Heap.{push_heap}
use protocore.Std.Heap.Order.{IsHeap}
use protocore.Std.Heap.Up.{push_heap-IsHeap}
use protocore.Std.Heap.Laws.{IsHeap-congr}
use protocore.MemoryPool.{Ptr, Memory, object, write, sizeof_pointer, store}
use protocore.MemoryPool.Blocks.{length-blocks}
use protocore.MemoryPool.Invariant.{
  Owned, Owned-perm, Owned-Nodup, Owned-length, construct-Owned, allocate-Owned, allocate-exhausted,
  store-Owned,
}
use protocore.Msg.{Msg}
use protocore.MessageQueue.{MessageQueue, make_queue, enqueue, insert_node}
use protocore.MessageQueue.Nodes.{
  Node, Cell-set, node_of, node_at, node_less, ptr_less, ptr_less-IsStrictWeak,
}
use protocore.MessageQueue.Arrival.{Ascending, Ascending-snoc}
use protocore.MessageQueue.Model.{
  Intact, none_held, Holds, Models, Models-length, node_at-write, map-write,
}

-- A new queue is empty.
pub make_queue-Models :
    (pool_data msg_size n : ℕ)
    → 0 < n
    → sizeof_pointer < msg_size
    → (q : MessageQueue) × (make_queue pool_data msg_size n ≡ ok q)
      × Models n q []
      × (q.shutdown ≡ false)
unfolding make_queue
make_queue-Models pool_data msg_size n h s =
    let (pool, made, o) = construct-Owned pool_data msg_size n h s in
    let q : MessageQueue = record { pool = pool; queue = []; shutdown = false; sequence = 0 } in
    (
      q,
      rw made,
      record {
        nodes = [];
        holds = record { intact = none_held q o; ascending = omega arith };
        messages = refl;
        capacity = omega (arith, Owned-length o, length-blocks msg_size pool_data n);
      },
      refl,
    )

module _ (q : MessageQueue) (a : ℕ) (free : List ℕ) (msg : Msg) (ns : List Node) (h : Intact q ns)
    (next : Ptr) (o : Owned (record q.pool { free_list = next }) free (a ∷ q.queue)) where
  abbrev new_node : Node
  new_node = record { message = msg; sequence_number = q.sequence }

  abbrev memory' : Memory Node
  memory' = write q.pool.memory a (object new_node)

  fresh : ¬ Mem a q.queue
  fresh = (Nodup-cons.0 (Nodup-append.0 (Owned-Nodup o)).1).0

  kept : (b : ℕ) → Mem b q.queue → memory' b ≡ q.pool.memory b
  kept = node_at-write q.pool.memory a (object new_node) q.queue fresh

  at_new : memory' a ≡ object new_node
  at_new = rw (==_refl a)

  pushed :
      let queue' = push_heap 0 (ptr_less memory') (q.queue ++ a ∷ []) in
      IsHeap 0 (ptr_less memory') queue' × Perm queue' (a ∷ q.queue)
  pushed = push_heap-IsHeap 0 (ptr_less memory') (ptr_less-IsStrictWeak memory') q.queue a (
      IsHeap-congr 0 node_less (node_at q.pool.memory) (node_at memory') q.queue
        (λ b m. ap node_of (sym (kept b m))) h.heap)

  stored' : (b : ℕ) → Mem b (a ∷ q.queue) → memory' b ≡ object (node_at memory' b)
  stored' b m =
      Or.elim (Cell-set _ _) (mem-cons.0 m)
        (λ e. rw e (at_new ∙ ap (λ c. object (node_of c)) (sym at_new)))
        λ m'. kept b m' ∙ h.stored b m' ∙ ap (λ c. object (node_of c)) (sym (kept b m'))

  contents' : Perm (map (node_at memory') (a ∷ q.queue)) (ns ++ new_node ∷ [])
  contents' =
      rw (map-write q.pool.memory a (object new_node) q.queue fresh, ==_refl a)
        (Perm.trans (Perm.cons new_node h.contents) (Perm.symm (perm-snoc ns new_node)))

  -- The node goes into a block that was free.
  pub insert_node-Intact :
      Intact (insert_node q (record q.pool { free_list = next }) a msg) (ns ++ new_node ∷ [])
  unfolding insert_node store
  insert_node-Intact = record {
    free = free;
    owned = Owned-perm pushed.1 (
        store-Owned (record q.pool { free_list = next }) a new_node free (a ∷ q.queue) o
          mem-cons_self);
    heap = pushed.0;
    stored = λ b m. stored' b ((Perm.mem_iff pushed.1).0 m);
    contents = Perm.trans (Perm.map (node_at memory') pushed.1) contents';
  }

  insert_node-Holds :
      Ascending 0 ns q.sequence
      → q.sequence + 1 < 2 ^ 32
      → Holds (insert_node q (record q.pool { free_list = next }) a msg) (ns ++ new_node ∷ [])
  unfolding insert_node
  insert_node-Holds rising fits = record {
    intact = insert_node-Intact;
    ascending = rw (mod-eq_of_lt fits) (Ascending-snoc 0 ns new_node rising);
  }

module _ (n : ℕ) (q : MessageQueue) (msg : Msg) (ms : List Msg) where
  enqueue_in :
      (free : List ℕ)
      → Owned q.pool free q.queue
      → Models n q ms
      → length ms < n
      → q.sequence + 1 < 2 ^ 32
      → (q' : MessageQueue) × (enqueue q msg ≡ ok q')
        × Models n q' (ms ++ msg ∷ [])
        × (q'.shutdown ≡ q.shutdown)
  unfolding enqueue store
  enqueue_in [] o m room fits = absurd (omega (arith, Owned-length o, Models-length m, m.capacity))
  enqueue_in (a ∷ free) o m room fits =
      let (next, made, o') = allocate-Owned q.pool a free q.queue o in
      (
        insert_node q (record q.pool { free_list = next }) a msg,
        rw made,
        record {
          nodes = _;
          holds =
              insert_node-Holds q a free msg m.nodes m.holds.intact next o' m.holds.ascending fits;
          messages =
              map-append (λ (x : Node). x.message) m.nodes _ ∙ ap (λ xs. xs ++ msg ∷ []) m.messages;
          capacity = m.capacity;
        },
        refl,
      )

  -- A queue with room takes the message as its newest, below 2 ^ 32 sequence numbers.
  pub enqueue-Models :
      Models n q ms
      → length ms < n
      → q.sequence + 1 < 2 ^ 32
      → (q' : MessageQueue) × (enqueue q msg ≡ ok q')
        × Models n q' (ms ++ msg ∷ [])
        × (q'.shutdown ≡ q.shutdown)
  enqueue-Models m = enqueue_in m.holds.free m.holds.owned m

  full_in :
      (free : List ℕ)
      → Owned q.pool free q.queue
      → Models n q ms
      → length ms ≡ n
      → enqueue q msg ≡ abort
  unfolding enqueue
  full_in [] o m full = rw (allocate-exhausted q.pool q.queue o)
  full_in (a ∷ free) o m full = absurd (omega (arith, Owned-length o, Models-length m, m.capacity))

  -- A full queue fails the assertion.
  pub enqueue-full : Models n q ms → length ms ≡ n → enqueue q msg ≡ abort
  enqueue-full m = full_in m.holds.free m.holds.owned m
