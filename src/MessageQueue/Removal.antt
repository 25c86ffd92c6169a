-- ===== src/MessageQueue/Removal.antt =====
-- What `dequeue` and `try_dequeue` do to a queue that is not empty: the nodes taken and left.
use mathlib.Core.List.{mem-cons_self, mem-cons_of_mem, mem-map, Nodup-cons, Nodup-append}
use mathlib.Core.List.Perm
use mathlib.Core.Logic.{∥∥₁_elim}
use protocore.Base.{
  ℕ, ◌-◌, ◌≡◌, refl, sym, ap, subst, ◌∙◌, List, [], ◌∷◌, ◌++◌, map, Mem, Perm, arith, length, ok,
  false, some, length-perm, length-append, and_false,
}
use protocore.Std.Heap.{pop_heap}
use protocore.Std.Heap.Order.{IsHeap}
use protocore.Std.Heap.Down.{pop_heap-IsHeap}
use protocore.Std.Heap.Array.{get_or-snoc, take-append}
use protocore.Std.Heap.Laws.{IsHeap-congr, first_not_less}
use protocore.MemoryPool.{Memory, object, link, write, released, deallocate}
use protocore.MemoryPool.Invariant.{Owned, Owned-perm, Owned-Nodup, deallocate-Owned}
use protocore.MessageQueue.{
  MessageQueue, dequeue, try_dequeue, pop_top, take_message, reset_if_empty, returns,
}
use protocore.MessageQueue.Nodes.{
  Node, node_of, node_at, node_less, ptr_less, ptr_less-IsStrictWeak,
}
use protocore.MessageQueue.Pick.{pick}
use protocore.MessageQueue.Arrival.{message_less, greatest-pick, pick-Ascending}
use protocore.MessageQueue.Model.{Intact, Intact-perm, same_parts, Holds, node_at-write, map-write}

pop_top_lem :
    (q : MessageQueue) (ys : List ℕ) (x : ℕ)
    → pop_heap 0 (ptr_less q.pool.memory) q.queue ≡ ok (ys ++ x ∷ [])
    → pop_top q ≡ ok (x, record q { queue = ys })
unfolding pop_top
pop_top_lem q ys x e =
    let size : length (ys ++ x ∷ []) - 1 ≡ length ys = omega (arith, length-append ys (x ∷ [])) in
    rw (e, size, get_or-snoc 0 ys x, take-append ys (x ∷ []))

-- A queue whose vector begins with the pointer `x`.
module _ (q : MessageQueue) (x : ℕ) (xs : List ℕ) (nodes : List Node)
    (h : Intact (record q { queue = x ∷ xs }) nodes) where
  abbrev memory : Memory Node
  memory = q.pool.memory

  abbrev memory' : Memory Node
  memory' = write memory x (link q.pool.free_list)

  pub popped :
      (ys : List ℕ) × (pop_heap 0 (ptr_less memory) (x ∷ xs) ≡ ok (ys ++ x ∷ []))
      × IsHeap 0 (ptr_less memory) ys
      × Perm ys xs
  popped = pop_heap-IsHeap 0 (ptr_less memory) (ptr_less-IsStrictWeak memory) x xs h.heap

  abbrev pub ys : List ℕ
  ys = popped.0

  all : Perm (x ∷ ys) (x ∷ xs)
  all = Perm.cons x popped.3

  -- The node taken, and those left.
  abbrev pub first : Node
  first = node_at memory x

  abbrev pub others : List Node
  others = map (node_at memory) ys

  pub together : Perm (first ∷ others) nodes
  together = Perm.trans (Perm.map (node_at memory) all) h.contents

  pub greatest :
      (n : Node) → Mem n (map (node_at memory) (x ∷ ys)) → node_less (node_at memory x) n ≡ false
  greatest n m = ∥∥₁_elim (mem-map.0 m) (hlevel) λ (b, mb, e).
      subst (λ n. node_less (node_at memory x) n ≡ false) e
        (first_not_less 0 (ptr_less memory) x xs (ptr_less-IsStrictWeak memory) h.heap b
          ((Perm.mem_iff all).0 mb))

  gone : ¬ Mem x ys
  gone m = (Nodup-cons.0 (Nodup-append.0 (Owned-Nodup h.owned)).1).0 ((Perm.mem_iff popped.3).0 m)

  kept : (b : ℕ) → Mem b ys → memory' b ≡ memory b
  kept = node_at-write memory x (link q.pool.free_list) ys gone

  freed :
      (deallocate q.pool (some x) ≡ ok (released q.pool x))
      × Owned (released q.pool x) (x ∷ h.free) xs
  freed = deallocate-Owned q.pool x h.free (x ∷ xs) xs h.owned Perm.rfl

  take_message_lem :
      (r : MessageQueue)
      → r.pool ≡ q.pool
      → take_message r x ≡ ok (first.message, record r { pool = released q.pool x })
  unfolding take_message
  take_message_lem r e = rw (e, h.stored x mem-cons_self, freed.0)

  abbrev pub left : MessageQueue
  left = record q { pool = released q.pool x; queue = ys }

  pub left-Intact : Intact left others
  left-Intact = record {
    free = x ∷ h.free;
    owned = Owned-perm popped.3 freed.1;
    heap =
        IsHeap-congr 0 node_less (node_at memory) (node_at memory') ys
          (λ b m. ap node_of (sym (kept b m))) popped.2;
    stored = λ b m.
        kept b m
        ∙ h.stored b ((Perm.mem_iff all).0 (mem-cons_of_mem x m))
        ∙ ap (λ c. object (node_of c)) (sym (kept b m));
    contents = rw (map-write memory x (link q.pool.free_list) ys gone) Perm.rfl;
  }

  take_after_reset :
      (zs : List ℕ)
      → take_message (reset_if_empty (record q { queue = zs })) x
        ≡ ok (first.message, reset_if_empty (record q { pool = released q.pool x; queue = zs }))
  take_after_reset [] = take_message_lem (record q { queue = []; sequence = 0 }) refl
  take_after_reset (z ∷ zs) = take_message_lem (record q { queue = z ∷ zs }) refl

  pub dequeue_takes :
      dequeue (record q { queue = x ∷ xs })
      ≡ ok (returns (some first.message) (reset_if_empty left))
  unfolding dequeue
  dequeue_takes = rw (
    pop_top_lem (record q { queue = x ∷ xs }) ys x popped.1,
    take_after_reset ys,
    and_false q.shutdown,
  )

  pub try_dequeue_takes : try_dequeue (record q { queue = x ∷ xs }) ≡ ok (some first.message, left)
  unfolding try_dequeue
  try_dequeue_takes = rw (
    pop_top_lem (record q { queue = x ∷ xs }) ys x popped.1,
    take_message_lem (record q { queue = ys }) refl,
  )

-- Where the sequence numbers rise, the node taken is the one picked.
module _ (q : MessageQueue) (x : ℕ) (xs : List ℕ) (a : Node) (ns : List Node)
    (h : Holds (record q { queue = x ∷ xs }) (a ∷ ns)) where
  pub picked :
      (first q x xs (a ∷ ns) h.intact ≡ (pick message_less a ns).0)
      × Perm (others q x xs (a ∷ ns) h.intact) (pick message_less a ns).1
  picked =
      greatest-pick 0 a ns q.sequence (first q x xs (a ∷ ns) h.intact)
        (others q x xs (a ∷ ns) h.intact) h.ascending (together q x xs (a ∷ ns) h.intact)
        (greatest q x xs (a ∷ ns) h.intact)

  pub left-Holds : Holds (left q x xs (a ∷ ns) h.intact) (pick message_less a ns).1
  left-Holds = record {
    intact = Intact-perm picked.1 (left-Intact q x xs (a ∷ ns) h.intact);
    ascending = pick-Ascending 0 a ns q.sequence h.ascending;
  }

-- Resetting the number of an empty queue leaves it intact.
pub reset-Intact :
    (r : MessageQueue) (zs : List ℕ) (ns : List Node)
    → Intact (record r { queue = zs }) ns
    → Intact (reset_if_empty (record r { queue = zs })) ns
reset-Intact r [] ns h = same_parts h
reset-Intact r (z ∷ zs) ns h = h

-- An empty queue has no nodes, so that the numbers can start again.
pub reset-Holds :
    (r : MessageQueue) (zs : List ℕ) (ns : List Node)
    → Holds (record r { queue = zs }) ns
    → Holds (reset_if_empty (record r { queue = zs })) ns
reset-Holds r [] [] h = record { intact = same_parts h.intact; ascending = omega arith }
reset-Holds r [] (n ∷ ns) h = absurd (omega (arith, length-perm h.contents))
reset-Holds r (z ∷ zs) ns h = h
