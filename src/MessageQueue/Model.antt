-- ===== src/MessageQueue/Model.antt =====
-- The invariant of a queue, and the list of messages that it stands for.
use mathlib.Core.List.Perm
use mathlib.Core.List.{not-mem-nil, mem-cons_self, mem-cons_of_mem}
use protocore.Base.{
  Bool, ℕ, ◌≡◌, refl, ap, ap₂, List, [], ◌∷◌, map, Mem, Perm, arith, length, length-map,
  length-perm,
}
use protocore.Std.Heap.Order.{IsHeap}
use protocore.MemoryPool.{Memory, Cell, object, write}
use protocore.MemoryPool.Invariant.{Owned}
use protocore.Msg.{Msg}
use protocore.MessageQueue.{MessageQueue}
use protocore.MessageQueue.Nodes.{Node, node_of, node_at, ptr_less}
use protocore.MessageQueue.Arrival.{Ascending}

-- The queue holds the nodes `ns` in some order: it owns their blocks, and its vector is a heap of
-- pointers to them.
pub record Intact (q : MessageQueue) (ns : List Node) : Type 0 where
  pub free : List ℕ
  pub owned : Owned q.pool free q.queue
  pub heap : IsHeap 0 (ptr_less q.pool.memory) q.queue
  pub stored : (a : ℕ) → Mem a q.queue → q.pool.memory a ≡ object (node_at q.pool.memory a)
  pub contents : Perm (map (node_at q.pool.memory) q.queue) ns

-- It holds them, oldest first, with sequence numbers that rise up to the next one.
pub record Holds (q : MessageQueue) (ns : List Node) : Type 0 where
  pub intact : Intact q ns
  pub open intact use *
  pub ascending : Ascending 0 ns q.sequence

-- The queue stands for the messages `ms`, oldest first, and has room for `n` in all.
pub record Models (n : ℕ) (q : MessageQueue) (ms : List Msg) : Type 0 where
  pub nodes : List Node
  pub holds : Holds q nodes
  pub messages : map (λ (x : Node). x.message) nodes ≡ ms
  pub capacity : q.pool.block_count ≡ n

-- A write to another address leaves the nodes of the vector.
pub node_at-write :
    (memory : Memory Node) (a : ℕ) (v : Cell Node) (xs : List ℕ)
    → ¬ Mem a xs
    → (b : ℕ) → Mem b xs
    → write memory a v b ≡ memory b
node_at-write memory a v xs n b m = let apart : ¬ (a ≡ b) = λ e. n (rw e m) in ground arith

pub map-write :
    (memory : Memory Node) (a : ℕ) (v : Cell Node) (xs : List ℕ)
    → ¬ Mem a xs
    → map (node_at (write memory a v)) xs ≡ map (node_at memory) xs
map-write memory a v [] n = refl
map-write memory a v (x ∷ xs) n =
    ap₂ ◌∷◌ (ap node_of (node_at-write memory a v (x ∷ xs) n x mem-cons_self))
      (map-write memory a v xs (λ m. n (mem-cons_of_mem x m)))

pub Models-length :
    {n : ℕ} {q : MessageQueue} {ms : List Msg} → Models n q ms → length q.queue ≡ length ms
Models-length {q = q} m = omega (
  arith,
  length-map (node_at q.pool.memory) q.queue,
  length-perm m.holds.contents,
  length-map (λ (x : Node). x.message) m.nodes,
  ap length m.messages,
)

-- A queue with an empty vector.
pub none_held :
    (q : MessageQueue) {free : List ℕ} → Owned q.pool free [] → Intact (record q { queue = [] }) []
none_held q {free} o = record {
  free = free;
  owned = o;
  heap = λ c p r. absurd (omega arith);
  stored = λ a m. absurd (not-mem-nil m);
  contents = Perm.nil;
}

-- What is intact does not depend on the flag and the next number.
pub same_parts :
    {q : MessageQueue} {ns : List Node} {flag : Bool} {number : ℕ}
    → Intact q ns
    → Intact (record q { shutdown = flag; sequence = number }) ns
same_parts i = record {
  free = i.free;
  owned = i.owned;
  heap = i.heap;
  stored = i.stored;
  contents = i.contents;
}

pub Intact-perm : {q : MessageQueue} {ns ns' : List Node} → Perm ns ns' → Intact q ns → Intact q ns'
Intact-perm same i = record {
  free = i.free;
  owned = i.owned;
  heap = i.heap;
  stored = i.stored;
  contents = Perm.trans i.contents same;
}
