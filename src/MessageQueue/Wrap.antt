-- ===== src/MessageQueue/Wrap.antt =====
-- The wrap of the sequence number.
use mathlib.Core.Logic.Or
use mathlib.Core.List.{mem-cons, mem-cons_self, mem-cons_of_mem, not-mem-nil}
use mathlib.Core.List.Perm
use protocore.Base.{
  ℕ, ◌-◌, ◌^◌, ◌<◌, ◌≡◌, sym, ap, subst, ◌∙◌, true, false, some, [], ◌∷◌, Mem, arith, ok, ◌>>=◌,
}
use protocore.Msg.{Msg, less}
use protocore.MessageQueue.{MessageQueue, enqueue, dequeue, returns}
use protocore.MessageQueue.Nodes.{Node, Node-set, node_less}
use protocore.MessageQueue.Calls.{Sound, enqueue-Sound, arrived, dequeue-Took}

-- The first of two nodes of one priority loses against the second, if its number is greater.
younger_first :
    (a b : Node)
    → less a.message b.message ≡ false
    → less b.message a.message ≡ false
    → b.sequence_number < a.sequence_number
    → node_less a b ≡ true
unfolding node_less
younger_first a b h k lt = ground arith

pair_mem : (t a b : Node) → Mem t (a ∷ b ∷ []) → ¬ (t ≡ a) → t ≡ b
pair_mem t a b m n =
    Or.elim (Node-set t b) (mem-cons.0 m) (λ e. absurd (n e))
      λ m'. Or.elim (Node-set t b) (mem-cons.0 m') (λ e. e) (λ k. absurd (not-mem-nil k))

even : (m m' : Msg) → m.msg_priority ≡ m'.msg_priority → less m m' ≡ false
unfolding less
even m m' e = ground arith

-- A queue that holds nothing and whose next number is the last one before the wrap gives the second
-- of two messages of one priority first.
pub dequeue-wrap :
    (n : ℕ) (q : MessageQueue) (m m' : Msg)
    → Sound n q []
    → q.sequence ≡ 2 ^ 32 - 1
    → 1 < n
    → m.msg_priority ≡ m'.msg_priority
    → (after : MessageQueue) × ((enqueue q m >>= λ r. enqueue r m' >>= dequeue)
        ≡ ok (returns (some m') after))
dequeue-wrap n q m m' s last room level =
    let (r, made, sound, number, _) = enqueue-Sound n q m [] s (omega arith) in
    let a = arrived n q m [] in
    let (r', made', sound', _, _) = enqueue-Sound n r m' (a ∷ []) sound (omega arith) in
    let b = arrived n r m' (a ∷ []) in
    let t = dequeue-Took n r' (a ∷ b ∷ []) sound' (omega arith) in
    let wins : node_less a b ≡ true =
      younger_first a b (even m m' level) (even m' m (sym level)) (omega (arith, last, number)) in
    let second : t.top ≡ b = pair_mem t.top a b ((Perm.mem_iff t.same).0 mem-cons_self) (λ e.
      clash a b wins (
        subst (λ x. node_less x b ≡ false) e
          (t.highest b ((Perm.mem_iff t.same).1 (mem-cons_of_mem a mem-cons_self))))) in
    (
      t.after,
      ap (λ c. c >>= λ r. enqueue r m' >>= dequeue) made
          ∙ ap (λ c. c >>= dequeue) made'
          ∙ t.gives
          ∙ ap (λ (x : Node). ok (returns (some x.message) t.after)) second,
    )
  where
    clash : (a b : Node) → node_less a b ≡ true → node_less a b ≡ false → ⊥
    clash a b h k = cc
