-- ===== src/MessageQueue/Arrival.antt =====
-- Nodes in order of arrival: the sequence numbers rise. Then the greatest node by NodeComparator is
-- the one that the abstract queue takes.
use mathlib.Core.Logic.Or
use mathlib.Core.List.{mem-cons, mem-cons_self, not-mem-nil}
use mathlib.Core.List.Perm
use native.Mathlib.Bridge.{le_prop}
use protocore.Base.{
  ℕ, ◌+◌, ◌≤◌, ◌≡◌, sym, subst, Bool, true, false, Bool-cases, inl, inr, List, [], ◌∷◌, ◌++◌, Mem,
  Perm, arith,
}
use protocore.Msg.{less}
use protocore.MessageQueue.Nodes.{Node, node_less, node_less-IsStrictWeak, Node-set}
use protocore.MessageQueue.Pick.{pick, pick-perm}
use protocore.Std.Heap.Order.{irrefl}

-- The sequence numbers rise from `lo` on and stay below `hi`.
abbrev pub Ascending : ℕ → List Node → ℕ → Type 0
Ascending lo [] hi = lo ≤ hi
Ascending lo (n ∷ ns) hi = (lo ≤ n.sequence_number) × Ascending (n.sequence_number + 1) ns hi

pub Ascending-lower :
    (lo lo' : ℕ) (ns : List Node) (hi : ℕ) → lo' ≤ lo → Ascending lo ns hi → Ascending lo' ns hi
Ascending-lower lo lo' [] hi h u = omega arith
Ascending-lower lo lo' (n ∷ ns) hi h (first, rest) = (omega arith, rest)

pub Ascending-snoc :
    (lo : ℕ) (ns : List Node) (n : Node)
    → Ascending lo ns n.sequence_number
    → Ascending lo (ns ++ n ∷ []) (n.sequence_number + 1)
Ascending-snoc lo [] n u = (u, omega arith)
Ascending-snoc lo (m ∷ ns) n (first, rest) =
    (first, Ascending-snoc (m.sequence_number + 1) ns n rest)

Ascending-mem :
    (lo : ℕ) (ns : List Node) (hi : ℕ) (n : Node)
    → Ascending lo ns hi
    → Mem n ns
    → lo ≤ n.sequence_number
Ascending-mem lo [] hi n u m = absurd (not-mem-nil m)
Ascending-mem lo (x ∷ ns) hi n (first, rest) m =
    Or.elim le_prop (mem-cons.0 m) (λ e. rw e first)
      λ m'. omega (arith, Ascending-mem (x.sequence_number + 1) ns hi n rest m')

-- One node for each sequence number.
Ascending-unique :
    (lo : ℕ) (ns : List Node) (hi : ℕ) (a b : Node)
    → Ascending lo ns hi
    → Mem a ns
    → Mem b ns
    → a.sequence_number ≡ b.sequence_number
    → a ≡ b
Ascending-unique lo [] hi a b u ma mb e = absurd (not-mem-nil ma)
Ascending-unique lo (x ∷ ns) hi a b (first, rest) ma mb e =
    Or.elim (Node-set a b) (mem-cons.0 ma)
      (λ ea.
        Or.elim (Node-set a b) (mem-cons.0 mb) (λ eb. cc)
          λ mb'. absurd (clash a b (Ascending-mem (x.sequence_number + 1) ns hi b rest mb') ea e))
      λ ma'.
        Or.elim (Node-set a b) (mem-cons.0 mb)
          (λ eb.
            absurd (clash b a (Ascending-mem (x.sequence_number + 1) ns hi a rest ma') eb (sym e)))
          λ mb'. Ascending-unique (x.sequence_number + 1) ns hi a b rest ma' mb' e
  where
    clash :
        (y z : Node)
        → x.sequence_number + 1 ≤ z.sequence_number
        → y ≡ x
        → y.sequence_number ≡ z.sequence_number
        → ⊥
    clash h p q = ground arith

abbrev pub message_less : Node → Node → Bool
message_less a b = less a.message b.message

later_head :
    (a b : Node)
    → a.sequence_number + 1 ≤ b.sequence_number
    → (message_less a b ≡ true → node_less b a ≡ false)
      × (message_less a b ≡ false → node_less a b ≡ false)
unfolding node_less less
later_head a b h = (λ p. ground arith, λ p. ground arith)

pick-greatest :
    (lo : ℕ) (a : Node) (ns : List Node) (hi : ℕ) (n : Node)
    → Ascending lo (a ∷ ns) hi
    → Mem n (a ∷ ns)
    → node_less (pick message_less a ns).0 n ≡ false
unfolding pick
pick-greatest lo a [] hi n u m =
    Or.elim (hlevel) (mem-cons.0 m) (λ e. rw e (irrefl node_less a node_less-IsStrictWeak))
      λ m'. absurd (not-mem-nil m')
pick-greatest lo a (x ∷ ns) hi n (first, rest) m =
    let b = (pick message_less x ns).0 in
    let among : Mem b (x ∷ ns) = (Perm.mem_iff (pick-perm message_less x ns)).0 mem-cons_self in
    let over = pick-greatest (a.sequence_number + 1) x ns hi n rest in
    let (loses, wins) =
      later_head a b (Ascending-mem (a.sequence_number + 1) (x ∷ ns) hi b rest among) in
    elim (Bool-cases (message_less a b)) [
      | inl e ↦ rw e (Or.elim (hlevel) (mem-cons.0 m) (λ p. rw p (loses e)) over)
      | inr e ↦ rw e (
          Or.elim (hlevel) (mem-cons.0 m) (λ p. rw p (irrefl node_less a node_less-IsStrictWeak))
            λ m'. node_less-IsStrictWeak.chain a b n (wins e) (over m'))
    ]

tie :
    (a b : Node)
    → node_less a b ≡ false
    → node_less b a ≡ false
    → a.sequence_number ≡ b.sequence_number
unfolding node_less
tie a b h k = ground arith

-- The node that no other exceeds is the one picked.
pub greatest-pick :
    (lo : ℕ) (a : Node) (ns : List Node) (hi : ℕ) (t : Node) (others : List Node)
    → Ascending lo (a ∷ ns) hi
    → Perm (t ∷ others) (a ∷ ns)
    → ((n : Node) → Mem n (t ∷ others) → node_less t n ≡ false)
    → (t ≡ (pick message_less a ns).0) × Perm others (pick message_less a ns).1
greatest-pick lo a ns hi t others u perm greatest =
    let (b, rest) = pick message_less a ns in
    let picked : Perm (b ∷ rest) (a ∷ ns) = pick-perm message_less a ns in
    let mt : Mem t (a ∷ ns) = (Perm.mem_iff perm).0 mem-cons_self in
    let mb : Mem b (a ∷ ns) = (Perm.mem_iff picked).0 mem-cons_self in
    let level = tie t b (greatest b ((Perm.mem_iff perm).1 mb)) (pick-greatest lo a ns hi t u mt) in
    let same : t ≡ b = Ascending-unique lo (a ∷ ns) hi t b u mt mb level in
    (
      same,
      Perm.cons_inv
          (subst (λ x. Perm (x ∷ others) (b ∷ rest)) same (Perm.trans perm (Perm.symm picked))),
    )

-- Without the picked node the others still rise.
pub pick-Ascending :
    (lo : ℕ) (a : Node) (ns : List Node) (hi : ℕ)
    → Ascending lo (a ∷ ns) hi
    → Ascending lo (pick message_less a ns).1 hi
unfolding pick
pick-Ascending lo a [] hi (first, rest) = omega arith
pick-Ascending lo a (x ∷ ns) hi (first, rest) =
    elim (Bool-cases (message_less a (pick message_less x ns).0)) [
      | inl e ↦ rw e (first, pick-Ascending (a.sequence_number + 1) x ns hi rest)
      | inr e ↦ rw e (Ascending-lower _ lo (x ∷ ns) hi (omega arith) rest)
    ]
