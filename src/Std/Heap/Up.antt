-- ===== src/Std/Heap/Up.antt =====
-- `push_heap` restores the heap.
use mathlib.Core.List.Perm
use protocore.Base.{
  ℕ, zero, suc, ◌+◌, ◌-◌, ◌<◌, ◌≡◌, ◌≢◌, Bool, true, false, ◌&&◌, Bool-cases, inl, inr, ltb, List,
  [], ◌∷◌, ◌++◌, arith, Perm, length, length-append, perm-snoc,
}
use protocore.Std.Heap.{parent, at, swap, sift_up, push_heap}
use protocore.Std.Heap.Array.{length-swap, get_or-swap, get_or-append, swap-perm}
use protocore.Std.Heap.Order.{IsStrictWeak, IsHeap}

module _ {A : Type 0} (d : A) (less : A → A → Bool) (w : IsStrictWeak less) where
  -- Only the element at `i` may be greater than its parent, and all around it is in order.
  record UpInv (xs : List A) (i : ℕ) : Type 0 where
    inside : i < length xs
    edges : (c : ℕ) → 0 < c → c < length xs → c ≢ i → less (at d xs (parent c)) (at d xs c) ≡ false
    bridged :
        (c : ℕ)
        → 0 < c
        → c < length xs
        → parent c ≡ i
        → 0 < i
        → less (at d xs (parent i)) (at d xs c) ≡ false

  swap-UpInv :
      (xs : List A) (i : ℕ)
      → UpInv xs i
      → 0 < i
      → less (at d xs (parent i)) (at d xs i) ≡ true
      → UpInv (swap d xs i (parent i)) (parent i)
  swap-UpInv xs i v pos above =
      let size = length-swap d xs i (parent i) in
      let below : parent i < length xs = omega (arith, v.inside) in
      let now = λ (c : ℕ). get_or-swap d xs i (parent i) c v.inside below in
      let turned = w.asym _ _ above in
      record {
        inside = omega arith;
        edges = λ c p q n. ground (
          arith,
          now c,
          now (parent c),
          v.edges c,
          v.bridged c,
          turned,
          w.chain (at d xs i) (at d xs (parent i)) (at d xs c),
        );
        bridged = λ c p q n r. ground (
          arith,
          now c,
          now (parent (parent i)),
          v.edges c,
          v.edges (parent i),
          w.chain (at d xs (parent (parent i))) (at d xs (parent i)) (at d xs c),
        );
      }

  sift_up_restores :
      (k : ℕ) (xs : List A) (i : ℕ)
      → i < k
      → UpInv xs i
      → IsHeap d less (sift_up d less k xs i) × Perm (sift_up d less k xs i) xs
  unfolding sift_up
  sift_up_restores zero xs i lt v = absurd (omega arith)
  sift_up_restores (suc k) xs i lt v =
      elim (Bool-cases (ltb 0 i && less (at d xs (parent i)) (at d xs i))) [
        | inl e ↦
            let pos : 0 < i = ground arith in
            let (heap, perm) =
              sift_up_restores k (swap d xs i (parent i)) (parent i) (omega arith)
                (swap-UpInv xs i v pos (ground arith)) in
            rw e (
              heap,
              Perm.trans perm (swap-perm d xs i (parent i) v.inside (omega (arith, v.inside))),
            )
        | inr e ↦ rw e (λ c p q. ground (arith, v.edges c), Perm.rfl)
      ]

  -- A new last element joins a heap.
  pub push_heap-IsHeap :
      (xs : List A) (x : A)
      → IsHeap d less xs
      → IsHeap d less (push_heap d less (xs ++ x ∷ []))
        × Perm (push_heap d less (xs ++ x ∷ [])) (x ∷ xs)
  unfolding push_heap
  push_heap-IsHeap xs x h =
      let size : length (xs ++ x ∷ []) ≡ length xs + 1 = length-append xs (x ∷ []) in
      let kept = get_or-append d xs (x ∷ []) in
      let (heap, perm) =
        sift_up_restores (length (xs ++ x ∷ [])) (xs ++ x ∷ []) (length (xs ++ x ∷ []) - 1)
          (omega arith)
          (record {
            inside = omega arith;
            edges = λ c p q n. ground (arith, h c, kept c, kept (parent c));
            bridged = λ c p q n r. absurd (omega arith);
          }) in
      (heap, Perm.trans perm (perm-snoc xs x))
