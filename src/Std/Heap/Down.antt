-- ===== src/Std/Heap/Down.antt =====
-- `pop_heap` restores the heap.
use mathlib.Core.List.Perm
use protocore.Base.{
  ℕ, zero, suc, ◌+◌, ◌*◌, ◌≤◌, ◌<◌, ◌≡◌, ◌≢◌, ◌⊎◌, refl, Bool, true, false, ◌&&◌, Bool-cases, inl,
  inr, ltb, List, [], ◌∷◌, ◌++◌, arith, Perm, length, take, length-perm, perm-snoc, ok,
}
use protocore.Std.Heap.{parent, at, swap, larger_child, sift_down, pop_heap}
use protocore.Std.Heap.Array.{length-swap, get_or-swap, get_or-take, take-snoc, swap-perm}
use protocore.Std.Heap.Order.{IsStrictWeak, IsHeap, irrefl}

module _ {A : Type 0} (d : A) (less : A → A → Bool) (w : IsStrictWeak less) where
  -- Only the element at `i` may be less than a child, and all around it is in order.
  record DownInv (xs : List A) (i : ℕ) : Type 0 where
    edges :
        (c : ℕ)
        → 0 < c
        → c < length xs
        → parent c ≢ i
        → less (at d xs (parent c)) (at d xs c) ≡ false
    bridged :
        (c : ℕ)
        → 0 < c
        → c < length xs
        → parent c ≡ i
        → 0 < i
        → less (at d xs (parent i)) (at d xs c) ≡ false

  -- `m` is a child of `i`, and no child of `i` in the range is greater.
  record IsLarger (xs : List A) (i m : ℕ) : Type 0 where
    child : (m ≡ 2 * i + 1) ⊎ (m ≡ 2 * i + 2)
    first : length xs ≤ m → length xs ≤ 2 * i + 1
    greatest : (c : ℕ) → 0 < c → c < length xs → parent c ≡ i → less (at d xs m) (at d xs c) ≡ false

  larger_child-IsLarger : (xs : List A) (i : ℕ) → IsLarger xs i (larger_child d less xs i)
  unfolding larger_child
  larger_child-IsLarger xs i =
      let l = at d xs (2 * i + 1) in
      let r = at d xs (2 * i + 1 + 1) in
      record {
        child = ground arith;
        first = λ h. ground arith;
        greatest = λ c p q e. ground (arith, w.asym l r, irrefl less l w, irrefl less r w);
      }

  swap-DownInv :
      (xs : List A) (i m : ℕ)
      → DownInv xs i
      → IsLarger xs i m
      → m < length xs
      → less (at d xs i) (at d xs m) ≡ true
      → DownInv (swap d xs i m) m
  swap-DownInv xs i m v s inside below =
      let size = length-swap d xs i m in
      let now = λ (c : ℕ). get_or-swap d xs i m c (omega (arith, s.child)) inside in
      let turned = w.asym _ _ below in
      record {
        edges = λ c p q n.
            ground
              (arith, now c, now (parent c), v.edges c, v.bridged m, s.greatest c, s.child, turned);
        bridged = λ c p q n r. ground (arith, now c, now (parent m), v.edges c, s.child);
      }

  sift_down_restores :
      (k : ℕ) (xs : List A) (i : ℕ)
      → length xs ≤ k + i
      → DownInv xs i
      → IsHeap d less (sift_down d less k xs i) × Perm (sift_down d less k xs i) xs
  unfolding sift_down
  sift_down_restores zero xs i lt v = (λ c p q. v.edges c p q (omega arith), Perm.rfl)
  sift_down_restores (suc k) xs i lt v =
      let m = larger_child d less xs i in
      let s = larger_child-IsLarger xs i in
      elim (Bool-cases (ltb m (length xs) && less (at d xs i) (at d xs m))) [
        | inl e ↦
            let inside : m < length xs = ground arith in
            let (heap, perm) =
              sift_down_restores k (swap d xs i m) m (omega (arith, length-swap d xs i m, s.child))
                (swap-DownInv xs i m v s inside (ground arith)) in
            rw e (heap, Perm.trans perm (swap-perm d xs i m (omega (arith, s.child)) inside))
        | inr e ↦ rw e (
          λ c p q. ground (
            arith,
            v.edges c,
            s.greatest c,
            s.first,
            s.child,
            w.chain (at d xs i) (at d xs m) (at d xs c),
          ),
          Perm.rfl,
        )
      ]

  -- The first element goes to the end, behind a heap of the others.
  pub pop_heap-IsHeap :
      (x : A) (xs : List A)
      → IsHeap d less (x ∷ xs)
      → (ys : List A) × (pop_heap d less (x ∷ xs) ≡ ok (ys ++ x ∷ []))
        × IsHeap d less ys
        × Perm ys xs
  unfolding pop_heap
  pop_heap-IsHeap x xs h =
      let n = length xs in
      let moved = swap d (x ∷ xs) 0 n in
      let cut = take n moved in
      let inside : n < length (x ∷ xs) = omega arith in
      let now = λ (c : ℕ). get_or-swap d (x ∷ xs) 0 n c (omega arith) inside in
      let kept = get_or-take d n moved in
      let last : at d moved n ≡ x = ground (arith, now n) in
      let whole : cut ++ x ∷ [] ≡ moved =
        rw last at (take-snoc d moved n (length-swap d (x ∷ xs) 0 n)) in
      let same : Perm (x ∷ cut) (x ∷ xs) =
        Perm.trans (Perm.symm (perm-snoc cut x))
          (rw whole (swap-perm d (x ∷ xs) 0 n (omega arith) inside)) in
      let size = length-perm same in
      let (heap, perm) = sift_down_restores n cut 0 (omega arith) (record {
        edges = λ c p q e. ground (arith, h c, now c, now (parent c), kept c, kept (parent c));
        bridged = λ c p q e r. absurd (omega arith);
      }) in
      (sift_down d less n cut 0, refl, heap, Perm.trans perm (Perm.cons_inv same))
