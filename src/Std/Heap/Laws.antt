-- ===== src/Std/Heap/Laws.antt =====
-- Heaps seen through membership, and heaps of pointers under a change of memory.
use mathlib.Core.Logic.Or
use mathlib.Core.List.{mem-cons, mem-cons_self, mem-cons_of_mem, not-mem-nil}
use protocore.Base.{ℕ, zero, suc, ◌<◌, ◌≡◌, Bool, false, List, [], ◌∷◌, Mem, arith, length}
use protocore.Std.Heap.{parent, at}
use protocore.Std.Heap.Order.{IsStrictWeak, IsHeap, root_not_less}

module _ {A : Type 0} (d : A) where
  pub at-mem : (xs : List A) (i : ℕ) → i < length xs → Mem (at d xs i) xs
  at-mem [] i h = absurd (omega arith)
  at-mem (x ∷ xs) zero h = mem-cons_self
  at-mem (x ∷ xs) (suc i) h = mem-cons_of_mem x (at-mem xs i (omega arith))

  all_of_at :
      (P : A → Type 0)
      → ((a : A) → IsProp (P a))
      → (xs : List A) → ((i : ℕ) → i < length xs → P (at d xs i))
      → (a : A) → Mem a xs
      → P a
  all_of_at P prop [] h a m = absurd (not-mem-nil m)
  all_of_at P prop (x ∷ xs) h a m =
      Or.elim (prop a) (mem-cons.0 m) (λ e. rw e (h 0 (omega arith)))
        (all_of_at P prop xs (λ i p. h (suc i) (omega arith)) a)

  -- No element of a heap is greater than the first.
  pub first_not_less :
      (less : A → A → Bool) (x : A) (xs : List A)
      → IsStrictWeak less
      → IsHeap d less (x ∷ xs)
      → (a : A) → Mem a (x ∷ xs)
      → less x a ≡ false
  first_not_less less x xs w h =
      all_of_at (λ a. less x a ≡ false) (λ a. hlevel) (x ∷ xs)
        λ i. root_not_less d less (x ∷ xs) i w h

  -- A heap stays one when the values that are compared stay.
  pub IsHeap-congr :
      {B : Type 0} (less : B → B → Bool) (f g : A → B) (xs : List A)
      → ((a : A) → Mem a xs → f a ≡ g a)
      → IsHeap d (λ a b. less (f a) (f b)) xs
      → IsHeap d (λ a b. less (g a) (g b)) xs
  IsHeap-congr less f g xs same h c p q =
      let up = same (at d xs (parent c)) (at-mem xs (parent c) (omega arith)) in
      let down = same (at d xs c) (at-mem xs c q) in rw (up, down) at (h c p q)
