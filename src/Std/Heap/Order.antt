-- ===== src/Std/Heap/Order.antt =====
-- The comparators that the algorithms accept, and the ranges that are heaps.
use protocore.Base.{
  ℕ, zero, suc, ◌<◌, ◌≡◌, Bool, true, false, Bool-cases, inl, inr, List, arith, length,
}
use protocore.Std.Heap.{parent, at}

-- A strict weak order: `less a b ≡ false` says that `b` may stand above `a`.
pub record IsStrictWeak {A : Type 0} (less : A → A → Bool) : Type 0 where
  pub asym : (a b : A) → less a b ≡ true → less b a ≡ false
  pub chain : (a b c : A) → less a b ≡ false → less b c ≡ false → less a c ≡ false

pub irrefl : {A : Type 0} (less : A → A → Bool) (a : A) → IsStrictWeak less → less a a ≡ false
irrefl less a w = elim (Bool-cases (less a a)) [ inl e ↦ w.asym a a e | inr e ↦ e ]

module _ {A : Type 0} (d : A) (less : A → A → Bool) where
  -- `std::is_heap`: no element is greater than its parent.
  abbrev pub IsHeap : List A → Type 0
  IsHeap xs = (c : ℕ) → 0 < c → c < length xs → less (at d xs (parent c)) (at d xs c) ≡ false

  root_not_less_below :
      (k : ℕ) (xs : List A) (i : ℕ)
      → IsStrictWeak less
      → IsHeap xs
      → i < k
      → i < length xs
      → less (at d xs 0) (at d xs i) ≡ false
  root_not_less_below zero xs i w h lt inside = absurd (omega arith)
  root_not_less_below (suc k) xs zero w h lt inside = irrefl less _ w
  root_not_less_below (suc k) xs (suc i) w h lt inside =
      w.chain _ _ _ (root_not_less_below k xs (parent (suc i)) w h (omega arith) (omega arith))
        (h (suc i) (omega arith) inside)

  -- The first element of a heap is a greatest one.
  pub root_not_less :
      (xs : List A) (i : ℕ)
      → IsStrictWeak less
      → IsHeap xs
      → i < length xs
      → less (at d xs 0) (at d xs i) ≡ false
  root_not_less xs i w h inside = root_not_less_below (suc i) xs i w h (omega arith) inside
