-- ===== src/Std/Heap.antt =====
-- `std::push_heap` and `std::pop_heap` over a vector, by swaps along one branch of the tree.
pub mod Array
pub mod Order
pub mod Up
pub mod Down
pub mod Laws
use protocore.Base.{
  ℕ, zero, suc, ◌+◌, ◌-◌, ◌*◌, ◌/◌, Bool, ◌&&◌, List, [], ◌∷◌, ◌++◌, ltb, if◌then◌else◌, length,
  get_or, set, take, Run, ok, undefined,
}

abbrev pub parent : ℕ → ℕ
parent c = (c - 1) / 2

module _ {A : Type 0} where
  -- `default` stands for a read past the end, which the algorithms never make.
  abbrev pub at : A → List A → ℕ → A
  at default xs i = get_or xs i default

  pub swap : A → List A → ℕ → ℕ → List A
  swap default xs i j = set (set xs i (at default xs j)) j (at default xs i)

-- `less` is the comparator of the call.
module _ {A : Type 0} (default : A) (less : A → A → Bool) where
  pub sift_up : ℕ → List A → ℕ → List A
  sift_up zero xs i = xs
  sift_up (suc fuel) xs i =
      let rest = sift_up fuel (swap default xs i (parent i)) (parent i) in
      if ltb 0 i && less (at default xs (parent i)) (at default xs i) then rest else xs

  -- The last element is new; the others are a heap.
  unfoldable pub push_heap : List A → List A
  unfolding sift_up swap
  push_heap xs = sift_up (length xs) xs (length xs - 1)

  pub larger_child : List A → ℕ → ℕ
  larger_child xs i =
      let left = 2 * i + 1 in
      if ltb (left + 1) (length xs) && less (at default xs left) (at default xs (left + 1))
      then left + 1
      else left

  pub sift_down : ℕ → List A → ℕ → List A
  unfolding larger_child
  sift_down zero xs i = xs
  sift_down (suc fuel) xs i =
      let child = larger_child xs i in
      let rest = sift_down fuel (swap default xs i child) child in
      if ltb child (length xs) && less (at default xs i) (at default xs child) then rest else xs

  -- The first element goes to the end, and the others become a heap again. On an empty range the
  -- call is undefined.
  unfoldable pub pop_heap : List A → Run (List A)
  unfolding sift_down swap
  pop_heap [] = undefined
  pop_heap (x ∷ xs) =
      let n = length xs in
      let moved = swap default (x ∷ xs) 0 n in ok (sift_down n (take n moved) 0 ++ x ∷ [])
