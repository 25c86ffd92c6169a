-- ===== src/MessageQueue/Pick.antt =====
-- The abstract queue: the messages in order of arrival, of which the first among those of the
-- highest priority is taken.
use mathlib.Core.List.Perm
use protocore.Base.{
  ◌≡◌, refl, Bool, true, ◌++◌, All, Bool-cases, inl, inr, if◌then◌else◌, List, [], ◌∷◌, map, Perm,
  arith,
}

module _ {A : Type 0} (less : A → A → Bool) where
  -- The first of `a ∷ xs` that none of them exceeds, and the others in order.
  unfoldable pub pick : A → List A → A × List A
  pick a [] = (a, [])
  pick a (x ∷ xs) = let (b, rest) = pick x xs in if less a b then (b, a ∷ rest) else (a, x ∷ xs)

  pub pick-perm : (a : A) (xs : List A) → Perm ((pick a xs).0 ∷ (pick a xs).1) (a ∷ xs)
  unfolding pick
  pick-perm a [] = Perm.rfl
  pick-perm a (x ∷ xs) = elim (Bool-cases (less a (pick x xs).0)) [
    | inl e ↦ rw e (Perm.trans (Perm.swap a _ _) (Perm.cons a (pick-perm x xs)))
    | inr e ↦ rw e Perm.rfl
  ]

  -- What exceeds all before it is picked though it came last.
  pub pick-last :
      (best a : A) (xs : List A)
      → All (λ x. less x best ≡ true) (a ∷ xs)
      → pick a (xs ++ best ∷ []) ≡ (best, a ∷ xs)
  unfolding pick
  pick-last best a [] (h, _) = rw h refl
  pick-last best a (x ∷ xs) (h, lower) = rw (pick-last best x xs lower, h) refl

-- Elements that are compared by what `f` reads of them are picked as those readings are.
module _ {A B : Type 0} (less : B → B → Bool) (f : A → B) where
  pub pick-map :
      (a : A) (xs : List A)
      → let (b, rest) = pick (λ x y. less (f x) (f y)) a xs in
        pick less (f a) (map f xs) ≡ (f b, map f rest)
  unfolding pick
  pick-map a [] = refl
  pick-map a (x ∷ xs) = rw (pick-map x xs) (ground arith)
