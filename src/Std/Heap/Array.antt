-- ===== src/Std/Heap/Array.antt =====
-- Reads after writes, and the elements kept by a swap.
use mathlib.Core.List.Perm
use protocore.Base.{
  ℕ, zero, suc, ◌<◌, ◌≡◌, refl, ap, ◌∙◌, List, [], ◌∷◌, ◌++◌, Perm, arith, ◌==◌, if◌then◌else◌,
  length, get_or, set, take, length-set,
}
use protocore.Std.Heap.{swap}

module _ {A : Type 0} (d : A) where
  pub get_or-set :
      (xs : List A) (i c : ℕ) (v : A)
      → i < length xs
      → get_or (set xs i v) c d ≡ (if i == c then v else get_or xs c d)
  get_or-set [] i c v h = absurd (omega arith)
  get_or-set (x ∷ xs) zero zero v h = refl
  get_or-set (x ∷ xs) zero (suc c) v h = ground arith
  get_or-set (x ∷ xs) (suc i) zero v h = ground arith
  get_or-set (x ∷ xs) (suc i) (suc c) v h = ground (arith, get_or-set xs i c v)

  pub get_or-append :
      (xs ys : List A) (c : ℕ) → c < length xs → get_or (xs ++ ys) c d ≡ get_or xs c d
  get_or-append [] ys c h = absurd (omega arith)
  get_or-append (x ∷ xs) ys zero h = refl
  get_or-append (x ∷ xs) ys (suc c) h = get_or-append xs ys c (omega arith)

  pub get_or-take : (n : ℕ) (xs : List A) (c : ℕ) → c < n → get_or (take n xs) c d ≡ get_or xs c d
  get_or-take zero xs c h = absurd (omega arith)
  get_or-take (suc n) [] c h = refl
  get_or-take (suc n) (x ∷ xs) zero h = refl
  get_or-take (suc n) (x ∷ xs) (suc c) h = get_or-take n xs c (omega arith)

  -- The last element behind the others.
  pub take-snoc : (xs : List A) (n : ℕ) → length xs ≡ suc n → take n xs ++ get_or xs n d ∷ [] ≡ xs
  take-snoc [] n h = absurd (omega arith)
  take-snoc (x ∷ []) zero h = refl
  take-snoc (x ∷ []) (suc n) h = absurd (omega arith)
  take-snoc (x ∷ y ∷ xs) zero h = absurd (omega arith)
  take-snoc (x ∷ y ∷ xs) (suc n) h = ap (◌∷◌ x) (take-snoc (y ∷ xs) n (omega arith))

  -- A write exchanges the element for the value.
  exchange-perm :
      (xs : List A) (i : ℕ) (v : A) → i < length xs → Perm (get_or xs i d ∷ set xs i v) (v ∷ xs)
  exchange-perm [] i v h = absurd (omega arith)
  exchange-perm (x ∷ xs) zero v h = Perm.swap v x xs
  exchange-perm (x ∷ xs) (suc i) v h =
      Perm.trans (Perm.swap x (get_or xs i d) (set xs i v))
        (Perm.trans (Perm.cons x (exchange-perm xs i v (omega arith))) (Perm.swap v x xs))

  pub length-swap : (xs : List A) (i j : ℕ) → length (swap d xs i j) ≡ length xs
  unfolding swap
  length-swap xs i j = simp length-set

  pub get_or-swap :
      (xs : List A) (i j c : ℕ)
      → i < length xs
      → j < length xs
      → get_or (swap d xs i j) c d
        ≡ (if j == c then get_or xs i d else if i == c then get_or xs j d else get_or xs c d)
  unfolding swap
  get_or-swap xs i j c hi hj =
      get_or-set (set xs i (get_or xs j d)) j c (get_or xs i d) (rw length-set hj)
      ∙ ap (λ (t : A). if j == c then get_or xs i d else t) (get_or-set xs i c (get_or xs j d) hi)

  pub swap-perm : (xs : List A) (i j : ℕ) → i < length xs → j < length xs → Perm (swap d xs i j) xs
  unfolding swap
  swap-perm xs i j hi hj =
      let once = set xs i (get_or xs j d) in
      let same : get_or once j d ≡ get_or xs j d =
        ground (arith, get_or-set xs i j (get_or xs j d)) in
      let twice = exchange-perm once j (get_or xs i d) (rw length-set hj) in
      Perm.cons_inv (Perm.trans (rw same at twice) (exchange-perm xs i (get_or xs j d) hi))

module _ {A : Type 0} where
  pub get_or-snoc : (d : A) (xs : List A) (x : A) → get_or (xs ++ x ∷ []) (length xs) d ≡ x
  get_or-snoc d [] x = refl
  get_or-snoc d (y ∷ xs) x = get_or-snoc d xs x

  pub take-append : (xs ys : List A) → take (length xs) (xs ++ ys) ≡ xs
  take-append [] ys = refl
  take-append (x ∷ xs) ys = ap (◌∷◌ x) (take-append xs ys)
