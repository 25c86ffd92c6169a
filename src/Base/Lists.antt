-- ===== src/Base/Lists.antt =====
-- Lists measured and indexed by native numbers, under the library's names.
use Prim.Native.Nat.{ℕ, zero, suc, ◌+◌}
use mathlib.Core.Path.{◌≡◌, refl, ap}
use mathlib.Core.Logic.{∥∥₁_elim}
use mathlib.Core.List.{
  List, [], ◌∷◌, ◌++◌, Mem, mem-cons, not-mem-nil, map, Perm, Permᴰ, perm_middle, append-nil,
}
use mathlib.Core.Logic.Or
use native.Mathlib.Omega.{arith}
use native.Mathlib.Nat.{ℕ_set}

module _ {ℓ} {A : Type ℓ} where
  abbrev pub length : List A → ℕ
  length [] = 0
  length (x ∷ xs) = suc (length xs)

  abbrev pub get_or : List A → ℕ → A → A
  get_or [] i d = d
  get_or (x ∷ xs) zero d = x
  get_or (x ∷ xs) (suc i) d = get_or xs i d

  -- A write out of bounds changes nothing.
  abbrev pub set : List A → ℕ → A → List A
  set [] i v = []
  set (x ∷ xs) zero v = v ∷ xs
  set (x ∷ xs) (suc i) v = x ∷ set xs i v

  abbrev pub take : ℕ → List A → List A
  take zero xs = []
  take (suc n) [] = []
  take (suc n) (x ∷ xs) = x ∷ take n xs

  -- Every element satisfies `P`.
  abbrev pub All {κ} : (A → Type κ) → List A → Type κ
  All P [] = Unit
  All P (x ∷ xs) = P x × All P xs

  pub length-append : (xs ys : List A) → length (xs ++ ys) ≡ length xs + length ys
  length-append [] ys = omega arith
  length-append (x ∷ xs) ys = omega (arith, length-append xs ys)

  pub length-set : (xs : List A) (i : ℕ) (v : A) → length (set xs i v) ≡ length xs
  length-set [] i v = refl
  length-set (x ∷ xs) zero v = refl
  length-set (x ∷ xs) (suc i) v = ap suc (length-set xs i v)

pub only_member : {t x : ℕ} → Mem t (x ∷ []) → t ≡ x
only_member m = Or.elim (ℕ_set _ _) (mem-cons.0 m) (λ e. e) (λ k. absurd (not-mem-nil k))

module _ {ℓ} {A : Type ℓ} where
  same_length : {xs ys : List A} → Permᴰ xs ys → length xs ≡ length ys
  same_length (Permᴰ.trans p q) = omega (arith, same_length p, same_length q)
  same_length (Permᴰ.swap x y) = refl
  same_length (Permᴰ.cons x p) = ap suc (same_length p)
  same_length Permᴰ.nil = refl

  pub length-perm : {xs ys : List A} → Perm xs ys → length xs ≡ length ys
  length-perm shuffled = ∥∥₁_elim shuffled (ℕ_set _ _) same_length

  pub perm-snoc : (xs : List A) (x : A) → Perm (xs ++ x ∷ []) (x ∷ xs)
  perm-snoc xs x = rw (append-nil xs) at (perm_middle {a = x} xs [])

  pub length-map {κ} : {B : Type κ} (f : A → B) (xs : List A) → length (map f xs) ≡ length xs
  length-map f [] = refl
  length-map f (x ∷ xs) = ap suc (length-map f xs)
