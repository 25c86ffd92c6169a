-- ===== src/Base/Outcome.antt =====
-- How a call ends: with a value, at a failed `assert`, by an exception, or in undefined behaviour.
use mathlib.Core.Path.{◌≡◌, refl}
use mathlib.Core.Bool.{Bool, true, false}
use protocore.Base.Tests.{if◌then◌else◌}

-- `abort` is a failed `assert` or a call of `std::terminate`, `throws` an exception that leaves the
-- call, and `undefined` undefined behaviour.
pub data Run {ℓ} (A : Type ℓ) : Type ℓ where
  ok : A → Run A
  abort throws undefined : Run A

-- Behind a call that ends otherwise nothing runs.
infixl 5 ◌>>=◌
abbrev pub ◌>>=◌ {ℓ ι} : {X : Type ℓ} {Y : Type ι} → Run X → (X → Run Y) → Run Y
abort >>= next = abort
throws >>= next = throws
undefined >>= next = undefined
ok x >>= next = next x

-- The parts of a call that returned.
pub >>=-eq-ok {ℓ ι} :
    {X : Type ℓ} {Y : Type ι} (call : Run X) (next : X → Run Y) {result : Y}
    → (call >>= next) ≡ ok result
    → (x : X) × (call ≡ ok x) × (next x ≡ ok result)
>>=-eq-ok abort next e = cc
>>=-eq-ok throws next e = cc
>>=-eq-ok undefined next e = cc
>>=-eq-ok (ok x) next e = (x, refl, e)

pub ok-injective {ℓ} : {A : Type ℓ} {a b : A} → ok a ≡ ok b → a ≡ b
ok-injective e = cc

-- Behind an assertion that held.
pub assert-ok {ℓ} :
    {A : Type ℓ} {a : A} (b : Bool) (m : Run A) → (if b then m else abort) ≡ ok a → m ≡ ok a
assert-ok true m e = e
assert-ok false m e = cc

-- How a call may end.
abbrev pub Returns {ℓ} : {A : Type ℓ} → Run A → Type 0
Returns (ok _) = Unit
Returns _ = ⊥

-- It fails an assertion if `P` holds, and else returns.
abbrev pub AbortsIf {ℓ} : {A : Type ℓ} → Type 0 → Run A → Type 0
AbortsIf P (ok _) = ¬ P
AbortsIf P abort = P
AbortsIf P _ = ⊥

-- It is undefined if `P` holds, and else returns.
abbrev pub UndefinedIf {ℓ} : {A : Type ℓ} → Type 0 → Run A → Type 0
UndefinedIf P (ok _) = ¬ P
UndefinedIf P undefined = P
UndefinedIf P _ = ⊥

-- It returns if `Q` holds, and else fails an assertion.
abbrev pub ReturnsIff {ℓ} : {A : Type ℓ} → Type 0 → Run A → Type 0
ReturnsIff Q (ok _) = Q
ReturnsIff Q abort = ¬ Q
ReturnsIff Q _ = ⊥

module _ {ℓ ι} {A : Type ℓ} {B : Type ι} where
  pub AbortsIf-bind :
      (P : Type 0) (f : A → B) (c : Run A) → AbortsIf P c → AbortsIf P (c >>= λ x. ok (f x))
  AbortsIf-bind P f (ok x) h = h
  AbortsIf-bind P f abort h = h
  AbortsIf-bind P f throws h = absurd h
  AbortsIf-bind P f undefined h = absurd h

  pub ReturnsIff-bind :
      {Q R : Type 0} (f : A → B) (c : Run A)
      → (Q → R)
      → (R → Q)
      → ReturnsIff Q c
      → ReturnsIff R (c >>= λ x. ok (f x))
  ReturnsIff-bind f (ok x) up down h = up h
  ReturnsIff-bind f abort up down h = λ r. h (down r)
  ReturnsIff-bind f throws up down h = absurd h
  ReturnsIff-bind f undefined up down h = absurd h

pub widened {ℓ} :
    {A : Type ℓ} {Q R : Type 0} (c : Run A) → (Q → R) → (R → Q) → ReturnsIff Q c → ReturnsIff R c
widened (ok x) up down h = up h
widened abort up down h = λ r. h (down r)
widened throws up down h = absurd h
widened undefined up down h = absurd h

-- Behind two assertions of which the second holds.
pub guarded {ℓ} :
    {A : Type ℓ} (a b : Bool) (c : Run A) (Q : Type 0)
    → b ≡ true
    → ReturnsIff Q c
    → ReturnsIff ((a ≡ true) × Q) (if a then (if b then c else abort) else abort)
guarded a false c Q e h = cc
guarded false true c Q e h = λ (p, _). cc
guarded true true c Q e h = widened c (λ q. (refl, q)) (λ (_, q). q) h
