-- ===== src/Supervision/Entries.antt =====
-- `std::map<std::shared_ptr<task::Task>, …>`: the entries in the order of their keys. The numbers of
-- tasks that stand in a map rise with their addresses.
pub mod Order
use protocore.Base.{
  ℕ, ◌≡◌, refl, Option, none, some, List, [], ◌∷◌, ltb, ◌==◌, if◌then◌else◌, arith,
}

abbrev pub Table {ℓ} : Type ℓ → Type ℓ
Table A = List (ℕ × A)

module _ {ℓ} {A : Type ℓ} where
  unfoldable pub find : ℕ → Table A → Option A
  find key [] = none
  find key ((k, v) ∷ rest) = if key == k then some v else find key rest

  -- `map[key] = value`
  unfoldable pub assign : ℕ → A → Table A → Table A
  assign key value [] = (key, value) ∷ []
  assign key value ((k, v) ∷ rest) =
      let later = assign key value rest in
      if key == k
      then (key, value) ∷ rest
      else (if ltb key k then (key, value) ∷ (k, v) ∷ rest else (k, v) ∷ later)

  pub find-assign :
      (key other : ℕ) (value : A) (table : Table A)
      → find other (assign key value table)
        ≡ (if other == key then some value else find other table)
  unfolding find assign
  find-assign key other value [] = refl
  find-assign key other value ((k, v) ∷ rest) = ground (arith, find-assign key other value rest)
