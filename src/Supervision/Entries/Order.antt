-- ===== src/Supervision/Entries/Order.antt =====
-- The entries of a map stand in the order of their keys, and so each is the one that is found.
use protocore.Base.{
  ℕ, ◌<◌, ◌≡◌, false, Bool-cases, inl, inr, some, [], ◌∷◌, All, arith, ltb, ◌==◌, ==_refl, ==→eq,
}
use protocore.Supervision.Entries.{Table, find, assign}

module _ {ℓ} {A : Type ℓ} where
  abbrev pub Above : ℕ → Table A → Type 0
  Above key table = All (λ (entry : ℕ × A). key < entry.0) table

  abbrev pub Ordered : Table A → Type 0
  Ordered [] = Unit
  Ordered ((k, v) ∷ rest) = Above k rest × Ordered rest

  Above-trans : (j k : ℕ) (table : Table A) → j < k → Above k table → Above j table
  Above-trans j k [] h a = tt
  Above-trans j k ((l, v) ∷ rest) h (m, a) = (omega arith, Above-trans j k rest h a)

  Above-assign :
      (low key : ℕ) (value : A) (table : Table A)
      → low < key
      → Above low table
      → Above low (assign key value table)
  unfolding assign
  Above-assign low key value [] h a = (h, tt)
  Above-assign low key value ((k, v) ∷ rest) h (m, a) = elim (Bool-cases (key == k)) [
    | inl e ↦ rw e (h, a)
    | inr e ↦ elim (Bool-cases (ltb key k)) [
      | inl l ↦ rw (e, l) (h, (m, a))
      | inr l ↦ rw (e, l) (m, Above-assign low key value rest h a)
    ]
  ]

  -- An assignment keeps the order.
  pub assign-Ordered :
      (key : ℕ) (value : A) (table : Table A) → Ordered table → Ordered (assign key value table)
  unfolding assign
  assign-Ordered key value [] o = (tt, tt)
  assign-Ordered key value ((k, v) ∷ rest) (a, o) = elim (Bool-cases (key == k)) [
    | inl e ↦ rw e (rw (==→eq key k e) a, o)
    | inr e ↦ elim (Bool-cases (ltb key k)) [
      | inl l ↦ rw (e, l) ((ground arith, Above-trans key k rest (ground arith) a), (a, o))
      | inr l ↦
          rw (e, l)
            (Above-assign k key value rest (ground arith) a, assign-Ordered key value rest o)
    ]
  ]

  find-lt :
      (low k : ℕ) (v : A) (table : Table A) → Above low table → find k table ≡ some v → low < k
  unfolding find
  find-lt low k v [] a f = cc
  find-lt low k v ((l, w) ∷ rest) (m, a) f = elim (Bool-cases (k == l)) [
    | inl e ↦ ground arith
    | inr e ↦ find-lt low k v rest a (rw e at f)
  ]

  -- What holds of all values that are found holds of all entries.
  pub find-All {κ} :
      (P : A → Type κ) (table : Table A)
      → Ordered table
      → ((k : ℕ) (v : A) → find k table ≡ some v → P v)
      → All (λ (entry : ℕ × A). P entry.1) table
  unfolding find
  find-All P [] o h = tt
  find-All P ((k, v) ∷ rest) (a, o) h =
      (h k v (rw (==_refl k)), find-All P rest o λ j w f. h j w (later j w f))
    where
      later : (j : ℕ) (w : A) → find j rest ≡ some w → find j ((k, v) ∷ rest) ≡ some w
      later j w f =
          let above = find-lt k j w rest a f in
          let apart : (j == k) ≡ false = ground arith in rw apart f
