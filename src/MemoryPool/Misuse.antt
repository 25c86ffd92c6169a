-- ===== src/MemoryPool/Misuse.antt =====
-- What the assertion of `deallocate` lets through.
use protocore.Base.{
  ℕ, ◌≡◌, refl, true, false, some, arith, ◌↔◌, ok, abort, undefined, Bool-cases, inl, inr, ==_refl,
  subst, ap, ◌∙◌,
}
use protocore.MemoryPool.{MemoryPool, in_range, fits, allocate, deallocate, released}

module _ {A : Type 0} where
  deallocate-inv :
      (p q : MemoryPool A) (a : ℕ)
      → deallocate p (some a) ≡ ok q
      → (in_range p a ≡ true) × (released p a ≡ q)
  unfolding deallocate
  deallocate-inv p q a e = elim (Bool-cases (in_range p a)) [
    | inl inside ↦ elim (Bool-cases (fits p a)) [
      | inl room ↦ (inside, cc (rw (inside, room) at e))
      | inr cut ↦ cc (rw (inside, cut) at e)
    ]
    | inr outside ↦ cc (rw outside at e)
  ]

  allocate-released :
      (p : MemoryPool A) (a : ℕ)
      → in_range p a ≡ true
      → allocate (released p a) ≡ ok (some a, record (released p a) { free_list = p.free_list })
  unfolding allocate
  allocate-released p a inside = rw (inside, ==_refl a)

  -- The returned block is the next one handed out, with the rest of the free list as it was: also
  -- for an address in the pool at which no block begins.
  pub allocate-deallocate :
      (p q : MemoryPool A) (a : ℕ)
      → deallocate p (some a) ≡ ok q
      → allocate q ≡ ok (some a, record q { free_list = p.free_list })
  allocate-deallocate p q a e =
      let (inside, same) = deallocate-inv p q a e in
      subst (λ q. allocate q ≡ ok (some a, record q { free_list = p.free_list })) same
        (allocate-released p a inside)

  -- `deallocate` aborts exactly outside the pool, and writes past its end exactly where fewer bytes are
  -- left than a pointer has.
  pub deallocate-abort :
      (p : MemoryPool A) (a : ℕ)
      → ((deallocate p (some a) ≡ abort) ↔ (in_range p a ≡ false))
        × ((deallocate p (some a) ≡ undefined) ↔ ((in_range p a ≡ true) × (fits p a ≡ false)))
  unfolding deallocate
  deallocate-abort p a = ((ground arith, ground arith), (ground arith, ground arith))

  -- A block that is returned twice in a row is the next one handed out, and the pool is again as
  -- before: it is handed out again and again, and the pool never runs out.
  pub double_free :
      (p q r : MemoryPool A) (a : ℕ)
      → deallocate p (some a) ≡ ok q
      → deallocate q (some a) ≡ ok r
      → allocate r ≡ ok (some a, r)
  double_free p q r a e f =
      let (inside, once) = deallocate-inv p q a e in
      let (inside', again) = deallocate-inv q r a f in
      subst (λ r. allocate r ≡ ok (some a, r)) again
        (allocate-released q a inside'
          ∙ ap (λ h. ok (some a, record (released q a) { free_list = h }))
              (subst (λ q. q.free_list ≡ some a) once refl))
