-- ===== src/MemoryPool/Client.antt =====
-- Histories of calls of a memory pool by clients that return only blocks they hold.
use mathlib.Core.List.{mem-append_right, mem-cons_self, Nodup-append}
use mathlib.Core.List.Perm
use mathlib.Core.Logic.{◌∨₁◌}
use protocore.Base.{
  ℕ, ◌+◌, ◌*◌, ◌≤◌, ◌<◌, ◌≡◌, ◌≢◌, ◌⊎◌, inl, inr, refl, sym, subst, subst₂, List, [], ◌∷◌, ◌++◌,
  Mem, Perm, Nodup, none, some, arith, ok, length,
}
use protocore.MemoryPool.{MemoryPool, Ptr, sizeof_pointer, construct, allocate, deallocate, store}
use protocore.MemoryPool.Blocks.{Whole, blocks-Whole, Whole-bounds, Whole-apart}
use protocore.MemoryPool.Invariant.{
  Owned, Owned-Nodup, Owned-length, Owned-held, construct-Owned, allocate-Owned, allocate-exhausted,
  store-Owned, deallocate-Owned,
}

-- A pool with the blocks that were handed out and not returned.
pub record Client (A : Type 0) : Type 0 where
  pub pool : MemoryPool A
  pub held : List ℕ

module _ {A : Type 0} where
  pub data Step (c d : Client A) : Type 0 where
    takes : (a : ℕ) → allocate c.pool ≡ ok (some a, d.pool) → d.held ≡ a ∷ c.held → Step c d
    refused : allocate c.pool ≡ ok (none, d.pool) → d.held ≡ c.held → Step c d
    gives : (a : ℕ) → Perm c.held (a ∷ d.held) → deallocate c.pool (some a) ≡ ok d.pool → Step c d
    fills : (a : ℕ) (v : A) → Mem a c.held → d.pool ≡ store c.pool a v → d.held ≡ c.held → Step c d

  pub data Reach (c : Client A) : Client A → Type 0 where
    here : Reach c c
    next : {d e : Client A} → Reach c d → Step d e → Reach c e

  -- The pool is one of `n` blocks of that size, from `start` on.
  abbrev pub Shape : ℕ → ℕ → ℕ → MemoryPool A → Type 0
  Shape start size n p = (p.pool_data ≡ start) × (p.block_size ≡ size) × (p.block_count ≡ n)

  -- Some order of the blocks that are not held is the free list.
  abbrev pub Inv : ℕ → ℕ → ℕ → Client A → Type 0
  Inv start size n c = (free : List ℕ) × Owned c.pool free c.held × Shape start size n c.pool

  -- The same pool and blocks, under other names.
  renamed :
      {p q : MemoryPool A} {free xs ys : List ℕ}
      → Owned p free xs
      → p ≡ q
      → xs ≡ ys
      → Owned q free ys
  renamed {free = free} o e h = subst₂ (λ p xs. Owned p free xs) e h o

  module _ (start size n : ℕ) where
    moved :
        {p : MemoryPool A} {free held : List ℕ} (d : Client A)
        → Owned p free held
        → Shape start size n p
        → p ≡ d.pool
        → held ≡ d.held
        → Inv start size n d
    moved {free = free} d o shape same held =
        (free, renamed o same held, subst (Shape start size n) same shape)

    taken :
        (c d : Client A) (a : ℕ) (free : List ℕ)
        → Owned c.pool free c.held
        → Shape start size n c.pool
        → allocate c.pool ≡ ok (some a, d.pool)
        → d.held ≡ a ∷ c.held
        → Inv start size n d
    taken c d a [] o shape got held = cc (allocate-exhausted c.pool c.held o)
    taken c d a (b ∷ free) o shape got held =
        let (head, made, o') = allocate-Owned c.pool b free c.held o in moved d o' shape (cc) (cc)

    not_taken :
        (c d : Client A) (free : List ℕ)
        → Owned c.pool free c.held
        → Shape start size n c.pool
        → allocate c.pool ≡ ok (none, d.pool)
        → d.held ≡ c.held
        → Inv start size n d
    not_taken c d [] o shape got held =
        moved d o shape (cc (allocate-exhausted c.pool c.held o)) (sym held)
    not_taken c d (b ∷ free) o shape got held =
        let (head, made, o') = allocate-Owned c.pool b free c.held o in cc

    pub Step-Inv : {c d : Client A} → Step c d → Inv start size n c → Inv start size n d
    unfolding store
    Step-Inv {c} {d} (takes a got held) (free, o, shape) = taken c d a free o shape got held
    Step-Inv {c} {d} (refused got held) (free, o, shape) = not_taken c d free o shape got held
    Step-Inv {c} {d} (gives a held done) (free, o, shape) =
        let (made, o') = deallocate-Owned c.pool a free c.held d.held o held in
        moved d o' shape (cc) refl
    Step-Inv {c} {d} (fills a v m made held) (free, o, shape) =
        moved d (store-Owned c.pool a v free c.held o m) shape (sym made) (sym held)

    pub Reach-Inv : {c d : Client A} → Inv start size n c → Reach c d → Inv start size n d
    Reach-Inv v here = v
    Reach-Inv v (next r s) = Step-Inv s (Reach-Inv v r)

  -- What the next allocation does: nullptr exactly when all `n` blocks are held, else a whole block
  -- that is not held.
  abbrev pub Grants : ℕ → ℕ → ℕ → Client A → Ptr × MemoryPool A → Type 0
  Grants start size n c (r, q) =
      ((length c.held ≡ n) × (r ≡ none) × (q ≡ c.pool))
      ⊎ ((a : ℕ) × (length c.held < n) × (r ≡ some a) × (¬ Mem a c.held) × Whole start size n a)

  pub record Safe (start size n : ℕ) (c : Client A) : Type 0 where
    pub distinct : Nodup c.held
    pub whole : (a : ℕ) → Mem a c.held → Whole start size n a
    pub inside : (a : ℕ) → Mem a c.held → (start ≤ a) × (a + size ≤ start + size * n)
    pub apart : (a b : ℕ) → Mem a c.held → Mem b c.held → a ≢ b → (a + size ≤ b) ∨₁ (b + size ≤ a)
    pub grants : (r : Ptr × MemoryPool A) × (allocate c.pool ≡ ok r) × Grants start size n c r
    pub accepts :
        (a : ℕ) (rest : List ℕ)
        → Perm c.held (a ∷ rest)
        → (q : MemoryPool A) × (deallocate c.pool (some a) ≡ ok q)

  module _ {start size n : ℕ} {c : Client A} where
    Owned-Whole :
        {free : List ℕ}
        → Owned c.pool free c.held
        → Shape start size n c.pool
        → (a : ℕ) → Mem a (free ++ c.held)
        → Whole start size n a
    Owned-Whole o (from, sized, count) a m =
        subst₂ (λ s k. Whole start s k a) sized count
          (subst (λ s. Whole s c.pool.block_size c.pool.block_count a) from
            (blocks-Whole c.pool.block_size c.pool.pool_data c.pool.block_count a
              ((Perm.mem_iff o.partition).0 m)))

    granted :
        (free : List ℕ)
        → Owned c.pool free c.held
        → Shape start size n c.pool
        → (r : Ptr × MemoryPool A) × (allocate c.pool ≡ ok r) × Grants start size n c r
    granted [] o (_, _, count) = (
      (none, c.pool),
      allocate-exhausted c.pool c.held o,
      inl (omega (arith, Owned-length o), refl, refl),
    )
    granted (a ∷ free) o shape =
        let (head, made, o') = allocate-Owned c.pool a free c.held o in
        let (_, _, count) = shape in
        (
          _,
          made,
          inr (
            a,
            omega (arith, Owned-length o),
            refl,
            λ m. Owned-held a o m mem-cons_self,
            Owned-Whole o shape a mem-cons_self,
          ),
        )

    pub Inv-Safe : Inv start size n c → Safe start size n c
    Inv-Safe (free, o, shape) =
        let at : (a : ℕ) → Mem a c.held → Whole start size n a =
          λ a m. Owned-Whole o shape a (mem-append_right free m) in
        record {
          distinct = (Nodup-append.0 (Owned-Nodup o)).1;
          whole = at;
          inside = λ a m. Whole-bounds start size n a (at a m);
          apart = λ a b m m'. Whole-apart start size n a b (at a m) (at b m');
          grants = granted free o shape;
          accepts = λ a rest held.
              let (made, _) = deallocate-Owned c.pool a free c.held rest o held in (_, made);
        }

  construct-inv :
      (pool_data block_size n : ℕ) (p : MemoryPool A)
      → construct pool_data block_size n ≡ ok p
      → (0 < n) × (sizeof_pointer < block_size) × Shape pool_data block_size n p
  unfolding construct
  construct-inv pool_data block_size n p made = ground arith

  -- Whatever clients do with a pool that was constructed of n blocks of a size, short of returning
  -- blocks that they do not hold: the blocks held are distinct, each begins a whole number of blocks
  -- behind the start and ends inside the pool, and no two of them overlap; no call aborts or is
  -- undefined, and an allocation gives nullptr exactly when n blocks are held, and otherwise such a
  -- block that nobody holds.
  pub Reach-Safe :
      (pool_data block_size n : ℕ) (p : MemoryPool A) (c : Client A)
      → construct pool_data block_size n ≡ ok p
      → Reach (record { pool = p; held = [] }) c
      → Safe pool_data block_size n c
  Reach-Safe pool_data block_size n p c made r =
      let (pos, large, shape) = construct-inv pool_data block_size n p made in
      let (q, made', o) = construct-Owned pool_data block_size n pos large in
      Inv-Safe (Reach-Inv pool_data block_size n (_, renamed o (cc) refl, shape) r)
