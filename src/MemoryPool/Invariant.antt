-- ===== src/MemoryPool/Invariant.antt =====
-- Who owns the blocks of a pool: the free list or the client. Each call of memory_pool.cpp against
-- the abstract stack of free blocks.
use mathlib.Core.List.{perm_middle, append-nil, mem-cons_self, mem-append_right, Nodup-append}
use mathlib.Core.List.Perm
use protocore.Base.{
  ℕ, zero, suc, ◌+◌, ◌<◌, ◌≡◌, refl, List, [], ◌∷◌, ◌++◌, Mem, Perm, Nodup, true, none, some, arith,
  ok, length, length-append, length-perm,
}
use protocore.MemoryPool.{
  MemoryPool, Ptr, released, raw, sizeof_pointer, in_range, fits, construct, allocate, deallocate,
  store, link_blocks,
}
use protocore.MemoryPool.Blocks.{
  blocks, blocks-Whole, Whole-bounds, length-blocks, blocks_bounds, blocks-Nodup, Chain,
  Chain-write, link_blocks-Chain,
}

module _ {A : Type 0} where
  abbrev pub pool_blocks : MemoryPool A → List ℕ
  pool_blocks p = blocks p.block_size p.pool_data p.block_count

  -- The free list holds the blocks `free` in this order, the client holds `used`, and together they
  -- are all the blocks, each once.
  pub record Owned (p : MemoryPool A) (free used : List ℕ) : Type 0 where
    pub sized : sizeof_pointer < p.block_size
    pub chain : Chain p.memory p.free_list free
    pub partition : Perm (free ++ used) (pool_blocks p)

  module _ {p : MemoryPool A} {free used : List ℕ} (o : Owned p free used) where
    pub Owned-Nodup : Nodup (free ++ used)
    Owned-Nodup =
        Perm.nodup (Perm.symm o.partition)
          (blocks-Nodup p.block_size p.pool_data p.block_count (omega (arith, o.sized)))

    pub Owned-length : length free + length used ≡ p.block_count
    Owned-length = omega (
      arith,
      length-append free used,
      length-perm o.partition,
      length-blocks p.block_size p.pool_data p.block_count,
    )

    pub Owned-in_range : (a : ℕ) → Mem a (free ++ used) → in_range p a ≡ true
    Owned-in_range a m =
        let (lo, hi) =
          blocks_bounds p.block_size p.pool_data p.block_count a (omega (arith, o.sized))
            ((Perm.mem_iff o.partition).0 m) in
        ground arith

    pub Owned-fits : (a : ℕ) → Mem a (free ++ used) → fits p a ≡ true
    Owned-fits a m =
        let whole =
          blocks-Whole p.block_size p.pool_data p.block_count a ((Perm.mem_iff o.partition).0 m) in
        let (_, hi) = Whole-bounds p.pool_data p.block_size p.block_count a whole in
        ground (arith, o.sized)

  pub Owned-held :
      {p : MemoryPool A} {free used : List ℕ} (a : ℕ)
      → Owned p free used
      → Mem a used
      → ¬ Mem a free
  Owned-held {p} {free} {used} a o m = λ f. (Nodup-append.0 (Owned-Nodup o)).2 a f m

  pub Owned-perm :
      {p : MemoryPool A} {free used used' : List ℕ}
      → Perm used' used
      → Owned p free used
      → Owned p free used'
  Owned-perm {free = free} same o = record {
    sized = o.sized;
    chain = o.chain;
    partition = Perm.trans (Perm.append_left free same) o.partition;
  }

  pub construct-Owned :
      (pool_data block_size block_count : ℕ)
      → 0 < block_count
      → sizeof_pointer < block_size
      → (p : MemoryPool A) × (construct pool_data block_size block_count ≡ ok p)
        × Owned p (blocks block_size pool_data block_count) []
  unfolding construct
  construct-Owned pool_data block_size zero h s = absurd (omega arith)
  construct-Owned pool_data block_size (suc n) h s = (
    record {
      block_size = block_size;
      block_count = suc n;
      pool_data = pool_data;
      free_list = some pool_data;
      memory = link_blocks block_size n pool_data (λ _. raw);
    },
    ground arith,
    record {
      sized = s;
      chain = link_blocks-Chain block_size n pool_data (λ _. raw) (omega arith);
      partition = rw append-nil (Perm.refl _);
    },
  )

  pub allocate-Owned :
      (p : MemoryPool A) (a : ℕ) (free used : List ℕ)
      → Owned p (a ∷ free) used
      → (next : Ptr) × (allocate p ≡ ok (some a, record p { free_list = next }))
        × Owned (record p { free_list = next }) free (a ∷ used)
  unfolding allocate
  allocate-Owned p a free used o =
      let (head, next, at, rest) = o.chain in
      let inside : in_range p a ≡ true = Owned-in_range o a mem-cons_self in
      (
        next,
        rw (head, inside, at),
        record {
          sized = o.sized;
          chain = rest;
          partition = Perm.trans (perm_middle free used) o.partition;
        },
      )

  pub allocate-exhausted :
      (p : MemoryPool A) (used : List ℕ) → Owned p [] used → allocate p ≡ ok (none, p)
  unfolding allocate
  allocate-exhausted p used o = rw o.chain

  pub store-Owned :
      (p : MemoryPool A) (a : ℕ) (v : A) (free used : List ℕ)
      → Owned p free used
      → Mem a used
      → Owned (store p a v) free used
  unfolding store
  store-Owned p a v free used o m = record {
    sized = o.sized;
    chain = Chain-write p.memory p.free_list free a _ (Owned-held a o m) o.chain;
    partition = o.partition;
  }

  pub deallocate-Owned :
      (p : MemoryPool A) (a : ℕ) (free used rest : List ℕ)
      → Owned p free used
      → Perm used (a ∷ rest)
      → (deallocate p (some a) ≡ ok (released p a)) × Owned (released p a) (a ∷ free) rest
  unfolding deallocate
  deallocate-Owned p a free used rest o held =
      let m : Mem a used = (Perm.mem_iff held).1 mem-cons_self in
      let inside : in_range p a ≡ true = Owned-in_range o a (mem-append_right free m) in
      (
        rw (inside, Owned-fits o a (mem-append_right free m)),
        record {
          sized = o.sized;
          chain = (
            refl,
            p.free_list,
            ground arith,
            Chain-write p.memory p.free_list free a _ (Owned-held a o m) o.chain,
          );
          partition =
              Perm.trans
                (Perm.trans (Perm.symm (perm_middle free rest))
                  (Perm.append_left free (Perm.symm held)))
                o.partition;
        },
      )
