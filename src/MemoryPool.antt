-- ===== src/MemoryPool.antt =====
-- include/memory_pool.h and src/memory_pool.cpp: a pool of equal blocks with an intrusive free list.
pub mod Blocks
pub mod Invariant
pub mod Client
pub mod Misuse
use protocore.Base.{
  ℕ, zero, suc, ◌+◌, ◌-◌, ◌*◌, Bool, ◌&&◌, Option, none, some, ltb, leb, ◌==◌, if◌then◌else◌, Run,
  ok, abort, undefined,
}

-- A pointer; `none` is nullptr.
abbrev pub Ptr : Type 0
Ptr = Option ℕ

-- What begins at an address of the storage, whatever its extent: nothing that was ever written, the pointer of a free block,
-- or an object that the pool's client has constructed there.
pub data Cell (A : Type 0) : Type 0 where
  raw : Cell A
  link : Ptr → Cell A
  object : A → Cell A

abbrev pub Memory : Type 0 → Type 0
Memory A = ℕ → Cell A

module _ {A : Type 0} where
  abbrev pub write : Memory A → ℕ → Cell A → Memory A
  write memory a v b = if a == b then v else memory b

pub record MemoryPool (A : Type 0) : Type 0 where
  pub block_size : ℕ
  pub block_count : ℕ
  pub pool_data : ℕ
  pub free_list : Ptr
  pub memory : Memory A

abbrev pub sizeof_pointer : ℕ
sizeof_pointer = 8

module _ {A : Type 0} where
  -- The `for` of the constructor with `n` rounds left, and the write of nullptr behind it.
  pub link_blocks : ℕ → ℕ → ℕ → Memory A → Memory A
  link_blocks block_size zero current memory = write memory current (link none)
  link_blocks block_size (suc n) current memory =
      let next = current + block_size in
      link_blocks block_size n next (write memory current (link (some next)))

  -- `pool_data` is the address that `make_unique` returns.
  unfoldable pub construct : ℕ → ℕ → ℕ → Run (MemoryPool A)
  unfolding link_blocks
  construct pool_data block_size block_count =
      if ltb 0 block_count && ltb sizeof_pointer block_size
      then ok (record {
        block_size = block_size;
        block_count = block_count;
        pool_data = pool_data;
        free_list = some pool_data;
        memory = link_blocks block_size (block_count - 1) pool_data (λ _. raw);
      })
      else abort

  -- The range test of both assertions, and whether a pointer fits between an address and the end.
  abbrev pub in_range : MemoryPool A → ℕ → Bool
  in_range p a = leb p.pool_data a && ltb a (p.pool_data + p.block_size * p.block_count)

  abbrev pub fits : MemoryPool A → ℕ → Bool
  fits p a = leb (a + sizeof_pointer) (p.pool_data + p.block_size * p.block_count)

  -- The read `*reinterpret_cast<std::byte**>(free_list)` wants the pointer of a free block there.
  pub allocate_at : MemoryPool A → ℕ → Cell A → Run (Ptr × MemoryPool A)
  allocate_at p a (link next) = ok (some a, record p { free_list = next })
  allocate_at p a _ = undefined

  pub allocate_from : MemoryPool A → Ptr → Run (Ptr × MemoryPool A)
  unfolding allocate_at
  allocate_from p none = ok (none, p)
  allocate_from p (some a) = if in_range p a then allocate_at p a (p.memory a) else abort

  unfoldable pub allocate : MemoryPool A → Run (Ptr × MemoryPool A)
  unfolding allocate_from
  allocate p = allocate_from p p.free_list

  -- The pool with the block at `a` in front of the free list.
  abbrev pub released : MemoryPool A → ℕ → MemoryPool A
  released p a = record p { memory = write p.memory a (link p.free_list); free_list = some a }

  -- The assertion tests the first byte; the write of the pointer needs all of its bytes.
  unfoldable pub deallocate : MemoryPool A → Ptr → Run (MemoryPool A)
  deallocate p none = abort
  deallocate p (some a) =
      if in_range p a then (if fits p a then ok (released p a) else undefined) else abort

  -- The client constructs an object in a block: placement new.
  unfoldable pub store : MemoryPool A → ℕ → A → MemoryPool A
  store p a v = record p { memory = write p.memory a (object v) }
