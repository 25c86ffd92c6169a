-- ===== src/Tests/Pools.antt =====
-- A pool of three blocks.
use protocore.Base.{ℕ, ◌≡◌, refl, some, none, [], ◌∷◌, Run, ok, abort, throws, undefined}
use mathlib.Core.List.Perm
use protocore.MemoryPool.{MemoryPool, construct, allocate, deallocate, raw}
use protocore.MemoryPool.Client.{Reach, here, next, takes, gives, Safe, Reach-Safe}
use protocore.MemoryPool.Misuse.{double_free}

abbrev pub result {ℓ} : {A : Type ℓ} → Run A → A → A
result (ok a) d = a
result abort d = d
result throws d = d
result undefined d = d

abbrev no_pool : MemoryPool ℕ
no_pool = record {
  block_size = 0;
  block_count = 0;
  pool_data = 0;
  free_list = none;
  memory = λ _. raw;
}

abbrev pool : MemoryPool ℕ
unfolding construct
pool = result (construct 4096 16 3) no_pool

-- The pool behind one allocation.
abbrev taken : MemoryPool ℕ
unfolding construct allocate
taken = (result (allocate pool) (none, no_pool)).1

abbrev returned : MemoryPool ℕ
unfolding construct allocate deallocate
returned = result (deallocate taken (some 4096)) no_pool

abbrev returned_twice : MemoryPool ℕ
unfolding construct allocate deallocate
returned_twice = result (deallocate returned (some 4096)) no_pool

small_blocks : construct {A = ℕ} 4096 8 3 ≡ abort
unfolding construct
small_blocks = refl

first_block : allocate pool ≡ ok (some 4096, taken)
unfolding construct allocate
first_block = refl

-- Two blocks are taken and the first is returned.
abbrev both_taken : MemoryPool ℕ
unfolding construct allocate
both_taken = (result (allocate taken) (none, no_pool)).1

abbrev one_back : MemoryPool ℕ
unfolding construct allocate deallocate
one_back = result (deallocate both_taken (some 4096)) no_pool

history : Reach (record { pool = pool; held = [] }) (record { pool = one_back; held = 4112 ∷ [] })
unfolding construct allocate deallocate
history =
    next {d = record { pool = both_taken; held = 4112 ∷ 4096 ∷ [] }}
      (next {d = record { pool = taken; held = 4096 ∷ [] }} (next here (takes 4096 refl refl))
        (takes 4112 refl refl))
      (gives 4096 (Perm.swap 4096 4112 []) refl)

Reach-Safe_example : Safe 4096 16 3 (record { pool = one_back; held = 4112 ∷ [] })
unfolding construct allocate deallocate
Reach-Safe_example =
    Reach-Safe 4096 16 3 pool (record { pool = one_back; held = 4112 ∷ [] }) refl history

double_free_example : allocate returned_twice ≡ ok (some 4096, returned_twice)
unfolding construct allocate deallocate
double_free_example = double_free taken returned returned_twice 4096 refl refl
