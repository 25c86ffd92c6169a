-- ===== src/MemoryPool/Blocks.antt =====
-- The block addresses of a pool, and the chain of the free list through its memory.
use mathlib.Core.Logic.{◌∨₁◌, ∥∥₁_elim, ∥∥₁_map}
use mathlib.Core.Logic.Or
use mathlib.Core.List.{mem-cons, mem-cons_self, mem-cons_of_mem, not-mem-nil, Nodup-cons, Nodup-nil}
use mathlib.Core.HLevel.{×_prop}
use native.Mathlib.Bridge.{le_prop}
use native.Mathlib.Decide.{dec_lt}
use protocore.Base.{
  ℕ, zero, suc, ◌+◌, ◌*◌, ◌≤◌, ◌<◌, ◌≡◌, ◌≢◌, refl, List, [], ◌∷◌, Mem, Nodup, none, some, arith,
  length,
}
use protocore.MemoryPool.{Ptr, Cell, link, Memory, write, link_blocks}

-- The addresses of `n` blocks in a row.
pub blocks : ℕ → ℕ → ℕ → List ℕ
blocks block_size a zero = []
blocks block_size a (suc n) = a ∷ blocks block_size (a + block_size) n

pub length-blocks : (size a n : ℕ) → length (blocks size a n) ≡ n
unfolding blocks
length-blocks size a zero = refl
length-blocks size a (suc n) = omega (arith, length-blocks size (a + size) n)

pub blocks_bounds :
    (size a n b : ℕ) → 0 < size → Mem b (blocks size a n) → (a ≤ b) × (b < a + size * n)
unfolding blocks
blocks_bounds size a zero b h m = absurd (not-mem-nil m)
blocks_bounds size a (suc n) b h m =
    Or.elim (×_prop le_prop le_prop) (mem-cons.0 m) (λ e. (omega arith, grind arith))
      λ m'. let (lo, hi) = blocks_bounds size (a + size) n b h m' in (omega arith, grind arith)

-- The block at `a` begins a whole number of blocks behind the start of the pool's `n` blocks.
abbrev pub Whole : ℕ → ℕ → ℕ → ℕ → Type 0
Whole start size n a = ∥ ((i : ℕ) × (i < n) × (a ≡ start + size * i)) ∥₁

pub blocks-Whole : (size start n a : ℕ) → Mem a (blocks size start n) → Whole start size n a
unfolding blocks
blocks-Whole size start zero a m = absurd (not-mem-nil m)
blocks-Whole size start (suc n) a m =
    Or.elim squash₁ (mem-cons.0 m) (λ e. ∣ (0, omega arith, omega (arith, e)) ∣₁)
      λ m'.
        ∥∥₁_map (blocks-Whole size (start + size) n a m')
          (λ (i, lt, e). (i + 1, omega (arith, lt), grind (arith, e)))

-- Such a block ends inside the pool.
pub Whole-bounds :
    (start size n a : ℕ) → Whole start size n a → (start ≤ a) × (a + size ≤ start + size * n)
Whole-bounds start size n a w =
    ∥∥₁_elim w (×_prop le_prop le_prop) (λ (i, lt, e). (grind arith, grind arith))

-- Two such blocks do not overlap.
pub Whole-apart :
    (start size n a b : ℕ)
    → Whole start size n a
    → Whole start size n b
    → a ≢ b
    → (a + size ≤ b) ∨₁ (b + size ≤ a)
Whole-apart start size n a b v w apart = ∥∥₁_elim v squash₁ λ (i, _, e).
    ∥∥₁_elim w squash₁ λ (j, _, f). elim (dec_lt i j) [
      | yes lower ↦ Or.inl (grind arith)
      | no above ↦ elim (dec_lt j i) [
        | yes lower ↦ Or.inr (grind arith)
        | no below ↦ let same : i ≡ j = omega arith in absurd (apart (cc))
      ]
    ]

pub blocks-Nodup : (size a n : ℕ) → 0 < size → Nodup (blocks size a n)
unfolding blocks
blocks-Nodup size a zero h = Nodup-nil
blocks-Nodup size a (suc n) h = Nodup-cons.1 (
  λ m. let (lo, _) = blocks_bounds size (a + size) n a h m in absurd (omega arith),
  blocks-Nodup size (a + size) n h,
)

module _ {A : Type 0} where
  -- The pointer `h` leads through the blocks `xs`, in this order, to nullptr.
  abbrev pub Chain : Memory A → Ptr → List ℕ → Type 0
  Chain memory h [] = h ≡ none
  Chain memory h (x ∷ xs) =
      (h ≡ some x) × (next : Ptr) × (memory x ≡ link next) × Chain memory next xs

  pub Chain-write :
      (memory : Memory A) (h : Ptr) (xs : List ℕ) (a : ℕ) (v : Cell A)
      → ¬ Mem a xs
      → Chain memory h xs
      → Chain (write memory a v) h xs
  Chain-write memory h [] a v n c = c
  Chain-write memory h (x ∷ xs) a v n (e, next, at, c) =
      let apart : a ≢ x = λ p. n (rw p mem-cons_self) in
      (e, next, ground arith, Chain-write memory next xs a v (λ m. n (mem-cons_of_mem x m)) c)

  link_blocks_below :
      (size n a b : ℕ) (memory : Memory A)
      → 0 < size
      → b < a
      → link_blocks size n a memory b ≡ memory b
  unfolding link_blocks
  link_blocks_below size zero a b memory h lt = ground arith
  link_blocks_below size (suc n) a b memory h lt =
      ground
        (arith, link_blocks_below size n (a + size) b (write memory a (link (some (a + size)))) h)

  pub link_blocks-Chain :
      (size n a : ℕ) (memory : Memory A)
      → 0 < size
      → Chain (link_blocks size n a memory) (some a) (blocks size a (suc n))
  unfolding link_blocks blocks
  link_blocks-Chain size zero a memory h = (refl, none, ground arith, refl)
  link_blocks-Chain size (suc n) a memory h = (
    refl,
    some (a + size),
    ground
        (arith, link_blocks_below size n (a + size) a (write memory a (link (some (a + size)))) h),
    link_blocks-Chain size n (a + size) (write memory a (link (some (a + size)))) h,
  )
