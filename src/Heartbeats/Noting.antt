-- ===== src/Heartbeats/Noting.antt =====
-- Which number a task gets from `send_heartbeat`.
use mathlib.Core.List.{mem-cons, mem-cons_self, mem-cons_of_mem, not-mem-nil}
use mathlib.Core.Logic.Or
use mathlib.Core.HLevel.{⊥_prop}
use native.Mathlib.Nat.{ℕ_set}
use protocore.Base.{
  ℕ, ◌+◌, ◌%◌, ◌^◌, ◌≡◌, ◌≢◌, ◌<◌, ◌≤◌, sym, subst, ap, ◌∙◌, false, Bool-cases, inl, inr, some,
  List, [], ◌∷◌, Mem, ◌==◌, ==→eq, arith, length,
}
use protocore.Supervision.{TaskStatus}
use protocore.Supervision.Entries.{Table, find}
use protocore.Heartbeats.Numbering.{awaited, idle_tasks, numbers, noted}

-- A task from which no answer is awaited gets a number, which is noted.
pub find-noted :
    (now id task : ℕ) (status : TaskStatus) (entries : Table TaskStatus)
    → find task entries ≡ some status
    → status.awaiting_response ≡ false
    → (i : ℕ) × Mem (task, i) (numbers id (idle_tasks entries))
      × (find task (noted now id entries) ≡ some (awaited now i status))
unfolding find
find-noted now id task status [] e idle = cc
find-noted now id task status ((k, s) ∷ rest) e idle = elim (Bool-cases (task == k)) [
  | inl h ↦
      let same : s ≡ status = some_injective (rw h at e) in
      let waits : s.awaiting_response ≡ false =
        ap (λ (s : TaskStatus). s.awaiting_response) same ∙ idle in
      rw waits
        (id, rw (==→eq task k h) mem-cons_self, rw h (ap (λ s. some (awaited now id s)) same))
  | inr h ↦
      let found : find task rest ≡ some status = rw h at e in
      elim (Bool-cases s.awaiting_response) [
        | inl g ↦
            let (i, m, n) = find-noted now id task status rest found idle in rw g (i, m, rw h n)
        | inr g ↦
            let (i, m, n) = find-noted now ((id + 1) % 2 ^ 32) task status rest found idle in
            rw g (i, mem-cons_of_mem (k, id) m, rw h n)
      ]
]
  where
    some_injective : {a b : TaskStatus} → some a ≡ some b → a ≡ b
    some_injective e = cc

pairs : IsSet (ℕ × ℕ)
pairs = hlevel ℕ_set

-- The numbers behind one do not come back to it before 2 ^ 32 of them.
not_again :
    (id d t i : ℕ) (ts : List ℕ)
    → id < 2 ^ 32
    → 0 < d
    → d + length ts ≤ 2 ^ 32
    → Mem (t, i) (numbers ((id + d) % 2 ^ 32) ts)
    → i ≢ id
not_again id d t i [] small away few m e = absurd (not-mem-nil m)
not_again id d t i (x ∷ ts) small away few m e =
    Or.elim ⊥_prop (mem-cons.0 m)
      (λ p. let q : i ≡ (id + d) % 2 ^ 32 = ap (λ (p : ℕ × ℕ). p.1) p in omega arith)
      λ m'.
        let next : ((id + d) % 2 ^ 32 + 1) % 2 ^ 32 ≡ (id + (d + 1)) % 2 ^ 32 = omega arith in
        not_again id (d + 1) t i ts small (omega arith) (omega arith)
          (subst (λ n. Mem (t, i) (numbers n ts)) next m') e

-- Up to 2 ^ 32 tasks get different numbers.
pub numbers_unique :
    (id t u i : ℕ) (ts : List ℕ)
    → id < 2 ^ 32
    → length ts ≤ 2 ^ 32
    → Mem (t, i) (numbers id ts)
    → Mem (u, i) (numbers id ts)
    → t ≡ u
numbers_unique id t u i [] small few m n = absurd (not-mem-nil m)
numbers_unique id t u i (x ∷ ts) small few m n =
    Or.elim (ℕ_set t u) (mem-cons.0 m)
      (λ p.
        Or.elim (ℕ_set t u) (mem-cons.0 n)
          (λ q. ap (λ (p : ℕ × ℕ). p.0) p ∙ sym (ap (λ (p : ℕ × ℕ). p.0) q))
          (λ k. absurd (
            not_again id 1 u i ts small (omega arith) (omega arith) k (ap (λ (p : ℕ × ℕ). p.1) p))))
      (λ h.
        Or.elim (ℕ_set t u) (mem-cons.0 n)
          (λ q.
            absurd (
              not_again id 1 t i ts small (omega arith) (omega arith) h
                (ap (λ (p : ℕ × ℕ). p.1) q)))
          (λ k. numbers_unique ((id + 1) % 2 ^ 32) t u i ts (omega arith) (omega arith) h k))
