-- ===== src/Broker/Subscribers.antt =====
-- The subscription lists.
use mathlib.Core.List.{
  mem-cons, mem-cons_self, mem-cons_of_mem, not-mem-nil, Nodup-cons, mem-append,
}
use mathlib.Core.List.Perm
use mathlib.Core.Logic.Or
use mathlib.Core.Logic.{◌∨₁◌, ◌↔◌, ∨₁_prop}
use mathlib.Core.HLevel.{⊥_prop}
use protocore.Base.{
  ℕ, ◌≡◌, ◌≢◌, inl, inr, refl, sym, ap, Bool, true, false, Bool-cases, ◌&&◌, List, [], ◌∷◌, ◌++◌,
  Mem, Nodup, arith, ◌==◌, ==→eq, ==_refl, ok, ltb, perm-snoc,
}
use protocore.Msg.{MsgType, type_index}
use protocore.System.{System}
use protocore.Broker.{is_subscribed, subscribe, set_list, message_type_count}

is_subscribed-false :
    (sys : System) (task : ℕ) (ts : List ℕ)
    → sys.alive task ≡ true
    → is_subscribed sys task ts ≡ false
    → ¬ Mem task ts
unfolding is_subscribed
is_subscribed-false sys task [] l e = λ m. not-mem-nil m
is_subscribed-false sys task (t ∷ ts) l e = λ m.
    Or.elim ⊥_prop (mem-cons.0 m) (λ p. here p) (is_subscribed-false sys task ts l (ground arith))
  where
    here : task ≡ t → ⊥
    here p = ground arith

is_subscribed-true :
    (sys : System) (task : ℕ) (ts : List ℕ) → is_subscribed sys task ts ≡ true → Mem task ts
unfolding is_subscribed
is_subscribed-true sys task [] e = cc
is_subscribed-true sys task (t ∷ ts) e = elim (Bool-cases (sys.alive t && t == task)) [
  | inl here ↦ rw (==→eq t task (ground arith)) mem-cons_self
  | inr elsewhere ↦ mem-cons_of_mem t (is_subscribed-true sys task ts (ground arith))
]

mem-snoc : (t task : ℕ) (ts : List ℕ) → Mem t (ts ++ task ∷ []) ↔ (Mem t ts ∨₁ (t ≡ task))
mem-snoc t task ts = (
  λ m.
      Or.elim ∨₁_prop (mem-append.0 m) Or.inl
        (λ n. Or.elim ∨₁_prop (mem-cons.0 n) Or.inr (λ k. absurd (not-mem-nil k))),
  λ o.
      Or.elim squash₁ o (λ m. (mem-append {s = ts} {t = task ∷ []}).1 (Or.inl m))
        (λ e. (mem-append {s = ts} {t = task ∷ []}).1 (Or.inr (rw e mem-cons_self))),
)

known : (t : MsgType) → ltb (type_index t) message_type_count ≡ true
known t = ground arith

other_list :
    (lists : MsgType → List ℕ) (type u : MsgType) (l : List ℕ)
    → type_index u ≢ type_index type
    → set_list lists type l u ≡ lists u
other_list lists type u l apart = elim (Bool-cases (type_index type == type_index u)) [
  | inl e ↦ absurd (apart (sym (==→eq _ _ e)))
  | inr e ↦ rw e
]

-- A live task that subscribes is on the list of the type afterwards, on no other list that it was
-- not on, and a list without duplicates stays one, however often the task subscribes.
pub subscribe-Nodup :
    (task : ℕ) (type : MsgType) (sys : System)
    → sys.initialized ≡ true
    → sys.alive task ≡ true
    → Nodup (sys.subscriber_lists type)
    → (lists : MsgType → List ℕ) × (subscribe task type sys
        ≡ ok (record sys { subscriber_lists = lists }))
      × Nodup (lists type)
      × ((t : ℕ) → Mem t (lists type) ↔ (Mem t (sys.subscriber_lists type) ∨₁ (t ≡ task)))
      × ((u : MsgType) → type_index u ≢ type_index type → lists u ≡ sys.subscriber_lists u)
unfolding subscribe
subscribe-Nodup task type sys started l d =
    elim (Bool-cases (is_subscribed sys task (sys.subscriber_lists type))) [
      | inl e ↦ (
        sys.subscriber_lists,
        simp (started, known type, e)
            (ap (λ (b : Bool). ok (record sys { initialized = b })) started),
        d,
        λ t.
            (Or.inl, λ o. Or.elim squash₁ o (λ m. m) (λ p. rw p (is_subscribed-true sys task _ e))),
        λ u apart. refl,
      )
      | inr e ↦
          let list = sys.subscriber_lists type in
          let at_type : set_list sys.subscriber_lists type (list ++ task ∷ []) type
              ≡ list ++ task ∷ [] =
            rw (==_refl (type_index type)) in
          (
            set_list sys.subscriber_lists type (list ++ task ∷ []),
            simp (started, known type, e),
            rw at_type (
                Perm.nodup (Perm.symm (perm-snoc list task))
                  (Nodup-cons.1 (is_subscribed-false sys task list l e, d))),
            λ t. rw at_type (mem-snoc t task list),
            λ u. other_list sys.subscriber_lists type u (list ++ task ∷ []),
          )
    ]

-- The first subscription of a type.
pub subscribe-first :
    (task : ℕ) (type : MsgType) (sys : System)
    → sys.initialized ≡ true
    → sys.subscriber_lists type ≡ []
    → subscribe task type sys
      ≡ ok (record sys { subscriber_lists = set_list sys.subscriber_lists type (task ∷ []) })
unfolding subscribe is_subscribed
subscribe-first task type sys started empty = simp (started, known type, empty)
