-- ===== src/Broker/Listener.antt =====
-- A list with one subscriber.
use mathlib.Core.List.{mem-cons_self, not-mem-nil, Nodup-cons, Nodup-nil}
use protocore.Base.{only_member, ℕ, ◌≡◌, sym, subst, List, [], ◌∷◌, Mem, Nodup}
use protocore.Msg.{Msg}
use protocore.System.{System}
use protocore.Broker.Delivery.{AllReady}
use protocore.Broker.Single.{Ready}

module _ {x : ℕ} {ts : List ℕ} (alone : ts ≡ x ∷ []) where
  pub listener_only : {t : ℕ} → Mem t ts → t ≡ x
  listener_only {t = t} m = only_member (subst (Mem t) alone m)

  pub listener-Mem : Mem x ts
  listener-Mem = subst (Mem x) (sym alone) mem-cons_self

  pub listener-Nodup : Nodup ts
  listener-Nodup = subst Nodup (sym alone) (Nodup-cons.1 (not-mem-nil, Nodup-nil))

  pub listener-AllReady :
      (msg : Msg) (room : ℕ → ℕ) (inbox : ℕ → List Msg) {sys : System}
      → Ready sys x (room x) (inbox x)
      → AllReady msg room inbox ts sys
  listener-AllReady msg room inbox {sys} r t m _ =
      subst (λ t. Ready sys t (room t) (inbox t)) (sym (listener_only m)) r
