-- ===== src/MessageQueue/Refinement/Steps.antt =====
-- One call, as a step of the abstract queue.
use protocore.Base.{
  ℕ, suc, ◌+◌, ◌^◌, ◌≤◌, ◌<◌, ◌≡◌, refl, sym, ap, subst, ◌∙◌, Bool, true, false, none, some, List,
  [], ◌∷◌, ◌++◌, arith, length, length-map, ok, undefined, if◌then◌else◌,
}
use native.Mathlib.Nat.{mod-eq_of_lt}
use protocore.Msg.{Msg, less}
use protocore.MessageQueue.{
  MessageQueue, enqueue, dequeue, try_dequeue, notify_shutdown, waits, returns,
}
use protocore.MessageQueue.Nodes.{Node}
use protocore.MessageQueue.Pick.{pick}
use protocore.MessageQueue.Model.{Models}
use protocore.MessageQueue.Enqueue.{enqueue-Models}
use protocore.MessageQueue.Dequeue.{dequeue-Models, try_dequeue-Models}
use protocore.MessageQueue.Close.{
  dequeue-empty, try_dequeue-empty, notify_shutdown-Models, reset-Models,
}
use protocore.MessageQueue.Calls.{Sound, enqueue-Sound, dequeue-Took, try_dequeue-Took}
use protocore.MessageQueue.Conservation.Steps.{has_room, TryResult}
use protocore.MessageQueue.Trace.{
  Event, sent, took, nothing, Step, enqueues, dequeues, ends, tries, misses, closes, Serve, sent_of,
}

-- How far a call may raise the sequence number.
abbrev pub raise : Event → ℕ → ℕ
raise (sent m) k = suc k
raise (took m) k = k
raise nothing k = k

abbrev pub Simulated : ℕ → MessageQueue → MessageQueue → List Msg → Event → Type 0
Simulated n q r ms e =
    (ms' : List Msg) × Models n r ms' × Serve ms e ms' × (r.sequence ≤ raise e q.sequence)

weaken : {n : ℕ} {q : MessageQueue} {ms : List Msg} → (v : Models n q ms) → Sound n q v.nodes
weaken v = record { intact = v.holds.intact; capacity = v.capacity }

length-nodes :
    {n : ℕ} {q : MessageQueue} {ms : List Msg} → (v : Models n q ms) → length v.nodes ≡ length ms
length-nodes v = omega (arith, length-map (λ (x : Node). x.message) v.nodes, ap length v.messages)

module _ (n : ℕ) (q r : MessageQueue) where
  simulate_send :
      (m : Msg) (ms : List Msg)
      → Models n q ms
      → q.sequence + 1 < 2 ^ 32
      → enqueue q m ≡ ok r
      → Simulated n q r ms (sent m)
  simulate_send m ms v fits e =
      let room = has_room n q m r v.nodes (weaken v) e in
      let (q', made, v', _) = enqueue-Models n q m ms v (omega (arith, length-nodes v)) fits in
      let (q'', made', _, numbers, _) = enqueue-Sound n q m v.nodes (weaken v) room in
      let same : q' ≡ r = cc in
      let same' : q'' ≡ r = cc in
      (
        ms ++ m ∷ [],
        subst (λ r. Models n r (ms ++ m ∷ [])) same v',
        refl,
        omega (arith, ap (λ (r : MessageQueue). r.sequence) same', numbers, mod-eq_of_lt fits),
      )

  simulate_take :
      (m : Msg) (ms : List Msg)
      → Models n q ms
      → dequeue q ≡ ok (returns (some m) r)
      → Simulated n q r ms (took m)
  simulate_take m [] v e = absurd (clash q.shutdown (sym e ∙ dequeue-empty n q v))
    where
      clash :
          (b : Bool)
          → ok (returns (some m) r)
            ≡ ok (if b then returns none (record q { sequence = 0 }) else waits)
          → ⊥
      clash true h = cc
      clash false h = cc
  simulate_take m (x ∷ ms) v e =
      let (best, rest) = pick less x ms in
      let (q', made, v', _) = dequeue-Models n q x ms v in
      let t = dequeue-Took n q v.nodes (weaken v) (omega (arith, length-nodes v)) in
      let got : ok (returns (some best) q') ≡ ok (returns (some m) r) = sym made ∙ e in
      let got' : ok (returns (some t.top.message) t.after) ≡ ok (returns (some m) r) =
        sym t.gives ∙ e in
      let same' : t.after ≡ r = cc in
      (
        rest,
        subst (λ r. Models n r rest) (cc) v',
        (cc, refl),
        omega (arith, ap (λ (r : MessageQueue). r.sequence) same', t.numbers),
      )

  simulate_end :
      (ms : List Msg) → Models n q ms → dequeue q ≡ ok (returns none r) → Simulated n q r ms nothing
  simulate_end [] v e = ended q.shutdown (sym e ∙ dequeue-empty n q v)
    where
      ended :
          (b : Bool)
          → ok (returns none r) ≡ ok (if b then returns none (record q { sequence = 0 }) else waits)
          → Simulated n q r [] nothing
      ended true h =
          let same : record q { sequence = 0 } ≡ r = cc in
          (
            [],
            subst (λ r. Models n r []) same (reset-Models n q v),
            refl,
            omega (arith, ap (λ (r : MessageQueue). r.sequence) same),
          )
      ended false h = cc
  simulate_end (x ∷ ms) v e =
      let (q', made, _, _) = dequeue-Models n q x ms v in
      let got : ok (returns (some (pick less x ms).0) q') ≡ ok (returns none r) = sym made ∙ e in cc

  simulate_try :
      (m : Msg) (ms : List Msg)
      → Models n q ms
      → ◌≡◌ {A = TryResult} (try_dequeue q) (ok (some m, r))
      → Simulated n q r ms (took m)
  simulate_try m [] v e = absurd (clash q.shutdown (sym e ∙ try_dequeue-empty n q v))
    where
      clash :
          (b : Bool)
          → ◌≡◌ {A = TryResult} (ok (some m, r)) (if b then undefined else ok (none, q))
          → ⊥
      clash true h = cc
      clash false h = cc
  simulate_try m (x ∷ ms) v e =
      let (best, rest) = pick less x ms in
      let (q', made, v', _) = try_dequeue-Models n q x ms v in
      let t = try_dequeue-Took n q v.nodes (weaken v) (omega (arith, length-nodes v)) in
      let got : ◌≡◌ {A = TryResult} (ok (some best, q')) (ok (some m, r)) = sym made ∙ e in
      let got' : ◌≡◌ {A = TryResult} (ok (some t.top.message, t.after)) (ok (some m, r)) =
        sym t.gives ∙ e in
      let same' : t.after ≡ r = cc in
      (
        rest,
        subst (λ r. Models n r rest) (cc) v',
        (cc, refl),
        omega (arith, ap (λ (r : MessageQueue). r.sequence) same', t.numbers),
      )

  simulate_miss :
      (ms : List Msg)
      → Models n q ms
      → ◌≡◌ {A = TryResult} (try_dequeue q) (ok (none, r))
      → Simulated n q r ms nothing
  simulate_miss [] v e = missed q.shutdown (sym e ∙ try_dequeue-empty n q v)
    where
      missed :
          (b : Bool)
          → ◌≡◌ {A = TryResult} (ok (none, r)) (if b then undefined else ok (none, q))
          → Simulated n q r [] nothing
      missed true h = cc
      missed false h =
          let same : q ≡ r = cc in
          (
            [],
            subst (λ r. Models n r []) same v,
            refl,
            omega (arith, ap (λ (r : MessageQueue). r.sequence) same),
          )
  simulate_miss (x ∷ ms) v e =
      let (q', made, _, _) = try_dequeue-Models n q x ms v in
      let got : ◌≡◌ {A = TryResult} (ok (some (pick less x ms).0, q')) (ok (none, r)) =
        sym made ∙ e in
      cc

simulate_close :
    (n : ℕ) (q r : MessageQueue) (ms : List Msg)
    → Models n q ms
    → r ≡ notify_shutdown q
    → Simulated n q r ms nothing
unfolding notify_shutdown
simulate_close n q r ms v e = (
  ms,
  subst (λ r. Models n r ms) (sym e) (notify_shutdown-Models n q ms v).0,
  refl,
  omega (arith, ap (λ (r : MessageQueue). r.sequence) e),
)

pub simulate :
    (n : ℕ) (q r : MessageQueue) (ms : List Msg) (e : Event)
    → Models n q ms
    → q.sequence + length (sent_of (e ∷ [])) < 2 ^ 32
    → Step q e r
    → Simulated n q r ms e
simulate n q r ms (sent m) v h (enqueues e) = simulate_send n q r m ms v h e
simulate n q r ms (took m) v h (dequeues e) = simulate_take n q r m ms v e
simulate n q r ms nothing v h (ends e) = simulate_end n q r ms v e
simulate n q r ms (took m) v h (tries e) = simulate_try n q r m ms v e
simulate n q r ms nothing v h (misses e) = simulate_miss n q r ms v e
simulate n q r ms nothing v h (closes e) = simulate_close n q r ms v e
