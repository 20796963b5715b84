-- ===== src/Executor/Once.antt =====
-- A call of the executor gives no candidate a second order that is in flight or ended well.
use stock_ai_platform.Base.{
  ℕ, ◌+◌, ◌≡◌, sym, false, [], ◌∷◌, ◌++◌, inl, inr, ◌⊎◌, Text, ◌==◌, ==_iff, find-passes,
}
use mathlib.Core.Path.{subst}
use stock_ai_platform.Store.{RealOrder, Settings, Session}
use stock_ai_platform.RealOrder
use stock_ai_platform.RealOrder.Single.{SingleRows, SingleRows-append}
use stock_ai_platform.Executor.Words.{RealOrderExecutor}
use stock_ai_platform.Executor.Run.{dispatch, execute}
use stock_ai_platform.Executor.Gates.{execute-cases}
use stock_ai_platform.Executor.Effect.{dispatch-Effect}

abbrev pub Single : Session → Type 0
Single s = SingleRows s.real_orders s.next_real_order

-- The orders after a call: as before, or one more, of the candidate, with the next key.
abbrev pub Grew : ℕ → Session → Session → Type 0
Grew k s t =
    ((t.real_orders ≡ s.real_orders) × (t.next_real_order ≡ s.next_real_order))
    ⊎ ((o : RealOrder) × (t.real_orders ≡ s.real_orders ++ o ∷ [])
        × (o.id ≡ s.next_real_order)
        × (o.candidate_id ≡ k)
        × (t.next_real_order ≡ s.next_real_order + 1))

-- A new order of a candidate that is not blocked keeps the invariant.
Grew-Single :
    (k : ℕ) (s t : Session)
    → Single s
    → RealOrder.exists_non_failed_for_candidate k s ≡ false
    → Grew k s t
    → Single t
unfolding RealOrder.exists_non_failed_for_candidate
Grew-Single k s t h fresh (inl same) =
    subst (λ os. SingleRows os t.next_real_order) (sym same.0)
      (subst (SingleRows s.real_orders) (sym same.1) h)
Grew-Single k s t h fresh (inr (o, orders, id, candidate, next)) =
    subst (λ os. SingleRows os t.next_real_order) (sym orders)
      (subst (SingleRows (s.real_orders ++ o ∷ [])) (sym next)
        (SingleRows-append s.real_orders s.next_real_order k o h fresh id candidate))

pub execute-Single :
    (sha256 : Text → Text) (e : RealOrderExecutor) (settings : Settings) (i : ℕ) (s : Session)
    → Single s
    → Single (execute sha256 e settings i s).1
execute-Single sha256 e settings i s h = elim (execute-cases sha256 e settings i s) [
  | inl (reason, order, same) ↦ subst (λ r. Single r.1) (sym same) h
  | inr (c, gates, same) ↦
      let key : c.id ≡ i =
        (==_iff c.id i).0 (find-passes (λ r. r.id == i) s.candidates c gates.found) in
      let fresh =
        subst (λ k. RealOrder.exists_non_failed_for_candidate k s ≡ false) (sym key) gates.fresh in
      let t = (dispatch sha256 e settings c s).1 in
      let grew : Grew c.id s t = elim (dispatch-Effect sha256 e settings c s h.below) [
        | inl quiet ↦ quiet.grew
        | inr (inl (dry, other, loud)) ↦ loud.grew
        | inr (inr (live, loud)) ↦ loud.grew
      ] in
      subst (λ r. Single r.1) (sym same) (Grew-Single c.id s t h fresh grew)
]
