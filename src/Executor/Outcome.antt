-- ===== src/Executor/Outcome.antt =====
-- The end of a placement: the order is written back in the status of the answer's class, and
-- nothing of it raises.
use stock_ai_platform.Base.{
  ℕ, zero, suc, ◌≡◌, ◌<◌, refl, ap, sym, ◌∙◌, false, Option, some, List, [], ◌∷◌, ◌++◌, arith, All,
  Text, ℤ, take, find,
}
use mathlib.Core.Path.{subst}
use stock_ai_platform.Store.{
  OrderCandidate, RealOrder, RealOrderStatus, Session, value_error, Action, pure, gets, ◌>>◌,
}
use stock_ai_platform.Store.Triple.{Triple, Triple-pure, Triple-bind, Triple-pass, Triple-weaken}
use stock_ai_platform.RealOrder
use stock_ai_platform.Audit
use stock_ai_platform.Kis.{KisOrderResult}
use stock_ai_platform.FillSync.Kept.{
  Raises, View, Moved, append-View, save-View, update_status-Moved,
}
use stock_ai_platform.Executor.Words.{
  Placement, submitted, rejected, timeout, network_error, unknown, ExecutorResult, placement_text,
  scrub,
}
use stock_ai_platform.Executor.Place.{
  record_submitted, record_failed, record_outcome, submitted_result, failed_result, submitted_entry,
  failed_entry, broker_hash,
}
use stock_ai_platform.Executor.Scrubbed.{scrub-Clean}

-- The status and the result of each class.
abbrev pub ended : Placement → RealOrderStatus
ended submitted = RealOrderStatus.submitted
ended _ = RealOrderStatus.failed

abbrev pub placed_result : Placement → ℕ → ExecutorResult
placed_result submitted order = submitted_result order
placed_result class order = failed_result order class

-- The order under the key `n` stands in this status.
abbrev pub Stands : ℕ → RealOrderStatus → Session → Type 0
Stands n w t = (o : RealOrder) × (find (RealOrder.has_id n) t.real_orders ≡ some o) × (o.status ≡ w)

pub find-last :
    (n : ℕ) (xs : List RealOrder) (o : RealOrder)
    → All (λ r. r.id < n) xs
    → o.id ≡ n
    → find (RealOrder.has_id n) (xs ++ o ∷ []) ≡ some o
find-last n [] o h e = ground arith
find-last n (x ∷ xs) o h e = let ih = find-last n xs o h.1 e in ground arith

take-twice : (m : ℕ) (t : Text) → take m (take m t) ≡ take m t
take-twice zero t = refl
take-twice (suc m) [] = refl
take-twice (suc m) (c ∷ t) = ap (λ u. c ∷ u) (take-twice m t)

module _ (n : ℕ) (f : ℤ) where
  -- The order in its status, then the audit row and the result.
  record-Stands :
      (o : RealOrder) (w : RealOrderStatus) (a : Audit.NewEntry) (r : ExecutorResult)
      → Audit.details_leak a.details ≡ false
      → Audit.too_long a.ip_hash ≡ false
      → Audit.too_long a.user_agent_hash ≡ false
      → o.status ≡ w
      → Triple (View n o f) (λ x t. (x ≡ r) × Stands n w t) Raises (Audit.append a >> pure r)
  record-Stands o w a r leak ip agent e =
      let Q : ExecutorResult → Session → Type 0 = λ x t. (x ≡ r) × Stands n w t in
      Triple-bind (λ _. View n o f) Q (Audit.append a) _ (append-View n f o a leak ip agent)
        λ _. Triple-pure Q r (λ s v. (refl, (o, v.found, e)))

  -- `save` of a row in the same status.
  save-Stands :
      (o o' : RealOrder) (w : RealOrderStatus)
      → o'.id ≡ o.id
      → o'.status ≡ w
      → Triple (View n o f) (λ r t. View n r f t × (r.status ≡ w)) Raises (RealOrder.save o')
  save-Stands o o' w i e =
      Triple-weaken (λ r t. (r ≡ o') × View n o' f t) (λ r t. View n r f t × (r.status ≡ w))
        (RealOrder.save o') (λ s v. v)
        (λ r t h. (subst (λ x. View n x f t) (sym h.0) h.1, ap (λ x. x.status) h.0 ∙ e)) (λ s x. x)
        (save-View n f o o' i)

  -- The result names the order by its key.
  renamed :
      {P : Session → Type 0} (w : RealOrderStatus) (k : ℕ) (result : ℕ → ExecutorResult)
      (m : Action ExecutorResult)
      → k ≡ n
      → Triple P (λ x t. (x ≡ result k) × Stands n w t) Raises m
      → Triple P (λ x t. (x ≡ result n) × Stands n w t) Raises m
  renamed w k result m e h =
      Triple-weaken (λ x t. (x ≡ result k) × Stands n w t) (λ x t. (x ≡ result n) × Stands n w t) m
        (λ s p. p) (λ x t q. (q.0 ∙ ap result e, q.1)) (λ s x. x) h

  mark_submitted-Stands :
      (o : RealOrder) (hash : Option Text)
      → RealOrder.is_terminal o.status ≡ false
      → Triple
          (View n o f)
          (λ r t. View n r f t × (r.status ≡ RealOrderStatus.submitted))
          Raises
          (RealOrder.mark_submitted o hash)
  unfolding RealOrder.mark_submitted
  mark_submitted-Stands o hash running =
      let w = RealOrderStatus.submitted in
      let Q : RealOrder → Session → Type 0 = λ r t. View n r f t × (r.status ≡ w) in
      Triple-bind (Moved n o w f) Q (RealOrder.update_status o w) _
        (update_status-Moved n f o w running)
        λ o1.
          Triple-bind (λ _. Moved n o w f o1) Q (gets λ s. s.clock)
            (λ now.
              RealOrder.save (record o1 { broker_order_no_hash = hash; submitted_at = some now }))
            (record { at = λ s m. m })
            λ now. record {
              at = λ s m.
                  (save-Stands o1
                      (record o1 { broker_order_no_hash = hash; submitted_at = some now }) w refl
                      m.status).at
                    s m.view;
            }

  mark_failed-Stands :
      (o : RealOrder) (code : Option Text) (message : Text)
      → RealOrder.is_terminal o.status ≡ false
      → Triple
          (View n o f)
          (λ r t. View n r f t × (r.status ≡ RealOrderStatus.failed))
          Raises
          (RealOrder.mark_failed o code (some (take 500 (scrub message))))
  unfolding RealOrder.mark_failed RealOrder.checked_message
  mark_failed-Stands o code message running =
      let w = RealOrderStatus.failed in
      let m = take 500 (scrub message) in
      let Q : RealOrder → Session → Type 0 = λ r t. View n r f t × (r.status ≡ w) in
      Triple-bind (λ _. View n o f) Q (RealOrder.checked_message (some m)) _
        (Triple-pass (λ _. View n o f) (RealOrder.bad_message (take 500 m)) value_error
          (pure (some (take 500 m)))
          (ap RealOrder.bad_message (take-twice 500 (scrub message)) ∙ scrub-Clean message 500)
          (record { at = λ s v. v }))
        λ kept.
          Triple-bind (Moved n o w f) Q (RealOrder.update_status o w)
            (λ o1. RealOrder.save (record o1 { error_code = code; error_message = kept }))
            (update_status-Moved n f o w running)
            λ o1. record {
              at = λ s x.
                  (save-Stands o1 (record o1 { error_code = code; error_message = kept }) w refl
                      x.status).at
                    s x.view;
            }

  record_submitted-Stands :
      (sha256 : Text → Text) (c : OrderCandidate) (o : RealOrder) (result : KisOrderResult)
      → RealOrder.is_terminal o.status ≡ false
      → o.id ≡ n
      → Triple
          (View n o f)
          (λ x t. (x ≡ submitted_result n) × Stands n RealOrderStatus.submitted t)
          Raises
          (record_submitted sha256 c o result)
  unfolding record_submitted Audit.details_leak
  record_submitted-Stands sha256 c o result running key =
      let hash = broker_hash sha256 result.order_no in
      let w = RealOrderStatus.submitted in
      let Q : ExecutorResult → Session → Type 0 = λ x t. (x ≡ submitted_result n) × Stands n w t in
      Triple-bind (λ r t. View n r f t × (r.status ≡ w)) Q (RealOrder.mark_submitted o hash)
        (λ _. Audit.append (submitted_entry sha256 c result) >> pure (submitted_result o.id))
        (mark_submitted-Stands o hash running)
        λ o1. record {
          at = λ s h.
              (renamed w o.id (λ k. submitted_result k)
                  (Audit.append (submitted_entry sha256 c result) >> pure (submitted_result o.id))
                  key
                  (record-Stands o1 w (submitted_entry sha256 c result) (submitted_result o.id) refl
                    refl refl h.1)).at
                s h.0;
        }

  record_failed-Stands :
      (sha256 : Text → Text) (c : OrderCandidate) (o : RealOrder) (result : KisOrderResult)
      (class : Placement)
      → RealOrder.is_terminal o.status ≡ false
      → o.id ≡ n
      → Triple
          (View n o f)
          (λ x t. (x ≡ failed_result n class) × Stands n RealOrderStatus.failed t)
          Raises
          (record_failed sha256 c o result class)
  unfolding record_failed Audit.details_leak
  record_failed-Stands sha256 c o result class running key =
      let w = RealOrderStatus.failed in
      let code = some (placement_text class) in
      let Q : ExecutorResult → Session → Type 0 =
        λ x t. (x ≡ failed_result n class) × Stands n w t in
      Triple-bind (λ r t. View n r f t × (r.status ≡ w)) Q
        (RealOrder.mark_failed o code (some (take 500 (scrub result.message))))
        (λ _. Audit.append (failed_entry c class) >> pure (failed_result o.id class))
        (mark_failed-Stands o code result.message running)
        λ o1. record {
          at = λ s h.
              (renamed w o.id (λ k. failed_result k class)
                  (Audit.append (failed_entry c class) >> pure (failed_result o.id class)) key
                  (record-Stands o1 w (failed_entry c class) (failed_result o.id class) refl refl
                    refl h.1)).at
                s h.0;
        }

  pub record_outcome-Stands :
      (sha256 : Text → Text) (c : OrderCandidate) (o : RealOrder) (result : KisOrderResult)
      (class : Placement)
      → RealOrder.is_terminal o.status ≡ false
      → o.id ≡ n
      → Triple
          (View n o f)
          (λ x t. (x ≡ placed_result class n) × Stands n (ended class) t)
          Raises
          (record_outcome sha256 c o result class)
  record_outcome-Stands sha256 c o result submitted running key =
      record_submitted-Stands sha256 c o result running key
  record_outcome-Stands sha256 c o result rejected running key =
      record_failed-Stands sha256 c o result rejected running key
  record_outcome-Stands sha256 c o result timeout running key =
      record_failed-Stands sha256 c o result timeout running key
  record_outcome-Stands sha256 c o result network_error running key =
      record_failed-Stands sha256 c o result network_error running key
  record_outcome-Stands sha256 c o result unknown running key =
      record_failed-Stands sha256 c o result unknown running key
