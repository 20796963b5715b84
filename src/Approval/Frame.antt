-- ===== src/Approval/Frame.antt =====
-- What the steps of the approval workflow leave alone: accounts, positions, fills and snapshots,
-- and every audit row that was there.
use mathlib.Core.List.{append_assoc, append-nil}
use stock_ai_platform.Base.{
  ℕ, ◌≡◌, refl, sym, ◌∙◌, ap, Bool, true, false, not, Option, none, some, List, [], ◌∷◌, ◌++◌, Text,
  pos, leb_ℤ, strip,
}
use stock_ai_platform.Base.Decimal.{Decimal, zero_dec, less, at_most}
use stock_ai_platform.Store.{
  parse_source, parse_side, parse_order_type, parse_candidate_status, OrderType, market, limit,
  CandidateStatus, OrderCandidate, RiskCheckResult, ApprovalAuditLog, Session, Settings, Error,
  candidate_validation, invalid_candidate_transition, pure, or_raise, raise_if, gets,
}
use stock_ai_platform.Store.Yields.{
  Yields, Any, Yields-pure, Yields-raise, Yields-guard, Yields-bind,
}
use stock_ai_platform.Candidate
use stock_ai_platform.Candidate.{NewCandidate}
use stock_ai_platform.Audit
use stock_ai_platform.Order
use stock_ai_platform.Broker
use stock_ai_platform.Approval.Keeps.{read-Keeps, or_raise-Keeps, submit_order-Keeps}

-- How far a session may have come from `s0`.
pub record Framed (s0 s : Session) : Type 0 where
  pub accounts : s.accounts ≡ s0.accounts
  pub positions : s.positions ≡ s0.positions
  pub fills : s.fills ≡ s0.fills
  pub snapshots : s.snapshots ≡ s0.snapshots
  pub events : List ApprovalAuditLog
  pub trail : s.audits ≡ s0.audits ++ events

pub Framed-refl : (s : Session) → Framed s s
Framed-refl s = record {
  accounts = refl;
  positions = refl;
  fills = refl;
  snapshots = refl;
  events = [];
  trail = sym (append-nil s.audits);
}

module _ (s0 : Session) where
  pub read-Framed : {A : Type 0} (f : Session → A) → Yields (Framed s0) Any (gets f)
  read-Framed = read-Keeps (Framed s0)

  pub or_raise-Framed :
      {A : Type 0} (o : Option A) (e : Error) → Yields (Framed s0) Any (or_raise o e)
  or_raise-Framed = or_raise-Keeps (Framed s0)

  pub guard-Framed : (b : Bool) (e : Error) → Yields (Framed s0) Any (raise_if b e)
  guard-Framed true e = record { at = λ s h. (h, tt) }
  guard-Framed false e = record { at = λ s h. (h, tt) }

  -- A write to other tables.
  pub save-Framed : (c : OrderCandidate) → Yields (Framed s0) Any (Candidate.save c)
  unfolding Candidate.save
  save-Framed c = record {
    at = λ s h. (
      record {
        accounts = h.accounts;
        positions = h.positions;
        fills = h.fills;
        snapshots = h.snapshots;
        events = h.events;
        trail = h.trail;
      },
      tt,
    );
  }

  pub add_candidate-Framed :
      (row : ℕ → ℕ → OrderCandidate) → Yields (Framed s0) Any (Candidate.add_candidate row)
  unfolding Candidate.add_candidate
  add_candidate-Framed row = record {
    at = λ s h. (
      record {
        accounts = h.accounts;
        positions = h.positions;
        fills = h.fills;
        snapshots = h.snapshots;
        events = h.events;
        trail = h.trail;
      },
      tt,
    );
  }

  pub add_order-Framed : (a : Order.NewOrder) → Yields (Framed s0) Any (Order.add_order a)
  unfolding Order.add_order
  add_order-Framed a = record {
    at = λ s h. (
      record {
        accounts = h.accounts;
        positions = h.positions;
        fills = h.fills;
        snapshots = h.snapshots;
        events = h.events;
        trail = h.trail;
      },
      tt,
    );
  }

  pub add_entry-Framed : (a : Audit.NewEntry) → Yields (Framed s0) Any (Audit.add_entry a)
  unfolding Audit.add_entry
  add_entry-Framed a = record {
    at = λ s h. (
      record {
        accounts = h.accounts;
        positions = h.positions;
        fills = h.fills;
        snapshots = h.snapshots;
        events = h.events ++ Audit.row_of a s.next_audit s.clock ∷ [];
        trail =
            ap (λ l. l ++ Audit.row_of a s.next_audit s.clock ∷ []) h.trail
            ∙ append_assoc s0.audits h.events (Audit.row_of a s.next_audit s.clock ∷ []);
      },
      tt,
    );
  }

  pub update_status-Framed :
      (c : OrderCandidate) (t : CandidateStatus) (reason : Option Text) (user : Option ℕ)
      → Yields (Framed s0) Any (Candidate.update_status c t reason user)
  unfolding Candidate.update_status
  update_status-Framed c t reason user =
      Yields-guard Any (not (Candidate.allowed c.status t)) invalid_candidate_transition _ λ _.
        save-Framed (record c {
          status = t;
          rejection_reason = Candidate.or_keep reason c.rejection_reason;
          approver_user_id = Candidate.or_keep user c.approver_user_id;
        })

  pub attach_risk_result-Framed :
      (c : OrderCandidate) (r : RiskCheckResult)
      → Yields (Framed s0) Any (Candidate.attach_risk_result c r)
  unfolding Candidate.attach_risk_result
  attach_risk_result-Framed c r = save-Framed (record c { risk_check_result = some r })

  pub attach_virtual_order-Framed :
      (c : OrderCandidate) (i : ℕ) → Yields (Framed s0) Any (Candidate.attach_virtual_order c i)
  unfolding Candidate.attach_virtual_order
  attach_virtual_order-Framed c i =
      Yields-guard Any (Candidate.links_elsewhere c.virtual_order_id i) invalid_candidate_transition
        _ λ _. save-Framed (record c { virtual_order_id = some i })

  normalize_limit-Framed :
      (t : OrderType) (p : Option Decimal) → Yields (Framed s0) Any (Candidate.normalize_limit t p)
  unfolding Candidate.normalize_limit
  normalize_limit-Framed market p = Yields-pure Any none tt
  normalize_limit-Framed limit none = Yields-raise Any candidate_validation
  normalize_limit-Framed limit (some p) =
      Yields-guard Any (at_most p zero_dec) candidate_validation (pure (some p))
        λ _. Yields-pure Any (some p) tt

  pub create-Framed : (a : NewCandidate) → Yields (Framed s0) Any (Candidate.create a)
  unfolding Candidate.create
  create-Framed a =
      Yields-bind Any Any (or_raise (parse_source a.source) candidate_validation) _
        (or_raise-Framed (parse_source a.source) candidate_validation)
        λ source _.
          Yields-bind Any Any (or_raise (parse_side a.side) candidate_validation) _
            (or_raise-Framed (parse_side a.side) candidate_validation)
            λ side _.
              Yields-bind Any Any (or_raise (parse_order_type a.order_type) candidate_validation) _
                (or_raise-Framed (parse_order_type a.order_type) candidate_validation)
                λ order_type _.
                  Yields-bind Any Any
                    (or_raise (parse_candidate_status a.status) candidate_validation) _
                    (or_raise-Framed (parse_candidate_status a.status) candidate_validation)
                    λ status _.
                      Yields-guard Any (leb_ℤ a.quantity (pos 0)) candidate_validation _ λ _.
                        Yields-guard Any (Candidate.is_empty (strip a.symbol)) candidate_validation
                          _
                          λ _.
                            Yields-bind Any Any (Candidate.normalize_limit order_type a.limit_price)
                              _ (normalize_limit-Framed order_type a.limit_price)
                              λ limit_price _.
                                Yields-guard Any (less a.estimated_amount zero_dec)
                                  candidate_validation _
                                  λ _.
                                    add_candidate-Framed (
                                      Candidate.new_row a source side order_type status limit_price)

  pub submit_order-Framed :
      (settings : Settings) (r : Broker.OrderRequest)
      → Yields (Framed s0) Any (Broker.submit_order settings r)
  submit_order-Framed = submit_order-Keeps (Framed s0) add_order-Framed
