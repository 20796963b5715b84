-- ===== src/Approval/Settled.antt =====
-- No operation of the workflow that returns leaves a candidate in a passing status: DRAFT,
-- RISK_CHECKING or APPROVED.
use stock_ai_platform.Base.{
  ℕ, ◌≡◌, ◌⊎◌, inl, inr, refl, Bool, true, false, not, Option, some, List, [], ◌∷◌, ◌==◌, Text, All,
  All-append, arith, update_where,
}
use stock_ai_platform.Store.{
  CandidateStatus, draft, risk_checking, OrderCandidate, Session, Result, ok, err,
  invalid_candidate_transition,
}
use stock_ai_platform.Store.Triple.{Triple, Post, Triple-guard}
use stock_ai_platform.Candidate
use stock_ai_platform.Candidate.{NewCandidate}
use stock_ai_platform.Candidate.Created.{create-IsValid}

-- The statuses in which a candidate may rest.
abbrev pub is_settled : CandidateStatus → Bool
is_settled draft = false
is_settled risk_checking = false
is_settled CandidateStatus.approved = false
is_settled _ = true

abbrev pub Rests : OrderCandidate → Type 0
Rests c = is_settled c.status ≡ true

-- The row is under the key, or rests.
abbrev pub RestsBut : ℕ → OrderCandidate → Type 0
RestsBut n c = (c.id ≡ n) ⊎ Rests c

-- Every candidate is settled.
abbrev pub Settled : Session → Type 0
Settled s = All Rests s.candidates

-- Every candidate is settled, but those under the key.
abbrev pub SettledBut : ℕ → Session → Type 0
SettledBut n s = All (RestsBut n) s.candidates

-- Nothing is asked where an action raises.
abbrev pub Dropped : Session → Type 0
Dropped s = Unit

RestsBut-weaken : (n : ℕ) (cs : List OrderCandidate) → All Rests cs → All (RestsBut n) cs
RestsBut-weaken n [] h = tt
RestsBut-weaken n (c ∷ cs) h = (inr h.0, RestsBut-weaken n cs h.1)

RestsBut-update_where :
    (n : ℕ) (c : OrderCandidate) (cs : List OrderCandidate)
    → c.id ≡ n
    → All (RestsBut n) cs
    → All (RestsBut n) (update_where (λ r. r.id == n) (λ _. c) cs)
RestsBut-update_where n c [] e h = tt
RestsBut-update_where n c (r ∷ cs) e h = ground (arith, RestsBut-update_where n c cs e h.1)

Rests-update_where :
    (n : ℕ) (c : OrderCandidate) (cs : List OrderCandidate)
    → Rests c
    → All (RestsBut n) cs
    → All Rests (update_where (λ r. r.id == n) (λ _. c) cs)
Rests-update_where n c [] e h = tt
Rests-update_where n c (r ∷ cs) e h = ground (arith, Rests-update_where n c cs e h.1)

pub SettledBut-weaken : (n : ℕ) (s : Session) → Settled s → SettledBut n s
SettledBut-weaken n s h = RestsBut-weaken n s.candidates h

pub save-But :
    (c : OrderCandidate)
    → Triple (SettledBut c.id) (λ r s. SettledBut r.id s) Dropped (Candidate.save c)
unfolding Candidate.save
save-But c = record {
  at = λ s h. RestsBut-update_where c.id (record c { updated_at = s.clock }) s.candidates refl h;
}

save-Rests :
    (c : OrderCandidate)
    → Rests c
    → Triple (SettledBut c.id) (λ r s. Settled s) Dropped (Candidate.save c)
unfolding Candidate.save
save-Rests c e = record {
  at = λ s h. Rests-update_where c.id (record c { updated_at = s.clock }) s.candidates e h;
}

pub update_status-But :
    (c : OrderCandidate) (t : CandidateStatus) (reason : Option Text) (user : Option ℕ)
    → Triple
        (SettledBut c.id)
        (λ r s. SettledBut r.id s)
        Dropped
        (Candidate.update_status c t reason user)
unfolding Candidate.update_status
update_status-But c t reason user =
    Triple-guard (λ r s. SettledBut r.id s) (not (Candidate.allowed c.status t))
      invalid_candidate_transition _ (λ _ _. tt)
      (save-But (record c {
        status = t;
        rejection_reason = Candidate.or_keep reason c.rejection_reason;
        approver_user_id = Candidate.or_keep user c.approver_user_id;
      }))

-- A transition to a status in which a candidate may rest settles the row.
pub update_status-Settled :
    (c : OrderCandidate) (t : CandidateStatus) (reason : Option Text) (user : Option ℕ)
    → is_settled t ≡ true
    → Triple (SettledBut c.id) (λ _. Settled) Dropped (Candidate.update_status c t reason user)
unfolding Candidate.update_status
update_status-Settled c t reason user e =
    Triple-guard (λ _. Settled) (not (Candidate.allowed c.status t)) invalid_candidate_transition _
      (λ _ _. tt)
      (save-Rests
        (record c {
          status = t;
          rejection_reason = Candidate.or_keep reason c.rejection_reason;
          approver_user_id = Candidate.or_keep user c.approver_user_id;
        })
        e)

pub attach_risk_result-But :
    (c : OrderCandidate) (r : _)
    → Triple (SettledBut c.id) (λ r s. SettledBut r.id s) Dropped (Candidate.attach_risk_result c r)
unfolding Candidate.attach_risk_result
attach_risk_result-But c r = save-But (record c { risk_check_result = some r })

pub attach_virtual_order-But :
    (c : OrderCandidate) (i : ℕ)
    → Triple
        (SettledBut c.id)
        (λ r s. SettledBut r.id s)
        Dropped
        (Candidate.attach_virtual_order c i)
unfolding Candidate.attach_virtual_order
attach_virtual_order-But c i =
    Triple-guard (λ r s. SettledBut r.id s) (Candidate.links_elsewhere c.virtual_order_id i)
      invalid_candidate_transition _ (λ _ _. tt) (save-But (record c { virtual_order_id = some i }))

-- A new row is the only one that may be unsettled.
pub create-But :
    (a : NewCandidate) → Triple Settled (λ c s. SettledBut c.id s) Dropped (Candidate.create a)
create-But a = record { at = λ s h. outcome s h (Candidate.create a s) refl }
  where
    outcome :
        (s : Session)
        → Settled s
        → (r : Result OrderCandidate × Session) → Candidate.create a s ≡ r
        → Post (λ c s. SettledBut c.id s) Dropped r
    outcome s h (err e, t) same = tt
    outcome s h (ok c, t) same =
        let (_, _, _, _, rows) = create-IsValid a s c t same in
        rw rows (
          All-append (RestsBut c.id) s.candidates (c ∷ []) (RestsBut-weaken c.id s.candidates h)
            (inl refl, tt))
