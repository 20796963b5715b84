-- ===== src/Candidate/Machine.antt =====
-- The state machine of a candidate: `update_status` against the documented diagram.
use stock_ai_platform.Base.{
  ℕ, ◌≡◌, refl, ap, ◌↔◌, Bool, true, false, Option, List, [], ◌∷◌, map, arith, Text, Bool-cases,
  inl, inr, ◌+◌, ◌≤◌, length,
}
use stock_ai_platform.Store.{
  CandidateStatus, draft, risk_checking, pending_approval, OrderCandidate, Session, ok, err,
  invalid_candidate_transition, is_ok, Action, pure, ◌>>=◌,
}
use stock_ai_platform.Store.Inversion.{>>=-ok}
use stock_ai_platform.Candidate.{allowed, update_status}

-- The diagram of the module's documentation, edge by edge.
pub data Edge : CandidateStatus → CandidateStatus → Type 0 where
  check : Edge draft risk_checking
  fail : Edge risk_checking CandidateStatus.risk_rejected
  pass : Edge risk_checking pending_approval
  accept : Edge pending_approval CandidateStatus.approved
  refuse : Edge pending_approval CandidateStatus.rejected
  lapse : Edge pending_approval CandidateStatus.expired
  execute : Edge CandidateStatus.approved CandidateStatus.executed_paper

ruleset edges = (check, fail, pass, accept, refuse, lapse, execute)

Edge_of_allowed : (s t : CandidateStatus) → allowed s t ≡ true → Edge s t
Edge_of_allowed s t h = grind (arith, edges)

allowed_of_Edge : {s t : CandidateStatus} → Edge s t → allowed s t ≡ true
allowed_of_Edge check = refl
allowed_of_Edge fail = refl
allowed_of_Edge pass = refl
allowed_of_Edge accept = refl
allowed_of_Edge refuse = refl
allowed_of_Edge lapse = refl
allowed_of_Edge execute = refl

-- An update is accepted exactly along an edge of the diagram, and a refused one writes nothing.
pub update_status-Edge_iff :
    (c : OrderCandidate) (t : CandidateStatus) (reason : Option Text) (user : Option ℕ)
    (s : Session)
    → ((is_ok (update_status c t reason user s).0 ≡ true) ↔ Edge c.status t)
      × (¬ Edge c.status t
          → update_status c t reason user s ≡ (err invalid_candidate_transition, s))
unfolding update_status
update_status-Edge_iff c t reason user s = elim (Bool-cases (allowed c.status t)) [
  | inl e ↦ (
    rw e (λ _. Edge_of_allowed c.status t e, λ _. refl),
    λ not_edge. absurd (not_edge (Edge_of_allowed c.status t e)),
  )
  | inr e ↦ (rw e (λ h. cc, λ h. cc (allowed_of_Edge h)), λ _. rw e)
]

-- What an accepted update returns.
pub update_status-status :
    (c : OrderCandidate) (t : CandidateStatus) (reason : Option Text) (user : Option ℕ)
    (s : Session) (c' : OrderCandidate) (s' : Session)
    → update_status c t reason user s ≡ (ok c', s')
    → (allowed c.status t ≡ true) × (c'.status ≡ t)
unfolding update_status
update_status-status c t reason user s c' s' h = ground arith

-- One requested update.
pub record Change : Type 0 where
  pub target : CandidateStatus
  pub reason : Option Text
  pub user : Option ℕ

-- Updates made one after the other on the row that the last one returned.
unfoldable pub run_updates : List Change → OrderCandidate → Action OrderCandidate
run_updates [] c = pure c
run_updates (u ∷ us) c = update_status c u.target u.reason u.user >>= λ c'. run_updates us c'

abbrev pub targets : List Change → List CandidateStatus
targets = map (λ u. u.target)

-- The walk that a list of updates takes through the edges, if each is allowed.
abbrev Walk : CandidateStatus → List CandidateStatus → CandidateStatus → Type 0
Walk a [] b = a ≡ b
Walk a (t ∷ ts) b = (allowed a t ≡ true) × Walk t ts b

run_updates-Walk :
    (us : List Change) (c : OrderCandidate) (s : Session) (c' : OrderCandidate) (s' : Session)
    → run_updates us c s ≡ (ok c', s')
    → Walk c.status (targets us) c'.status
unfolding run_updates
run_updates-Walk [] c s c' s' h = ground arith
run_updates-Walk (u ∷ us) c s c' s' h =
    let t = >>=-ok (update_status c u.target u.reason u.user) (run_updates us) s c' s' h in
    let step = update_status-status c u.target u.reason u.user s t.value t.mid t.first in
    (step.0, rw step.1 at (run_updates-Walk us t.value t.mid c' s' t.rest))

Walk-final :
    (ts : List CandidateStatus)
    → Walk CandidateStatus.executed_paper ts CandidateStatus.executed_paper
    → ts ≡ []
Walk-final [] w = refl
Walk-final (t ∷ ts) w = cc (w.0)

Walk-approved :
    (ts : List CandidateStatus)
    → Walk CandidateStatus.approved ts CandidateStatus.executed_paper
    → ts ≡ CandidateStatus.executed_paper ∷ []
Walk-approved [] w = cc
Walk-approved (CandidateStatus.executed_paper ∷ ts) w =
    ap (◌∷◌ CandidateStatus.executed_paper) (Walk-final ts w.1)
Walk-approved (_ ∷ ts) w = cc (w.0)

Walk-pending :
    (ts : List CandidateStatus)
    → Walk pending_approval ts CandidateStatus.executed_paper
    → ts ≡ CandidateStatus.approved ∷ CandidateStatus.executed_paper ∷ []
Walk-pending [] w = cc
Walk-pending (CandidateStatus.approved ∷ ts) w =
    ap (◌∷◌ CandidateStatus.approved) (Walk-approved ts w.1)
Walk-pending (CandidateStatus.rejected ∷ t ∷ ts) w = cc (w.1.0)
Walk-pending (CandidateStatus.expired ∷ t ∷ ts) w = cc (w.1.0)
Walk-pending (CandidateStatus.rejected ∷ []) w = cc (w.1)
Walk-pending (CandidateStatus.expired ∷ []) w = cc (w.1)
Walk-pending (_ ∷ ts) w = cc (w.0)

Walk-checking :
    (ts : List CandidateStatus)
    → Walk risk_checking ts CandidateStatus.executed_paper
    → ts ≡ pending_approval ∷ CandidateStatus.approved ∷ CandidateStatus.executed_paper ∷ []
Walk-checking [] w = cc
Walk-checking (pending_approval ∷ ts) w = ap (◌∷◌ pending_approval) (Walk-pending ts w.1)
Walk-checking (CandidateStatus.risk_rejected ∷ []) w = cc (w.1)
Walk-checking (CandidateStatus.risk_rejected ∷ t ∷ ts) w = cc (w.1.0)
Walk-checking (_ ∷ ts) w = cc (w.0)

Walk-draft :
    (ts : List CandidateStatus)
    → Walk draft ts CandidateStatus.executed_paper
    → ts
      ≡ risk_checking ∷ pending_approval ∷ CandidateStatus.approved ∷ CandidateStatus.executed_paper
        ∷ []
Walk-draft [] w = cc
Walk-draft (risk_checking ∷ ts) w = ap (◌∷◌ risk_checking) (Walk-checking ts w.1)
Walk-draft (_ ∷ ts) w = cc (w.0)

-- A DRAFT candidate that a list of accepted updates takes to EXECUTED_PAPER went through the risk
-- check, the approval queue and an approval, in this order and with no update besides.
pub executed_only_through_approval :
    (us : List Change) (c : OrderCandidate) (s : Session) (c' : OrderCandidate) (s' : Session)
    → run_updates us c s ≡ (ok c', s')
    → c.status ≡ draft
    → c'.status ≡ CandidateStatus.executed_paper
    → targets us
      ≡ risk_checking ∷ pending_approval ∷ CandidateStatus.approved ∷ CandidateStatus.executed_paper
        ∷ []
executed_only_through_approval us c s c' s' h from to =
    let w = run_updates-Walk us c s c' s' h in Walk-draft (targets us) (rw (from, to) at w)

abbrev pub is_terminal : CandidateStatus → Bool
is_terminal CandidateStatus.risk_rejected = true
is_terminal CandidateStatus.executed_paper = true
is_terminal CandidateStatus.rejected = true
is_terminal CandidateStatus.expired = true
is_terminal _ = false

-- A candidate in a terminal status refuses every list of updates but the empty one, and the
-- session stays as it was.
pub terminal_absorbs :
    (u : Change) (us : List Change) (c : OrderCandidate) (s : Session)
    → is_terminal c.status ≡ true
    → run_updates (u ∷ us) c s ≡ (err invalid_candidate_transition, s)
unfolding run_updates update_status
terminal_absorbs u us c s h = ground arith

-- How far along the diagram a status is.
abbrev rank : CandidateStatus → ℕ
rank draft = 0
rank risk_checking = 1
rank pending_approval = 2
rank CandidateStatus.approved = 3
rank _ = 4

Walk-rank :
    (a b : CandidateStatus) (ts : List CandidateStatus) → Walk a ts b → rank a + length ts ≤ rank b
Walk-rank a b [] w = ground arith
Walk-rank a b (t ∷ ts) w = ground (arith, Walk-rank t b ts)

-- No candidate takes more than four accepted updates, whatever it starts from.
pub updates_bounded :
    (us : List Change) (c : OrderCandidate) (s : Session) (c' : OrderCandidate) (s' : Session)
    → run_updates us c s ≡ (ok c', s')
    → length (targets us) ≤ 4
updates_bounded us c s c' s' h =
    ground (arith, Walk-rank c.status c'.status (targets us) (run_updates-Walk us c s c' s' h))
