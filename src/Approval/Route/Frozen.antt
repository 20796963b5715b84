-- ===== src/Approval/Route/Frozen.antt =====
-- What requests can do while the kill switch is on.
use mathlib.Core.List.{append_assoc, append-nil}
use mathlib.Core.Path.{subst}
use stock_ai_platform.Base.{
  ℕ, ◌≡◌, ◌⊎◌, inl, refl, sym, ap, ◌∙◌, true, not, none, some, List, [], ◌∷◌, ◌++◌, ◌==◌, codes,
  All, All-append, arith, update_where,
}
use stock_ai_platform.Store.{
  CandidateStatus, EventType, OrderCandidate, ApprovalAuditLog, Session, Settings, Error, Result,
  ok, err, Action, approval_service_error, invalid_candidate_transition, or_raise, pure, catch,
}
use stock_ai_platform.Store.Yields.{
  Yields, Any, Yields-pure, Yields-raise, Yields-guard, Yields-bind, Yields-catch,
}
use stock_ai_platform.Candidate
use stock_ai_platform.Audit
use stock_ai_platform.Approval.{
  ApprovalActor, event_entry, record_event, load_candidate, transition_denied, expire,
}
use stock_ai_platform.Approval.Keeps.{read-Keeps, or_raise-Keeps, event-Keeps}
use stock_ai_platform.Approval.Route.{
  Reply, answered, unavailable, failed, committed, gated, post_candidate, post_approve, post_reject,
  post_expire,
}
use stock_ai_platform.Approval.Route.Posts.{
  Request, creation, approval, rejection, expiry, after_post, after_posts, if_open-Keeps,
}

-- The same rows under the same keys, each in the status it had, or EXPIRED.
abbrev pub OnlyExpired : List OrderCandidate → List OrderCandidate → Type 0
OnlyExpired [] [] = Unit
OnlyExpired (c ∷ cs) (d ∷ ds) =
    (d.id ≡ c.id)
    × ((d.status ≡ c.status) ⊎ (d.status ≡ CandidateStatus.expired))
    × OnlyExpired cs ds
OnlyExpired _ _ = ⊥

-- How far a session may have come from `s0`.
pub record Frozen (s0 s : Session) : Type 0 where
  pub orders : s.orders ≡ s0.orders
  pub candidates : OnlyExpired s0.candidates s.candidates
  pub events : List ApprovalAuditLog
  pub trail : s.audits ≡ s0.audits ++ events
  pub expiries : All (λ a. a.event_type ≡ EventType.expired) events

OnlyExpired-refl : (cs : List OrderCandidate) → OnlyExpired cs cs
OnlyExpired-refl [] = tt
OnlyExpired-refl (c ∷ cs) = (refl, inl refl, OnlyExpired-refl cs)

OnlyExpired-update :
    (n : ℕ) (c : OrderCandidate) (cs ds : List OrderCandidate)
    → c.id ≡ n
    → c.status ≡ CandidateStatus.expired
    → OnlyExpired cs ds
    → OnlyExpired cs (update_where (λ r. r.id == n) (λ _. c) ds)
OnlyExpired-update n c [] [] i e h = tt
OnlyExpired-update n c (b ∷ cs) (d ∷ ds) i e h =
    ground (arith, OnlyExpired-update n c cs ds i e h.2)
OnlyExpired-update n c [] (d ∷ ds) i e h = h
OnlyExpired-update n c (b ∷ cs) [] i e h = h

Frozen-refl : (s : Session) → Frozen s s
Frozen-refl s = record {
  orders = refl;
  candidates = OnlyExpired-refl s.candidates;
  events = [];
  trail = sym (append-nil s.audits);
  expiries = tt;
}

module _ (s0 : Session) where
  save-Frozen :
      (c : OrderCandidate)
      → c.status ≡ CandidateStatus.expired
      → Yields (Frozen s0) Any (Candidate.save c)
  unfolding Candidate.save
  save-Frozen c e = record {
    at = λ s h. (
      record {
        orders = h.orders;
        candidates =
            OnlyExpired-update c.id (record c { updated_at = s.clock }) s0.candidates s.candidates
              refl e h.candidates;
        events = h.events;
        trail = h.trail;
        expiries = h.expiries;
      },
      tt,
    );
  }

  add_entry-Frozen :
      (a : Audit.NewEntry)
      → a.event_type ≡ EventType.expired
      → Yields (Frozen s0) Any (Audit.add_entry a)
  unfolding Audit.add_entry
  add_entry-Frozen a e = record {
    at = λ s h.
        let row = Audit.row_of a s.next_audit s.clock in
        (
          record {
            orders = h.orders;
            candidates = h.candidates;
            events = h.events ++ row ∷ [];
            trail = ap (λ l. l ++ row ∷ []) h.trail ∙ append_assoc s0.audits h.events (row ∷ []);
            expiries =
                All-append (λ a. a.event_type ≡ EventType.expired) h.events (row ∷ []) h.expiries
                  (e, tt);
          },
          tt,
        );
  }

  transition_denied-Frozen : (e : Error) → Yields (Frozen s0) Any (transition_denied e)
  transition_denied-Frozen invalid_candidate_transition = Yields-raise Any _
  transition_denied-Frozen _ = Yields-raise Any _

  row-Frozen : (c : OrderCandidate) → Yields (Frozen s0) Any (Candidate.expire c)
  unfolding Candidate.expire Candidate.update_status
  row-Frozen c =
      Yields-guard Any (not (Candidate.allowed c.status CandidateStatus.expired))
        invalid_candidate_transition _
        λ _.
          save-Frozen
            (record c {
              status = CandidateStatus.expired;
              rejection_reason = Candidate.or_keep (some (codes "ttl_expired")) c.rejection_reason;
              approver_user_id = Candidate.or_keep none c.approver_user_id;
            })
            refl

  expire-Frozen : (i : ℕ) (actor : ApprovalActor) → Yields (Frozen s0) Any (expire i actor)
  unfolding expire load_candidate Candidate.get_by_id
  expire-Frozen i actor =
      Yields-bind Any Any (load_candidate i) _
        (Yields-bind Any Any (Candidate.get_by_id i)
          (λ found. or_raise found approval_service_error) (read-Keeps (Frozen s0) _)
          λ found _. or_raise-Keeps (Frozen s0) found approval_service_error)
        λ c _.
          Yields-bind Any Any (catch (Candidate.expire c) transition_denied) _
            (Yields-catch Any (Candidate.expire c) transition_denied (row-Frozen c)
              transition_denied-Frozen)
            λ c1 _.
              Yields-bind Any Any
                (record_event c1 EventType.expired actor (some (codes "ttl_expired")) none)
                (λ _. pure c1)
                (event-Keeps (Frozen s0) c1 EventType.expired actor (some (codes "ttl_expired"))
                  none
                  (add_entry-Frozen
                    (event_entry c1 EventType.expired actor (some (codes "ttl_expired")) none)
                    refl))
                λ _ _. Yields-pure Any c1 tt

abbrev pub settings_of : Request → Settings
settings_of (creation settings requested r actor now) = settings
settings_of (approval settings i actor now) = settings
settings_of (rejection settings i actor reason) = settings
settings_of (expiry settings i actor) = settings

committed-Frozen :
    {A : Type 0} (s0 : Session) (m : Action A) (s : Session)
    → Yields (Frozen s0) Any m
    → Frozen s0 s
    → Frozen s0 (committed m s).1
committed-Frozen {A} s0 m s k h = go (m s) (k.at s h).0
  where
    go :
        (r : Result A × Session)
        → Frozen s0 r.1
        → Frozen s0
            (elim r.0 as (λ _. Reply A × Session) [
              | ok a ↦ (answered a, r.1)
              | err e ↦ (failed e, s)
            ]).1
    go (ok a, t) p = p
    go (err e, t) p = h

gated-shut :
    {A : Type 0} (settings : Settings) (s : Session) (next : Reply A × Session)
    → settings.kill_switch_enabled ≡ true
    → gated settings s next ≡ (unavailable, s)
gated-shut settings s next on = ground arith

after_post-Frozen :
    (s0 : Session) (q : Request) (s : Session)
    → (settings_of q).kill_switch_enabled ≡ true
    → Frozen s0 s
    → Frozen s0 (after_post q s)
unfolding after_post post_candidate post_approve post_reject post_expire
after_post-Frozen s0 (creation settings requested r actor now) s on h =
    subst (λ out. Frozen s0 out.1) (sym (gated-shut settings s _ on)) h
after_post-Frozen s0 (approval settings i actor now) s on h =
    subst (λ out. Frozen s0 out.1) (sym (gated-shut settings s _ on)) h
after_post-Frozen s0 (rejection settings i actor reason) s on h =
    subst (λ out. Frozen s0 out.1) (sym (gated-shut settings s _ on)) h
after_post-Frozen s0 (expiry settings i actor) s on h =
    if_open-Keeps (Frozen s0) _ s _ h
      (committed-Frozen s0 (expire i actor) s (expire-Frozen s0 i actor) h)

after_posts-from :
    (s0 : Session) (qs : List Request) (s : Session)
    → All (λ q. (settings_of q).kill_switch_enabled ≡ true) qs
    → Frozen s0 s
    → Frozen s0 (after_posts qs s)
unfolding after_posts
after_posts-from s0 [] s on h = h
after_posts-from s0 (q ∷ qs) s on h =
    after_posts-from s0 qs (after_post q s) on.1 (after_post-Frozen s0 q s on.0 h)

-- While the kill switch is on, no list of requests to the four handlers books an order or stores a
-- candidate: the rows are the same, each in its old status or EXPIRED, and the trail has new rows
-- only for expiries, none of them for a block by the switch.
pub after_posts-Frozen :
    (qs : List Request) (s : Session)
    → All (λ q. (settings_of q).kill_switch_enabled ≡ true) qs
    → Frozen s (after_posts qs s)
after_posts-Frozen qs s on = after_posts-from s qs s on (Frozen-refl s)
