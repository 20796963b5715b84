-- ===== src/Executor/Effect.antt =====
-- What a call of the executor changes, on every path.
use stock_ai_platform.Base.{
  ◌≡◌, ◌<◌, refl, ap, sym, ◌∙◌, true, false, Option, none, some, [], ◌∷◌, ◌++◌, inl, inr, ◌⊎◌, All,
  Bool-cases, Text, codes, if◌then◌else◌,
}
use mathlib.Core.Path.{subst}
use stock_ai_platform.Store.{OrderCandidate, Settings, Session, Result, Action, pure}
use stock_ai_platform.Store.Triple.{Triple-weaken, Triple-ends}
use stock_ai_platform.Kis.{Transport, fake, real, RealTransport, is_fake}
use stock_ai_platform.Executor.Words.{RealOrderExecutor, transport_unavailable, ExecutorResult}
use stock_ai_platform.Executor.Place.{execute_dry_run, execute_real}
use stock_ai_platform.Executor.Run.{dispatch, resolve_real_transport, not_fake, blocked_result}
use stock_ai_platform.Executor.Anchor.{request_of, Before, Settled, Before-Settled}
use stock_ai_platform.Executor.Placed.{
  order_request-keeps, execute_dry_run-Settled, execute_dry_run-Sent, execute_real-Sent,
}

not_fake-cases :
    (t : Transport) → (not_fake t ≡ none) ⊎ ((r : RealTransport) × (not_fake t ≡ some (real r)))
not_fake-cases fake = inl refl
not_fake-cases (real t) = inr (t, refl)

-- The real path is never served by the fake.
pub resolve-cases :
    (e : RealOrderExecutor) (settings : Settings)
    → (resolve_real_transport e settings ≡ none)
      ⊎ ((t : RealTransport) × (resolve_real_transport e settings ≡ some (real t)))
unfolding resolve_real_transport
resolve-cases e settings = from e.real_transport_factory
  where
    built :
        (o : Option Transport)
        → let r : Option Transport = elim o as (λ _. Option Transport) [
          | none ↦ none
          | some t ↦ not_fake t
        ] in
          (r ≡ none) ⊎ ((t : RealTransport) × (r ≡ some (real t)))
    built none = inl refl
    built (some t) = not_fake-cases t

    from :
        (f : Option (Settings → Option Transport))
        → let r : Option Transport = elim f as (λ _. Option Transport) [
          | none ↦ not_fake e.transport
          | some build ↦ elim (build settings) as (λ _. Option Transport) [
            | none ↦ none
            | some t ↦ not_fake t
          ]
        ] in
          (r ≡ none) ⊎ ((t : RealTransport) × (r ≡ some (real t)))
    from none = not_fake-cases e.transport
    from (some build) = built (build settings)

-- One call in a session whose keys are below the next one, for the candidate `c`.
module _ (sha256 : Text → Text) (e : RealOrderExecutor) (settings : Settings) (c : OrderCandidate)
    (s : Session) (below : All (λ o. o.id < s.next_real_order) s.real_orders) where
  -- One more order at most, and no request.
  abbrev pub Quiet : Session → Type 0
  Quiet = Settled s.real_orders s.next_real_order c.id below s.sent

  -- One more order at most, and the candidate's request under this account.
  abbrev pub Loud : Text → Session → Type 0
  Loud account_no =
      Settled s.real_orders s.next_real_order c.id below (s.sent ++ request_of c account_no ∷ [])

  start : Before s.real_orders s.next_real_order c.id below s.sent s
  start = record { orders = refl; next = refl; sent = refl }

  execute_dry_run-Quiet : e.transport ≡ fake → Quiet (execute_dry_run sha256 e c s).1
  execute_dry_run-Quiet f =
      Triple-ends (execute_dry_run sha256 e c) s
        (execute_dry_run-Settled s.real_orders s.next_real_order c.id below s.sent sha256 e c f
          refl)
        start

  execute_dry_run-effect :
      (t : Transport)
      → e.transport ≡ t
      → Quiet (execute_dry_run sha256 e c s).1
        ⊎ (Loud (codes "DRY_RUN") (execute_dry_run sha256 e c s).1 × (is_fake t ≡ false))
  execute_dry_run-effect fake f = inl (execute_dry_run-Quiet f)
  execute_dry_run-effect (real t) f =
      let l = s.sent in
      let R : Session → Type 0 = λ u. Quiet u ⊎ Loud (codes "DRY_RUN") u × (false ≡ false) in
      Triple-ends (execute_dry_run sha256 e c) s
        (Triple-weaken (λ _. Loud (codes "DRY_RUN")) (λ _. R) _ (λ u h. h) (λ a u h. inr (h, refl))
          (λ u h. h)
          (execute_dry_run-Sent s.real_orders s.next_real_order c.id below l sha256 e t c f refl R
            (λ u h. inr (h, refl))
            (order_request-keeps s.real_orders s.next_real_order c.id below l
              (Before s.real_orders s.next_real_order c.id below l) R c (codes "DRY_RUN")
              (λ u h. inl (Before-Settled s.real_orders s.next_real_order c.id below l u h)))))
        start

  execute_real-effect :
      (t : RealTransport)
      → Quiet (execute_real sha256 settings (real t) c s).1
        ⊎ Loud settings.kis_account_no (execute_real sha256 settings (real t) c s).1
  execute_real-effect t =
      let L = Loud settings.kis_account_no in
      let R : Session → Type 0 = λ u. Quiet u ⊎ L u in
      Triple-ends (execute_real sha256 settings (real t) c) s
        (Triple-weaken (λ _. L) (λ _. R) _ (λ u h. h) (λ a u h. inr h) (λ u h. h)
          (execute_real-Sent s.real_orders s.next_real_order c.id below s.sent sha256 settings t c
            refl))
        start

  pub dispatch-dry :
      settings.real_order_dry_run ≡ true
      → dispatch sha256 e settings c s ≡ execute_dry_run sha256 e c s
  unfolding dispatch
  dispatch-dry dry =
      ap
        (λ b.
          (if b
              then execute_dry_run sha256 e c
              else elim (resolve_real_transport e settings) as (λ _. Action ExecutorResult) [
                | none ↦ pure (blocked_result transport_unavailable false none)
                | some t ↦ execute_real sha256 settings t c
              ])
            s)
        dry

  pub dispatch-live :
      (o : Option Transport)
      → settings.real_order_dry_run ≡ false
      → resolve_real_transport e settings ≡ o
      → dispatch sha256 e settings c s
        ≡ elim o as (λ _. Action ExecutorResult) [
          | none ↦ pure (blocked_result transport_unavailable false none)
          | some t ↦ execute_real sha256 settings t c
        ]
            s
  unfolding dispatch
  dispatch-live o live found =
      ap
        (λ b.
          (if b
              then execute_dry_run sha256 e c
              else elim (resolve_real_transport e settings) as (λ _. Action ExecutorResult) [
                | none ↦ pure (blocked_result transport_unavailable false none)
                | some t ↦ execute_real sha256 settings t c
              ])
            s)
        live
      ∙ ap
          (λ x.
            elim x as (λ _. Action ExecutorResult) [
              | none ↦ pure (blocked_result transport_unavailable false none)
              | some t ↦ execute_real sha256 settings t c
            ]
              s)
          found

  -- The three things a branch can do.
  abbrev pub Effect : Session → Type 0
  Effect t =
      Quiet t
      ⊎ ((settings.real_order_dry_run ≡ true)
          × (is_fake e.transport ≡ false)
          × Loud (codes "DRY_RUN") t)
      ⊎ ((settings.real_order_dry_run ≡ false) × Loud settings.kis_account_no t)

  pub dispatch-Effect : Effect (dispatch sha256 e settings c s).1
  dispatch-Effect = elim (Bool-cases settings.real_order_dry_run) [
    | inl dry ↦ moved (dispatch-dry dry) (elim (execute_dry_run-effect e.transport refl) [
      | inl quiet ↦ inl quiet
      | inr (loud, other) ↦ inr (inl (dry, other, loud))
    ])
    | inr live ↦ elim (resolve-cases e settings) [
      | inl nothing ↦
          moved (dispatch-live none live nothing)
            (inl (Before-Settled s.real_orders s.next_real_order c.id below s.sent s start))
      | inr (t, found) ↦
          moved (dispatch-live (some (real t)) live found) (elim (execute_real-effect t) [
            | inl quiet ↦ inl quiet
            | inr loud ↦ inr (inr (live, loud))
          ])
    ]
  ]
    where
      moved : {x y : Result ExecutorResult × Session} → x ≡ y → Effect y.1 → Effect x.1
      moved h k = subst (λ r. Effect r.1) (sym h) k
