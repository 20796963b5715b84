-- ===== src/FillSync/Route.antt =====
-- `sync_real_order_fill` of app/api/real_order_routes.py: the handler of a manual sync. It builds
-- the service without a transport, so the fake one answers. The reply's text is left out, and the
-- caller has been authenticated.
use stock_ai_platform.Base.{
  ℕ, ◌≡◌, refl, ap, sym, ◌∙◌, true, false, not, Option, none, some, Text, ℤ, pos, ltb_ℤ, ℤ-same,
  ◌≤ℤ◌, find, if◌then◌else◌, arith,
}
use mathlib.Core.Path.{subst}
use stock_ai_platform.Store.{
  RealOrderStatus, RealOrder, Session, Settings, Result, ok, err, is_ok, Error,
}
use stock_ai_platform.RealOrder
use stock_ai_platform.Kis.{fake, fake_fill, query_fill_status}
use stock_ai_platform.FillSync.Words.{
  FillSyncResult, is_open, is_skipped, max_ℤ, full, classify_fill_response, effective_kis_total,
}
use stock_ai_platform.FillSync.Service.{sync_fills, order_ref}
use stock_ai_platform.FillSync.Counter.{Progress, advance, raise_mark}
use stock_ai_platform.FillSync.HighWater.{progress-same}
use stock_ai_platform.FillSync.Refines.{Holds, NotDry, answer_to, sync_fills-Holds}

pub data SyncReply : Type 0 where
  synced : FillSyncResult → SyncReply
  unavailable : SyncReply
  not_found : SyncReply
  failed : Error → SyncReply

-- `session.commit()` after a sync that returned; an exception drops what it wrote.
abbrev pub committed_sync : Session → Result FillSyncResult × Session → SyncReply × Session
committed_sync s (ok r, t) = (synced r, t)
committed_sync s (err e, t) = (failed e, s)

unfoldable pub post_sync : Settings → ℕ → Option Text → Session → SyncReply × Session
unfolding sync_fills
post_sync settings i plaintext s =
    if not settings.trading_safety_enabled
    then (unavailable, s)
    else if settings.kill_switch_enabled
    then (unavailable, s)
    else elim (find (RealOrder.has_id i) s.real_orders) [
      | none ↦ (not_found, s)
      | some o ↦ committed_sync s (sync_fills fake i plaintext s)
    ]

fake-advance :
    (quantity : ℤ) (p : Progress) (ref : Text)
    → is_open p.status ≡ true
    → p.filled ≤ℤ quantity
    → pos 0 ≤ℤ quantity
    → ◌≡◌ {A = Progress}
        (advance quantity p (some (fake_fill ref)))
        (record { status = RealOrderStatus.filled; filled = quantity })
unfolding advance classify_fill_response effective_kis_total
fake-advance quantity p ref running f q =
    let unskipped : is_skipped p.status ≡ false = ground arith in
    let total = max_ℤ (pos 0) (if ltb_ℤ (pos 0) quantity then quantity else pos 0) in
    let e : total ≡ quantity = ℤ-same total quantity (ground arith) in
    let m : max_ℤ p.filled quantity ≡ quantity =
      ℤ-same (max_ℤ p.filled quantity) quantity (ground arith) in
    ap (λ b. if b then p else raise_mark full total p) unskipped
    ∙ ap (λ n. raise_mark full n p) e
    ∙ progress-same (if ltb_ℤ quantity p.filled then p.status else RealOrderStatus.filled)
        RealOrderStatus.filled (max_ℤ p.filled quantity) quantity (ground arith) m

asked-fake :
    (i : ℕ) (plaintext : Option Text) (o : RealOrder) (s : Session)
    → find (RealOrder.has_id i) s.real_orders ≡ some o
    → answer_to fake i plaintext s ≡ some (fake_fill (order_ref plaintext o i))
unfolding answer_to query_fill_status
asked-fake i plaintext o s h = rw (answer_to, h) refl

committed-returned :
    (s : Session) (r : Result FillSyncResult × Session)
    → is_ok r.0 ≡ true
    → (committed_sync s r).1 ≡ r.1
committed-returned s (ok r, t) h = refl
committed-returned s (err e, t) h = cc

post_sync-runs :
    (settings : Settings) (i : ℕ) (plaintext : Option Text) (o : RealOrder) (s : Session)
    → settings.trading_safety_enabled ≡ true
    → settings.kill_switch_enabled ≡ false
    → find (RealOrder.has_id i) s.real_orders ≡ some o
    → post_sync settings i plaintext s ≡ committed_sync s (sync_fills fake i plaintext s)
unfolding post_sync
post_sync-runs settings i plaintext o s active off found = rw (post_sync, active, off, found) refl

-- The handler fills the order by itself. With trading on and the kill switch off, for a real order
-- that is still open, whose quantity is not negative and not yet exceeded: after a manual sync the
-- order is FILLED and its fills add up to the ordered quantity, whatever happened at the broker.
pub post_sync-fills :
    (settings : Settings) (i : ℕ) (plaintext : Option Text) (quantity : ℤ) (p : Progress)
    (s : Session)
    → settings.trading_safety_enabled ≡ true
    → settings.kill_switch_enabled ≡ false
    → Holds i quantity p s
    → is_open p.status ≡ true
    → p.filled ≤ℤ quantity
    → pos 0 ≤ℤ quantity
    → Holds i quantity
        (record { status = RealOrderStatus.filled; filled = quantity })
        (post_sync settings i plaintext s).1
post_sync-fills settings i plaintext quantity p s active off h running f q =
    let wet : NotDry p = let r = running in ground arith in
    let run = sync_fills-Holds fake i plaintext quantity p s wet h in
    let answer = asked-fake i plaintext h.order s h.found in
    let reached =
      ap (advance quantity p) answer
      ∙ fake-advance quantity p (order_ref plaintext h.order i) running f q in
    let at_sync = subst (λ r. Holds i quantity r (sync_fills fake i plaintext s).1) reached run.1 in
    subst (Holds i quantity (record { status = RealOrderStatus.filled; filled = quantity }))
      (sym (
        ap (λ r. r.1) (post_sync-runs settings i plaintext h.order s active off h.found)
        ∙ committed-returned s (sync_fills fake i plaintext s) run.0))
      at_sync
