-- ===== src/FillSync/Sequence.antt =====
-- Syncs one after the other, each with its transport, against the contract's counter.
use mathlib.Core.Path.{subst, ap, sym, ◌∙◌}
use stock_ai_platform.RealOrder.Fill
use stock_ai_platform.Base.{
  ℕ, ◌≡◌, refl, Option, none, some, List, [], ◌∷◌, arith, All, Text, ℤ, pos, ◌≤ℤ◌,
}
use stock_ai_platform.Store.{Session}
use stock_ai_platform.Kis.{Transport, KisFillStatusResult}
use stock_ai_platform.FillSync.Words.{FillClass, classify_fill_response}
use stock_ai_platform.FillSync.Service.{sync_fills}
use stock_ai_platform.FillSync.Counter.{Progress, raise_mark, advance, advance-within}
use stock_ai_platform.FillSync.Refines.{Holds, NotDry, answer_to, sync_fills-Holds}

-- A call: the transport that was injected, and the broker's order number where the caller has it.
pub record SyncCall : Type 0 where
  pub transport : Transport
  pub plaintext : Option Text

-- The session after the calls.
unfoldable pub sync_all : ℕ → List SyncCall → Session → Session
unfolding sync_fills
sync_all i [] s = s
sync_all i (c ∷ cs) s = sync_all i cs (sync_fills c.transport i c.plaintext s).1

-- The answers that the calls get on the way.
unfoldable pub answers : ℕ → List SyncCall → Session → List (Option KisFillStatusResult)
unfolding sync_fills answer_to
answers i [] s = []
answers i (c ∷ cs) s =
    answer_to c.transport i c.plaintext s ∷ answers i cs (sync_fills c.transport i c.plaintext s).1

unfoldable pub advance_all : ℤ → Progress → List (Option KisFillStatusResult) → Progress
unfolding advance
advance_all quantity p [] = p
advance_all quantity p (a ∷ as') = advance_all quantity (advance quantity p a) as'

advance-NotDry :
    (quantity : ℤ) (p : Progress) (a : Option KisFillStatusResult)
    → NotDry p
    → NotDry (advance quantity p a)
unfolding advance classify_fill_response
advance-NotDry quantity p none h = h
advance-NotDry quantity p (some r) h = ground arith

-- Refinement: where the tables hold a progress of a real order, any sequence of syncs, with
-- whatever transports, leaves them holding the progress that the contract's counter reaches on the
-- answers of the transports.
pub sync_all-refines :
    (i : ℕ) (calls : List SyncCall) (quantity : ℤ) (p : Progress) (s : Session)
    → NotDry p
    → Holds i quantity p s
    → Holds i quantity (advance_all quantity p (answers i calls s)) (sync_all i calls s)
unfolding sync_all answers advance_all
sync_all-refines i [] quantity p s wet h = h
sync_all-refines i (c ∷ cs) quantity p s wet h =
    let a = answer_to c.transport i c.plaintext s in
    sync_all-refines i cs quantity (advance quantity p a) (sync_fills c.transport i c.plaintext s).1
      (advance-NotDry quantity p a wet)
      (sync_fills-Holds c.transport i c.plaintext quantity p s wet h).1

-- The same answer again changes nothing in the contract.
raise_mark-again :
    (class : FillClass) (total : ℤ) (p : Progress)
    → raise_mark class total (raise_mark class total p) ≡ raise_mark class total p
raise_mark-again class total p = ground arith

advance-again :
    (quantity : ℤ) (p : Progress) (a : Option KisFillStatusResult)
    → advance quantity (advance quantity p a) a ≡ advance quantity p a
unfolding advance classify_fill_response
advance-again quantity p none = refl
advance-again quantity p (some r) = let h = raise_mark-again in ground (arith, h)

-- No answer reports more than the ordered quantity.
abbrev pub Within : ℤ → Option KisFillStatusResult → Type 0
Within quantity none = Unit
Within quantity (some r) = r.filled_quantity ≤ℤ quantity

advance_all-within :
    (quantity : ℤ) (p : Progress) (as' : List (Option KisFillStatusResult))
    → pos 0 ≤ℤ quantity
    → All (Within quantity) as'
    → p.filled ≤ℤ quantity
    → (advance_all quantity p as').filled ≤ℤ quantity
unfolding advance_all advance
advance_all-within quantity p [] q w h = h
advance_all-within quantity p (none ∷ as') q w h = advance_all-within quantity p as' q w.1 h
advance_all-within quantity p (some r ∷ as') q w h =
    advance_all-within quantity (advance quantity p (some r)) as' q w.1
      (advance-within quantity p r q w.0 h)

-- Where the tables hold a progress of a real order: a sync that is given the same answer as the
-- sync before it leaves the order's status and the total of its fills as that one left them.
pub sync_fills-again :
    (i : ℕ) (first second : SyncCall) (quantity : ℤ) (p : Progress) (s : Session)
    → NotDry p
    → Holds i quantity p s
    → answer_to second.transport i second.plaintext (sync_all i (first ∷ []) s)
      ≡ answer_to first.transport i first.plaintext s
    → (q : Progress) × Holds i quantity q (sync_all i (first ∷ []) s)
      × Holds i quantity q (sync_all i (first ∷ second ∷ []) s)
unfolding sync_all
sync_fills-again i first second quantity p s wet h same =
    let a = answer_to first.transport i first.plaintext s in
    let q = advance quantity p a in
    let once = (sync_fills-Holds first.transport i first.plaintext quantity p s wet h).1 in
    let twice =
      (sync_fills-Holds second.transport i second.plaintext quantity q
        (sync_fills first.transport i first.plaintext s).1 (advance-NotDry quantity p a wet)
        once).1 in
    (
      q,
      once,
      subst
          (λ r.
            Holds i quantity r
              (sync_fills second.transport i second.plaintext
                (sync_fills first.transport i first.plaintext s).1).1)
          (ap (advance quantity q) same ∙ advance-again quantity p a) twice,
    )

-- Where the tables hold a progress of a real order of non-negative quantity that is not yet
-- exceeded, and no answer of the broker reports more than that quantity: the fills recorded by any
-- sequence of syncs add up to at most the quantity.
pub sync_all-within :
    (i : ℕ) (calls : List SyncCall) (quantity : ℤ) (p : Progress) (s : Session)
    → NotDry p
    → Holds i quantity p s
    → pos 0 ≤ℤ quantity
    → p.filled ≤ℤ quantity
    → All (Within quantity) (answers i calls s)
    → Fill.total_filled_quantity i (sync_all i calls s) ≤ℤ quantity
sync_all-within i calls quantity p s wet h q f within =
    subst (λ n. n ≤ℤ quantity) (sym (sync_all-refines i calls quantity p s wet h).total)
      (advance_all-within quantity p (answers i calls s) q within f)
