-- ===== src/RealTrading.antt =====
-- The executor and the fill sync on the same tables, in any order: their calls as steps.
use stock_ai_platform.Base.{ℕ, Option, List, [], ◌∷◌, Text}
use stock_ai_platform.Store.{Settings, Session}
use stock_ai_platform.Kis.{Transport}
use stock_ai_platform.Executor.{RealOrderExecutor, execute}
use stock_ai_platform.Executor.Once.{Single, execute-Single}
use stock_ai_platform.FillSync.{sync_fills}
use stock_ai_platform.FillSync.Once.{sync_fills-Single}

-- A call of the executor for a candidate, or a sync of a real order.
pub data Call : Type 0 where
  execute_call : RealOrderExecutor → Settings → ℕ → Call
  sync_call : Transport → ℕ → Option Text → Call

-- The session after a call at a moment of the clock. What a call that raised had written stays.
unfoldable pub after_call : (Text → Text) → Call → ℕ → Session → Session
unfolding execute sync_fills
after_call sha256 (execute_call e settings i) now s =
    (execute sha256 e settings i (record s { clock = now })).1
after_call sha256 (sync_call transport i plaintext) now s =
    (sync_fills transport i plaintext (record s { clock = now })).1

unfoldable pub after_calls : (Text → Text) → List (Call × ℕ) → Session → Session
unfolding after_call
after_calls sha256 [] s = s
after_calls sha256 ((c, now) ∷ cs) s = after_calls sha256 cs (after_call sha256 c now s)

after_call-Single :
    (sha256 : Text → Text) (c : Call) (now : ℕ) (s : Session)
    → Single s
    → Single (after_call sha256 c now s)
unfolding after_call
after_call-Single sha256 (execute_call e settings i) now s h =
    execute-Single sha256 e settings i (record s { clock = now }) h
after_call-Single sha256 (sync_call transport i plaintext) now s h =
    sync_fills-Single transport i plaintext (record s { clock = now }) h

-- If the keys of the real orders are distinct and below the next one and no candidate has two of
-- them that are in flight or ended well, the same holds after calls of the executor and of the
-- fill sync in any order, with whatever settings, transports and answers, also where a call raises.
pub after_calls-Single :
    (sha256 : Text → Text) (calls : List (Call × ℕ)) (s : Session)
    → Single s
    → Single (after_calls sha256 calls s)
unfolding after_calls
after_calls-Single sha256 [] s h = h
after_calls-Single sha256 ((c, now) ∷ cs) s h =
    after_calls-Single sha256 cs (after_call sha256 c now s) (after_call-Single sha256 c now s h)
