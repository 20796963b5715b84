-- ===== src/Executor/Scrubbed.antt =====
-- What `_scrub` leaves is a message that `mark_failed` takes.
use stock_ai_platform.Base.{
  ℕ, zero, suc, ◌≡◌, refl, true, false, List, [], ◌∷◌, arith, All, Text, take, if◌then◌else◌,
}
use stock_ai_platform.Candidate.{is_empty}
use stock_ai_platform.RealOrder
use stock_ai_platform.RealOrder.{mentions, sensitive_substrings}
use stock_ai_platform.RealOrder.Redact.{lower, starts_with, contains_sub, redact}
use stock_ai_platform.RealOrder.Redact.Clean.{Starless, contains-redact_from, contains-redact_other}
use stock_ai_platform.Executor.Words.{scrub, scrub_words}

-- A word to take out: not empty, and without the star.
abbrev Word : Text → Type 0
Word w = (is_empty w ≡ false) × Starless w

contains-redact : (w t : Text) → Word w → contains_sub w (lower (redact w t)) ≡ false
unfolding redact
contains-redact [] t h = cc
contains-redact (d ∷ p) t h = contains-redact_from d p 0 t h.1

stays_out :
    (v w t : Text)
    → Word v
    → contains_sub v (lower t) ≡ false
    → contains_sub v (lower (redact w t)) ≡ false
unfolding redact
stays_out [] w t h e = cc
stays_out (d ∷ p) w t h e = contains-redact_other d p w 0 t h.1 e

abbrev step : Text → Text → Text
step w t = if contains_sub w (lower t) then redact w t else t

step-removes : (w t : Text) → Word w → contains_sub w (lower (step w t)) ≡ false
step-removes w t h = let r = contains-redact w t h in ground arith

step-keeps :
    (v w t : Text)
    → Word v
    → contains_sub v (lower t) ≡ false
    → contains_sub v (lower (step w t)) ≡ false
step-keeps v w t h e = let r = stays_out v w t h e in ground arith

scrub_words-keeps :
    (v : Text) (ws : List Text) (t : Text)
    → Word v
    → contains_sub v (lower t) ≡ false
    → contains_sub v (lower (scrub_words ws t)) ≡ false
unfolding scrub_words
scrub_words-keeps v [] t h e = e
scrub_words-keeps v (w ∷ ws) t h e = scrub_words-keeps v ws (step w t) h (step-keeps v w t h e)

-- Whatever the words, in whatever order: none of them is left.
scrub_words-removes :
    (ws : List Text) (t : Text) → All Word ws → mentions ws (lower (scrub_words ws t)) ≡ false
unfolding scrub_words mentions
scrub_words-removes [] t h = refl
scrub_words-removes (w ∷ ws) t h =
    let gone = scrub_words-keeps w ws (step w t) h.0 (step-removes w t h.0) in
    let rest = scrub_words-removes ws (step w t) h.1 in ground arith

starts_with-take :
    (p : Text) (n : ℕ) (t : Text)
    → starts_with p (lower (take n t)) ≡ true
    → starts_with p (lower t) ≡ true
unfolding starts_with lower
starts_with-take [] n t e = refl
starts_with-take (d ∷ p) zero t e = cc
starts_with-take (d ∷ p) (suc n) [] e = e
starts_with-take (d ∷ p) (suc n) (c ∷ t) e = let ih = starts_with-take p n t in ground arith

-- A cut message holds no word that the message does not hold.
contains-take :
    (w : Text) (n : ℕ) (t : Text)
    → is_empty w ≡ false
    → contains_sub w (lower t) ≡ false
    → contains_sub w (lower (take n t)) ≡ false
unfolding contains_sub lower starts_with
contains-take [] n t h e = cc
contains-take (d ∷ p) zero t h e = refl
contains-take (d ∷ p) (suc n) [] h e = refl
contains-take (d ∷ p) (suc n) (c ∷ t) h e =
    let head = starts_with-take (d ∷ p) (suc n) (c ∷ t) in
    let ih = contains-take (d ∷ p) n t h in ground arith

mentions-take :
    (ws : List Text) (n : ℕ) (t : Text)
    → All Word ws
    → mentions ws (lower t) ≡ false
    → mentions ws (lower (take n t)) ≡ false
unfolding mentions
mentions-take [] n t h e = refl
mentions-take (w ∷ ws) n t h e =
    let head = contains-take w n t h.0.0 in let rest = mentions-take ws n t h.1 in ground arith

-- A scrubbed message, cut to any length, holds none of the six sensitive words in any case.
pub scrub-Clean : (message : Text) (n : ℕ) → RealOrder.bad_message (take n (scrub message)) ≡ false
unfolding scrub RealOrder.bad_message
scrub-Clean message n =
    mentions-take sensitive_substrings n (scrub_words sensitive_substrings message) words
      (scrub_words-removes sensitive_substrings message words)
  where
    words : All Word sensitive_substrings
    words = ground arith
