-- ===== src/RealOrder/Redact/Clean.antt =====
-- What a redaction leaves: neither the word it took out, nor a word that was not there before.
use stock_ai_platform.Base.{
  ℕ, zero, suc, ◌-◌, ◌≡◌, refl, ap, sym, ◌∙◌, true, false, [], ◌∷◌, ◌++◌, arith, inl, inr, ◌⊎◌,
  Bool-cases, All, Text, length, ◌==◌,
}
use stock_ai_platform.RealOrder.Redact.{lower, starts_with, contains_sub, redact_from, stars}

-- A word without the star.
abbrev pub Starless : Text → Type 0
Starless = All (λ c. (c == b'*') ≡ false)

-- A match of a word without the star at the head of a redacted text was a match before.
starts_with-redact :
    (p w t : Text)
    → Starless p
    → starts_with p (lower (redact_from w 0 t)) ≡ true
    → starts_with p (lower t) ≡ true
unfolding starts_with lower redact_from
starts_with-redact [] w t h e = refl
starts_with-redact (d ∷ p) w [] h e = e
starts_with-redact (d ∷ p) w (c ∷ t) h e =
    let ih = starts_with-redact p w t h.1 in ground (arith, ih)

-- Three stars in front hold no match of a starless word.
contains-stars :
    (d : ℕ) (p t : Text)
    → (d == b'*') ≡ false
    → contains_sub (d ∷ p) (lower (stars ++ t)) ≡ contains_sub (d ∷ p) (lower t)
unfolding contains_sub starts_with lower
contains-stars d p t h = ground arith

-- No match at the head before, none after.
starts_with-stays :
    (p w t : Text)
    → Starless p
    → starts_with p (lower t) ≡ false
    → starts_with p (lower (redact_from w 0 t)) ≡ false
starts_with-stays p w t h e =
    let back = starts_with-redact p w t h in
    elim (Bool-cases (starts_with p (lower (redact_from w 0 t)))) [
      | inl match ↦ absurd (let b = back match in cc)
      | inr miss ↦ miss
    ]

-- A word that is nowhere is not at the head and not further on.
later :
    (d : ℕ) (p : Text) (c : ℕ) (t : Text)
    → contains_sub (d ∷ p) (lower (c ∷ t)) ≡ false
    → (starts_with (d ∷ p) (lower (c ∷ t)) ≡ false) × (contains_sub (d ∷ p) (lower t) ≡ false)
unfolding contains_sub lower
later d p c t e = ground arith

contains-step :
    (d : ℕ) (p : Text) (c : ℕ) (t : Text)
    → starts_with (d ∷ p) (lower (c ∷ t)) ≡ false
    → contains_sub (d ∷ p) (lower t) ≡ false
    → contains_sub (d ∷ p) (lower (c ∷ t)) ≡ false
unfolding contains_sub lower
contains-step d p c t h r = ground arith

redact_from-miss :
    (w : Text) (c : ℕ) (t : Text)
    → starts_with w (lower (c ∷ t)) ≡ false
    → redact_from w 0 (c ∷ t) ≡ c ∷ redact_from w 0 t
unfolding redact_from
redact_from-miss w c t h = rw h refl

-- One step of the scan at a match.
contains-hit :
    (d : ℕ) (p w : Text) (c : ℕ) (t : Text)
    → Starless (d ∷ p)
    → starts_with w (lower (c ∷ t)) ≡ true
    → contains_sub (d ∷ p) (lower (redact_from w (length w - 1) t)) ≡ false
    → contains_sub (d ∷ p) (lower (redact_from w 0 (c ∷ t))) ≡ false
unfolding redact_from
contains-hit d p w c t h hit rest =
    rw hit (contains-stars d p (redact_from w (length w - 1) t) h.0 ∙ rest)

-- One step of the scan past a place where the word does not match.
contains-miss :
    (d : ℕ) (p w : Text) (c : ℕ) (t : Text)
    → Starless (d ∷ p)
    → starts_with w (lower (c ∷ t)) ≡ false
    → starts_with (d ∷ p) (lower (c ∷ t)) ≡ false
    → contains_sub (d ∷ p) (lower (redact_from w 0 t)) ≡ false
    → contains_sub (d ∷ p) (lower (redact_from w 0 (c ∷ t))) ≡ false
contains-miss d p w c t h miss none rest =
    let stays = starts_with-stays (d ∷ p) w (c ∷ t) h none in
    let stays' : starts_with (d ∷ p) (lower (c ∷ redact_from w 0 t)) ≡ false =
      ap (λ u. starts_with (d ∷ p) (lower u)) (sym (redact_from-miss w c t miss)) ∙ stays in
    ap (λ u. contains_sub (d ∷ p) (lower u)) (redact_from-miss w c t miss)
    ∙ contains-step d p c (redact_from w 0 t) stays' rest

-- The word itself is gone.
pub contains-redact_from :
    (d : ℕ) (p : Text) (k : ℕ) (t : Text)
    → Starless (d ∷ p)
    → contains_sub (d ∷ p) (lower (redact_from (d ∷ p) k t)) ≡ false
unfolding redact_from lower contains_sub starts_with
contains-redact_from d p k [] h = refl
contains-redact_from d p (suc k) (c ∷ t) h = contains-redact_from d p k t h
contains-redact_from d p zero (c ∷ t) h =
    let w = d ∷ p in
    let hit = contains-redact_from d p (length w - 1) t h in
    let miss = contains-redact_from d p 0 t h in
    at_head (Bool-cases (starts_with w (lower (c ∷ t)))) hit miss
  where
    at_head :
        (starts_with (d ∷ p) (lower (c ∷ t)) ≡ true) ⊎ (starts_with (d ∷ p) (lower (c ∷ t)) ≡ false)
        → contains_sub (d ∷ p) (lower (redact_from (d ∷ p) (length (d ∷ p) - 1) t)) ≡ false
        → contains_sub (d ∷ p) (lower (redact_from (d ∷ p) 0 t)) ≡ false
        → contains_sub (d ∷ p) (lower (redact_from (d ∷ p) 0 (c ∷ t))) ≡ false
    at_head (inl e) hit miss = contains-hit d p (d ∷ p) c t h e hit
    at_head (inr e) hit miss = contains-miss d p (d ∷ p) c t h e e miss

-- A word that was not there does not appear.
pub contains-redact_other :
    (d : ℕ) (p w : Text) (k : ℕ) (t : Text)
    → Starless (d ∷ p)
    → contains_sub (d ∷ p) (lower t) ≡ false
    → contains_sub (d ∷ p) (lower (redact_from w k t)) ≡ false
unfolding redact_from lower contains_sub starts_with
contains-redact_other d p w k [] h e = refl
contains-redact_other d p w (suc k) (c ∷ t) h e =
    contains-redact_other d p w k t h (later d p c t e).1
contains-redact_other d p w zero (c ∷ t) h e =
    let l = later d p c t e in
    let hit = contains-redact_other d p w (length w - 1) t h l.1 in
    let miss = contains-redact_other d p w 0 t h l.1 in
    at_head (Bool-cases (starts_with w (lower (c ∷ t)))) l.0 hit miss
  where
    at_head :
        (starts_with w (lower (c ∷ t)) ≡ true) ⊎ (starts_with w (lower (c ∷ t)) ≡ false)
        → starts_with (d ∷ p) (lower (c ∷ t)) ≡ false
        → contains_sub (d ∷ p) (lower (redact_from w (length w - 1) t)) ≡ false
        → contains_sub (d ∷ p) (lower (redact_from w 0 t)) ≡ false
        → contains_sub (d ∷ p) (lower (redact_from w 0 (c ∷ t))) ≡ false
    at_head (inl e) none hit miss = contains-hit d p w c t h e hit
    at_head (inr e) none hit miss = contains-miss d p w c t h e none miss
