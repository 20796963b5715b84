-- ===== src/Login/Keys.antt =====
-- The guard as one counter per key.
use stock_ai_platform.Base.{
  ℕ, ◌≡◌, refl, ap, ◌∙◌, Option, List, [], ◌∷◌, Text, eq_text, eq_text_iff, Bool-cases, inl, inr,
  ltb, if◌then◌else◌,
}
use stock_ai_platform.Login.{
  FailureRecord, BruteForceGuard, make_key, get_record, is_locked, after_failure, record_failure,
  record_success, no_failures,
}
use stock_ai_platform.Login.Table.{
  lookup-insert_self, lookup-insert_ne, lookup-pop_self, lookup-pop_ne,
}

-- A login attempt that ended, of a user from an address.
pub data LoginEvent : Type 0 where
  failed : Text → Option Text → ℕ → LoginEvent
  succeeded : Text → Option Text → LoginEvent

abbrev pub after_event : BruteForceGuard → (Text → Text) → LoginEvent → BruteForceGuard
after_event g hash (failed u ip now) = record_failure g hash u ip now
after_event g hash (succeeded u ip) = record_success g hash u ip

abbrev pub after_events : BruteForceGuard → (Text → Text) → List LoginEvent → BruteForceGuard
after_events g hash [] = g
after_events g hash (e ∷ es) = after_events (after_event g hash e) hash es

-- The counter of one key: it moves with the events of that key and ignores the others.
abbrev pub count_event :
    BruteForceGuard → (Text → Text) → Text → LoginEvent → FailureRecord → FailureRecord
count_event g hash k (failed u ip now) r =
    if eq_text (make_key hash u ip) k then after_failure g r now else r
count_event g hash k (succeeded u ip) r = if eq_text (make_key hash u ip) k then no_failures else r

abbrev pub counted :
    BruteForceGuard → (Text → Text) → Text → List LoginEvent → FailureRecord → FailureRecord
counted g hash k [] r = r
counted g hash k (e ∷ es) r = counted g hash k es (count_event g hash k e r)

-- What a failure of the key `j` leaves under the key `k`.
get_record-failed :
    (g : BruteForceGuard) (hash : Text → Text) (k u : Text) (ip : Option Text) (now : ℕ)
    → get_record (record_failure g hash u ip now) k ≡ (
        if eq_text (make_key hash u ip) k
        then after_failure g (get_record g k) now
        else get_record g k)
unfolding get_record record_failure
get_record-failed g hash k u ip now =
    let j = make_key hash u ip in
    let r = after_failure g (get_record g j) now in
    elim (Bool-cases (eq_text j k)) [
      | inl e ↦
          let same = (eq_text_iff j k).0 e in rw (e, ← same, lookup-insert_self j r g.records) refl
      | inr e ↦ rw (e, lookup-insert_ne k j r g.records e) refl
    ]

-- What a success of the key `j` leaves under the key `k`.
get_record-succeeded :
    (g : BruteForceGuard) (hash : Text → Text) (k u : Text) (ip : Option Text)
    → get_record (record_success g hash u ip) k
      ≡ (if eq_text (make_key hash u ip) k then no_failures else get_record g k)
unfolding get_record record_success
get_record-succeeded g hash k u ip =
    let j = make_key hash u ip in
    elim (Bool-cases (eq_text j k)) [
      | inl e ↦ let same = (eq_text_iff j k).0 e in rw (e, ← same, lookup-pop_self j g.records) refl
      | inr e ↦ rw (e, lookup-pop_ne k j g.records e) refl
    ]

get_record-after_event :
    (g : BruteForceGuard) (hash : Text → Text) (k : Text) (e : LoginEvent)
    → get_record (after_event g hash e) k ≡ count_event g hash k e (get_record g k)
get_record-after_event g hash k (failed u ip now) = get_record-failed g hash k u ip now
get_record-after_event g hash k (succeeded u ip) = get_record-succeeded g hash k u ip

-- The limits stay, so a counter is the same one in the guard after an event.
count_event-after_event :
    (g : BruteForceGuard) (hash : Text → Text) (k : Text) (e f : LoginEvent) (r : FailureRecord)
    → count_event (after_event g hash e) hash k f r ≡ count_event g hash k f r
unfolding record_failure record_success after_failure
count_event-after_event g hash k (failed u ip now) (failed v jp after) r = refl
count_event-after_event g hash k (failed u ip now) (succeeded v jp) r = refl
count_event-after_event g hash k (succeeded u ip) (failed v jp after) r = refl
count_event-after_event g hash k (succeeded u ip) (succeeded v jp) r = refl

counted-after_event :
    (g : BruteForceGuard) (hash : Text → Text) (k : Text) (e : LoginEvent) (es : List LoginEvent)
    (r : FailureRecord)
    → counted (after_event g hash e) hash k es r ≡ counted g hash k es r
counted-after_event g hash k e [] r = refl
counted-after_event g hash k e (f ∷ es) r =
    ap (counted (after_event g hash e) hash k es) (count_event-after_event g hash k e f r)
    ∙ counted-after_event g hash k e es (count_event g hash k f r)

get_record-after_events :
    (g : BruteForceGuard) (hash : Text → Text) (k : Text) (es : List LoginEvent)
    → get_record (after_events g hash es) k ≡ counted g hash k es (get_record g k)
get_record-after_events g hash k [] = refl
get_record-after_events g hash k (e ∷ es) =
    get_record-after_events (after_event g hash e) hash k es
    ∙ counted-after_event g hash k e es (get_record (after_event g hash e) k)
    ∙ ap (counted g hash k es) (get_record-after_event g hash k e)

-- After failures and successes of any users in any order, the guard keeps under a key the record
-- that a counter of this key alone reaches by the events of the key, and the key is locked exactly
-- when that record says so: no event of one key touches the count, the window or the lock of
-- another, and a success forgets just its own.
pub after_events-counted :
    (g : BruteForceGuard) (hash : Text → Text) (u : Text) (ip : Option Text) (es : List LoginEvent)
    (now : ℕ)
    → let k = make_key hash u ip in
      let r = counted g hash k es (get_record g k) in
      (get_record (after_events g hash es) k ≡ r)
      × (is_locked (after_events g hash es) hash u ip now ≡ ltb now r.locked_until)
unfolding is_locked
after_events-counted g hash u ip es now =
    let h = get_record-after_events g hash (make_key hash u ip) es in
    (h, ap (λ r. ltb now r.locked_until) h)
