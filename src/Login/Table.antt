-- ===== src/Login/Table.antt =====
-- The table of the login guard: what is found under a key after an insertion and a removal.
use stock_ai_platform.Base.{
  ◌≡◌, refl, false, none, some, List, [], ◌∷◌, arith, Text, eq_text, eq_text_iff, eq_text_refl,
  Bool-cases, inl, inr,
}
use stock_ai_platform.Login.{FailureRecord, lookup, insert, pop}

pub lookup-insert_self :
    (k : Text) (r : FailureRecord) (m : List (Text × FailureRecord))
    → lookup k (insert k r m) ≡ some r
unfolding lookup insert
lookup-insert_self k r [] = rw (eq_text_refl k)
lookup-insert_self k r ((j, q) ∷ m) = elim (Bool-cases (eq_text j k)) [
  | inl e ↦ rw e (rw (eq_text_refl k))
  | inr e ↦ rw e (rw e (lookup-insert_self k r m))
]

pub lookup-insert_ne :
    (i k : Text) (r : FailureRecord) (m : List (Text × FailureRecord))
    → eq_text k i ≡ false
    → lookup i (insert k r m) ≡ lookup i m
unfolding lookup insert
lookup-insert_ne i k r [] h = rw h
lookup-insert_ne i k r ((j, q) ∷ m) h =
    ground (arith, eq_text_iff j k, eq_text_iff k i, eq_text_iff j i, lookup-insert_ne i k r m h)

pub lookup-pop_self : (k : Text) (m : List (Text × FailureRecord)) → lookup k (pop k m) ≡ none
unfolding lookup pop
lookup-pop_self k [] = refl
lookup-pop_self k ((j, q) ∷ m) = elim (Bool-cases (eq_text j k)) [
  | inl e ↦ rw e (lookup-pop_self k m)
  | inr e ↦ rw e (rw e (lookup-pop_self k m))
]

pub lookup-pop_ne :
    (i k : Text) (m : List (Text × FailureRecord))
    → eq_text k i ≡ false
    → lookup i (pop k m) ≡ lookup i m
unfolding lookup pop
lookup-pop_ne i k [] h = refl
lookup-pop_ne i k ((j, q) ∷ m) h =
    ground (arith, eq_text_iff j k, eq_text_iff k i, eq_text_iff j i, lookup-pop_ne i k m h)
