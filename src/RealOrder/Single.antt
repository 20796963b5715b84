-- ===== src/RealOrder/Single.antt =====
-- The rows of the real orders: keys below the next one, no key twice, and no candidate with two
-- orders that are in flight or ended well. Two writes keep this: a new order of a candidate that
-- has none, and a new status of an order that is not terminal.
use stock_ai_platform.Base.{
  ℕ, ◌+◌, ◌≡◌, ◌<◌, ◌≤◌, refl, ap, sym, ◌∙◌, Bool, true, false, some, List, [], ◌∷◌, ◌++◌, arith,
  inl, inr, All, All-append, All-update_where, Bool-cases, ◌==◌, ==_iff, find, select, length,
  update_where, is_some, if◌then◌else◌,
}
use mathlib.Core.Path.{subst}
use mathlib.Core.Option.{some-injective}
use stock_ai_platform.Store.{RealOrder}
use stock_ai_platform.RealOrder

-- How many of the orders block the candidate.
unfoldable pub blocking : ℕ → List RealOrder → ℕ
blocking k os = length (select (RealOrder.blocks k) os)

-- How many of them have the key.
unfoldable pub keyed : ℕ → List RealOrder → ℕ
keyed i os = length (select (RealOrder.has_id i) os)

pub record SingleRows (os : List RealOrder) (n : ℕ) : Type 0 where
  pub below : All (λ o. o.id < n) os
  pub unique : (i : ℕ) → keyed i os ≤ 1
  pub once : (k : ℕ) → blocking k os ≤ 1

-- No orders at all.
pub SingleRows-empty : (n : ℕ) → SingleRows [] n
unfolding keyed blocking
SingleRows-empty n = record { below = tt; unique = λ i. omega arith; once = λ k. omega arith }

abbrev count_one : Bool → ℕ
count_one true = 1
count_one false = 0

blocking-none :
    (k : ℕ) (os : List RealOrder)
    → is_some (find (RealOrder.blocks k) os) ≡ false
    → blocking k os ≡ 0
unfolding blocking
blocking-none k [] h = refl
blocking-none k (o ∷ os) h = let ih = blocking-none k os in ground arith

blocking-append :
    (k : ℕ) (os : List RealOrder) (o : RealOrder)
    → blocking k (os ++ o ∷ []) ≡ blocking k os + count_one (RealOrder.blocks k o)
unfolding blocking
blocking-append k [] o = ground arith
blocking-append k (x ∷ os) o = let ih = blocking-append k os o in ground arith

keyed-append :
    (i : ℕ) (os : List RealOrder) (o : RealOrder)
    → keyed i (os ++ o ∷ []) ≡ keyed i os + count_one (RealOrder.has_id i o)
unfolding keyed
keyed-append i [] o = ground arith
keyed-append i (x ∷ os) o = let ih = keyed-append i os o in ground arith

below-absent : (n : ℕ) (os : List RealOrder) → All (λ o. o.id < n) os → keyed n os ≡ 0
unfolding keyed
below-absent n [] h = refl
below-absent n (o ∷ os) h = let ih = below-absent n os h.1 in ground arith

below-more : (n : ℕ) (os : List RealOrder) → All (λ o. o.id < n) os → All (λ o. o.id < n + 1) os
below-more n [] h = tt
below-more n (o ∷ os) h = (omega (arith, h.0), below-more n os h.1)

at_most_one : (t : Bool) → count_one t ≤ 1
at_most_one t = ground arith

-- A new order of the candidate `k`, which had none.
blocking-room :
    (k j : ℕ) (os : List RealOrder) (o : RealOrder)
    → o.candidate_id ≡ k
    → blocking k os ≡ 0
    → blocking j os ≤ 1
    → blocking j (os ++ o ∷ []) ≤ 1
blocking-room k j os o candidate z b = elim (Bool-cases (o.candidate_id == j)) [
  | inl same ↦
      let e : blocking j os ≡ 0 =
        ap (λ m. blocking m os) (sym ((==_iff o.candidate_id j).0 same) ∙ candidate) ∙ z in
      let a = blocking-append j os o in
      let w = at_most_one (RealOrder.blocks j o) in omega (arith, a, e, w)
  | inr other ↦ let a = blocking-append j os o in let w = other_none other in omega (arith, a, w, b)
]
  where
    other_none : (o.candidate_id == j) ≡ false → count_one (RealOrder.blocks j o) ≡ 0
    other_none h = ground arith

keyed-room :
    (n i : ℕ) (os : List RealOrder) (o : RealOrder)
    → o.id ≡ n
    → keyed n os ≡ 0
    → keyed i os ≤ 1
    → keyed i (os ++ o ∷ []) ≤ 1
keyed-room n i os o key z b = elim (Bool-cases (o.id == i)) [
  | inl same ↦
      let e : keyed i os ≡ 0 = ap (λ m. keyed m os) (sym ((==_iff o.id i).0 same) ∙ key) ∙ z in
      let a = keyed-append i os o in
      let w = at_most_one (RealOrder.has_id i o) in omega (arith, a, e, w)
  | inr other ↦
      let a = keyed-append i os o in
      let w : count_one (RealOrder.has_id i o) ≡ 0 = ap count_one other in omega (arith, a, w, b)
]

pub SingleRows-append :
    (os : List RealOrder) (n k : ℕ) (o : RealOrder)
    → SingleRows os n
    → is_some (find (RealOrder.blocks k) os) ≡ false
    → o.id ≡ n
    → o.candidate_id ≡ k
    → SingleRows (os ++ o ∷ []) (n + 1)
SingleRows-append os n k o h free key candidate = record {
  below =
      All-append (λ r. r.id < n + 1) os (o ∷ []) (below-more n os h.below) (omega (arith, key), tt);
  unique = λ i. keyed-room n i os o key (below-absent n os h.below) (h.unique i);
  once = λ j. blocking-room k j os o candidate (blocking-none k os free) (h.once j);
}

keyed-update :
    (i j : ℕ) (o' : RealOrder) (os : List RealOrder)
    → o'.id ≡ i
    → keyed j (update_where (RealOrder.has_id i) (λ _. o') os) ≡ keyed j os
unfolding keyed
keyed-update i j o' [] e = refl
keyed-update i j o' (x ∷ os) e = let ih = keyed-update i j o' os e in ground arith

update-absent :
    (i : ℕ) (o' : RealOrder) (os : List RealOrder)
    → keyed i os ≡ 0
    → update_where (RealOrder.has_id i) (λ _. o') os ≡ os
unfolding keyed
update-absent i o' [] h = refl
update-absent i o' (x ∷ os) h = let ih = update-absent i o' os in ground arith

blocking-cons :
    (k : ℕ) (o : RealOrder) (os : List RealOrder)
    → blocking k (o ∷ os) ≡ count_one (RealOrder.blocks k o) + blocking k os
unfolding blocking
blocking-cons k o os = ground arith

keyed-cons :
    (i : ℕ) (o : RealOrder) (os : List RealOrder)
    → keyed i (o ∷ os) ≡ count_one (RealOrder.has_id i o) + keyed i os
unfolding keyed
keyed-cons i o os = ground arith

blocks-less :
    (j : ℕ) (o o' : RealOrder)
    → o'.candidate_id ≡ o.candidate_id
    → RealOrder.is_active o.status ≡ true
    → count_one (RealOrder.blocks j o') ≤ count_one (RealOrder.blocks j o)
blocks-less j o o' c a = ground arith

-- The found row of a key that is there once gets a new status: it blocks no more than before.
blocking-update :
    (i j : ℕ) (o o' : RealOrder) (os : List RealOrder)
    → keyed i os ≤ 1
    → find (RealOrder.has_id i) os ≡ some o
    → o'.candidate_id ≡ o.candidate_id
    → RealOrder.is_active o.status ≡ true
    → blocking j (update_where (RealOrder.has_id i) (λ _. o') os) ≤ blocking j os
blocking-update i j o o' [] u f c a = cc
blocking-update i j o o' (x ∷ os) u f c a =
    let ih = blocking-update i j o o' os in
    let k = keyed-cons i x os in head (RealOrder.has_id i x) refl f ih k
  where
    updated : List RealOrder
    updated = update_where (RealOrder.has_id i) (λ _. o') os

    head :
        (b : Bool)
        → RealOrder.has_id i x ≡ b
        → (if b then some x else find (RealOrder.has_id i) os) ≡ some o
        → (keyed i os ≤ 1
            → find (RealOrder.has_id i) os ≡ some o
            → o'.candidate_id ≡ o.candidate_id
            → RealOrder.is_active o.status ≡ true
            → blocking j updated ≤ blocking j os)
        → keyed i (x ∷ os) ≡ count_one (RealOrder.has_id i x) + keyed i os
        → blocking j ((if b then o' else x) ∷ updated) ≤ blocking j (x ∷ os)
    head true e g ih k =
        let one : count_one (RealOrder.has_id i x) ≡ 1 = ap count_one e in
        let absent : keyed i os ≡ 0 = omega (arith, k, one, u) in
        let same : blocking j updated ≡ blocking j os =
          ap (blocking j) (update-absent i o' os absent) in
        let there : x ≡ o = some-injective x o g in
        let less : count_one (RealOrder.blocks j o') ≤ count_one (RealOrder.blocks j x) =
          subst (λ y. count_one (RealOrder.blocks j o') ≤ count_one (RealOrder.blocks j y))
            (sym there) (blocks-less j o o' c a) in
        let l = blocking-cons j o' updated in
        let r = blocking-cons j x os in omega (arith, l, r, same, less)
    head false e g ih k =
        let none_here : count_one (RealOrder.has_id i x) ≡ 0 = ap count_one e in
        let rest = ih (omega (arith, k, none_here, u)) g c a in
        let l = blocking-cons j x updated in
        let r = blocking-cons j x os in omega (arith, l, r, rest)

pub SingleRows-update :
    (os : List RealOrder) (n i : ℕ) (o o' : RealOrder)
    → SingleRows os n
    → find (RealOrder.has_id i) os ≡ some o
    → o'.id ≡ i
    → o'.candidate_id ≡ o.candidate_id
    → RealOrder.is_active o.status ≡ true
    → SingleRows (update_where (RealOrder.has_id i) (λ _. o') os) n
SingleRows-update os n i o o' h found key candidate active = record {
  below =
      All-update_where (λ r. r.id < n) (RealOrder.has_id i) (λ _. o') os
        (λ r lower e. let k = (==_iff r.id i).0 e in omega (arith, k, key, lower)) h.below;
  unique = λ j. let e = keyed-update i j o' os key in let b = h.unique j in omega (arith, e, b);
  once = λ j.
      let e = blocking-update i j o o' os (h.unique i) found candidate active in
      let b = h.once j in omega (arith, e, b);
}
