-- ===== src/FillSync/Kept.antt =====
-- What the writes of a sync do to one order and to the total of its fills. None of them raises.
use stock_ai_platform.Base.{
  ℕ, ◌≡◌, refl, ap, sym, ◌∙◌, Bool, true, false, some, List, [], ◌∷◌, ◌++◌, arith, ◌==◌, ℤ, pos,
  ◌+ℤ◌, +ℤ_assoc, +ℤ_comm, leb_ℤ, find, select, update_where, if◌then◌else◌,
}
use stock_ai_platform.Store.{
  RealOrderStatus, RealOrder, RealFill, Session, value_error, audit_validation, gets,
}
use stock_ai_platform.Store.Triple.{Triple, Triple-bind, Triple-pass, Triple-weaken}
use stock_ai_platform.Base.Decimal.{zero_dec, less, at_most}
use mathlib.Core.Path.{subst}
use stock_ai_platform.Audit
use stock_ai_platform.RealOrder
use stock_ai_platform.RealOrder.Fill

find-update_where :
    (i : ℕ) (o o' : RealOrder) (xs : List RealOrder)
    → o'.id ≡ i
    → find (RealOrder.has_id i) xs ≡ some o
    → find (RealOrder.has_id i) (update_where (RealOrder.has_id i) (λ _. o') xs) ≡ some o'
find-update_where i o o' [] e h = cc
find-update_where i o o' (x ∷ xs) e h = let ih = find-update_where i o o' xs e in ground arith

total-append :
    (i : ℕ) (f : RealFill) (fs : List RealFill)
    → f.real_order_id ≡ i
    → Fill.sum_quantity (select (Fill.of_order i) (fs ++ f ∷ []))
      ≡ Fill.sum_quantity (select (Fill.of_order i) fs) +ℤ f.quantity
unfolding Fill.sum_quantity
total-append i f [] e = pick (f.real_order_id == i) (same e)
  where
    same : f.real_order_id ≡ i → (f.real_order_id == i) ≡ true
    same h = ground arith

    pick :
        (b : Bool) → b ≡ true → Fill.sum_quantity (if b then f ∷ [] else []) ≡ pos 0 +ℤ f.quantity
    pick true h = +ℤ_comm f.quantity (pos 0)
    pick false h = cc
total-append i f (g ∷ fs) e =
    let ih = total-append i f fs e in
    let a = +ℤ_assoc g.quantity (Fill.sum_quantity (select (Fill.of_order i) fs)) f.quantity in
    pick (g.real_order_id == i) ih a
  where
    pick :
        (b : Bool)
        → Fill.sum_quantity (select (Fill.of_order i) (fs ++ f ∷ []))
          ≡ Fill.sum_quantity (select (Fill.of_order i) fs) +ℤ f.quantity
        → g.quantity +ℤ (Fill.sum_quantity (select (Fill.of_order i) fs) +ℤ f.quantity)
          ≡ (g.quantity +ℤ Fill.sum_quantity (select (Fill.of_order i) fs)) +ℤ f.quantity
        → Fill.sum_quantity (
            if b
            then g ∷ select (Fill.of_order i) (fs ++ f ∷ [])
            else select (Fill.of_order i) (fs ++ f ∷ []))
          ≡ Fill.sum_quantity
              (if b then g ∷ select (Fill.of_order i) fs else select (Fill.of_order i) fs)
            +ℤ f.quantity
    pick true ih a = ap (λ n. g.quantity +ℤ n) ih ∙ a
    pick false ih a = ih

-- Never reached: the action does not raise.
abbrev pub Raises : Session → Type 0
Raises t = ⊥

-- The session has the order `o` under the key `i`, and the fills of `i` add up to `n`.
pub record View (i : ℕ) (o : RealOrder) (n : ℤ) (t : Session) : Type 0 where
  pub found : find (RealOrder.has_id i) t.real_orders ≡ some o
  pub total : Fill.total_filled_quantity i t ≡ n
  pub key : o.id ≡ i

-- The order `o` in another status.
pub record Moved (i : ℕ) (o : RealOrder) (w : RealOrderStatus) (n : ℤ) (o' : RealOrder)
    (t : Session) : Type 0 where
  pub view : View i o' n t
  pub status : o'.status ≡ w
  pub quantity : o'.quantity ≡ o.quantity
  pub dry_run : o'.dry_run ≡ o.dry_run

module _ (i : ℕ) (n : ℤ) where
  pub append-View :
      (o : RealOrder) (a : Audit.NewEntry)
      → Audit.details_leak a.details ≡ false
      → Audit.too_long a.ip_hash ≡ false
      → Audit.too_long a.user_agent_hash ≡ false
      → Triple (View i o n) (λ _. View i o n) Raises (Audit.append a)
  unfolding Audit.append Audit.add_entry Fill.total_filled_quantity
  append-View o a leak ip agent =
      Triple-pass (λ _. View i o n) (Audit.details_leak a.details) audit_validation _ leak
        (Triple-pass (λ _. View i o n) (Audit.too_long a.ip_hash) audit_validation _ ip
          (Triple-pass (λ _. View i o n) (Audit.too_long a.user_agent_hash) audit_validation
            (Audit.add_entry a) agent
            (record { at = λ s h. record { found = h.found; total = h.total; key = h.key } })))

  pub save-View :
      (o o' : RealOrder)
      → o'.id ≡ o.id
      → Triple (View i o n) (λ r t. (r ≡ o') × View i o' n t) Raises (RealOrder.save o')
  unfolding Fill.total_filled_quantity
  save-View o o' e = record {
    at = λ s h. (
      refl,
      record {
        found =
            ap
              (λ k.
                find (RealOrder.has_id i)
                  (update_where (RealOrder.has_id k) (λ _. o') s.real_orders))
              (e ∙ h.key)
            ∙ find-update_where i o o' s.real_orders (e ∙ h.key) h.found;
        total = h.total;
        key = e ∙ h.key;
      },
    );
  }

  pub update_status-Moved :
      (o : RealOrder) (w : RealOrderStatus)
      → RealOrder.is_terminal o.status ≡ false
      → Triple (View i o n) (Moved i o w n) Raises (RealOrder.update_status o w)
  unfolding RealOrder.update_status
  update_status-Moved o w running =
      Triple-pass (Moved i o w n) (RealOrder.is_terminal o.status) value_error _ running (
        Triple-bind (λ _. View i o n) (Moved i o w n) (gets λ s. s.clock) _
          (record { at = λ s h. h })
          λ now.
            Triple-weaken (λ r t. (r ≡ moved now) × View i (moved now) n t) (Moved i o w n)
              (RealOrder.save (moved now)) (λ s h. h)
              (λ r t h. record {
                view = subst (λ x. View i x n t) (sym h.0) h.1;
                status = ap (λ x. x.status) h.0;
                quantity = ap (λ x. x.quantity) h.0;
                dry_run = ap (λ x. x.dry_run) h.0;
              })
              (λ s h. h) (save-View o (moved now) refl))
    where
      moved : ℕ → RealOrder
      moved now = record o { status = w; updated_at = now }

  pub create-View :
      (o : RealOrder) (a : Fill.NewRealFill)
      → a.real_order_id ≡ i
      → leb_ℤ a.quantity (pos 0) ≡ false
      → at_most a.fill_price zero_dec ≡ false
      → less a.gross_amount zero_dec ≡ false
      → less a.net_amount zero_dec ≡ false
      → Triple (View i o n) (λ _. View i o (n +ℤ a.quantity)) Raises (Fill.create a)
  unfolding Fill.create Fill.total_filled_quantity
  create-View o a e quantity price gross net =
      let Q : RealFill → Session → Type 0 = λ _. View i o (n +ℤ a.quantity) in
      Triple-pass Q (leb_ℤ a.quantity (pos 0)) value_error _ quantity (
        Triple-pass Q (at_most a.fill_price zero_dec) value_error _ price (
          Triple-pass Q (less a.gross_amount zero_dec) value_error _ gross (
            Triple-pass Q (less a.net_amount zero_dec) value_error (Fill.add_fill a) net (record {
              at = λ s h. record { found = h.found; total = added s h.total; key = h.key };
            }))))
    where
      added :
          (s : Session)
          → Fill.total_filled_quantity i s ≡ n
          → Fill.total_filled_quantity i (Fill.add_fill a s).1 ≡ n +ℤ a.quantity
      added s h =
          total-append i (Fill.row_of a s.next_real_fill) s.real_fills e
          ∙ ap (λ m. m +ℤ a.quantity) h
