-- ===== src/Orders/Checkout/Prepared.antt =====
-- What steps 3 to 6 of a checkout prepare: the draft's order, and nothing but addresses changes.
use gramoz.Common.{
  ℕ, ◌-◌, Option-cases, inl, inr, ◌≡◌, refl, ◌∙◌, sym, subst, String, Bool, true, false, not,
  Option, none, some, List, arith, length, ◌==◌,
}
use gramoz.Table.{find}
use gramoz.Schema.{Db}
use gramoz.Schema.Enums.{OrderStatus, OrderPaymentStatus}
use gramoz.Schema.Rows.{User}
use gramoz.Tx.{
  Tx, pure, throw_if, ◌>>=◌, ◌>>◌, invalid_operation, insufficient_stock_error, cart_empty,
  insufficient_stock,
}
use gramoz.Tx.Post.{Post, Post-bind, Post-weaken, Post-throw_if}
use gramoz.Promos.{validate, has_code, PromoResult}
use gramoz.Orders.Goods.{SameGoods}
use gramoz.Orders.Store.{get_user_basic_info}
use gramoz.Orders.Checkout.Lines.{
  Line, get_cart_items_with_products, all_covered, sort_lines, subtotal,
}
use gramoz.Orders.Checkout.Pricing.{Totals, apply_promo, apply_points}
use gramoz.Orders.Checkout.Input.{Host, Request, trimmed_key, non_empty}
use gramoz.Orders.Checkout.{
  Draft, quote_order, delivery_charge, resolve_address, order_row, draft_order, prepare_order,
}

-- What the preparation finds out, and that it touches only addresses.
pub record Prepared (h : Host) (r : Request) (db : Db) (d : Draft) (mid : Db) : Type 0 where
  pub same : SameGoods db mid
  pub lines : d.lines ≡ sort_lines h.before (get_cart_items_with_products r.user_id db)
  pub id : d.order.id ≡ r.new_order
  pub owner : d.order.user_id ≡ r.user_id
  pub status : d.order.status ≡ OrderStatus.pending
  pub payment : d.order.payment_status ≡ OrderPaymentStatus.unpaid
  pub key : d.order.idempotency_key ≡ trimmed_key h r

validate-same :
    (up : String → String) (now : ℕ) (code : String) (n : ℕ) (db : Db)
    → Post (λ _ mid. mid ≡ db) (validate up now code n db)
unfolding validate
validate-same up now code n db = elim (Option-cases (find (has_code (up code)) db.promos)) [
  | inl e ↦ rw (e, validate) tt
  | inr (p, e) ↦ rw (e, validate) (ground arith)
]

apply_promo-same :
    (up : String → String) (now : ℕ) (code : Option String) (n : ℕ) (db : Db)
    → Post (λ _ mid. mid ≡ db) (apply_promo up now code n db)
unfolding apply_promo
apply_promo-same up now none n db = refl
apply_promo-same up now (some c) n db =
    Post-bind (λ _ mid. mid ≡ db) (λ _ mid. mid ≡ db) (validate up now c n) (λ p. promoted p) db
      (validate-same up now c n db) λ _ mid e. e
  where
    promoted : PromoResult → Tx Totals
    promoted p = pure (record {
      total = n - p.discount_amount;
      discount = p.discount_amount;
      promo = some p.promo_id;
      points_spent = 0;
    })

apply_points-same :
    (now ratio user : ℕ) (wanted : Bool) (t : Totals) (db : Db)
    → Post (λ _ mid. mid ≡ db) (apply_points now ratio user wanted t db)
unfolding apply_points
apply_points-same now ratio user true t db = refl
apply_points-same now ratio user false t db = refl

quote_order-same :
    (h : Host) (r : Request) (ls : List Line) (db : Db)
    → Post (λ _ mid. mid ≡ db) (quote_order h r ls db)
unfolding quote_order
quote_order-same h r ls db =
    Post-bind (λ _ mid. mid ≡ db) (λ _ mid. mid ≡ db)
      (apply_promo h.to_upper r.now (non_empty r.dto.promo_code) (subtotal ls))
      (apply_points r.now r.ratio r.user_id r.dto.use_points) db
      (apply_promo-same h.to_upper r.now (non_empty r.dto.promo_code) (subtotal ls) db)
      λ t mid e.
        Post-weaken (λ _ end. end ≡ mid) (λ _ end. end ≡ db) _
          (apply_points-same r.now r.ratio r.user_id r.dto.use_points t mid) λ _ end e'. e' ∙ e

delivery_charge-same :
    (r : Request) (c : Option ℕ) (n : ℕ) (db : Db)
    → Post (λ _ mid. mid ≡ db) (delivery_charge r.dto c n db)
unfolding delivery_charge
delivery_charge-same r c n db = ground arith

resolve_address-SameGoods :
    (r : Request) (db : Db) → Post (λ _ mid. SameGoods db mid) (resolve_address r db)
unfolding resolve_address
resolve_address-SameGoods r db = ground arith

draft_order-Prepared :
    (h : Host) (r : Request) (c : Option ℕ) (u : Option User) (ls : List Line) (db : Db)
    → ls ≡ sort_lines h.before (get_cart_items_with_products r.user_id db)
    → Post (λ d mid. Prepared h r db d mid) (draft_order h r c ls u db)
unfolding draft_order
draft_order-Prepared h r c u ls db e =
    Post-bind (λ _ mid. mid ≡ db) (λ d mid. Prepared h r db d mid) (quote_order h r ls) charging db
      (quote_order-same h r ls db)
      λ t start e₀.
        Post-bind (λ _ mid. mid ≡ start) (λ d mid. Prepared h r db d mid)
          (delivery_charge r.dto c (length ls)) (locating t) start
          (delivery_charge-same r c (length ls) start)
          λ n mid e₁.
            Post-bind (λ _ end. SameGoods mid end) (λ d end. Prepared h r db d end)
              (resolve_address r) (λ a. pure (drafted t n a)) mid (resolve_address-SameGoods r mid)
              λ a end s. record {
                same = subst (λ x. SameGoods x end) (e₁ ∙ e₀) s;
                lines = e;
                id = refl;
                owner = refl;
                status = refl;
                payment = refl;
                key = refl;
              }
  where
    drafted : Totals → ℕ → ℕ → Draft
    drafted t n a = record {
      lines = ls;
      user = u;
      totals = t;
      order = order_row r (trimmed_key h r) a n t;
    }

    locating : Totals → ℕ → Tx Draft
    locating t n = resolve_address r >>= λ a. pure (drafted t n a)

    charging : Totals → Tx Draft
    charging t = delivery_charge r.dto c (length ls) >>= locating t

pub prepare_order-Prepared :
    (h : Host) (r : Request) (c : Option ℕ) (db : Db)
    → Post (λ d mid. Prepared h r db d mid) (prepare_order h r c db)
unfolding prepare_order
prepare_order-Prepared h r c db =
    Post-bind (λ _ mid. mid ≡ db) Goal (throw_if (length items == 0) (invalid_operation cart_empty))
      (λ _. covering) db
      (Post-throw_if (λ _ mid. mid ≡ db) (length items == 0) (invalid_operation cart_empty) db
        λ _. refl)
      λ _ start e₀.
        Post-bind (λ _ mid. mid ≡ start) Goal
          (throw_if (not (all_covered items)) (insufficient_stock_error insufficient_stock))
          (λ _. drafting) start
          (Post-throw_if (λ _ mid. mid ≡ start) (not (all_covered items))
            (insufficient_stock_error insufficient_stock) start λ _. refl)
          λ _ mid e₁.
            subst (λ m. Post Goal (drafting m)) (sym (e₁ ∙ e₀))
              (draft_order-Prepared h r c (get_user_basic_info r.user_id db)
                (sort_lines h.before items) db refl)
  where
    items : List Line
    items = get_cart_items_with_products r.user_id db

    Goal : Draft → Db → Type 0
    Goal d mid = Prepared h r db d mid

    drafting : Tx Draft
    drafting = draft_order h r c (sort_lines h.before items) (get_user_basic_info r.user_id db)

    covering : Tx Draft
    covering =
        throw_if (not (all_covered items)) (insufficient_stock_error insufficient_stock) >> drafting
