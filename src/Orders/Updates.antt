-- ===== src/Orders/Updates.antt =====
-- What `updateOrderStatus` of server/src/modules/orders/orders.service.ts comes to, whatever text it is
-- given.
use gramoz.Common.{
  ℕ, ◌≡◌, refl, ap, sym, ◌∙◌, String, Bool, true, false, Option, none, some, arith, ◌==◌,
  if◌then◌else◌, Bool-cases, Option-cases, inl, inr, ◌⊎◌,
}
use gramoz.Table.{find, update}
use gramoz.Table.Laws.{find_sound, find-update}
use gramoz.Table.Unique.{find-update_apart}
use gramoz.Schema.{Db}
use gramoz.Schema.Enums.{OrderStatus, order_status_eq, order_status_eq_sound}
use gramoz.Schema.Rows.{Order}
use gramoz.Tx.{
  Tx, Result, ok, err, Error, pure, or_throw, run_transaction, entity_not_found, order_not_found,
  invalid_operation, invalid_status,
}
use gramoz.Tx.Post.{bind-inv, or_throw-inv}
use gramoz.Tx.Calls.{run-inv}
use gramoz.Orders.Transitions.{allowed}
use gramoz.Orders.Store.{find_order_by_id, order_id_is, is_cancellable}
use gramoz.Orders.Cancel.{cancel_order_internal}
use gramoz.Orders.Status.{parse_status, move_order, set_status, update_status}
use gramoz.Orders.Lifecycle.{cancel-Moved, cancel_needs, cancel-legal, move_order-orders}

-- The order had the status `t`, or could move to it; it has it now, and the other orders are as they
-- were.
pub record Updated (id : ℕ) (t : OrderStatus) (a b : Db) : Type 0 where
  pub before : Order
  pub found : find_order_by_id id a ≡ some before
  pub legal : (before.status ≡ t) ⊎ (allowed before.status t ≡ true)
  pub after : Order
  pub there : find_order_by_id id b ≡ some after
  pub status : after.status ≡ t
  pub others : (j : ℕ) → (id == j) ≡ false → find_order_by_id j b ≡ find_order_by_id j a

abbrev given_status : OrderStatus → Order → Order
given_status t o = record o { status = t }

moved-Updated :
    (id : ℕ) (t : OrderStatus) (q : Order → Bool) (x : Order) (a b : Db)
    → ((o : Order) → q o ≡ true → (o.id == id) ≡ true)
    → find_order_by_id id a ≡ some x
    → q x ≡ true
    → allowed x.status t ≡ true
    → b.orders ≡ update q (given_status t) a.orders
    → Updated id t a b
moved-Updated id t q x a b only f hit legal w = record {
  before = x;
  found = f;
  legal = inr legal;
  after = given_status t x;
  there =
      ap (find (order_id_is id)) w
      ∙ find-update (order_id_is id) q (given_status t) a.orders (λ o. refl) f hit;
  status = refl;
  others = λ j apart.
      ap (find (order_id_is j)) w
      ∙ find-update_apart (order_id_is j) q (given_status t) a.orders (λ o. refl)
          (λ o h. elim (Bool-cases (q o)) [
            | inl y ↦ ground (arith, only o y, h, apart)
            | inr y ↦ y
          ]);
}

cancelled-Updated :
    (now id : ℕ) (a : Db) {o : Order} {b : Db}
    → cancel_order_internal now id false a ≡ ok (o, b)
    → Updated id OrderStatus.cancelled a b
cancelled-Updated now id a {o} {b} h =
    let (x, f, c, _) = cancel_needs now id false a h in
    let m = cancel-Moved now id false a h in
    moved-Updated id OrderStatus.cancelled (is_cancellable id) x a b m.only f
      (ground (arith, find_sound (order_id_is id) a.orders f, c)) (cancel-legal x.status c) m.orders

kept_or_moved :
    (b : Bool) (id : ℕ) (t : OrderStatus) (x : Order) (a : Db) {o : Order} {after : Db}
    → order_status_eq x.status t ≡ b
    → find_order_by_id id a ≡ some x
    → (if b then pure x else move_order id t x) a ≡ ok (o, after)
    → Updated id t a after
kept_or_moved true id t x a {o} {after} same f h =
    let still : after ≡ a = ground (arith, h) in
    record {
      before = x;
      found = f;
      legal = inl (order_status_eq_sound x.status t same);
      after = x;
      there = ap (find_order_by_id id) still ∙ f;
      status = order_status_eq_sound x.status t same;
      others = λ j apart. ap (find_order_by_id j) still;
    }
kept_or_moved false id t x a {o} {after} same f h =
    let (legal, w) = move_order-orders id t x a h in
    moved-Updated id t (order_id_is id) x a after (λ o e. e) f
      (find_sound (order_id_is id) a.orders f) legal w

set-Updated :
    (id : ℕ) (t : OrderStatus) (a : Db) {o : Order} {b : Db}
    → set_status id t a ≡ ok (o, b)
    → Updated id t a b
unfolding set_status
set-Updated id t a h =
    let (x, mid, found, rest) =
      bind-inv (or_throw (find_order_by_id id a) (entity_not_found order_not_found)) go a h in
    let (f, same) = or_throw-inv (find_order_by_id id a) _ a found in
    kept_or_moved (order_status_eq x.status t) id t x a refl f (ap (go x) same ∙ rest)
  where
    go : Order → Tx Order
    go x = if order_status_eq x.status t then pure x else move_order id t x

abbrev pub UpdateResult : (id : ℕ) (s : String) (a : Db) → Result Order → Db → Type 0
UpdateResult id s a r b =
    ((e : Error) × (r ≡ err e) × (b ≡ a))
    ⊎ ((t : OrderStatus) × (parse_status s ≡ some t) × Updated id t a b)

abbrev dispatch : (now id : ℕ) → Db → Option OrderStatus → Result Order × Db
dispatch now id db none = (err (invalid_operation invalid_status), db)
dispatch now id db (some OrderStatus.cancelled) =
    run_transaction (cancel_order_internal now id false) db
dispatch now id db (some t) = run_transaction (set_status id t) db

run-UpdateResult :
    (id : ℕ) (s : String) (t : OrderStatus) (m : Tx Order) (a : Db) {r : Result Order} {b : Db}
    → parse_status s ≡ some t
    → ((o : Order) (c : Db) → m a ≡ ok (o, c) → Updated id t a c)
    → run_transaction m a ≡ (r, b)
    → UpdateResult id s a r b
run-UpdateResult id s t m a {r} {b} p k h = elim (run-inv m a h) [
  | inl (o, _, e) ↦ inr (t, p, k o b e)
  | inr (same, (e, failed)) ↦ inl (e, failed, same)
]

set_status-UpdateResult :
    (id : ℕ) (s : String) (t : OrderStatus) (a : Db) {r : Result Order} {b : Db}
    → parse_status s ≡ some t
    → run_transaction (set_status id t) a ≡ (r, b)
    → UpdateResult id s a r b
set_status-UpdateResult id s t a p h =
    run-UpdateResult id s t (set_status id t) a p (λ _ _ e. set-Updated id t a e) h

dispatched :
    (now id : ℕ) (s : String) (t : OrderStatus) (a : Db) {r : Result Order} {b : Db}
    → parse_status s ≡ some t
    → dispatch now id a (some t) ≡ (r, b)
    → UpdateResult id s a r b
dispatched now id s OrderStatus.cancelled a p h =
    run-UpdateResult id s OrderStatus.cancelled (cancel_order_internal now id false) a p
      (λ _ _ e. cancelled-Updated now id a e) h
dispatched now id s OrderStatus.pending a p h =
    set_status-UpdateResult id s OrderStatus.pending a p h
dispatched now id s OrderStatus.processing a p h =
    set_status-UpdateResult id s OrderStatus.processing a p h
dispatched now id s OrderStatus.shipped a p h =
    set_status-UpdateResult id s OrderStatus.shipped a p h
dispatched now id s OrderStatus.out_for_delivery a p h =
    set_status-UpdateResult id s OrderStatus.out_for_delivery a p h
dispatched now id s OrderStatus.delivered a p h =
    set_status-UpdateResult id s OrderStatus.delivered a p h
dispatched now id s OrderStatus.refunded a p h =
    set_status-UpdateResult id s OrderStatus.refunded a p h

-- Whatever text it is given, `updateOrderStatus` either fails and leaves the whole database as it was,
-- or the text names a status that the order had already or may move to, the order has it afterwards,
-- and the rows of the other orders are as they were.
pub update_is_all_or_nothing :
    (now id : ℕ) (s : String) (a b : Db) (r : Result Order)
    → update_status now id s a ≡ (r, b)
    → UpdateResult id s a r b
unfolding update_status
update_is_all_or_nothing now id s a b r h = elim (Option-cases (parse_status s)) [
  | inl n ↦
      let refused : dispatch now id a none ≡ (r, b) = sym (ap (dispatch now id a) n) ∙ h in
      inl
        (invalid_operation invalid_status, sym (ap (λ x. x.0) refused), sym (ap (λ x. x.1) refused))
  | inr (t, p) ↦ dispatched now id s t a p (sym (ap (dispatch now id a) p) ∙ h)
]
