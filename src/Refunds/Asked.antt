-- ===== src/Refunds/Asked.antt =====
-- What a refund request is checked for: `requestRefund` of
-- server/src/modules/refunds/refunds.service.ts.
use gramoz.Common.{ℕ, ◌≡◌, ◌≤◌, none, some, ◌∷◌}
use gramoz.Schema.{Db}
use gramoz.Schema.Enums.{OrderStatus}
use gramoz.Schema.Rows.{Order, Refund}
use gramoz.Orders.Store.{find_order_by_id}
use gramoz.Refunds.Store.{find_active_refund, find_completed_payment}
use gramoz.Refunds.Request.{RequestRefundDto, requested_refund}

-- An order of the customer that may be refunded, and the request that is written.
pub record Accepted (id user : ℕ) (dto : RequestRefundDto) (a : Db) (r : Refund) (b : Db)
    : Type 0 where
  pub order : Order
  pub there : find_order_by_id dto.order_id a ≡ some order
  pub own : order.user_id ≡ user
  pub delivered : order.status ≡ OrderStatus.delivered
  pub within : r.amount ≤ order.total_amount
  pub first : find_active_refund dto.order_id a ≡ none
  pub requested : r ≡ requested_refund id user r.amount dto (find_completed_payment dto.order_id a)
  pub writes : b ≡ record a { refunds = r ∷ a.refunds }
