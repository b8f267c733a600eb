-- ===== src/Schema/Enums.antt =====
-- The enumerations of server/src/database/schema/enums.ts and of the tables beside it, with the
-- comparisons (`===`, `includes`, `eq`) that the services make.
use gramoz.Common.{
  ◌≡◌, refl, ap, sym, ◌∙◌, ==_iff, ℕ, Bool, true, false, List, [], ◌∷◌, ◌==◌, if◌then◌else◌,
}

pub data OrderStatus : Type 0 where
  pending processing shipped out_for_delivery delivered cancelled refunded : OrderStatus

pub data OrderPaymentStatus : Type 0 where
  unpaid initiated paid refunded failed : OrderPaymentStatus

pub data PaymentStatus : Type 0 where
  pending completed failed refunded : PaymentStatus

-- `in` is a reserved word.
pub data TransactionType : Type 0 where
  inward outward : TransactionType

pub data PointTransactionType : Type 0 where
  earned_review_text earned_review_media spent_checkout expired admin_adjustment :
      PointTransactionType

pub data DiscountType : Type 0 where
  percentage fixed : DiscountType

pub data DeliveryMethod : Type 0 where
  home branch : DeliveryMethod

pub data OutboxStatus : Type 0 where
  pending processing completed failed : OutboxStatus

pub data RefundStatus : Type 0 where
  requested approved processing processed rejected : RefundStatus

pub data RefundReason : Type 0 where
  damaged_item wrong_item not_received quality_issue changed_mind other : RefundReason

pub data IdempotencyStatus : Type 0 where
  started completed failed : IdempotencyStatus

abbrev order_status_code : OrderStatus → ℕ
order_status_code OrderStatus.pending = 0
order_status_code OrderStatus.processing = 1
order_status_code OrderStatus.shipped = 2
order_status_code OrderStatus.out_for_delivery = 3
order_status_code OrderStatus.delivered = 4
order_status_code OrderStatus.cancelled = 5
order_status_code OrderStatus.refunded = 6

abbrev pub order_status_eq : OrderStatus → OrderStatus → Bool
order_status_eq s t = order_status_code s == order_status_code t

abbrev order_status_of : ℕ → OrderStatus
order_status_of n =
    if n == 0
    then OrderStatus.pending
    else if n == 1
    then OrderStatus.processing
    else if n == 2
    then OrderStatus.shipped
    else if n == 3
    then OrderStatus.out_for_delivery
    else if n == 4
    then OrderStatus.delivered
    else if n == 5
    then OrderStatus.cancelled
    else OrderStatus.refunded

order_status_of-code : (s : OrderStatus) → order_status_of (order_status_code s) ≡ s
order_status_of-code OrderStatus.pending = refl
order_status_of-code OrderStatus.processing = refl
order_status_of-code OrderStatus.shipped = refl
order_status_of-code OrderStatus.out_for_delivery = refl
order_status_of-code OrderStatus.delivered = refl
order_status_of-code OrderStatus.cancelled = refl
order_status_of-code OrderStatus.refunded = refl

pub order_status_eq_sound : (s t : OrderStatus) → order_status_eq s t ≡ true → s ≡ t
order_status_eq_sound s t h =
    sym (order_status_of-code s)
    ∙ ap order_status_of ((==_iff (order_status_code s) (order_status_code t)).0 h)
    ∙ order_status_of-code t

-- `statuses.includes(s)`
abbrev pub includes : List OrderStatus → OrderStatus → Bool
includes [] s = false
includes (t ∷ ts) s = if order_status_eq t s then true else includes ts s

abbrev payment_code : OrderPaymentStatus → ℕ
payment_code OrderPaymentStatus.unpaid = 0
payment_code OrderPaymentStatus.initiated = 1
payment_code OrderPaymentStatus.paid = 2
payment_code OrderPaymentStatus.refunded = 3
payment_code OrderPaymentStatus.failed = 4

abbrev pub order_payment_eq : OrderPaymentStatus → OrderPaymentStatus → Bool
order_payment_eq s t = payment_code s == payment_code t

abbrev point_type_code : PointTransactionType → ℕ
point_type_code earned_review_text = 0
point_type_code earned_review_media = 1
point_type_code spent_checkout = 2
point_type_code expired = 3
point_type_code admin_adjustment = 4

abbrev pub point_type_eq : PointTransactionType → PointTransactionType → Bool
point_type_eq s t = point_type_code s == point_type_code t

abbrev pub payment_is_pending : PaymentStatus → Bool
payment_is_pending PaymentStatus.pending = true
payment_is_pending _ = false

abbrev outbox_code : OutboxStatus → ℕ
outbox_code OutboxStatus.pending = 0
outbox_code OutboxStatus.processing = 1
outbox_code OutboxStatus.completed = 2
outbox_code OutboxStatus.failed = 3

abbrev pub outbox_status_eq : OutboxStatus → OutboxStatus → Bool
outbox_status_eq s t = outbox_code s == outbox_code t

abbrev payment_status_code : PaymentStatus → ℕ
payment_status_code PaymentStatus.pending = 0
payment_status_code PaymentStatus.completed = 1
payment_status_code PaymentStatus.failed = 2
payment_status_code PaymentStatus.refunded = 3

abbrev pub payment_status_eq : PaymentStatus → PaymentStatus → Bool
payment_status_eq s t = payment_status_code s == payment_status_code t

abbrev refund_code : RefundStatus → ℕ
refund_code RefundStatus.requested = 0
refund_code RefundStatus.approved = 1
refund_code RefundStatus.processing = 2
refund_code RefundStatus.processed = 3
refund_code RefundStatus.rejected = 4

abbrev pub refund_status_eq : RefundStatus → RefundStatus → Bool
refund_status_eq s t = refund_code s == refund_code t
