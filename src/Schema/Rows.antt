-- ===== src/Schema/Rows.antt =====
-- The rows of the tables in server/src/database/schema. An id stands for a uuid, a time is a
-- number of milliseconds, and a decimal(10, 2) is its number of hundredths. Columns that no
-- modelled code reads (titles, images, row ids of the two ledgers, updated_at where it is only
-- written) are left out.
use gramoz.Common.{ℕ, String, Bool, Option, List}
use gramoz.Common.Int.{ℤ}
use gramoz.Schema.Enums.{
  OrderStatus, OrderPaymentStatus, PaymentStatus, TransactionType, PointTransactionType,
  DiscountType, DeliveryMethod, IdempotencyStatus, RefundStatus, RefundReason,
}

pub record Order : Type 0 where
  pub id : ℕ
  pub user_id : ℕ
  pub status : OrderStatus
  pub payment_status : OrderPaymentStatus
  pub total_amount : ℕ
  pub delivery_charge : ℕ
  pub delivery_method : DeliveryMethod
  pub shipping_address_id : ℕ
  pub promo_id : Option ℕ
  pub discount_amount : ℕ
  pub idempotency_key : Option String
  pub created_at : ℕ

pub record OrderItem : Type 0 where
  pub order_id : ℕ
  pub product_id : ℕ
  pub variant_id : Option ℕ
  pub quantity : ℕ
  pub unit_price : ℕ

pub record Product : Type 0 where
  pub id : ℕ
  pub name : String
  pub price : ℕ
  pub stock : ℕ
  pub status : String

pub record ProductVariant : Type 0 where
  pub id : ℕ
  pub product_id : ℕ
  pub price : ℕ
  pub stock : ℕ

pub record Promo : Type 0 where
  pub id : ℕ
  pub code : String
  pub discount_type : DiscountType
  pub discount_value : ℕ
  pub min_order_value : Option ℕ
  pub max_uses : Option ℕ
  pub current_uses : ℕ
  pub expires_at : Option ℕ
  pub is_active : Bool

pub record LoyaltyPoint : Type 0 where
  pub user_id : ℕ
  pub points : ℤ
  pub point_type : PointTransactionType
  pub reference_id : Option ℕ
  pub valid_until : Option ℕ

-- The fields of `gateway_response` that are read again.
pub record GatewayResponse : Type 0 where
  pub bank_tran_id : Option String
  pub val_id : Option String

pub record Payment : Type 0 where
  pub id : ℕ
  pub order_id : ℕ
  pub amount : ℕ
  pub status : PaymentStatus
  pub method : Option String
  pub transaction_id : Option String
  pub gateway_response : Option GatewayResponse
  pub created_at : ℕ
  pub updated_at : ℕ

pub record InventoryTransaction : Type 0 where
  pub product_id : ℕ
  pub transaction_type : TransactionType
  pub quantity : ℕ
  pub reference_id : Option ℕ

pub record CartItem : Type 0 where
  pub id : ℕ
  pub user_id : ℕ
  pub product_id : ℕ
  pub variant_id : Option ℕ
  pub quantity : ℕ
  pub abandoned_email_sent : Bool

pub record Refund : Type 0 where
  pub id : ℕ
  pub order_id : ℕ
  pub payment_id : Option ℕ
  pub requested_by : ℕ
  pub processed_by : Option ℕ
  pub amount : ℕ
  pub reason : RefundReason
  pub status : RefundStatus
  pub admin_notes : Option String
  pub gateway_refund_id : Option String

pub record IdempotencyKey : Type 0 where
  pub id : ℕ
  pub user_id : ℕ
  pub key : String
  pub request_hash : String
  pub status : IdempotencyStatus
  pub order_id : Option ℕ
  pub expires_at : ℕ

pub record Address : Type 0 where
  pub id : ℕ
  pub user_id : ℕ
  pub address_line1 : String
  pub city : String
  pub latitude : Option String
  pub longitude : Option String
  pub zone_id : Option ℕ
  pub is_default : Bool

pub record Zone : Type 0 where
  pub id : ℕ
  pub home_delivery_charge : ℕ
  pub branch_pickup_charge : ℕ

pub record User : Type 0 where
  pub id : ℕ
  pub email : String
  pub full_name : String
  pub phone : Option String

-- What the handlers write into `outbox_events`: the type with its payload.
pub data SmsType : Type 0 where
  shipped delivered cancelled : SmsType

pub record EmailItem : Type 0 where
  pub product_name : String
  pub quantity : ℕ
  pub unit_price : ℕ

pub data OutboxPayload : Type 0 where
  create_consignment : (order_id : ℕ) → OutboxPayload
  send_order_confirmation :
      (email full_name : String) (order_id : ℕ) (items : List EmailItem) (total : ℕ) → OutboxPayload
  send_low_stock_alert : (product_ids : List ℕ) → OutboxPayload
  send_sms : (sms : SmsType) (phone : String) (order_id : ℕ) → OutboxPayload
  refund_required : (order_id user_id amount : ℕ) → OutboxPayload
  reconciliation_required :
      (order_id payment_id amount : ℕ) (transaction_id : String) → OutboxPayload
