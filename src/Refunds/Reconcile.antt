-- ===== src/Refunds/Reconcile.antt =====
-- The comparison with the gateway: `reconcileRefund` of
-- server/src/modules/refunds/refunds.service.ts.
use gramoz.Common.{ℕ, String, Bool, true, false, Option, none, some, if◌then◌else◌, or_else}
use Prim.Native.String.{◌++◌ as append}
use gramoz.Schema.{Db}
use gramoz.Schema.Enums.{RefundStatus, refund_status_eq}
use gramoz.Schema.Rows.{Payment, Refund}
use gramoz.Tx.{
  Call, Result, ok, err, run_transaction, entity_not_found, invalid_operation, refund_not_found,
  refund_settled, no_gateway_reference,
}
use gramoz.Payments.Gateway.{
  Answer, InquiryStatus, RefundInquiryResult, bank_id_of, query_refund_status,
}
use gramoz.Refunds.Store.{find_refund_by_id, update_refund}
use gramoz.Refunds.Settle.{Decision, ProcessRefundDto, linked_payment}
use gramoz.Refunds.Process.{process_refund}

abbrev pub expected_bank : Option Payment → Option String
expected_bank none = none
expected_bank (some p) = bank_id_of p

abbrev pub expected_tran : Option Payment → Option String
expected_tran none = none
expected_tran (some p) = p.transaction_id

abbrev pub status_text : InquiryStatus → String
status_text InquiryStatus.refunded = "refunded"
status_text InquiryStatus.processing = "processing"
status_text InquiryStatus.cancelled = "cancelled"
status_text InquiryStatus.failed_auth = "failed_auth"
status_text InquiryStatus.invalid_identity = "invalid_identity"
status_text InquiryStatus.unknown_status = "unknown_status"
status_text InquiryStatus.transport_error = "transport_error"

-- What an inquiry that confirms no settlement writes into the refund.
abbrev pub unsettled_status : InquiryStatus → RefundStatus
unsettled_status InquiryStatus.cancelled = RefundStatus.rejected
unsettled_status _ = RefundStatus.processing

abbrev pub unsettled_notes : RefundInquiryResult → String
unsettled_notes i = elim i.status [
  | InquiryStatus.cancelled ↦
      append "Gateway inquiry confirmed cancellation: "
        (or_else i.error_reason "Cancelled by provider/bank")
  | InquiryStatus.processing ↦
      append "Gateway inquiry: still processing with provider/bank ("
        (append (or_else i.bank_tran_id "in-flight") ")")
  | s ↦
      append "Gateway inquiry unresolved ["
        (append (status_text s) (append "]: " (or_else i.error_reason "Unconfirmed settlement")))
]

abbrev pub unsettled_refund : (admin : ℕ) → RefundInquiryResult → Refund → Refund
unsettled_refund admin i r = record r {
  status = unsettled_status i.status;
  admin_notes = some (unsettled_notes i);
  processed_by = some admin;
}

abbrev pub settlement_dto : (ref : String) → RefundInquiryResult → ProcessRefundDto
settlement_dto ref i = record {
  status = Decision.processed;
  gateway_refund_id = some ref;
  admin_notes = some (
      append "Reconciled via gateway inquiry — settlement confirmed (bank_tran_id: " (
        append (or_else i.bank_tran_id "confirmed")
          (append ", refunded_on: " (append (or_else i.refunded_on "confirmed") ")"))));
}

abbrev pub is_refunded : RefundInquiryResult → Bool
is_refunded i = elim i.status [ InquiryStatus.refunded ↦ true | _ ↦ false ]

-- `catch`: a refund that is closed already is given as it is.
unfoldable pub recover : Refund → Result (Option Refund) × Db → Result (Option Refund) × Db
recover r (err (invalid_operation refund_settled), db) =
    (ok (some (or_else (find_refund_by_id r.id db) r)), db)
recover r (result, db) = (result, db)

module _ (gateway : (bank : String) → (amount refund : ℕ) → Answer) (cod_reference manual : String)
    (inquire : (ref : String) → Answer) where
  unfoldable pub apply_inquiry :
      (now admin : ℕ) → Refund → (ref : String) → RefundInquiryResult → Call (Option Refund)
  apply_inquiry now admin r ref i db =
      if is_refunded i
      then recover r
          (process_refund gateway cod_reference manual now admin r.id (settlement_dto ref i) db)
      else run_transaction (update_refund r.id (unsettled_refund admin i)) db

  unfoldable pub reconcile_found : (now admin : ℕ) → Refund → Call (Option Refund)
  reconcile_found now admin r db =
      if refund_status_eq r.status RefundStatus.processed
      then (ok (some r), db)
      else elim r.gateway_refund_id [
        | none ↦ (err (invalid_operation no_gateway_reference), db)
        | some ref ↦
            apply_inquiry now admin r ref
              (query_refund_status inquire ref (expected_bank (linked_payment r db))
                (expected_tran (linked_payment r db)))
              db
      ]

  unfoldable pub reconcile_refund : (now admin refund : ℕ) → Call (Option Refund)
  reconcile_refund now admin refund db = elim (find_refund_by_id refund db) [
    | none ↦ (err (entity_not_found refund_not_found), db)
    | some r ↦ reconcile_found now admin r db
  ]
