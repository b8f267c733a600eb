-- ===== src/Refunds/Process.antt =====
-- An administrator's decision: `processRefund` of server/src/modules/refunds/refunds.service.ts.
use gramoz.Common.{
  ℕ, String, Bool, true, false, not, ◌&&◌, Option, none, some, if◌then◌else◌, or_else, is_some,
}
use Prim.Native.String.{◌++◌ as append}
use gramoz.Schema.{Db}
use gramoz.Schema.Enums.{PaymentStatus, RefundStatus, payment_status_eq}
use gramoz.Schema.Rows.{Payment, Refund}
use gramoz.Tx.{
  Tx, Call, Result, ok, err, pure, read, throw_if, or_throw, ◌>>=◌, ◌>>◌, ◌>>>◌, run_transaction,
  entity_not_found, invalid_operation, refund_not_found, refund_settled, refund_in_flight,
  cod_reference_missing, refund_rejected_by_provider,
}
use gramoz.Payments.Text.{is_cod_method}
use gramoz.Payments.Gateway.{
  Answer, RefundInitiationResult, InitiationStatus, initiate_refund, either,
}
use gramoz.Refunds.Store.{find_refund_by_id, update_refund}
use gramoz.Refunds.Settle.{
  Decision, ProcessRefundDto, is_closed, is_in_flight, linked_payment, settle_refund,
}

-- The checks on the row as it is read first.
unfoldable pub find_open_refund : (refund : ℕ) → ProcessRefundDto → Tx Refund
find_open_refund refund dto = do
  existing ← or_throw (← read (find_refund_by_id refund)) (entity_not_found refund_not_found)
  throw_if (is_closed existing) (invalid_operation refund_settled)
  throw_if (is_in_flight existing && not (is_some dto.gateway_refund_id))
      (invalid_operation refund_in_flight)
  pure existing

abbrev pub decided_status : Decision → RefundStatus
decided_status Decision.approved = RefundStatus.approved
decided_status Decision.processing = RefundStatus.processing
decided_status Decision.processed = RefundStatus.processed
decided_status Decision.rejected = RefundStatus.rejected

-- A field that is undefined is not set.
abbrev pub decided_refund : (admin : ℕ) → ProcessRefundDto → (locked : Refund) → Refund → Refund
decided_refund admin dto locked r = record r {
  status = decided_status dto.status;
  admin_notes = either dto.admin_notes r.admin_notes;
  gateway_refund_id = either dto.gateway_refund_id locked.gateway_refund_id;
  processed_by = some admin;
}

-- The transaction for `approved` and `rejected`.
unfoldable pub decide_refund :
    (admin : ℕ) → ProcessRefundDto → (existing : Refund) → Tx (Option Refund)
decide_refund admin dto existing = do
  locked ← or_throw (← read (find_refund_by_id existing.id)) (entity_not_found refund_not_found)
  throw_if (is_closed locked) (invalid_operation refund_settled)
  update_refund existing.id (decided_refund admin dto locked)

-- `payment && payment.status === 'completed' && payment.method?.toUpperCase() !== 'COD'`
abbrev pub is_online : Option Payment → Bool
is_online none = false
is_online (some p) =
    payment_status_eq p.status PaymentStatus.completed && not (is_cod_method p.method)

abbrev pub claim_notes : Option String → String
claim_notes none = "In-flight gateway claim"
claim_notes (some n) = append n " [In-flight gateway claim]"

abbrev pub claimed_refund : (admin : ℕ) → ProcessRefundDto → Refund → Refund
claimed_refund admin dto r = record r {
  status = RefundStatus.processing;
  admin_notes = some (claim_notes dto.admin_notes);
  processed_by = some admin;
}

-- The transaction that claims the refund before the gateway is called.
unfoldable pub claim_refund : (admin : ℕ) → ProcessRefundDto → (refund : ℕ) → Tx (Option Refund)
claim_refund admin dto refund = do
  locked ← or_throw (← read (find_refund_by_id refund)) (entity_not_found refund_not_found)
  throw_if (is_closed locked) (invalid_operation refund_settled)
  throw_if (is_in_flight locked) (invalid_operation refund_in_flight)
  update_refund refund (claimed_refund admin dto)

-- What the gateway's result writes into the refund.
abbrev pub initiated_refund : (admin : ℕ) → RefundInitiationResult → Refund → Refund
initiated_refund admin result r = elim result.status [
  | InitiationStatus.failed ↦ record r {
    status = RefundStatus.rejected;
    admin_notes = some (
        append "Gateway refund rejected by provider: "
          (or_else result.error_reason "Unknown error"));
    processed_by = some admin;
  }
  | _ ↦ record r {
    status = RefundStatus.processing;
    gateway_refund_id = either result.refund_ref_id r.gateway_refund_id;
    admin_notes = some (
        append "Gateway refund initiated successfully (ref: " (
          append (or_else result.refund_ref_id "N/A")
            "). Pending authoritative settlement confirmation."));
    processed_by = some admin;
  }
]

abbrev pub is_failure : RefundInitiationResult → Bool
is_failure result = elim result.status [ InitiationStatus.failed ↦ true | _ ↦ false ]

unfoldable pub after_record : RefundInitiationResult → Option Refund → Call (Option Refund)
after_record result row db =
    if is_failure result
    then (err (invalid_operation refund_rejected_by_provider), db)
    else (ok row, db)

unfoldable pub record_initiation :
    (admin refund : ℕ) → RefundInitiationResult → Call (Option Refund)
record_initiation admin refund result =
    run_transaction (update_refund refund (initiated_refund admin result)) >>> after_record result

-- A refusal of `initiateRefund` counts as a refund in progress.
abbrev pub caught : Result (RefundInitiationResult × Db) → RefundInitiationResult
caught (ok r) = r.0
caught (err e) = record {
  success = false;
  status = InitiationStatus.processing;
  refund_ref_id = none;
  bank_tran_id = none;
  error_reason = some "Provider exception";
}

-- `gatewayRefundId` as it is before any call; `manual` is the text COD-MANUAL- with the refund's id.
abbrev pub reference_for :
    (manual : String) → ProcessRefundDto → Refund → (online : Bool) → Option String
reference_for manual dto existing online =
    let given = either dto.gateway_refund_id existing.gateway_refund_id in
    elim dto.status [
      | Decision.processed ↦ if online then given else either given (some manual)
      | _ ↦ given
    ]

abbrev pub pays_out : ProcessRefundDto → Bool
pays_out dto = elim dto.status [ Decision.processed ↦ true | _ ↦ false ]

abbrev pub decides : ProcessRefundDto → Bool
decides dto = elim dto.status [ Decision.approved ↦ true | Decision.rejected ↦ true | _ ↦ false ]

abbrev pub lacks_reference : ProcessRefundDto → Bool
lacks_reference dto = not (is_some dto.gateway_refund_id) && not (is_some dto.admin_notes)

module _ (gateway : (bank : String) → (amount refund : ℕ) → Answer)
    (cod_reference manual : String) where
  -- The call outside the transaction, and what it is recorded as.
  unfoldable pub call_gateway :
      (admin : ℕ) → Refund → Payment → Option Refund → Call (Option Refund)
  call_gateway admin existing p claimed db =
      record_initiation admin existing.id
        (caught (initiate_refund gateway cod_reference p.id existing.amount existing.id db)) db

  unfoldable pub start_refund :
      (admin : ℕ) → ProcessRefundDto → Refund → Payment → Call (Option Refund)
  start_refund admin dto existing p =
      run_transaction (claim_refund admin dto existing.id) >>> call_gateway admin existing p

  unfoldable pub pay_out :
      (now admin : ℕ) → ProcessRefundDto → Refund → Option Payment → Call (Option Refund)
  pay_out now admin dto existing none db =
      if pays_out dto && lacks_reference dto
      then (err (invalid_operation cod_reference_missing), db)
      else run_transaction
          (settle_refund now admin dto (reference_for manual dto existing false) existing) db
  pay_out now admin dto existing (some p) db =
      let online = is_online (some p) in
      if not online && (pays_out dto && lacks_reference dto)
      then (err (invalid_operation cod_reference_missing), db)
      else if online && (pays_out dto && not (is_some (reference_for manual dto existing true)))
      then start_refund admin dto existing p db
      else run_transaction
          (settle_refund now admin dto (reference_for manual dto existing online) existing) db

  unfoldable pub process_open :
      (now admin : ℕ) → ProcessRefundDto → (existing : Refund) → Call (Option Refund)
  process_open now admin dto existing db =
      if decides dto
      then run_transaction (decide_refund admin dto existing) db
      else pay_out now admin dto existing (linked_payment existing db) db

  unfoldable pub process_refund : (now admin refund : ℕ) → ProcessRefundDto → Call (Option Refund)
  process_refund now admin refund dto =
      run_transaction (find_open_refund refund dto) >>> process_open now admin dto
