-- ===== src/Payments/Gateway.antt =====
-- Refunds at the gateway: `initiateRefund` and `queryRefundStatus` of
-- server/src/modules/payments/payments.service.ts. The gateway's answers are parameters; a field of
-- an answer that is missing or empty is `none`.
use gramoz.Common.{
  ℕ, String, Bool, true, false, not, ◌||◌, Option, none, some, ltb, ◌==◌, if◌then◌else◌, str_eq,
  or_else,
}
use Prim.Native.String.{◌++◌ as append}
use gramoz.Schema.Enums.{PaymentStatus, payment_status_eq}
use gramoz.Schema.Rows.{Payment}
use gramoz.Tx.{
  Tx, pure, read, throw_if, or_throw, ◌>>=◌, ◌>>◌, entity_not_found, invalid_operation,
  payment_not_found, payment_not_completed, refund_amount_invalid, bank_id_missing,
}
use gramoz.Payments.Store.{find_payment_by_id}
use gramoz.Payments.Text.{is_cod_method}

pub data InitiationStatus : Type 0 where
  initiated processing failed : InitiationStatus

pub record RefundInitiationResult : Type 0 where
  pub success : Bool
  pub status : InitiationStatus
  pub refund_ref_id : Option String
  pub bank_tran_id : Option String
  pub error_reason : Option String

-- The body of an answer, to an initiation and to an inquiry.
pub record RefundAnswer : Type 0 where
  pub api_connect : Option String
  pub status : Option String
  pub refund_ref_id : Option String
  pub bank_tran_id : Option String
  pub tran_id : Option String
  pub refunded_on : Option String
  pub error_reason : Option String
  pub failedreason : Option String

-- No answer, an error status, or a body.
pub data Answer : Type 0 where
  timed_out : (message : String) → Answer
  http_status : (code : String) → Answer
  answered : RefundAnswer → Answer

-- `a || b` on texts that may be missing
abbrev pub either : Option String → Option String → Option String
either none b = b
either (some a) b = some a

-- `a && a !== b`
abbrev pub differs : Option String → Option String → Bool
differs none b = false
differs (some a) none = true
differs (some a) (some b) = not (str_eq a b)

abbrev pub text_is : String → Option String → Bool
text_is t none = false
text_is t (some s) = str_eq s t

-- `gatewayResp.bank_tran_id || gatewayResp.val_id || payment.transactionId`
unfoldable pub bank_id_of : Payment → Option String
bank_id_of p = elim p.gateway_response [
  | none ↦ p.transaction_id
  | some r ↦ either r.bank_tran_id (either r.val_id p.transaction_id)
]

abbrev initiation_failed : (bank : String) → Option String → RefundInitiationResult
initiation_failed bank reason = record {
  success = false;
  status = failed;
  refund_ref_id = none;
  bank_tran_id = some bank;
  error_reason = reason;
}

abbrev unconfirmed : (bank : String) → (reason : String) → RefundInitiationResult
unconfirmed bank reason = record {
  success = false;
  status = processing;
  refund_ref_id = none;
  bank_tran_id = some bank;
  error_reason = some reason;
}

-- `a ? ` - ${a}` : ''`
abbrev dashed : Option String → String
dashed none = ""
dashed (some s) = append " - " s

unfoldable pub read_initiation_body : (bank : String) → RefundAnswer → RefundInitiationResult
read_initiation_body bank d =
    if not (text_is "DONE" d.api_connect)
    then initiation_failed bank (
        some (
          append "Provider connection or authentication failed: APIConnect="
            (append (or_else d.api_connect "UNKNOWN") (dashed d.error_reason))))
    else if differs d.bank_tran_id (some bank)
    then initiation_failed bank (
        some (
          append "Bank transaction ID mismatch: expected "
            (append bank (append ", got " (or_else d.bank_tran_id "")))))
    else if text_is "success" d.status
    then (elim d.refund_ref_id [
      | none ↦ initiation_failed bank (some "Gateway indicated success but omitted refund_ref_id")
      | some ref ↦ record {
        success = true;
        status = initiated;
        refund_ref_id = some ref;
        bank_tran_id = either d.bank_tran_id (some bank);
        error_reason = none;
      }
    ])
    else if text_is "processing" d.status
    then record {
      success = true;
      status = processing;
      refund_ref_id = d.refund_ref_id;
      bank_tran_id = either d.bank_tran_id (some bank);
      error_reason = none;
    }
    else initiation_failed bank
        (either d.error_reason (either d.failedreason (some "Gateway rejected refund initiation")))

unfoldable pub read_initiation : (bank : String) → Answer → RefundInitiationResult
read_initiation bank (timed_out m) =
    unconfirmed bank (append "Provider timeout or network error: " m)
read_initiation bank (http_status c) = unconfirmed bank (append "Gateway returned HTTP status " c)
read_initiation bank (answered d) = read_initiation_body bank d

-- What the gateway is asked: the bank's transaction, the amount and the refund.
unfoldable pub refund_payment :
    (gateway : (bank : String) → (amount refund : ℕ) → Answer)
    → (cod_reference : String) → (amount refund : ℕ) → Payment
    → Tx RefundInitiationResult
refund_payment gateway cod_reference amount refund p = do
  throw_if (not (payment_status_eq p.status PaymentStatus.completed))
      (invalid_operation payment_not_completed)
  throw_if (amount == 0 || ltb p.amount amount) (invalid_operation refund_amount_invalid)
  if is_cod_method p.method
      then pure (record {
        success = true;
        status = initiated;
        refund_ref_id = some cod_reference;
        bank_tran_id = none;
        error_reason = none;
      })
      else (or_throw (bank_id_of p) (invalid_operation bank_id_missing) >>= λ bank.
          pure (read_initiation bank (gateway bank amount refund)))

-- `cod_reference` is the text COD-REFUND- with the refund's id.
unfoldable pub initiate_refund :
    (gateway : (bank : String) → (amount refund : ℕ) → Answer)
    → (cod_reference : String) → (payment amount refund : ℕ) → Tx RefundInitiationResult
initiate_refund gateway cod_reference payment amount refund =
    read (find_payment_by_id payment)
    >>= (λ row. or_throw row (entity_not_found payment_not_found))
    >>= refund_payment gateway cod_reference amount refund

pub data InquiryStatus : Type 0 where
  refunded processing cancelled failed_auth invalid_identity unknown_status transport_error :
      InquiryStatus

pub record RefundInquiryResult : Type 0 where
  pub success : Bool
  pub status : InquiryStatus
  pub refund_ref_id : String
  pub bank_tran_id : Option String
  pub tran_id : Option String
  pub refunded_on : Option String
  pub error_reason : Option String

abbrev inquiry :
    Bool → InquiryStatus → (ref : String) → (bank tran reason : Option String) → RefundInquiryResult
inquiry success status ref bank tran reason = record {
  success = success;
  status = status;
  refund_ref_id = ref;
  bank_tran_id = bank;
  tran_id = tran;
  refunded_on = none;
  error_reason = reason;
}

-- `expected && actual && actual !== expected`
abbrev pub contradicts : (expected actual : Option String) → Bool
contradicts none actual = false
contradicts (some e) actual = differs actual (some e)

abbrev mismatch : (field expected : String) → Option String → Option String
mismatch field expected got = some (
    append "Provider returned mismatched "
      (append field (append ": expected " (append expected (append ", got " (or_else got ""))))))

-- The status of an answer whose identities agree.
unfoldable pub read_settlement : (ref : String) → RefundAnswer → RefundInquiryResult
read_settlement ref d =
    let own = or_else d.refund_ref_id ref in
    if text_is "refunded" d.status
    then record (inquiry true refunded own d.bank_tran_id d.tran_id none) {
      refunded_on = d.refunded_on;
    }
    else if text_is "processing" d.status
    then inquiry true InquiryStatus.processing own d.bank_tran_id d.tran_id none
    else if text_is "cancelled" d.status
    then inquiry false cancelled own none none
        (either d.error_reason (some "Refund was cancelled by provider/bank"))
    else if text_is "success" d.status
    then inquiry false unknown_status own none none (
        some
          "Unexpected 'success' status returned on inquiry; authoritative settlement requires status='refunded'")
    else inquiry false unknown_status own none none (
        some (
          append "Unknown or malformed gateway inquiry status: '"
            (append (or_else d.status "undefined") "'")))

unfoldable pub read_inquiry_body :
    (ref : String)
    → (expected_bank expected_tran : Option String) → RefundAnswer
    → RefundInquiryResult
read_inquiry_body ref bank tran d =
    if not (text_is "DONE" d.api_connect)
    then inquiry false failed_auth ref none none (
        some (
          append "Provider authentication or connection failed: APIConnect="
            (append (or_else d.api_connect "UNKNOWN") (dashed d.error_reason))))
    else if differs d.refund_ref_id (some ref)
    then inquiry false invalid_identity ref none none (mismatch "refund_ref_id" ref d.refund_ref_id)
    else if contradicts bank d.bank_tran_id
    then inquiry false invalid_identity ref d.bank_tran_id none
        (mismatch "bank_tran_id" (or_else bank "") d.bank_tran_id)
    else if contradicts tran d.tran_id
    then inquiry false invalid_identity ref none d.tran_id
        (mismatch "tran_id" (or_else tran "") d.tran_id)
    else read_settlement ref d

unfoldable pub read_inquiry :
    (ref : String) → (expected_bank expected_tran : Option String) → Answer → RefundInquiryResult
read_inquiry ref bank tran (timed_out m) =
    inquiry false transport_error ref none none (some (append "Query timeout or network error: " m))
read_inquiry ref bank tran (http_status c) =
    inquiry false transport_error ref none none (some (append "Gateway returned HTTP status " c))
read_inquiry ref bank tran (answered d) = read_inquiry_body ref bank tran d

unfoldable pub query_refund_status :
    (gateway : (ref : String) → Answer)
    → (ref : String) → (expected_bank expected_tran : Option String) → RefundInquiryResult
query_refund_status gateway ref bank tran = read_inquiry ref bank tran (gateway ref)
