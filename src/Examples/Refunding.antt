-- ===== src/Examples/Refunding.antt =====
-- Refunds in the example shop.
use gramoz.Common.{ℕ, ◌≡◌, refl, String, none, some, [], ◌∷◌, Option, inl}
use gramoz.Schema.{Db}
use gramoz.Schema.Enums.{OrderPaymentStatus, PaymentStatus, RefundStatus, damaged_item}
use gramoz.Schema.Rows.{Order, Payment, Refund}
use gramoz.Tx.{Result, ok, err, for_each, invalid_operation, refund_settled}
use gramoz.Loyalty.{refund_points, create_transaction, has_points_been_refunded}
use gramoz.Orders.Store.{
  get_order_items_for_restock, create_inventory_transaction, get_points_spent_on_order,
}
use gramoz.Orders.Cancel.{return_points}
use gramoz.Payments.Store.{update_payment, update_order}
use gramoz.Payments.Text.{is_cod_method}
use gramoz.Payments.Gateway.{
  Answer, answered, bank_id_of, query_refund_status, read_inquiry, read_inquiry_body,
  read_settlement,
}
use gramoz.Refunds.Store.{update_refund, has_been_restocked}
use gramoz.Refunds.Request.{RequestRefundDto, requested_refund}
use gramoz.Refunds.Settle.{
  Decision, ProcessRefundDto, settle_refund, settle_locked, check_settlement, write_settlement,
  mark_refunded, refund_linked_payment, return_goods, restock_order, return_items, return_item,
  restock_returned, restock_saleable,
}
use gramoz.Refunds.Process.{process_refund}
use gramoz.Refunds.Reconcile.{reconcile_refund}
use gramoz.Refunds.InFlight.{Aside, initiation_is_not_settlement, unsettled_inquiry_moves_nothing}
use gramoz.Refunds.Settlement.{Refunded, settlement_marks, no_phantom_stock, settled_once}
use gramoz.Examples.Shop.{busy, delivered_order, db_of, result_of, committed}

abbrev bought : Order
bought = record delivered_order { payment_status = OrderPaymentStatus.paid }

abbrev captured : Payment
captured = record {
  id = 801;
  order_id = 501;
  amount = 94_000;
  status = PaymentStatus.completed;
  method = some "bKash";
  transaction_id = some "T2";
  gateway_response = some (record { bank_tran_id = some "B2"; val_id = none });
  created_at = 100_000;
  updated_at = 110_000;
}

abbrev sold : Db
sold = record busy {
  orders = bought ∷ [];
  order_items =
      record {
        order_id = 501;
        product_id = 10;
        variant_id = none;
        quantity = 2;
        unit_price = 45_000;
      }
      ∷ [];
  payments = captured ∷ [];
}

abbrev complaint : RequestRefundDto
complaint = record {
  order_id = 501;
  payment_id = none;
  amount = some 90_000;
  reason = damaged_item;
}

abbrev asked : Refund
asked = requested_refund 700 1 90_000 complaint (some captured)

abbrev requested : Db
requested = record sold { refunds = asked ∷ [] }

abbrev pays_back : ProcessRefundDto
pays_back = record {
  status = Decision.processed;
  admin_notes = some "ok";
  gateway_refund_id = none;
}

abbrev accepts : (bank : String) → (amount refund : ℕ) → Answer
accepts bank amount refund = answered (record {
  api_connect = some "DONE";
  status = some "success";
  refund_ref_id = some "R1";
  bank_tran_id = some bank;
  tran_id = none;
  refunded_on = none;
  error_reason = none;
  failedreason = none;
})

abbrev started : Result (Option Refund) × Db
started = process_refund accepts "COD-REFUND-700" "COD-MANUAL-700" 1_000 9 700 pays_back requested

initiation_is_not_settlement_example : Aside requested (committed started)
unfolding is_cod_method
initiation_is_not_settlement_example =
    initiation_is_not_settlement accepts "COD-REFUND-700" "COD-MANUAL-700" 1_000 9 700 pays_back
      asked captured requested (committed started) started.0 refl refl refl refl refl refl refl

-- In flight, and an inquiry that says so.
abbrev in_flight : Refund
in_flight = record asked { status = RefundStatus.processing; gateway_refund_id = some "R1" }

abbrev flying : Db
flying = record sold { refunds = in_flight ∷ [] }

abbrev still_working : (ref : String) → Answer
still_working ref = answered (record {
  api_connect = some "DONE";
  status = some "processing";
  refund_ref_id = some ref;
  bank_tran_id = some "B2";
  tran_id = some "T2";
  refunded_on = none;
  error_reason = none;
  failedreason = none;
})

abbrev inquired : Result (Option Refund) × Db
inquired =
    reconcile_refund accepts "COD-REFUND-700" "COD-MANUAL-700" still_working 2_000 9 700 flying

unsettled_inquiry_moves_nothing_example : Aside flying (committed inquired)
unfolding query_refund_status read_inquiry read_inquiry_body read_settlement bank_id_of
unsettled_inquiry_moves_nothing_example =
    unsettled_inquiry_moves_nothing accepts "COD-REFUND-700" "COD-MANUAL-700" still_working 2_000 9
      700 in_flight "R1" flying (committed inquired) inquired.0 refl refl refl refl

-- The gateway has settled.
abbrev confirms : ProcessRefundDto
confirms = record {
  status = Decision.processed;
  admin_notes = some "seen";
  gateway_refund_id = some "R1";
}

abbrev settlement : Result (Option Refund × Db)
settlement = settle_refund 3_000 9 confirms (some "R1") in_flight flying

abbrev over : Db
over = db_of settlement

settles :
    settle_refund 3_000 9 confirms (some "R1") in_flight flying
    ≡ ok (result_of none settlement, over)
unfolding settle_refund settle_locked check_settlement write_settlement mark_refunded
    refund_linked_payment return_goods restock_order return_items return_item restock_returned
    restock_saleable for_each has_been_restocked get_order_items_for_restock
    create_inventory_transaction return_points get_points_spent_on_order has_points_been_refunded
    refund_points create_transaction update_payment update_order update_refund
settles = refl

settlement_marks_example : Refunded 9 (some "R1") in_flight flying over
settlement_marks_example =
    settlement_marks 3_000 9 confirms (some "R1") in_flight flying (result_of none settlement) over
      settles

no_phantom_stock_example : (over.products ≡ flying.products) × (over.variants ≡ flying.variants)
no_phantom_stock_example =
    no_phantom_stock 3_000 9 confirms (some "R1") in_flight in_flight bought flying
      (result_of none settlement) over refl refl (inl refl) settles

settled_once_example :
    process_refund accepts "COD-REFUND-700" "COD-MANUAL-700" 4_000 9 700 confirms over
    ≡ (err (invalid_operation refund_settled), over)
settled_once_example =
    settled_once accepts "COD-REFUND-700" "COD-MANUAL-700" 3_000 9 4_000 9 confirms confirms
      (some "R1") in_flight flying (result_of none settlement) over settles
