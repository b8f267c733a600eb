-- ===== src/Refunds/InFlight.antt =====
-- Refunds in flight: what `processRefund` and `reconcileRefund` of
-- server/src/modules/refunds/refunds.service.ts do before a settlement is confirmed.
use gramoz.Common.{
  ℕ, ◌≡◌, ap, sym, ◌∙◌, String, true, false, Option, none, some, List, arith, Bool-cases,
  Option-cases, inl, inr,
}
use gramoz.Table.{update}
use gramoz.Schema.{Db}
use gramoz.Schema.Enums.{RefundStatus, refund_status_eq}
use gramoz.Schema.Rows.{Payment, Refund}
use gramoz.Tx.{Result, ok, run_transaction}
use gramoz.Tx.Calls.{run-inv, tx-inv}
use gramoz.Payments.Gateway.{Answer, RefundInitiationResult, initiate_refund, query_refund_status}
use gramoz.Refunds.Store.{find_refund_by_id, update_refund, refund_id_is}
use gramoz.Refunds.Settle.{Decision, ProcessRefundDto, linked_payment}
use gramoz.Refunds.Process.{
  find_open_refund, claim_refund, claimed_refund, start_refund, call_gateway, record_initiation,
  initiated_refund, after_record, caught, pay_out, process_open, process_refund, is_online,
  is_failure,
}
use gramoz.Refunds.Reconcile.{
  reconcile_refund, reconcile_found, apply_inquiry, unsettled_refund, is_refunded, expected_bank,
  expected_tran,
}

-- At most the refunds table changed.
abbrev pub Aside : Db → Db → Type 0
Aside a b = (rs : List Refund) × (b ≡ record a { refunds = rs })

Aside-refl : (a b : Db) → b ≡ a → Aside a b
Aside-refl a b e = (a.refunds, e)

Aside-trans : (a b c : Db) → Aside a b → Aside b c → Aside a c
Aside-trans a b c (rs, e) (ss, f) = (ss, f ∙ ap (λ (d : Db). record d { refunds = ss }) e)

update_refund-Aside :
    (id : ℕ) (f : Refund → Refund) (a : Db) {o : Option Refund} {b : Db}
    → update_refund id f a ≡ ok (o, b)
    → Aside a b
unfolding update_refund
update_refund-Aside id f a h = (update (refund_id_is id) f a.refunds, ground (arith, h))

find_open-inv :
    (id : ℕ) (dto : ProcessRefundDto) (a : Db) {x : Refund} {b : Db}
    → find_open_refund id dto a ≡ ok (x, b)
    → (find_refund_by_id id a ≡ some x) × (b ≡ a)
unfolding find_open_refund
find_open-inv id dto a h = elim (Option-cases (find_refund_by_id id a)) [
  | inl n ↦ ground (arith, n, h)
  | inr (x, n) ↦ (ground (arith, n, h), ground (arith, n, h))
]

claim-Aside :
    (admin : ℕ) (dto : ProcessRefundDto) (id : ℕ) (a : Db) {o : Option Refund} {b : Db}
    → claim_refund admin dto id a ≡ ok (o, b)
    → Aside a b
unfolding claim_refund
claim-Aside admin dto id a {o} {b} h = elim (Option-cases (find_refund_by_id id a)) [
  | inl n ↦ ground (arith, n, h)
  | inr (x, n) ↦
      let done : update_refund id (claimed_refund admin dto) a ≡ ok (o, b) = ground (arith, n, h) in
      update_refund-Aside id (claimed_refund admin dto) a done
]

record-Aside :
    (admin id : ℕ) (result : RefundInitiationResult) (a : Db) {r : Result (Option Refund)} {b : Db}
    → record_initiation admin id result a ≡ (r, b)
    → Aside a b
unfolding record_initiation after_record
record-Aside admin id result a {r} {b} h =
    elim (tx-inv (update_refund id (initiated_refund admin result)) (after_record result) a h) [
      | inr same ↦ Aside-refl a b same
      | inl (o, m, e, f) ↦
          Aside-trans a m b (update_refund-Aside id (initiated_refund admin result) a e) (
            Aside-refl m b (elim (Bool-cases (is_failure result)) [
              | inl y ↦ ground (arith, y, f)
              | inr y ↦ ground (arith, y, f)
            ]))
    ]

module _ (gateway : (bank : String) → (amount refund : ℕ) → Answer)
    (cod_reference manual : String) where
  start-Aside :
      (admin : ℕ) (dto : ProcessRefundDto) (x : Refund) (p : Payment) (a : Db)
      {r : Result (Option Refund)} {b : Db}
      → start_refund gateway cod_reference manual admin dto x p a ≡ (r, b)
      → Aside a b
  unfolding start_refund call_gateway
  start-Aside admin dto x p a {r} {b} h =
      elim (tx-inv (claim_refund admin dto x.id)
        (call_gateway gateway cod_reference manual admin x p) a h) [
          | inr same ↦ Aside-refl a b same
          | inl (o, m, e, f) ↦ Aside-trans a m b (claim-Aside admin dto x.id a e) (
              record-Aside admin x.id
                (caught (initiate_refund gateway cod_reference p.id x.amount x.id m)) m f)
        ]

  -- Paying out a refund of an online payment that has no gateway reference yet only starts it at the
  -- gateway: whatever the gateway answers, orders, payments, stock and points stay as they are.
  pub initiation_is_not_settlement :
      (now admin id : ℕ) (dto : ProcessRefundDto) (x : Refund) (p : Payment) (a b : Db)
      (r : Result (Option Refund))
      → find_refund_by_id id a ≡ some x
      → linked_payment x a ≡ some p
      → is_online (some p) ≡ true
      → dto.status ≡ Decision.processed
      → dto.gateway_refund_id ≡ none
      → x.gateway_refund_id ≡ none
      → process_refund gateway cod_reference manual now admin id dto a ≡ (r, b)
      → Aside a b
  unfolding process_refund process_open pay_out
  initiation_is_not_settlement now admin id dto x p a b r t l o d g n h =
      elim (tx-inv (find_open_refund id dto)
        (process_open gateway cod_reference manual now admin dto) a h) [
          | inr same ↦ Aside-refl a b same
          | inl (y, m, e, f) ↦
              let (there, same) = find_open-inv id dto a e in
              let own : y ≡ x = ground (arith, there, t) in
              let run : process_open gateway cod_reference manual now admin dto x a ≡ (r, b) =
                ap (λ z. process_open gateway cod_reference manual now admin dto z a) (sym own)
                ∙ ap (process_open gateway cod_reference manual now admin dto y) (sym same)
                ∙ f in
              let started : start_refund gateway cod_reference manual admin dto x p a ≡ (r, b) =
                ground (arith, run, l, o, d, g, n) in
              start-Aside admin dto x p a started
        ]

  module _ (inquire : (ref : String) → Answer) where
    -- A reconciliation whose inquiry does not say that the refund is settled changes no order,
    -- payment, stock or points.
    pub unsettled_inquiry_moves_nothing :
        (now admin id : ℕ) (x : Refund) (ref : String) (a b : Db) (r : Result (Option Refund))
        → find_refund_by_id id a ≡ some x
        → x.gateway_refund_id ≡ some ref
        → is_refunded (
            query_refund_status inquire ref
              (expected_bank (linked_payment x a))
              (expected_tran (linked_payment x a)))
          ≡ false
        → reconcile_refund gateway cod_reference manual inquire now admin id a ≡ (r, b)
        → Aside a b
    unfolding reconcile_refund reconcile_found apply_inquiry
    unsettled_inquiry_moves_nothing now admin id x ref a b r t g i h =
        let q =
          query_refund_status inquire ref (expected_bank (linked_payment x a))
            (expected_tran (linked_payment x a)) in
        elim (Bool-cases (refund_status_eq x.status RefundStatus.processed)) [
          | inl y ↦ Aside-refl a b (ground (arith, y, t, h))
          | inr y ↦
              let found : reconcile_found gateway cod_reference manual inquire now admin x a
                  ≡ (r, b) =
                ground (arith, t, h) in
              let asked : apply_inquiry gateway cod_reference manual inquire now admin x ref q a
                  ≡ (r, b) =
                ground (arith, y, g, found) in
              let run : run_transaction (update_refund x.id (unsettled_refund admin q)) a ≡ (r, b) =
                ground (arith, i, asked) in
              elim (run-inv (update_refund x.id (unsettled_refund admin q)) a run) [
                | inr (same, _) ↦ Aside-refl a b same
                | inl (o, _, e) ↦ update_refund-Aside x.id (unsettled_refund admin q) a e
              ]
        ]
