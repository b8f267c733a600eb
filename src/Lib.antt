-- ===== src/Lib.antt =====
-- The server of Gramoz, a web shop (server/src, NestJS over PostgreSQL): the cart, addresses,
-- checkout, cancellation, status updates, expiry, payments, refunds, loyalty points, promotions
-- and the outbox.
--
-- How the parts interact. The services of server/src/modules share one database. A checkout
-- (OrdersService.createOrderFromCart) runs in one transaction: it looks up the idempotency key,
-- reads the cart, prices it with the promotions service, the loyalty service and the courier's
-- charge, inserts the order, deducts stock, counts the promotion's use, spends points, writes
-- events to the outbox and completes the key. The payment service opens a session at the gateway
-- for an order and settles it when the gateway's notification is confirmed; the refund service
-- settles a refund with the same rows, the stock and the points. A cancellation
-- (cancelOrderInternal) gives back stock, the promotion's use and points; customers, admins and
-- the expiry worker call it. The loyalty ledger is a list of signed rows from which a balance is
-- computed.
--
-- Files.
-- Common.antt, Common/*: tests on numbers and signed integers over the native naturals.
-- Table.antt, Table/*: a table is a list of rows; select, find, update, delete, exists and sums stand
-- for the statements of the stores; Table/Stock is the interface of a table with a stock column.
-- Schema.antt, Schema/*: server/src/database/schema; Db is the record of the tables.
-- Tx.antt, Tx/Post.antt: transactions on Db, with the error classes of
-- server/src/common/errors/domain.errors.ts, and their postconditions. run_transaction is
-- db.transaction: a failure leaves the database as it was.
-- Loyalty.antt, Loyalty/*: server/src/modules/loyalty (loyalty.service.ts, loyalty.store.ts).
-- Promos.antt, Promos/*: server/src/modules/promos/promos.service.ts.
-- Orders/Transitions, Store, Cancel, Status, Expiry: ORDER_STATE_TRANSITIONS and the handlers
-- cancelOrder, expireOrder, updateOrderStatus and cancelOrderInternal of
-- server/src/modules/orders/orders.service.ts, the statements of orders.store.ts, and
-- orders-expiry.processor.ts.
-- Orders/Checkout, with Input, Lines, Pricing and Idempotency: createOrderFromCart, and
-- calculateCharge of server/src/modules/courier/courier.service.ts.
-- Cart.antt: server/src/modules/cart/cart.service.ts and cart.store.ts; Cart/Basket is the abstract
-- basket, a quantity for each customer, product and variant.
-- Addresses.antt, Addresses/*: server/src/modules/addresses/addresses.service.ts and
-- addresses.store.ts.
-- Payments/Text, Store, Signature, Cod, Initiate, Verify, Callbacks, Gateway:
-- server/src/modules/payments/payments.service.ts and payments.store.ts, in the order of the
-- methods. Payments/Writes sums up what the calls write; Sound, Kept, Opening, Initiating, Answering,
-- Returning, Sessions, Settling, Settled and Trust are proofs.
-- Refunds/Store, Request, Settle, Process, Reconcile: server/src/modules/refunds/refunds.service.ts
-- and refunds.store.ts; InFlight, Settled, Marked, Settlement and Asked are proofs.
-- Outbox.antt, Outbox/*: server/src/modules/orders/outbox.processor.ts, the statements of a
-- worker on outbox_events; what a handler does with the payload is its outcome, a parameter.
-- Orders/Stock, Release, Goods, Restock, Points, Lifecycle, Updates, Walk, Stale, Spared and the other
-- children of Orders/Checkout: proofs. Examples/*: runs on a small shop.
--
-- How state and operations correspond. A handler is a function from the database to a result and a
-- new database; a statement of a store is a function on Db; camelCase names become snake_case. A
-- uuid is a number, and those that the database generates come with the request (new_order,
-- new_address, new_key), as does the clock. Times are milliseconds, amounts are cents. New rows
-- stand first in a table. Amounts are exact where the source computes in floating point and
-- rounds, except in wrong_amount of Payments/Verify, which computes the doubles. What the source
-- takes from packages is a parameter: Host holds trim, toUpperCase, SHA-256 over JSON and
-- localeCompare; the gateway is a function from a request to its answer, and so are the hashes of
-- a notification. A field of a notification or an answer that is missing or empty is none.
-- Settings are numbers: ratio, validity in days, expiry in minutes. A lock is the atomicity of a
-- transaction, so the model has one transaction at a time. A call that commits more than one
-- transaction (Call in Tx.antt) keeps what was committed when a later one fails; no other call
-- runs between them. In initiatePayment this leaves out the calls that run between its check, the
-- cancellation of the stale session, the opening of the session, the request to the gateway and
-- what follows its answer; the runs of Payments/Sessions are runs of whole calls. Reads that a
-- service makes outside the transaction see the database of the call.
--
-- Bounds. Loops go over the rows that a query returned. The only fuel is that of spacing in
-- Payments/Verify, 64 doublings, which spacing_fits of Payments/Settling shows to be enough for
-- every amount of the columns. Numbers are unbounded where the columns are 32-bit integers and
-- decimal(10, 2).
--
-- Not modelled: the outbox handlers and the loop of processOutbox, the courier's consignments,
-- reviews, settings, users and authentication, catalogue and screens, the web client, foreign
-- keys, texts of reasons and notes, log lines, and columns that no modelled code reads.
pub mod Common
pub mod Table
pub mod Schema
pub mod Tx
pub mod Loyalty
pub mod Promos
pub mod Orders
pub mod Payments
pub mod Refunds
pub mod Outbox
pub mod Cart
pub mod Addresses
pub mod Examples
