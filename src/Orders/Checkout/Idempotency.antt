-- ===== src/Orders/Checkout/Idempotency.antt =====
-- Step 2 of `createOrderFromCart` (server/src/modules/orders/orders.service.ts): idempotency keys,
-- with the statements on `idempotency_keys` of orders.store.ts.
use gramoz.Common.{
  ℕ, ◌+◌, ◌*◌, String, Bool, true, false, not, ◌&&◌, Option, none, some, ◌∷◌, ◌==◌, str_eq,
}
use gramoz.Table.{find, update}
use gramoz.Schema.{Db}
use gramoz.Schema.Enums.{IdempotencyStatus, started, completed}
use gramoz.Schema.Rows.{Order, IdempotencyKey}
use gramoz.Tx.{
  Tx, pure, read, write, ◌>>=◌, ◌>>◌, throw_if, invalid_operation, key_reused, checkout_in_progress,
}
use gramoz.Orders.Store.{find_order_by_id}

abbrev pub owns_key : ℕ → String → IdempotencyKey → Bool
owns_key user key r = r.user_id == user && str_eq r.key key

abbrev pub find_idempotency_key : ℕ → String → Db → Option IdempotencyKey
find_idempotency_key user key db = find (owns_key user key) db.idempotency

-- What step 2 leads to: the order of an earlier request, or a new order under this record.
pub data Replay : Type 0 where
  replayed : Order → Replay
  fresh : Option IdempotencyKey → Replay

abbrev pub started_key : (id now user : ℕ) (key hash : String) → IdempotencyKey
started_key id now user key hash = record {
  id = id;
  user_id = user;
  key = key;
  request_hash = hash;
  status = started;
  order_id = none;
  expires_at = now + 24 * 3_600_000;
}

abbrev pub completed_order : IdempotencyKey → Db → Option Order
completed_order r db = elim r.status [
  | completed ↦ elim r.order_id [ none ↦ none | some id ↦ find_order_by_id id db ]
  | _ ↦ none
]

abbrev is_started : IdempotencyStatus → Bool
is_started started = true
is_started _ = false

-- A key that was used before: its order if there is one, a refusal if it is still in progress, and
-- otherwise the same key again.
unfoldable pub resume_key : IdempotencyKey → Option Order → Tx Replay
resume_key r (some o) = pure (replayed o)
resume_key r none = do
  throw_if (is_started r.status) (invalid_operation checkout_in_progress)
  pure (fresh (some r))

unfoldable pub reuse_key : String → IdempotencyKey → Tx Replay
reuse_key hash r = do
  throw_if (not (str_eq r.request_hash hash)) (invalid_operation key_reused)
  order ← read (completed_order r)
  resume_key r order

-- What follows the lookup of the key.
unfoldable pub use_key : (id now user : ℕ) (key hash : String) → Option IdempotencyKey → Tx Replay
use_key id now user key hash (some r) = reuse_key hash r
use_key id now user key hash none =
    write (λ db. record db { idempotency = started_key id now user key hash ∷ db.idempotency })
    >> pure (fresh (some (started_key id now user key hash)))

unfoldable pub check_idempotency : (id now user : ℕ) → Option String → String → Tx Replay
check_idempotency id now user none hash = pure (fresh none)
check_idempotency id now user (some key) hash =
    read (find_idempotency_key user key) >>= use_key id now user key hash

-- Step 13
unfoldable pub complete_idempotency : Option String → Option IdempotencyKey → ℕ → Db → Db
complete_idempotency none r order_id db = db
complete_idempotency (some _) none order_id db = db
complete_idempotency (some _) (some r) order_id db = record db {
  idempotency =
      update (λ k. k.id == r.id) (λ k. record k { status = completed; order_id = some order_id })
        db.idempotency;
}
