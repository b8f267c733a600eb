-- ===== src/Orders/Checkout/Retry.antt =====
-- A request under an idempotency key that was used before.
use gramoz.Common.{
  ℕ, ◌≡◌, refl, ap, ◌∙◌, sym, String, true, false, not, Option, none, some, List, ◌∷◌, arith,
  str_eq, str_eq_iff, ◌==◌,
}
use gramoz.Table.{find, update}
use gramoz.Table.Stock.{KeysAreUnique}
use gramoz.Schema.{Db}
use gramoz.Schema.Enums.{completed}
use gramoz.Schema.Rows.{Order, IdempotencyKey}
use gramoz.Tx.{ok, err, read, throw_if, ◌>>=◌, invalid_operation, key_reused}
use gramoz.Tx.Post.{bind-ok, bind-err}
use gramoz.Orders.Store.{find_order_by_id, order_id_is}
use gramoz.Orders.Stock.{product_table, variant_table}
use gramoz.Orders.Checkout.Input.{Host, Request, trimmed_key, request_hash}
use gramoz.Orders.Checkout.Idempotency.{
  find_idempotency_key, started_key, owns_key, use_key, replayed, fresh, reuse_key, resume_key,
  check_idempotency, complete_idempotency, completed_order,
}
use gramoz.Orders.Checkout.Undo.{Bought, checkout_takes}
use gramoz.Orders.Checkout.{checkout, proceed, place_order}

-- The row that a checkout leaves for its key.
abbrev done_key : Host → Request → String → IdempotencyKey
done_key h r key = record (started_key r.new_key r.now r.user_id key (request_hash h r.dto)) {
  status = completed;
  order_id = some r.new_order;
}

abbrev with_key : Host → Request → String → Db → Db
with_key h r key db = record db {
  idempotency = started_key r.new_key r.now r.user_id key (request_hash h r.dto) ∷ db.idempotency;
}

first_use :
    (h : Host) (r : Request) (key : String) (db : Db)
    → find_idempotency_key r.user_id key db ≡ none
    → check_idempotency r.new_key r.now r.user_id (some key) (request_hash h r.dto) db
      ≡ ok (
        fresh (some (started_key r.new_key r.now r.user_id key (request_hash h r.dto))),
        with_key h r key db,
      )
unfolding check_idempotency use_key
first_use h r key db e =
    ap (λ found. use_key r.new_key r.now r.user_id key (request_hash h r.dto) found db) e

-- What the first checkout under a key leaves for the second.
record Remembered (h : Host) (r : Request) (key : String) (o : Order) (mid : Db) : Type 0 where
  row : find_idempotency_key r.user_id key mid ≡ some (done_key h r key)
  order : find_order_by_id r.new_order mid ≡ some o

remembered :
    (h : Host) (r : Request) (c : Option ℕ) (key : String) (db mid : Db) (o : Order)
    → KeysAreUnique product_table db.products
    → KeysAreUnique variant_table db.variants
    → trimmed_key h r ≡ some key
    → find_idempotency_key r.user_id key db ≡ none
    → checkout h r c db ≡ ok (o, mid)
    → Remembered h r key o mid
unfolding checkout proceed complete_idempotency
remembered h r c key db mid o p v t e run = record {
  row = ap (find (owns_key r.user_id key)) (x.idempotency ∙ completed_rows) ∙ own_row;
  order = ap (find (order_id_is r.new_order)) x.orders ∙ ground (arith, x.id);
}
  where
    k : IdempotencyKey
    k = started_key r.new_key r.now r.user_id key (request_hash h r.dto)

    placed : place_order h r c (some k) (with_key h r key db) ≡ ok (o, mid)
    placed =
        sym (
          ap {A = Option String}
            (λ s.
              (check_idempotency r.new_key r.now r.user_id s (request_hash h r.dto)
                  >>= proceed h r c)
                db)
            t
          ∙ bind-ok (check_idempotency r.new_key r.now r.user_id (some key) (request_hash h r.dto))
              (proceed h r c) (first_use h r key db e))
        ∙ run

    x : Bought h r (some k) (with_key h r key db) o mid
    x = checkout_takes h r c (some k) (with_key h r key db) mid o p v placed

    done : List IdempotencyKey
    done =
        update (λ j. j.id == r.new_key)
          (λ j. record j { status = completed; order_id = some r.new_order }) (k ∷ db.idempotency)

    completed_rows :
        (complete_idempotency
          (trimmed_key h r)
          (some k)
          r.new_order
          (with_key h r key db)).idempotency
        ≡ done
    completed_rows =
        ap {A = Option String}
          (λ s. (complete_idempotency s (some k) r.new_order (with_key h r key db)).idempotency) t

    own_row : find (owns_key r.user_id key) done ≡ some (done_key h r key)
    own_row = ground (arith, str_eq_iff key key)

-- A second request of the same user under the same key.
again :
    (h : Host) (r' : Request) (user : ℕ) (key : String) (mid : Db) (k : IdempotencyKey)
    → r'.user_id ≡ user
    → trimmed_key h r' ≡ some key
    → find_idempotency_key user key mid ≡ some k
    → check_idempotency r'.new_key r'.now r'.user_id (trimmed_key h r') (request_hash h r'.dto) mid
      ≡ reuse_key (request_hash h r'.dto) k mid
unfolding check_idempotency use_key
again h r' user key mid k u t f =
    ap {A = Option String}
      (λ s. check_idempotency r'.new_key r'.now r'.user_id s (request_hash h r'.dto) mid) t
    ∙ ap (λ found. use_key r'.new_key r'.now r'.user_id key (request_hash h r'.dto) found mid)
        (ap (λ w. find_idempotency_key w key mid) u ∙ f)

same_hash :
    (hash : String) (k : IdempotencyKey) (o : Order) (db : Db)
    → str_eq k.request_hash hash ≡ true
    → completed_order k db ≡ some o
    → reuse_key hash k db ≡ ok (replayed o, db)
unfolding reuse_key resume_key
same_hash hash k o db e f =
    ap
      (λ b.
        (throw_if (not b) (invalid_operation key_reused) >>= λ _.
        read (completed_order k) >>= resume_key k)
          db)
      e
    ∙ ap (λ found. resume_key k found db) f

other_hash :
    (hash : String) (k : IdempotencyKey) (db : Db)
    → str_eq k.request_hash hash ≡ false
    → reuse_key hash k db ≡ err (invalid_operation key_reused)
unfolding reuse_key
other_hash hash k db e =
    ap
      (λ b.
        (throw_if (not b) (invalid_operation key_reused) >>= λ _.
        read (completed_order k) >>= resume_key k)
          db)
      e

module _ (h : Host) (r r' : Request) (c c' : Option ℕ) (key : String) (o : Order) (db mid : Db)
    (p : KeysAreUnique product_table db.products) (v : KeysAreUnique variant_table db.variants)
    (t : trimmed_key h r ≡ some key) (e : find_idempotency_key r.user_id key db ≡ none)
    (run : checkout h r c db ≡ ok (o, mid)) (u' : r'.user_id ≡ r.user_id)
    (t' : trimmed_key h r' ≡ some key) where
  found :
      check_idempotency r'.new_key r'.now r'.user_id (trimmed_key h r') (request_hash h r'.dto) mid
      ≡ reuse_key (request_hash h r'.dto) (done_key h r key) mid
  found =
      again h r' r.user_id key mid (done_key h r key) u' t'
        (remembered h r c key db mid o p v t e run).row

  -- Retry: if a checkout under a key that its user had not used succeeds, and products and variants
  -- have distinct ids, then a later request of the same user with the same key and the same request
  -- hash, whatever else it holds, returns the order of the first and changes nothing.
  pub retry_returns_order :
      request_hash h r'.dto ≡ request_hash h r.dto → checkout h r' c' mid ≡ ok (o, mid)
  unfolding checkout proceed
  retry_returns_order hash =
      bind-ok
        (check_idempotency r'.new_key r'.now r'.user_id (trimmed_key h r') (request_hash h r'.dto))
        (proceed h r' c')
        (found
          ∙ same_hash (request_hash h r'.dto) (done_key h r key) o mid
              (ap (str_eq (request_hash h r.dto)) hash
                ∙ (str_eq_iff (request_hash h r.dto) (request_hash h r.dto)).1 refl)
              (remembered h r c key db mid o p v t e run).order)

  -- Conflict: if a checkout under a key that its user had not used succeeds, and products and
  -- variants have distinct ids, then a later request of the same user with the same key and another
  -- request hash is refused as a reuse of the key.
  pub conflict_is_refused :
      str_eq (request_hash h r.dto) (request_hash h r'.dto) ≡ false
      → checkout h r' c' mid ≡ err (invalid_operation key_reused)
  unfolding checkout proceed
  conflict_is_refused differs =
      bind-err
        (check_idempotency r'.new_key r'.now r'.user_id (trimmed_key h r') (request_hash h r'.dto))
        (proceed h r' c')
        (found ∙ other_hash (request_hash h r'.dto) (done_key h r key) mid differs)
