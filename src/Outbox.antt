-- ===== src/Outbox.antt =====
-- The outbox worker: server/src/modules/orders/outbox.processor.ts. A row of `outbox_events` is
-- claimed under a lease; `attempts`, which every claim raises, fences a worker whose lease expired.
-- What a handler does with the payload is its outcome, a parameter. Times are in milliseconds.
pub mod Fencing
pub mod Attempts
use gramoz.Common.{
  ℕ, ◌+◌, ◌*◌, Bool, true, false, not, ◌&&◌, Option, none, some, List, [], ◌∷◌, ltb, leb, ◌==◌,
  if◌then◌else◌, String, length,
}
use gramoz.Table.{select, update, exists}
use gramoz.Schema.Enums.{OutboxStatus, outbox_status_eq}

pub record OutboxEvent : Type 0 where
  pub id : ℕ
  pub status : OutboxStatus
  pub attempts : ℕ
  pub last_error : Option String
  pub created_at : ℕ
  pub updated_at : ℕ

abbrev pub max_attempts : ℕ
max_attempts = 3

abbrev pub has_status : OutboxStatus → OutboxEvent → Bool
has_status s e = outbox_status_eq e.status s

-- COALESCE(last_error, …)
abbrev error_or : String → Option String → Option String
error_or s none = some s
error_or s (some t) = some t

-- updated_at < NOW() - INTERVAL '5 minutes'
abbrev pub is_stranded : ℕ → OutboxEvent → Bool
is_stranded now e = has_status OutboxStatus.processing e && ltb (e.updated_at + 300_000) now

abbrev pub recovered_row : ℕ → OutboxEvent → OutboxEvent
recovered_row now e = record e {
  status = if ltb e.attempts max_attempts then OutboxStatus.pending else OutboxStatus.failed;
  last_error = error_or "Worker lease expired / worker process interrupted" e.last_error;
  updated_at = now;
}

unfoldable pub recover_stranded_events : ℕ → List OutboxEvent → List OutboxEvent
recover_stranded_events now es = update (is_stranded now) (recovered_row now) es

abbrev pub is_claimable : OutboxEvent → Bool
is_claimable e = has_status OutboxStatus.pending e && ltb e.attempts max_attempts

-- ORDER BY created_at ASC
unfoldable pub insert_event : OutboxEvent → List OutboxEvent → List OutboxEvent
insert_event e [] = e ∷ []
insert_event e (x ∷ xs) =
    if leb e.created_at x.created_at then e ∷ x ∷ xs else x ∷ insert_event e xs

unfoldable pub by_age : List OutboxEvent → List OutboxEvent
unfolding insert_event
by_age [] = []
by_age (e ∷ es) = insert_event e (by_age es)

-- LIMIT
unfoldable pub first_events : ℕ → List OutboxEvent → List OutboxEvent
first_events ℕ.zero es = []
first_events (ℕ.suc n) [] = []
first_events (ℕ.suc n) (e ∷ es) = e ∷ first_events n es

unfoldable pub due_events : List OutboxEvent → List OutboxEvent
unfolding by_age first_events
due_events es = first_events 10 (by_age (select is_claimable es))

abbrev pub is_due : List OutboxEvent → OutboxEvent → Bool
is_due due e = exists (λ d. d.id == e.id) due

abbrev pub claimed_row : ℕ → OutboxEvent → OutboxEvent
claimed_row now e = record e {
  status = OutboxStatus.processing;
  attempts = e.attempts + 1;
  updated_at = now;
}

-- The claim: the table after it, and the rows that it returns.
unfoldable pub claim : ℕ → List OutboxEvent → List OutboxEvent
claim now es = update (is_due (due_events es)) (claimed_row now) es

unfoldable pub claimed : ℕ → List OutboxEvent → List OutboxEvent
unfolding claim
claimed now es = select (is_due (due_events es)) (claim now es)

-- The fence: the lease of this claim.
abbrev pub owns : (id attempts : ℕ) → OutboxEvent → Bool
owns id n e = e.id == id && has_status OutboxStatus.processing e && e.attempts == n

unfoldable pub renew : (now id attempts : ℕ) → List OutboxEvent → Bool × List OutboxEvent
renew now id n es =
    (exists (owns id n) es, update (owns id n) (λ e. record e { updated_at = now }) es)

unfoldable pub complete : (now id attempts : ℕ) → List OutboxEvent → List OutboxEvent
complete now id n es =
    update (λ e. e.id == id && e.attempts == n)
      (λ e. record e { status = OutboxStatus.completed; updated_at = now }) es

unfoldable pub retry : (now id attempts : ℕ) → String → List OutboxEvent → List OutboxEvent
retry now id n error es =
    update (owns id n)
      (λ e. record e { status = OutboxStatus.pending; last_error = some error; updated_at = now })
      es

-- `markFailed`, whose fence is optional.
abbrev pub may_fail : ℕ → Option ℕ → OutboxEvent → Bool
may_fail id none e = e.id == id
may_fail id (some n) e = e.id == id && leb e.attempts n

unfoldable pub mark_failed : (now id : ℕ) → String → Option ℕ → List OutboxEvent → List OutboxEvent
mark_failed now id error n es =
    update (may_fail id n)
      (λ e. record e { status = OutboxStatus.failed; last_error = some error; updated_at = now }) es

-- What the handler of an event's type does.
pub data Outcome : Type 0 where
  succeeded unknown_type : Outcome
  raised non_retryable : String → Outcome

-- What follows the handler.
unfoldable pub settle : (now id attempts : ℕ) → Outcome → List OutboxEvent → Bool × List OutboxEvent
settle now id n succeeded es = (true, complete now id n es)
settle now id n unknown_type es = (false, mark_failed now id "Unknown event type" none es)
settle now id n (non_retryable error) es = (false, mark_failed now id error (some n) es)
settle now id n (raised error) es =
    if leb max_attempts n
    then (false, mark_failed now id error (some n) es)
    else (false, retry now id n error es)

-- `processEvent` of a claimed event, if nothing else happens between its statements.
unfoldable pub process_event :
    (now id attempts : ℕ) → Outcome → List OutboxEvent → Bool × List OutboxEvent
process_event now id n o es =
    let (owned, renewed) = renew now id n es in
    if owned then settle now id n o renewed else (false, renewed)
