-- ===== src/Outbox/Fencing.antt =====
-- Workers on the same outbox: any interleaving of their statements, and one worker's whole event
-- (server/src/modules/orders/outbox.processor.ts).
use gramoz.Common.{
  ℕ, ◌≤◌, ◌<◌, ◌≡◌, refl, ap, ◌∙◌, sym, Bool, true, false, ◌&&◌, some, List, [], ◌∷◌, arith, ltb,
  leb, ◌==◌, if◌then◌else◌, String, ◌≢◌, Bool-cases, inl, inr, subst,
}
use gramoz.Table.{find, update, exists}
use gramoz.Table.Laws.{update-none, find-changed, exists_of_find}
use gramoz.Schema.Enums.{OutboxStatus}
use gramoz.Outbox.{
  OutboxEvent, max_attempts, is_stranded, recovered_row, recover_stranded_events, is_due,
  due_events, claimed_row, claim, owns, renew, complete, retry, may_fail, mark_failed, Outcome,
  succeeded, unknown_type, raised, non_retryable, settle, process_event,
}

-- A row of the event with fewer attempts than `n`.
abbrev pub behind : (id n : ℕ) → OutboxEvent → Bool
behind id n e = e.id == id && ltb e.attempts n

-- One statement of any worker.
pub data OutboxStep (a b : List OutboxEvent) : Type 0 where
  recovers : (now : ℕ) → recover_stranded_events now a ≡ b → OutboxStep a b
  claims : (now : ℕ) → claim now a ≡ b → OutboxStep a b
  renews : (now id n : ℕ) → (renew now id n a).1 ≡ b → OutboxStep a b
  settles : (now id n : ℕ) (o : Outcome) → (settle now id n o a).1 ≡ b → OutboxStep a b

pub data OutboxRun : List OutboxEvent → List OutboxEvent → Type 0 where
  done : {a : List OutboxEvent} → OutboxRun a a
  next : {a b c : List OutboxEvent} → OutboxStep a b → OutboxRun b c → OutboxRun a c

-- An update that keeps ids and lowers no attempts leaves no row behind.
behind-update :
    (id n : ℕ) (q : OutboxEvent → Bool) (f : OutboxEvent → OutboxEvent) (es : List OutboxEvent)
    → ((e : OutboxEvent) → ((f e).id ≡ e.id) × (e.attempts ≤ (f e).attempts))
    → exists (behind id n) es ≡ false
    → exists (behind id n) (update q f es) ≡ false
behind-update id n q f [] k h = refl
behind-update id n q f (e ∷ es) k h = ground (arith, k e, behind-update id n q f es k)

either :
    (p : OutboxEvent → Bool) (b : Bool) (x y : Bool × List OutboxEvent)
    → exists p x.1 ≡ false
    → exists p y.1 ≡ false
    → exists p (if b then x else y).1 ≡ false
either p true x y h k = h
either p false x y h k = k

settle-behind :
    (id n now j m : ℕ) (o : Outcome) (es : List OutboxEvent)
    → exists (behind id n) es ≡ false
    → exists (behind id n) (settle now j m o es).1 ≡ false
unfolding settle complete mark_failed retry
settle-behind id n now j m succeeded es h = behind-update id n _ _ es (λ e. (refl, omega arith)) h
settle-behind id n now j m unknown_type es h =
    behind-update id n _ _ es (λ e. (refl, omega arith)) h
settle-behind id n now j m (non_retryable s) es h =
    behind-update id n _ _ es (λ e. (refl, omega arith)) h
settle-behind id n now j m (raised s) es h =
    either (behind id n) (leb max_attempts m) (false, mark_failed now j s (some m) es)
      (false, retry now j m s es) (behind-update id n _ _ es (λ e. (refl, omega arith)) h)
      (behind-update id n _ _ es (λ e. (refl, omega arith)) h)

step-behind :
    (id n : ℕ) (a b : List OutboxEvent)
    → OutboxStep a b
    → exists (behind id n) a ≡ false
    → exists (behind id n) b ≡ false
unfolding recover_stranded_events claim renew
step-behind id n a b (recovers now e) h =
    ap (exists (behind id n)) (sym e)
    ∙ behind-update id n (is_stranded now) (recovered_row now) a (λ e. (refl, omega arith)) h
step-behind id n a b (claims now e) h =
    ap (exists (behind id n)) (sym e)
    ∙ behind-update id n (is_due (due_events a)) (claimed_row now) a (λ e. (refl, omega arith)) h
step-behind id n a b (renews now j m e) h =
    ap (exists (behind id n)) (sym e)
    ∙ behind-update id n (owns j m) (λ e. record e { updated_at = now }) a
        (λ e. (refl, omega arith)) h
step-behind id n a b (settles now j m o e) h =
    ap (exists (behind id n)) (sym e) ∙ settle-behind id n now j m o a h

run-behind :
    (id n : ℕ) (a b : List OutboxEvent)
    → OutboxRun a b
    → exists (behind id n) a ≡ false
    → exists (behind id n) b ≡ false
run-behind id n a b done h = h
run-behind id n a b (next s r) h = run-behind id n _ b r (step-behind id n a _ s h)

-- Under a condition that only rows behind meet, nothing is updated.
none_behind :
    (id n : ℕ) (p : OutboxEvent → Bool) (es : List OutboxEvent)
    → ((e : OutboxEvent) → p e ≡ true → behind id n e ≡ true)
    → exists (behind id n) es ≡ false
    → exists p es ≡ false
none_behind id n p [] k h = refl
none_behind id n p (e ∷ es) k h = ground (arith, k e, none_behind id n p es k)

fenced :
    (id n : ℕ) (p : OutboxEvent → Bool) (f : OutboxEvent → OutboxEvent) (es : List OutboxEvent)
    → ((e : OutboxEvent) → p e ≡ true → behind id n e ≡ true)
    → exists (behind id n) es ≡ false
    → update p f es ≡ es
fenced id n p f es k h = update-none p f es (none_behind id n p es k h)

-- A worker that lost its lease does nothing: once every row of an event has at least `n` attempts,
-- and whatever statements of any workers follow, a worker with an earlier claim finds at its lease
-- check that it does not own the event, and changes nothing.
pub lost_lease :
    (id n m now : ℕ) (o : Outcome) (a b : List OutboxEvent)
    → exists (behind id n) a ≡ false
    → m < n
    → OutboxRun a b
    → process_event now id m o b ≡ (false, b)
unfolding process_event renew
lost_lease id n m now o a b h lt run =
    let clear = run-behind id n a b run h in
    let none_owned : exists (owns id m) b ≡ false =
      none_behind id n (owns id m) b (λ e k. ground (arith, k, lt)) clear in
    let same : update (owns id m) (λ e. record e { updated_at = now }) b ≡ b =
      fenced id n (owns id m) (λ e. record e { updated_at = now }) b (λ e k. ground (arith, k, lt))
        clear in
    ap
      (λ owned.
        if owned then settle now id m o (renew now id m b).1 else (false, (renew now id m b).1))
      none_owned
    ∙ ap (λ es. (false, es)) same

late_failure :
    (id n m now : ℕ) (s : String) (b : List OutboxEvent)
    → exists (behind id n) b ≡ false
    → m < n
    → mark_failed now id s (some m) b ≡ b
unfolding mark_failed
late_failure id n m now s b h lt =
    fenced id n (may_fail id (some m))
      (λ e. record e { status = OutboxStatus.failed; last_error = some s; updated_at = now }) b
      (λ e k. ground (arith, k, lt)) h

late_retry :
    (id n m now : ℕ) (s : String) (b : List OutboxEvent)
    → exists (behind id n) b ≡ false
    → m < n
    → retry now id m s b ≡ b
unfolding retry
late_retry id n m now s b h lt =
    fenced id n (owns id m)
      (λ e. record e { status = OutboxStatus.pending; last_error = some s; updated_at = now }) b
      (λ e k. ground (arith, k, lt)) h

-- A late result is dropped: if the lease is lost only after the check, while the handler runs, then
-- the worker's last statement changes nothing either, whether the handler of a known type succeeded
-- or failed. For an event of an unknown type this is not so, and it is left out: `markFailed` is then
-- called without the attempts.
pub late_result :
    (id n m now : ℕ) (o : Outcome) (a b : List OutboxEvent)
    → exists (behind id n) a ≡ false
    → m < n
    → o ≢ unknown_type
    → OutboxRun a b
    → (settle now id m o b).1 ≡ b
unfolding settle complete
late_result id n m now succeeded a b h lt u run =
    fenced id n (λ e. e.id == id && e.attempts == m)
      (λ e. record e { status = OutboxStatus.completed; updated_at = now }) b
      (λ e k. ground (arith, k, lt)) (run-behind id n a b run h)
late_result id n m now unknown_type a b h lt u run = absurd (u refl)
late_result id n m now (non_retryable s) a b h lt u run =
    late_failure id n m now s b (run-behind id n a b run h) lt
late_result id n m now (raised s) a b h lt u run = elim (Bool-cases (leb max_attempts m)) [
  | inl y ↦ ground (arith, y, late_failure id n m now s b (run-behind id n a b run h) lt)
  | inr y ↦ ground (arith, y, late_retry id n m now s b (run-behind id n a b run h) lt)
]

-- The status that an event is left in.
abbrev pub final_status : ℕ → Outcome → OutboxStatus
final_status n succeeded = OutboxStatus.completed
final_status n unknown_type = OutboxStatus.failed
final_status n (non_retryable s) = OutboxStatus.failed
final_status n (raised s) = if leb max_attempts n then OutboxStatus.failed else OutboxStatus.pending

abbrev pub is_success : Outcome → Bool
is_success succeeded = true
is_success _ = false

-- The event is there, with this status and these attempts.
abbrev pub Left : (id n : ℕ) → OutboxStatus → List OutboxEvent → Type 0
Left id n s es =
    (d : OutboxEvent) × (find (λ x. x.id == id) es ≡ some d) × (d.status ≡ s) × (d.attempts ≡ n)

-- What a worker leaves, and says.
abbrev pub Settled : (id n : ℕ) → Outcome → Bool × List OutboxEvent → Type 0
Settled id n o r = (r.0 ≡ is_success o) × Left id n (final_status n o) r.1

row_after :
    (id n : ℕ) (s : OutboxStatus) (q : OutboxEvent → Bool) (f : OutboxEvent → OutboxEvent)
    (es : List OutboxEvent) (e : OutboxEvent)
    → ((x : OutboxEvent) → ((f x).id ≡ x.id) × ((f x).attempts ≡ x.attempts) × ((f x).status ≡ s))
    → find (λ x. x.id == id) es ≡ some e
    → q e ≡ true
    → e.attempts ≡ n
    → Left id n s (update q f es)
row_after id n s q f es e k g h t = (
  f e,
  find-changed (λ x. x.id == id) q f es (λ x. ap (λ j. j == id) (k x).0) g ∙ ground (arith, h),
  (k e).2,
  (k e).1 ∙ t,
)

one_of :
    (id n : ℕ) (b : Bool) (s t : OutboxStatus) (x y : List OutboxEvent)
    → Left id n s x
    → Left id n t y
    → (let r : Bool × List OutboxEvent = if b then (false, x) else (false, y) in
        (r.0 ≡ false) × Left id n (if b then s else t) r.1)
one_of id n true s t x y h k = (refl, h)
one_of id n false s t x y h k = (refl, k)

settle_found :
    (now id n : ℕ) (o : Outcome) (es : List OutboxEvent) (e : OutboxEvent)
    → find (λ x. x.id == id) es ≡ some e
    → owns id n e ≡ true
    → Settled id n o (settle now id n o es)
unfolding settle complete mark_failed retry
settle_found now id n succeeded es e g h = (
  refl,
  row_after id n OutboxStatus.completed _ _ es e (λ x. (refl, refl, refl)) g (ground (arith, h))
      (ground (arith, h)),
)
settle_found now id n unknown_type es e g h = (
  refl,
  row_after id n OutboxStatus.failed _ _ es e (λ x. (refl, refl, refl)) g (ground (arith, h))
      (ground (arith, h)),
)
settle_found now id n (non_retryable s) es e g h = (
  refl,
  row_after id n OutboxStatus.failed _ _ es e (λ x. (refl, refl, refl)) g (ground (arith, h))
      (ground (arith, h)),
)
settle_found now id n (raised s) es e g h =
    one_of id n (leb max_attempts n) OutboxStatus.failed OutboxStatus.pending
      (mark_failed now id s (some n) es) (retry now id n s es)
      (row_after id n OutboxStatus.failed _ _ es e (λ x. (refl, refl, refl)) g (ground (arith, h))
        (ground (arith, h)))
      (row_after id n OutboxStatus.pending _ _ es e (λ x. (refl, refl, refl)) g h
        (ground (arith, h)))

-- What a worker does with an event it owns: it reports success exactly if the handler succeeded, and
-- the event ends completed after a success, pending again after an error that may be retried and
-- has attempts left, and failed otherwise; its attempts stay.
pub owned_event_settles :
    (now id n : ℕ) (o : Outcome) (es : List OutboxEvent) (e : OutboxEvent)
    → find (λ x. x.id == id) es ≡ some e
    → owns id n e ≡ true
    → Settled id n o (process_event now id n o es)
unfolding process_event renew
owned_event_settles now id n o es e f h =
    subst (Settled id n o)
      (sym (
        ap
          (λ owned.
            if owned
            then settle now id n o (renew now id n es).1
            else (false, (renew now id n es).1))
          (exists_of_find (λ x. x.id == id) (owns id n) es f h)))
      (settle_found now id n o (renew now id n es).1 (record e { updated_at = now })
        (find-changed (λ x. x.id == id) (owns id n) (λ x. record x { updated_at = now }) es
            (λ x. refl) f
          ∙ ground (arith, h))
        h)
