-- ===== src/Outbox/Attempts.antt =====
-- How often an event is tried (server/src/modules/orders/outbox.processor.ts).
use gramoz.Common.{
  ℕ, ◌+◌, ◌≤◌, ◌≡◌, refl, ap, ◌∙◌, sym, subst, Bool, true, false, ◌&&◌, none, some, List, [], ◌∷◌,
  arith, leb, ◌==◌, if◌then◌else◌, Bool-cases, Option-cases, inl, inr, ==_iff,
}
use gramoz.Table.{find, update, exists, select}
use gramoz.Table.Laws.{find-changed, find_sound}
use gramoz.Outbox.{
  OutboxEvent, max_attempts, is_stranded, recovered_row, recover_stranded_events, is_claimable,
  insert_event, by_age, first_events, is_due, due_events, claimed_row, claim, owns, renew, complete,
  retry, mark_failed, Outcome, succeeded, unknown_type, raised, non_retryable, settle,
}
use gramoz.Outbox.Fencing.{OutboxStep, OutboxRun, recovers, claims, renews, settles, done, next}

abbrev is_id : ℕ → OutboxEvent → Bool
is_id k e = e.id == k

-- The primary key: no two rows have one id.
abbrev pub IdsAreUnique : List OutboxEvent → Type 0
IdsAreUnique [] = Unit {0}
IdsAreUnique (e ∷ es) = (exists (λ x. x.id == e.id) es ≡ false) × IdsAreUnique es

-- Every event was tried at most `max_attempts` times.
abbrev pub Bounded : List OutboxEvent → Type 0
Bounded es =
    (k : ℕ) (e : OutboxEvent) → find (λ x. x.id == k) es ≡ some e → e.attempts ≤ max_attempts

-- A row that is due comes from a row that may be claimed.
exists-select :
    (p q : OutboxEvent → Bool) (es : List OutboxEvent)
    → exists p (select q es) ≡ exists (λ e. p e && q e) es
exists-select p q [] = refl
exists-select p q (e ∷ es) = ground (arith, exists-select p q es)

exists-insert :
    (p : OutboxEvent → Bool) (e : OutboxEvent) (es : List OutboxEvent)
    → exists p (insert_event e es) ≡ (if p e then true else exists p es)
unfolding insert_event
exists-insert p e [] = ground arith
exists-insert p e (x ∷ xs) = ground (arith, exists-insert p e xs)

exists-by_age :
    (p : OutboxEvent → Bool) (es : List OutboxEvent) → exists p (by_age es) ≡ exists p es
unfolding by_age
exists-by_age p [] = refl
exists-by_age p (e ∷ es) = exists-insert p e (by_age es) ∙ ground (arith, exists-by_age p es)

exists-first :
    (p : OutboxEvent → Bool) (n : ℕ) (es : List OutboxEvent)
    → exists p (first_events n es) ≡ true
    → exists p es ≡ true
unfolding first_events
exists-first p ℕ.zero es h = cc
exists-first p (ℕ.suc n) [] h = cc
exists-first p (ℕ.suc n) (e ∷ es) h = ground (arith, exists-first p n es)

due_claimable :
    (k : ℕ) (es : List OutboxEvent)
    → exists (is_id k) (due_events es) ≡ true
    → exists (λ e. is_id k e && is_claimable e) es ≡ true
unfolding due_events
due_claimable k es h =
    sym (exists-select (is_id k) is_claimable es)
    ∙ sym (exists-by_age (is_id k) (select is_claimable es))
    ∙ exists-first (is_id k) 10 (by_age (select is_claimable es)) h

absent :
    (k : ℕ) (p : OutboxEvent → Bool) (es : List OutboxEvent)
    → exists (is_id k) es ≡ false
    → exists (λ e. is_id k e && p e) es ≡ false
absent k p [] h = refl
absent k p (e ∷ es) h = ground (arith, absent k p es)

-- With unique ids, the row found is the row that may be claimed.
found_claimable :
    (k : ℕ) (p : OutboxEvent → Bool) (es : List OutboxEvent) (e : OutboxEvent)
    → IdsAreUnique es
    → find (λ x. x.id == k) es ≡ some e
    → exists (λ x. is_id k x && p x) es ≡ true
    → p e ≡ true
found_claimable k p [] e u f h = cc
found_claimable k p (x ∷ xs) e u f h = elim (Bool-cases (x.id == k)) [
  | inl m ↦
      let alone : exists (is_id k) xs ≡ false =
        subst (λ j. exists (is_id j) xs ≡ false) ((==_iff x.id k).0 m) u.0 in
      ground (arith, m, f, h, absent k p xs alone)
  | inr m ↦ found_claimable k p xs e u.1 (ground (arith, m, f)) (ground (arith, m, h))
]

find-nothing :
    (k : ℕ) (q : OutboxEvent → Bool) (f : OutboxEvent → OutboxEvent) (es : List OutboxEvent)
    → ((x : OutboxEvent) → (f x).id ≡ x.id)
    → find (λ x. x.id == k) es ≡ none
    → find (λ x. x.id == k) (update q f es) ≡ none
find-nothing k q f [] i h = refl
find-nothing k q f (x ∷ xs) i h = ground (arith, i x, find-nothing k q f xs i)

-- An update keeps the bound if it does at each row found.
update-Bounded :
    (q : OutboxEvent → Bool) (f : OutboxEvent → OutboxEvent) (es : List OutboxEvent)
    → ((x : OutboxEvent) → (f x).id ≡ x.id)
    → ((k : ℕ) (e : OutboxEvent)
        → find (λ x. x.id == k) es ≡ some e
        → q e ≡ true
        → (f e).attempts ≤ max_attempts)
    → Bounded es
    → Bounded (update q f es)
update-Bounded q f es i s b k d h = elim (Option-cases (find (λ x. x.id == k) es)) [
  | inl n ↦ ground (arith, h, find-nothing k q f es i n)
  | inr (e, m) ↦
      let changed = find-changed (λ x. x.id == k) q f es (λ x. ap (λ j. j == k) (i x)) m in
      elim (Bool-cases (q e)) [
        | inl y ↦ ground (arith, y, h, changed, s k e m y)
        | inr y ↦ ground (arith, y, h, changed, b k e m)
      ]
]

exists-update :
    (k : ℕ) (q : OutboxEvent → Bool) (f : OutboxEvent → OutboxEvent) (es : List OutboxEvent)
    → ((x : OutboxEvent) → (f x).id ≡ x.id)
    → exists (is_id k) (update q f es) ≡ exists (is_id k) es
exists-update k q f [] i = refl
exists-update k q f (x ∷ xs) i = ground (arith, i x, exists-update k q f xs i)

update-IdsAreUnique :
    (q : OutboxEvent → Bool) (f : OutboxEvent → OutboxEvent) (es : List OutboxEvent)
    → ((x : OutboxEvent) → (f x).id ≡ x.id)
    → IdsAreUnique es
    → IdsAreUnique (update q f es)
update-IdsAreUnique q f [] i u = tt
update-IdsAreUnique q f (x ∷ xs) i u =
    (ground (arith, i x, exists-update x.id q f xs i, u.0), update-IdsAreUnique q f xs i u.1)

-- What every statement keeps.
pub record Sound (es : List OutboxEvent) : Type 0 where
  pub unique : IdsAreUnique es
  pub bounded : Bounded es

-- An update that keeps ids and attempts.
update-Sound :
    (q : OutboxEvent → Bool) (f : OutboxEvent → OutboxEvent) (es : List OutboxEvent)
    → ((x : OutboxEvent) → ((f x).id ≡ x.id) × ((f x).attempts ≡ x.attempts))
    → Sound es
    → Sound (update q f es)
update-Sound q f es k s = record {
  unique = update-IdsAreUnique q f es (λ x. (k x).0) s.unique;
  bounded =
      update-Bounded q f es (λ x. (k x).0)
        (λ j e m y. subst (λ n. n ≤ max_attempts) (sym (k e).1) (s.bounded j e m)) s.bounded;
}

claimed_le :
    (es : List OutboxEvent)
    → IdsAreUnique es
    → (k : ℕ) (e : OutboxEvent) → find (λ x. x.id == k) es ≡ some e
    → is_due (due_events es) e ≡ true
    → e.attempts + 1 ≤ max_attempts
claimed_le es u k e m y =
    let same : e.id ≡ k = (==_iff e.id k).0 (find_sound (is_id k) es m) in
    let fit : is_claimable e ≡ true =
      found_claimable e.id is_claimable es e u (ap (λ j. find (λ x. x.id == j) es) same ∙ m)
        (due_claimable e.id es y) in
    ground (arith, fit)

claim-Sound : (now : ℕ) (es : List OutboxEvent) → Sound es → Sound (claim now es)
unfolding claim
claim-Sound now es s = record {
  unique = update-IdsAreUnique (is_due (due_events es)) (claimed_row now) es (λ x. refl) s.unique;
  bounded =
      update-Bounded (is_due (due_events es)) (claimed_row now) es (λ x. refl)
        (λ k e m y. claimed_le es s.unique k e m y) s.bounded;
}

settle-Sound :
    (now id n : ℕ) (o : Outcome) (es : List OutboxEvent) → Sound es → Sound (settle now id n o es).1
unfolding settle complete mark_failed retry
settle-Sound now id n succeeded es s = update-Sound _ _ es (λ x. (refl, refl)) s
settle-Sound now id n unknown_type es s = update-Sound _ _ es (λ x. (refl, refl)) s
settle-Sound now id n (non_retryable e) es s = update-Sound _ _ es (λ x. (refl, refl)) s
settle-Sound now id n (raised e) es s =
    either (leb max_attempts n) (mark_failed now id e (some n) es) (retry now id n e es)
      (update-Sound _ _ es (λ x. (refl, refl)) s) (update-Sound _ _ es (λ x. (refl, refl)) s)
  where
    either :
        (b : Bool) (x y : List OutboxEvent)
        → Sound x
        → Sound y
        → (let r : Bool × List OutboxEvent = if b then (false, x) else (false, y) in Sound r.1)
    either true x y h k = h
    either false x y h k = k

step-Sound : (a b : List OutboxEvent) → OutboxStep a b → Sound a → Sound b
unfolding recover_stranded_events renew
step-Sound a b (recovers now e) s =
    subst Sound e (update-Sound (is_stranded now) (recovered_row now) a (λ x. (refl, refl)) s)
step-Sound a b (claims now e) s = subst Sound e (claim-Sound now a s)
step-Sound a b (renews now j m e) s =
    subst Sound e
      (update-Sound (owns j m) (λ x. record x { updated_at = now }) a (λ x. (refl, refl)) s)
step-Sound a b (settles now j m o e) s = subst Sound e (settle-Sound now j m o a s)

-- Three attempts: if ids are unique and no event was tried more than three times, then over any
-- interleaving of the workers' statements ids stay unique and no event is tried more than three
-- times.
pub attempts_are_bounded : (a b : List OutboxEvent) → OutboxRun a b → Sound a → Sound b
attempts_are_bounded a b done s = s
attempts_are_bounded a b (next t r) s = attempts_are_bounded _ b r (step-Sound a _ t s)
