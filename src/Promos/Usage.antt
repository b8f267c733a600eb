-- ===== src/Promos/Usage.antt =====
-- The usage counter of the promotions over many operations
-- (server/src/modules/promos/promos.service.ts).
use gramoz.Common.{
  Option-cases, inl, inr, sym, subst, ℕ, ◌+◌, ◌-◌, ◌≡◌, refl, ap, ◌∙◌, Bool, true, false, not, ◌&&◌,
  Option, none, some, List, [], ◌∷◌, arith, ltb, String,
}
use gramoz.Table.{exists, update, delete, find}
use gramoz.Schema.{Db}
use gramoz.Schema.Rows.{Promo}
use gramoz.Tx.{ok}
use gramoz.Promos.{
  CreatePromoDto, create, toggle_active, delete_promo, increment_usage, decrement_usage, has_id,
  can_use,
}

-- A promotion that was used more often than it may be.
abbrev pub overused : Promo → Bool
overused p = elim p.max_uses [ none ↦ false | some m ↦ ltb m p.current_uses ]

abbrev pub any_overused : Db → Bool
any_overused db = exists overused db.promos

exists-delete :
    (p q : Promo → Bool) (xs : List Promo) → exists p xs ≡ false → exists p (delete q xs) ≡ false
exists-delete p q [] h = refl
exists-delete p q (x ∷ xs) h = ground (arith, exists-delete p q xs)

exists-update :
    (p q : Promo → Bool) (f : Promo → Promo) (xs : List Promo)
    → ((x : Promo) → q x ≡ true → p x ≡ false → p (f x) ≡ false)
    → exists p xs ≡ false
    → exists p (update q f xs) ≡ false
exists-update p q f [] k h = refl
exists-update p q f (x ∷ xs) k h = ground (arith, exists-update p q f xs k, k x)

-- One operation on the promotions that succeeds.
pub data PromoStep (a b : Db) : Type 0 where
  created :
      (normalize : String → String) (id : ℕ) (dto : CreatePromoDto) (p : Promo)
      → create normalize id dto a ≡ ok (p, b)
      → PromoStep a b
  toggled : (id : ℕ) (p : Option Promo) → toggle_active id a ≡ ok (p, b) → PromoStep a b
  deleted : (id : ℕ) (p : Promo) → delete_promo id a ≡ ok (p, b) → PromoStep a b
  used : (id now : ℕ) (u : Bool) → increment_usage id now a ≡ ok (u, b) → PromoStep a b
  released : (id : ℕ) → decrement_usage id a ≡ b → PromoStep a b

pub data PromoRun : Db → Db → Type 0 where
  done : {a : Db} → PromoRun a a
  next : {a b c : Db} → PromoStep a b → PromoRun b c → PromoRun a c

toggle_active_lem :
    (id : ℕ) (a b : Db) (p : Promo) {x : Option Promo}
    → find (has_id id) a.promos ≡ some p
    → toggle_active id a ≡ ok (x, b)
    → update (has_id id) (λ q. record q { is_active = not p.is_active }) a.promos ≡ b.promos
unfolding toggle_active
toggle_active_lem id a b p f h = ground arith

toggle_absent :
    (id : ℕ) (a b : Db) {A : Type 0} {x : Option Promo}
    → find (has_id id) a.promos ≡ none
    → toggle_active id a ≡ ok (x, b)
    → A
unfolding toggle_active
toggle_absent id a b f h = ground arith

delete_promo_lem :
    (id : ℕ) (a b : Db) {p : Promo}
    → delete_promo id a ≡ ok (p, b)
    → delete (has_id id) a.promos ≡ b.promos
unfolding delete_promo
delete_promo_lem id a b h = ground arith

increment_usage_lem :
    (id now : ℕ) (a b : Db) {u : Bool}
    → increment_usage id now a ≡ ok (u, b)
    → update (can_use id now) (λ p. record p { current_uses = p.current_uses + 1 }) a.promos
      ≡ b.promos
unfolding increment_usage
increment_usage_lem id now a b h = ground arith

toggle-keeps :
    (id : ℕ) (a b : Db) (x : Option Promo)
    → toggle_active id a ≡ ok (x, b)
    → exists overused a.promos ≡ false
    → exists overused b.promos ≡ false
toggle-keeps id a b x e h = elim (Option-cases (find (has_id id) a.promos)) [
  | inl n ↦ toggle_absent id a b n e
  | inr (p, f) ↦
      subst (λ ps. exists overused ps ≡ false) (toggle_active_lem id a b p f e)
        (exists-update overused (has_id id) (λ q. record q { is_active = not p.is_active }) a.promos
          (λ x c o. o) h)
]

step-keeps : (a b : Db) → PromoStep a b → any_overused a ≡ false → any_overused b ≡ false
unfolding create decrement_usage
step-keeps a b (created normalize id dto p e) h = ground arith
step-keeps a b (toggled id p e) h = toggle-keeps id a b p e h
step-keeps a b (deleted id p e) h =
    subst (λ ps. exists overused ps ≡ false) (delete_promo_lem id a b e)
      (exists-delete overused (has_id id) a.promos h)
step-keeps a b (used id now u e) h =
    subst (λ ps. exists overused ps ≡ false) (increment_usage_lem id now a b e)
      (exists-update overused (can_use id now) (λ p. record p { current_uses = p.current_uses + 1 })
        a.promos (λ p c o. ground arith) h)
step-keeps a b (released id e) h =
    ap (λ d. exists overused d.promos) (sym e)
    ∙ exists-update overused (λ p. has_id id p && ltb 0 p.current_uses)
        (λ p. record p { current_uses = p.current_uses - 1 }) a.promos (λ p c o. ground arith) h

-- No promotion is used too often: if no promotion has more uses than it may have, then none has
-- after any run of creations, toggles, deletions, uses and releases.
pub uses_stay_within : (a b : Db) → PromoRun a b → any_overused a ≡ false → any_overused b ≡ false
uses_stay_within a b done h = h
uses_stay_within a b (next s r) h = uses_stay_within _ b r (step-keeps a _ s h)
