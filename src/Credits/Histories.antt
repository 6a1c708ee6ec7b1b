-- ===== src/Credits/Histories.antt =====
-- Histories of the credit tables: any sequence of calls, each with its own failures and with
-- readings of the pool that may be stale.
use mathlib.Core.Path.{subst}
use featuresignals_unified.Base.{
  ℕ, ◌≡◌, ◌≤◌, ◌+◌, inl, inr, Bool, true, false, ◌&&◌, some, List, [], ◌∷◌, if◌then◌else◌, refl,
  arith, Bool-cases, ap, sym, ◌∙◌,
}
use featuresignals_unified.Base.Int.{ℤ, pos, ◌≤ℤ◌}
use featuresignals_unified.Base.Text.{Text, text_eq, text_eq_iff}
use featuresignals_unified.Plans.{Plan}
use featuresignals_unified.Credits.{
  CreditPack, CreditConsumption, CreditPurchase, CostBearer, Db, Faults, Result, has_key,
}
use featuresignals_unified.Credits.Consume.{consume}
use featuresignals_unified.Credits.Consume.Outcomes.{Outcome, consume-Outcome}
use featuresignals_unified.Credits.Purchase.{purchase, purchase_tx}
use featuresignals_unified.Credits.Monthly.{
  GrantFaults, grant_monthly, grant_loop, grant_next, grant_bearer,
}
use featuresignals_unified.Credits.Monthly.Granted.{GrantOutcome, grant_bearer-GrantOutcome}
use featuresignals_unified.Credits.Ledger.{
  IsSound, consume-IsSound, purchase-IsSound, grant_monthly-IsSound,
}

-- One call. The packs that are bought have credits that are not negative. A monthly grant is one step here,
-- though its statements run one by one outside a transaction.
pub data Step : Db → Db → Type 0 where
  consumed :
      (faults : Faults) (seen checked db after : Db) (c : CreditConsumption)
      → after ≡ (consume faults seen checked db c).1
      → Step db after
  purchased :
      (faults : Faults) (db after : Db) (org pack_id id : Text) (now : ℕ)
      → ((p : CreditPack) → db.packs pack_id ≡ some p → pos 0 ≤ℤ p.credits)
      → after ≡ (purchase faults db org pack_id id now).1
      → Step db after
  granted :
      (list_fails : Bool) (faults : Text → GrantFaults) (org : Text) (plan : Plan) (start : ℕ)
      (db after : Db)
      → after ≡ (grant_monthly list_fails faults org plan start db).1
      → Step db after

-- The tables that a sequence of calls reaches.
pub data Steps : Db → Db → Type 0 where
  done : (db : Db) → Steps db db
  extend : (db mid after : Db) → Steps db mid → Step mid after → Steps db after

-- The recorded consumptions of an organization with an idempotency key.
abbrev pub uses : Text → Text → List CreditConsumption → ℕ
uses org key [] = 0
uses org key (c ∷ cs) =
    (if text_eq c.org_id org && text_eq c.idempotency_key key then 1 else 0) + uses org key cs

-- Every idempotency key of an organization was charged at most once.
abbrev pub IsOnce : Db → Type 0
IsOnce db = (org key : Text) → uses org key db.consumptions ≤ 1

Step-IsSound : (db after : Db) → Step db after → IsSound db → IsSound after
Step-IsSound db after (consumed faults seen checked _ _ c e) sound =
    subst IsSound (sym e) (consume-IsSound faults seen checked db c sound)
Step-IsSound db after (purchased faults _ _ org pack_id id now le e) sound =
    subst IsSound (sym e) (purchase-IsSound faults db org pack_id id now le sound)
Step-IsSound db after (granted list_fails faults org plan start _ _ e) sound =
    subst IsSound (sym e) (grant_monthly-IsSound list_fails faults org plan start db sound)

has_key-uses :
    (org key : Text) (cs : List CreditConsumption)
    → has_key org key cs ≡ false
    → uses org key cs ≡ 0
unfolding has_key
has_key-uses org key [] h = refl
has_key-uses org key (c ∷ cs) h = ground (arith, h, has_key-uses org key cs)

Outcome-IsOnce :
    (seen db : Db) (c : CreditConsumption) (r : Result ℤ × Db)
    → Outcome seen db c r
    → IsOnce db
    → IsOnce r.1
Outcome-IsOnce seen db c (inl e, after) h once = subst IsOnce (sym h) once
Outcome-IsOnce seen db c (inr a, after) (inl h) once = subst IsOnce (sym h.1) once
Outcome-IsOnce seen db c (inr a, after) (inr (row, e, p, le, k, eq, same)) once =
    subst IsOnce (sym same) (λ org key.
      elim (Bool-cases (text_eq c.org_id org && text_eq c.idempotency_key key)) [
        | inl t ↦
            let same_org : c.org_id ≡ org = (text_eq_iff c.org_id org).0 (ground arith) in
            let same_key : c.idempotency_key ≡ key =
              (text_eq_iff c.idempotency_key key).0 (ground arith) in
            let fresh : has_key org key db.consumptions ≡ false = cc (same_org, same_key, k) in
            rw t (omega (arith, has_key-uses org key db.consumptions fresh))
        | inr f ↦ rw f (omega (arith, once org key))
      ])

purchase_tx-consumptions :
    (faults : Faults) (db : Db) (p : CreditPurchase)
    → (purchase_tx faults db p).1.consumptions ≡ db.consumptions
purchase_tx-consumptions faults db p = ground arith

purchase-consumptions :
    (faults : Faults) (db : Db) (org pack_id id : Text) (now : ℕ)
    → (purchase faults db org pack_id id now).1.consumptions ≡ db.consumptions
unfolding purchase
purchase-consumptions faults db org pack_id id now = ground arith

GrantOutcome-consumptions :
    (org : Text) (plan : Plan) (start : ℕ) (b : CostBearer) (db : Db) (r : Result Unit × Db)
    → GrantOutcome org plan start b db r
    → r.1.consumptions ≡ db.consumptions
GrantOutcome-consumptions org plan start b db r (inl (e, s)) = rw e refl
GrantOutcome-consumptions org plan start b db r (inr (inl e)) = rw e refl
GrantOutcome-consumptions org plan start b db r (inr (inr (f, g, inl e))) = rw e refl
GrantOutcome-consumptions org plan start b db r (inr (inr (f, g, inr e))) = rw e refl

grant_next-consumptions :
    (cs : List CreditConsumption) (r : Result Unit × Db) (next : Db → Result Unit × Db)
    → r.1.consumptions ≡ cs
    → ((d : Db) → (next d).1.consumptions ≡ d.consumptions)
    → (grant_next r next).1.consumptions ≡ cs
grant_next-consumptions cs (inl e, after) next h k = h
grant_next-consumptions cs (inr u, after) next h k = k after ∙ h

grant_loop-consumptions :
    (faults : Text → GrantFaults) (org : Text) (plan : Plan) (start : ℕ) (bs : List CostBearer)
    (db : Db)
    → (grant_loop faults org plan start bs db).1.consumptions ≡ db.consumptions
unfolding grant_loop
grant_loop-consumptions faults org plan start [] db = refl
grant_loop-consumptions faults org plan start (b ∷ bs) db =
    grant_next-consumptions db.consumptions (grant_bearer (faults b.id) org plan start b db)
      (λ after. grant_loop faults org plan start bs after)
      (GrantOutcome-consumptions org plan start b db
        (grant_bearer (faults b.id) org plan start b db)
        (grant_bearer-GrantOutcome org plan start (faults b.id) b db))
      (grant_loop-consumptions faults org plan start bs)

grant_monthly-consumptions :
    (list_fails : Bool) (faults : Text → GrantFaults) (org : Text) (plan : Plan) (start : ℕ)
    (db : Db)
    → (grant_monthly list_fails faults org plan start db).1.consumptions ≡ db.consumptions
unfolding grant_monthly
grant_monthly-consumptions true faults org plan start db = refl
grant_monthly-consumptions false faults org plan start db =
    grant_loop-consumptions faults org plan start db.bearers db

Step-IsOnce : (db after : Db) → Step db after → IsOnce db → IsOnce after
Step-IsOnce db after (consumed faults seen checked _ _ c e) once = subst IsOnce (sym e) (
    Outcome-IsOnce seen db c (consume faults seen checked db c)
      (consume-Outcome faults seen checked db c) once)
Step-IsOnce db after (purchased faults _ _ org pack_id id now le e) once = λ o key.
    subst (λ cs. uses o key cs ≤ 1)
      (sym (ap (λ d. d.consumptions) e ∙ purchase-consumptions faults db org pack_id id now))
      (once o key)
Step-IsOnce db after (granted list_fails faults org plan start _ _ e) once = λ o key.
    subst (λ cs. uses o key cs ≤ 1)
      (sym (
        ap (λ d. d.consumptions) e
        ∙ grant_monthly-consumptions list_fails faults org plan start db))
      (once o key)

-- However calls to consume, buy and grant credits follow each other, whatever fails in them and
-- however stale their readings are: when the books balance at the start and no key was charged
-- twice, then so it is at the end. The packs that are bought have credits that are not negative.
pub Steps-IsSound :
    (db after : Db) → Steps db after → IsSound db → IsOnce db → IsSound after × IsOnce after
Steps-IsSound db after (done _) sound once = (sound, once)
Steps-IsSound db after (extend _ mid _ steps step) sound once =
    let (s, o) = Steps-IsSound db mid steps sound once in
    (Step-IsSound mid after step s, Step-IsOnce mid after step o)
