-- ===== src/Credits/Ledger.antt =====
-- The books balance: an invariant of the tables that every operation keeps.
use mathlib.Core.Path.{subst}
use featuresignals_unified.Base.{
  ℕ, ◌≡◌, inl, inr, Bool, true, false, ◌&&◌, Option, none, some, List, [], ◌∷◌, if◌then◌else◌, refl,
  arith, Bool-cases, ap, sym, ◌∙◌,
}
use featuresignals_unified.Base.Int.{ℤ, pos, ◌+ℤ◌, ◌≤ℤ◌, +ℤ_parts, -ℤ_parts}
use featuresignals_unified.Base.Text.{Text, text_eq, text_eq_iff}
use featuresignals_unified.Plans.{Plan}
use featuresignals_unified.Credits.{
  CostBearer, CreditPack, CreditBalance, CreditPurchase, CreditConsumption, Db, Faults, Result,
  balance_of, set_balance, added, add_to_balance,
}
use featuresignals_unified.Credits.Consume.{consume}
use featuresignals_unified.Credits.Consume.Outcomes.{charged, Outcome, consume-Outcome}
use featuresignals_unified.Credits.Purchase.{purchase, purchase_pack, purchase_tx, with_purchase}
use featuresignals_unified.Credits.Monthly.{
  tier_units, GrantFaults, with_grant, period_day, grant_bearer, grant_loop, grant_next,
  grant_monthly,
}
use featuresignals_unified.Credits.Monthly.Granted.{GrantOutcome, grant_bearer-GrantOutcome}

abbrev pub used_of : Option CreditBalance → ℤ
used_of none = pos 0
used_of (some row) = row.lifetime_used

-- The credits of an organization's recorded consumptions from a bearer.
abbrev pub spent : Text → Text → List CreditConsumption → ℤ
spent org bearer [] = pos 0
spent org bearer (c ∷ cs) =
    if text_eq c.org_id org && text_eq c.bearer_id bearer
    then spent org bearer cs +ℤ c.credits
    else spent org bearer cs

-- No balance is negative, and the used credits are those of the recorded consumptions.
abbrev pub IsSound : Db → Type 0
IsSound db =
    (org bearer : Text)
    → (pos 0 ≤ℤ balance_of (db.balances org bearer))
      × (used_of (db.balances org bearer) ≡ spent org bearer db.consumptions)

charged-IsSound :
    (db : Db) (c : CreditConsumption) (row : CreditBalance)
    → db.balances c.org_id c.bearer_id ≡ some row
    → c.credits ≤ℤ row.balance
    → IsSound db
    → IsSound (charged db c row)
unfolding set_balance
charged-IsSound db c row e le sound org bearer =
    elim (Bool-cases (text_eq c.org_id org && text_eq c.bearer_id bearer)) [
      | inl t ↦
          let same_org : c.org_id ≡ org = (text_eq_iff c.org_id org).0 (ground arith) in
          let same : c.bearer_id ≡ bearer = (text_eq_iff c.bearer_id bearer).0 (ground arith) in
          let found : db.balances org bearer ≡ some row = cc (same_org, same, e) in
          rw t (
            omega (arith, -ℤ_parts row.balance c.credits, le),
            ap (λ x. x +ℤ c.credits) (cc (found, (sound org bearer).1)),
          )
      | inr f ↦ rw f (sound org bearer)
    ]

added-IsSound :
    (credits : ℤ) (o : Option CreditBalance)
    → pos 0 ≤ℤ credits
    → pos 0 ≤ℤ balance_of o
    → (pos 0 ≤ℤ (added credits o).balance) × ((added credits o).lifetime_used ≡ used_of o)
added-IsSound credits none p h = (p, refl)
added-IsSound credits (some row) p h = (omega (arith, +ℤ_parts row.balance credits, h, p), refl)

add_to_balance-IsSound :
    (org bearer : Text) (credits : ℤ) (db : Db)
    → pos 0 ≤ℤ credits
    → IsSound db
    → IsSound (add_to_balance org bearer credits db)
unfolding set_balance
add_to_balance-IsSound org bearer credits db p sound o b =
    elim (Bool-cases (text_eq org o && text_eq bearer b)) [
      | inl t ↦
          let same_org : org ≡ o = (text_eq_iff org o).0 (ground arith) in
          let same : bearer ≡ b = (text_eq_iff bearer b).0 (ground arith) in
          let new = added-IsSound credits (db.balances org bearer) p (sound org bearer).0 in
          let at : db.balances org bearer ≡ db.balances o b = cc (same_org, same) in
          rw t (new.0, new.1 ∙ ap used_of at ∙ (sound o b).1)
      | inr f ↦ rw f (sound o b)
    ]

Outcome-IsSound :
    (seen db : Db) (c : CreditConsumption) (r : Result ℤ × Db)
    → Outcome seen db c r
    → IsSound db
    → IsSound r.1
Outcome-IsSound seen db c (inl e, after) h sound = subst IsSound (sym h) sound
Outcome-IsSound seen db c (inr a, after) (inl h) sound = subst IsSound (sym h.1) sound
Outcome-IsSound seen db c (inr a, after) (inr (row, e, p, le, k, eq, same)) sound =
    subst IsSound (sym same) (charged-IsSound db c row e le sound)

-- Consuming credits keeps the books: no balance becomes negative, and the used credits stay
-- those of the recorded consumptions, whatever fails and whatever the call saw.
pub consume-IsSound :
    (faults : Faults) (seen checked db : Db) (c : CreditConsumption)
    → IsSound db
    → IsSound (consume faults seen checked db c).1
consume-IsSound faults seen checked db c =
    Outcome-IsSound seen db c (consume faults seen checked db c)
      (consume-Outcome faults seen checked db c)

purchase_tx-IsSound :
    (faults : Faults) (db : Db) (p : CreditPurchase)
    → pos 0 ≤ℤ p.credits
    → IsSound db
    → IsSound (purchase_tx faults db p).1
purchase_tx-IsSound faults db p le sound =
    let next =
      add_to_balance-IsSound p.org_id p.bearer_id p.credits (with_purchase p db) le sound in
    elim (Bool-cases faults.begin_fails) [
      | inl t ↦ rw t sound
      | inr f ↦ elim (Bool-cases faults.insert_record_fails) [
        | inl t ↦ rw (f, t) sound
        | inr g ↦ elim (Bool-cases faults.add_credits_fails) [
          | inl t ↦ rw (f, g, t) sound
          | inr h ↦ elim (Bool-cases faults.commit_fails) [
            | inl t ↦ rw (f, g, h, t) sound
            | inr k ↦ rw (f, g, h, k) next
          ]
        ]
      ]
    ]

purchase_pack-IsSound :
    (faults : Faults) (db : Db) (org pack_id id : Text) (now : ℕ) (pack : Option CreditPack)
    → ((p : CreditPack) → pack ≡ some p → pos 0 ≤ℤ p.credits)
    → IsSound db
    → IsSound (purchase_pack faults db org pack_id id now pack).1
purchase_pack-IsSound faults db org pack_id id now none le sound = sound
purchase_pack-IsSound faults db org pack_id id now (some pack) le sound =
    elim (Bool-cases pack.is_active) [
      | inl t ↦ rw t (
          purchase_tx-IsSound faults db
            (record {
              id = id;
              org_id = org;
              pack_id = pack_id;
              bearer_id = pack.bearer_id;
              credits = pack.credits;
              price_paise = pack.price_paise;
              purchased_at = now;
            })
            (le pack refl) sound)
      | inr f ↦ rw f sound
    ]

-- Buying a pack whose credits are not negative keeps the books.
pub purchase-IsSound :
    (faults : Faults) (db : Db) (org pack_id id : Text) (now : ℕ)
    → ((p : CreditPack) → db.packs pack_id ≡ some p → pos 0 ≤ℤ p.credits)
    → IsSound db
    → IsSound (purchase faults db org pack_id id now).1
unfolding purchase
purchase-IsSound faults db org pack_id id now le sound = elim (Bool-cases faults.lookup_fails) [
  | inl t ↦ rw t sound
  | inr f ↦ rw f (purchase_pack-IsSound faults db org pack_id id now (db.packs pack_id) le sound)
]

GrantOutcome-IsSound :
    (org : Text) (plan : Plan) (start : ℕ) (b : CostBearer) (db : Db) (r : Result Unit × Db)
    → GrantOutcome org plan start b db r
    → IsSound db
    → IsSound r.1
GrantOutcome-IsSound org plan start b db r (inl (e, s)) sound = rw e sound
GrantOutcome-IsSound org plan start b db r (inr (inl e)) sound = rw e sound
GrantOutcome-IsSound org plan start b db r (inr (inr (f, g, inl e))) sound = rw e sound
GrantOutcome-IsSound org plan start b db r (inr (inr (f, g, inr e))) sound = rw e (
    add_to_balance-IsSound org b.id (tier_units plan b) (with_grant org b.id (period_day start) db)
      (ground (arith, f)) sound)

grant_next-IsSound :
    (r : Result Unit × Db) (next : Db → Result Unit × Db)
    → IsSound r.1
    → ((d : Db) → IsSound d → IsSound (next d).1)
    → IsSound (grant_next r next).1
grant_next-IsSound (inl e, after) next sound k = sound
grant_next-IsSound (inr u, after) next sound k = k after sound

grant_loop-IsSound :
    (faults : Text → GrantFaults) (org : Text) (plan : Plan) (start : ℕ) (bs : List CostBearer)
    (db : Db)
    → IsSound db
    → IsSound (grant_loop faults org plan start bs db).1
unfolding grant_loop
grant_loop-IsSound faults org plan start [] db sound = sound
grant_loop-IsSound faults org plan start (b ∷ bs) db sound =
    grant_next-IsSound (grant_bearer (faults b.id) org plan start b db)
      (λ after. grant_loop faults org plan start bs after)
      (GrantOutcome-IsSound org plan start b db (grant_bearer (faults b.id) org plan start b db)
        (grant_bearer-GrantOutcome org plan start (faults b.id) b db) sound)
      (grant_loop-IsSound faults org plan start bs)

-- A monthly grant keeps the books, whatever fails in it.
pub grant_monthly-IsSound :
    (list_fails : Bool) (faults : Text → GrantFaults) (org : Text) (plan : Plan) (start : ℕ)
    (db : Db)
    → IsSound db
    → IsSound (grant_monthly list_fails faults org plan start db).1
unfolding grant_monthly
grant_monthly-IsSound true faults org plan start db sound = sound
grant_monthly-IsSound false faults org plan start db sound =
    grant_loop-IsSound faults org plan start db.bearers db sound
