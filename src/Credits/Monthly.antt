-- ===== src/Credits/Monthly.antt =====
-- GrantMonthlyCredits of server/internal/store/postgres/credit_store.go. Its statements run outside
-- a transaction, so each is kept when a later one fails.
pub mod Granted
use featuresignals_unified.Base.{
  ℕ, ◌-◌, ◌%◌, Bool, true, false, ◌&&◌, inl, inr, List, [], ◌∷◌, ◌==◌, if◌then◌else◌,
}
use featuresignals_unified.Base.Int.{ℤ, pos, leb_ℤ}
use featuresignals_unified.Base.Text.{Text, text_eq}
use featuresignals_unified.Plans.{Plan, free, pro, enterprise}
use featuresignals_unified.Credits.{
  CostBearer, Db, Result, list_bearers, record_grant, add_credits, add_to_balance,
}

-- What a tier includes of a bearer.
pub tier_units : Plan → CostBearer → ℤ
tier_units free b = b.free_units
tier_units pro b = b.pro_units
tier_units enterprise b = pos 10000
tier_units _ b = b.free_units

-- Which statements fail for one bearer.
pub record GrantFaults : Type 0 where
  pub record_fails : Bool
  pub add_fails : Bool

unfoldable pub set_grant : Text → Text → ℕ → (Text → Text → ℕ → Bool) → Text → Text → ℕ → Bool
set_grant org bearer period grants o b p =
    if text_eq org o && text_eq bearer b && period == p then true else grants o b p

abbrev pub with_grant : Text → Text → ℕ → Db → Db
with_grant org bearer period db = record {
  balances = db.balances;
  consumptions = db.consumptions;
  purchases = db.purchases;
  grants = set_grant org bearer period db.grants;
  packs = db.packs;
  bearers = db.bearers;
}

abbrev day : ℕ
day = 86400000000000

-- `periodStart.Truncate(24 * time.Hour)`, in nanoseconds since Go's zero time
abbrev pub period_day : ℕ → ℕ
period_day period_start = period_start - period_start % day

-- The body of the loop: `inl` returns an error, `inr` goes on.
unfoldable pub grant_bearer : GrantFaults → Text → Plan → ℕ → CostBearer → Db → Result Unit × Db
unfolding tier_units
grant_bearer faults org plan start bearer db =
    let credits = tier_units plan bearer in
    if leb_ℤ credits (pos 0)
    then (inr tt, db)
    else (if faults.record_fails
        then (inl record_grant, db)
        else (if db.grants org bearer.id (period_day start)
            then (inr tt, db)
            else (if faults.add_fails
                then (inl add_credits, with_grant org bearer.id (period_day start) db)
                else (
                  inr tt,
                  add_to_balance org bearer.id credits
                      (with_grant org bearer.id (period_day start) db),
                ))))

-- An error leaves the loop; otherwise it goes on with the tables so far.
abbrev pub grant_next : Result Unit × Db → (Db → Result Unit × Db) → Result Unit × Db
grant_next (inl e, after) next = (inl e, after)
grant_next (inr u, after) next = next after

-- The loop; the faults of a bearer are those of its ID.
unfoldable pub grant_loop :
    (Text → GrantFaults) → Text → Plan → ℕ → List CostBearer → Db → Result Unit × Db
grant_loop faults org plan start [] db = (inr tt, db)
grant_loop faults org plan start (b ∷ bs) db =
    grant_next (grant_bearer (faults b.id) org plan start b db)
      (λ after. grant_loop faults org plan start bs after)

-- GrantMonthlyCredits.
unfoldable pub grant_monthly : Bool → (Text → GrantFaults) → Text → Plan → ℕ → Db → Result Unit × Db
unfolding grant_loop
grant_monthly list_fails faults org plan start db =
    if list_fails then (inl list_bearers, db) else grant_loop faults org plan start db.bearers db
