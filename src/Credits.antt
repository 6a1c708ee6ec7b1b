-- ===== src/Credits.antt =====
-- Pre-paid credits: server/internal/store/postgres/credit_store.go with the records of
-- domain/credits.go. The tables are the state. A transaction works on a copy of them that replaces
-- them when it commits; the deferred Rollback drops the copy. Each statement has a flag that
-- says whether it fails (the connection, a time out, an overflow), and the pool's readings see
-- tables of their own, so that other transactions may commit in between.
pub mod Consume
pub mod Purchase
pub mod Monthly
pub mod Ledger
pub mod Histories
mod Tests
use featuresignals_unified.Base.{
  ℕ, ◌-◌, ◌*◌, ◌%◌, Bool, true, false, not, ◌&&◌, ◌⊎◌, inl, inr, Option, none, some, List, [], ◌∷◌,
  ◌==◌, if◌then◌else◌,
}
use featuresignals_unified.Base.Int.{ℤ, pos, negsuc, ◌+ℤ◌, ◌-ℤ◌, ltb_ℤ, leb_ℤ}
use featuresignals_unified.Base.Text.{Text, text_eq}
use featuresignals_unified.Eval.Engine.{is_nil}
use featuresignals_unified.Plans.{Plan, free, pro, enterprise}

-- The columns of cost_bearers that are read.
pub record CostBearer : Type 0 where
  pub id : Text
  pub free_units : ℤ
  pub pro_units : ℤ

pub record CreditPack : Type 0 where
  pub id : Text
  pub bearer_id : Text
  pub credits : ℤ
  pub price_paise : ℤ
  pub is_active : Bool

pub record CreditBalance : Type 0 where
  pub balance : ℤ
  pub lifetime_used : ℤ

pub record CreditPurchase : Type 0 where
  pub id : Text
  pub org_id : Text
  pub pack_id : Text
  pub bearer_id : Text
  pub credits : ℤ
  pub price_paise : ℤ
  pub purchased_at : ℕ

pub record CreditConsumption : Type 0 where
  pub id : Text
  pub org_id : Text
  pub bearer_id : Text
  pub operation : Text
  pub credits : ℤ
  pub idempotency_key : Text

-- The tables: balances by organization and bearer, grants by organization, bearer and period.
pub record Db : Type 0 where
  pub balances : Text → Text → Option CreditBalance
  pub consumptions : List CreditConsumption
  pub purchases : List CreditPurchase
  pub grants : Text → Text → ℕ → Bool
  pub packs : Text → Option CreditPack
  pub bearers : List CostBearer

-- `errors.Is(err, …)` distinguishes ErrInsufficientCredits and ErrInvalidCreditPack; `failed`
-- names the statement.
pub data StoreError : Type 0 where
  not_positive get_pack : StoreError
  insufficient : ℤ → ℤ → StoreError
  invalid_pack : StoreError
  list_bearers begin check_balance insert_balance deduct insert_record add_credits : StoreError
  record_grant commit : StoreError

-- `(value, error)`: an error, or a value.
abbrev pub Result : Type 0 → Type 0
Result A = StoreError ⊎ A

-- Which statements fail.
pub record Faults : Type 0 where
  pub lookup_fails : Bool
  pub begin_fails : Bool
  pub deduct_fails : Bool
  pub check_fails : Bool
  pub insert_balance_fails : Bool
  pub insert_record_fails : Bool
  pub add_credits_fails : Bool
  pub commit_fails : Bool

unfoldable pub set_balance :
    Text
    → Text
    → CreditBalance
    → (Text → Text → Option CreditBalance)
    → Text
    → Text
    → Option CreditBalance
set_balance org bearer row balances o b =
    if text_eq org o && text_eq bearer b then some row else balances o b

abbrev pub with_balance : Db → Text → Text → CreditBalance → Db
with_balance db org bearer row = record {
  balances = set_balance org bearer row db.balances;
  consumptions = db.consumptions;
  purchases = db.purchases;
  grants = db.grants;
  packs = db.packs;
  bearers = db.bearers;
}

-- GetCreditBalance: a missing row is a balance of 0.
abbrev pub balance_of : Option CreditBalance → ℤ
balance_of none = pos 0
balance_of (some row) = row.balance

-- A row of credit_consumptions has this organization and idempotency key.
unfoldable pub has_key : Text → Text → List CreditConsumption → Bool
has_key org key [] = false
has_key org key (c ∷ cs) =
    if text_eq c.org_id org && text_eq c.idempotency_key key then true else has_key org key cs

-- A transaction's tables, until an error of a statement aborts it.
pub data Tx : Type 0 where
  running : Db → Tx
  aborted : Tx

-- `tx.Commit`, which fails in an aborted transaction. A failed commit leaves the tables.
abbrev pub commit_tx : {A : Type 0} → Bool → Db → A → Tx → Result A × Db
commit_tx fails db value aborted = (inl commit, db)
commit_tx true db value (running tx) = (inl commit, db)
commit_tx false db value (running tx) = (inr value, tx)

-- The row after `ON CONFLICT … DO UPDATE SET balance = balance + $3`, or the new row.
abbrev pub added : ℤ → Option CreditBalance → CreditBalance
added credits none = record { balance = credits; lifetime_used = pos 0 }
added credits (some row) = record {
  balance = row.balance +ℤ credits;
  lifetime_used = row.lifetime_used;
}

-- `INSERT INTO credit_balances … ON CONFLICT (org_id, bearer_id) …`
abbrev pub add_to_balance : Text → Text → ℤ → Db → Db
add_to_balance org bearer credits db =
    with_balance db org bearer (added credits (db.balances org bearer))
