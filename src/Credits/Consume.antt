-- ===== src/Credits/Consume.antt =====
-- ConsumeCredits of server/internal/store/postgres/credit_store.go.
pub mod Outcomes
use featuresignals_unified.Base.{
  ℕ, Bool, true, false, not, ◌&&◌, ◌⊎◌, inl, inr, Option, none, some, List, [], ◌∷◌, if◌then◌else◌,
}
use featuresignals_unified.Base.Int.{ℤ, pos, negsuc, ◌+ℤ◌, ◌-ℤ◌, ltb_ℤ, leb_ℤ}
use featuresignals_unified.Base.Text.{Text, text_eq}
use featuresignals_unified.Eval.Engine.{is_nil}
use featuresignals_unified.Credits.{
  CreditBalance, CreditPack, CreditPurchase, CreditConsumption, Db, Faults, StoreError, Result,
  not_positive, insufficient, invalid_pack, get_pack, begin, check_balance, insert_balance, deduct,
  insert_record, add_credits, commit, with_balance, set_balance, balance_of, has_key, Tx, running,
  aborted, commit_tx, add_to_balance,
}

-- lookupIdempotentConsumption: -1 for a key that was used, and `none` for any error.
pub lookup_idempotent : Bool → Db → Text → Text → Option ℤ
lookup_idempotent true seen org key = none
lookup_idempotent false seen org key =
    if has_key org key seen.consumptions then some (negsuc 0) else none

-- `UPDATE credit_balances … WHERE … AND balance >= $3 RETURNING balance`, on the row that was
-- found; `none` is ErrNoRows.
abbrev pub deduct_row : Db → Text → Text → ℤ → Option CreditBalance → Option (ℤ × Db)
deduct_row db org bearer credits none = none
deduct_row db org bearer credits (some row) =
    if leb_ℤ credits row.balance
    then some (
      row.balance -ℤ credits,
      with_balance db org bearer (record {
        balance = row.balance -ℤ credits;
        lifetime_used = row.lifetime_used +ℤ credits;
      }),
    )
    else none

-- `INSERT INTO credit_consumptions`, under the unique index on organization and key.
unfoldable pub insert_consumption : CreditConsumption → Db → Tx
insert_consumption c db =
    if has_key c.org_id c.idempotency_key db.consumptions
    then aborted
    else running (record {
      balances = db.balances;
      consumptions = c ∷ db.consumptions;
      purchases = db.purchases;
      grants = db.grants;
      packs = db.packs;
      bearers = db.bearers;
    })

-- The rest of ConsumeCredits after an update that found no row, with the balance that the pool
-- then reads.
abbrev pub no_row : Faults → ℤ → ℤ → StoreError
no_row faults credits have =
    if faults.check_fails
    then check_balance
    else (if ltb_ℤ have credits
        then insufficient credits have
        else (if faults.insert_balance_fails then insert_balance else insufficient credits (pos 0)))

-- After an update that found a row.
abbrev pub record_consumption : Faults → Db → CreditConsumption → ℤ × Db → Result ℤ × Db
record_consumption faults db c (new_balance, tx) =
    if faults.insert_record_fails
    then (inl insert_record, db)
    else commit_tx faults.commit_fails db new_balance (insert_consumption c tx)

abbrev pub deducted : Faults → Db → Db → CreditConsumption → Option (ℤ × Db) → Result ℤ × Db
deducted faults checked db c none =
    (inl (no_row faults c.credits (balance_of (checked.balances c.org_id c.bearer_id))), db)
deducted faults checked db c (some row) = record_consumption faults db c row

-- The transaction of ConsumeCredits.
abbrev pub consume_tx : Faults → Db → Db → CreditConsumption → Result ℤ × Db
consume_tx faults checked db c =
    if faults.begin_fails
    then (inl begin, db)
    else (if faults.deduct_fails
        then (inl deduct, db)
        else deducted faults checked db c
            (deduct_row db c.org_id c.bearer_id c.credits (db.balances c.org_id c.bearer_id)))

abbrev pub after_lookup : Faults → Db → Db → CreditConsumption → Option ℤ → Result ℤ × Db
after_lookup faults checked db c (some existing) = (inr existing, db)
after_lookup faults checked db c none = consume_tx faults checked db c

-- ConsumeCredits: `seen` are the tables when the key is looked up, `db` when the transaction runs,
-- and `checked` when the balance is read after it found no row. The consumption holds the
-- arguments and the new ID.
unfoldable pub consume : Faults → Db → Db → Db → CreditConsumption → Result ℤ × Db
unfolding lookup_idempotent
consume faults seen checked db c =
    if leb_ℤ c.credits (pos 0)
    then (inl not_positive, db)
    else after_lookup faults checked db c (
        if is_nil c.idempotency_key
        then none
        else lookup_idempotent faults.lookup_fails seen c.org_id c.idempotency_key)
