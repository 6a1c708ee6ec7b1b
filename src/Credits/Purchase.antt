-- ===== src/Credits/Purchase.antt =====
-- PurchaseCredits of server/internal/store/postgres/credit_store.go.
use featuresignals_unified.Base.{ℕ, not, inl, Option, none, some, ◌∷◌, if◌then◌else◌}
use featuresignals_unified.Base.Text.{Text}
use featuresignals_unified.Credits.{
  CreditPack, CreditPurchase, Db, Faults, Result, invalid_pack, get_pack, begin, insert_record,
  add_credits, running, commit_tx, add_to_balance,
}

abbrev pub with_purchase : CreditPurchase → Db → Db
with_purchase p db = record {
  balances = db.balances;
  consumptions = db.consumptions;
  purchases = p ∷ db.purchases;
  grants = db.grants;
  packs = db.packs;
  bearers = db.bearers;
}

-- The transaction of PurchaseCredits, for a pack that was found.
abbrev pub purchase_tx : Faults → Db → CreditPurchase → Result CreditPurchase × Db
purchase_tx faults db p =
    if faults.begin_fails
    then (inl begin, db)
    else (if faults.insert_record_fails
        then (inl insert_record, db)
        else (if faults.add_credits_fails
            then (inl add_credits, db)
            else commit_tx faults.commit_fails db p
                (running (add_to_balance p.org_id p.bearer_id p.credits (with_purchase p db)))))

-- GetCreditPack reads active packs only; then the second test of PurchaseCredits.
abbrev pub purchase_pack :
    Faults → Db → Text → Text → Text → ℕ → Option CreditPack → Result CreditPurchase × Db
purchase_pack faults db org pack_id id now none = (inl invalid_pack, db)
purchase_pack faults db org pack_id id now (some pack) =
    if not pack.is_active
    then (inl invalid_pack, db)
    else purchase_tx faults db (record {
      id = id;
      org_id = org;
      pack_id = pack_id;
      bearer_id = pack.bearer_id;
      credits = pack.credits;
      price_paise = pack.price_paise;
      purchased_at = now;
    })

-- PurchaseCredits; `id` and `now` are the new ID and the clock.
unfoldable pub purchase : Faults → Db → Text → Text → Text → ℕ → Result CreditPurchase × Db
purchase faults db org pack_id id now =
    if faults.lookup_fails
    then (inl get_pack, db)
    else purchase_pack faults db org pack_id id now (db.packs pack_id)
