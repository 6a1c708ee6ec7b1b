-- ===== src/Credits/Tests.antt =====
-- Credits of a concrete organization.
use featuresignals_unified.Base.{◌≡◌, ◌≢◌, inl, inr, refl, true, false, none, [], ◌∷◌, arith}
use featuresignals_unified.Base.Int.{ℤ, pos, negsuc, ◌-ℤ◌}
use featuresignals_unified.Base.Preds.{All}
use featuresignals_unified.Base.Text.{Text, bytes, text_eq}
use featuresignals_unified.Plans.{free}
use featuresignals_unified.Credits.{
  CostBearer, CreditConsumption, Db, Faults, Result, has_key, set_balance, commit,
}
use featuresignals_unified.Credits.Consume.{consume, insert_consumption}
use featuresignals_unified.Credits.Consume.Outcomes.{
  Outcome, consume-Outcome, consume-keyed, consume-keyless,
}
use featuresignals_unified.Credits.Monthly.{GrantFaults, grant_bearer, grant_monthly}
use featuresignals_unified.Credits.Monthly.Granted.{Settled, grant_monthly-twice, grant_bearer-lost}
use featuresignals_unified.Credits.Ledger.{IsSound}
use featuresignals_unified.Credits.Histories.{
  done, extend, consumed, granted, IsOnce, Steps-IsSound,
}

abbrev no_faults : Faults
no_faults = record {
  lookup_fails = false;
  begin_fails = false;
  deduct_fails = false;
  check_fails = false;
  insert_balance_fails = false;
  insert_record_fails = false;
  add_credits_fails = false;
  commit_fails = false;
}

abbrev janitor : CostBearer
janitor = record { id = bytes "ai_janitor"; free_units = pos 25; pro_units = pos 200 }

abbrev empty_db : Db
empty_db = record {
  balances = λ o b. none;
  consumptions = [];
  purchases = [];
  grants = λ o b p. false;
  packs = λ id. none;
  bearers = janitor ∷ [];
}

abbrev fine : Text → GrantFaults
fine id = record { record_fails = false; add_fails = false }

abbrev funded_db : Db
funded_db = (grant_monthly false fine (bytes "acme") free 7 empty_db).1

abbrev scan : Text → CreditConsumption
scan key = record {
  id = bytes "c1";
  org_id = bytes "acme";
  bearer_id = bytes "ai_janitor";
  operation = bytes "scan_repo";
  credits = pos 10;
  idempotency_key = key;
}

abbrev scanned : Text → Result ℤ × Db
scanned key = consume no_faults funded_db funded_db funded_db (scan key)

-- The first scan leaves 15 credits; a repetition answers -1; with a stale lookup its commit fails.
scans :
    ((scanned (bytes "k")).0 ≡ inr (pos 15))
    × ((consume no_faults
          (scanned (bytes "k")).1
          funded_db
          (scanned (bytes "k")).1
          (scan (bytes "k"))).0
        ≡ inr (negsuc 0))
    × ((consume no_faults funded_db funded_db (scanned (bytes "k")).1 (scan (bytes "k"))).0
        ≡ inl commit)
unfolding consume grant_monthly has_key grant_bearer set_balance text_eq insert_consumption ◌-ℤ◌
scans = (refl, refl, refl)

consume-Outcome_example : Outcome funded_db funded_db (scan (bytes "k")) (scanned (bytes "k"))
consume-Outcome_example = consume-Outcome no_faults funded_db funded_db funded_db (scan (bytes "k"))

consume-keyed_test :
    (consume no_faults funded_db funded_db (scanned (bytes "k")).1 (scan (bytes "k"))).1
    ≡ (scanned (bytes "k")).1
unfolding consume grant_monthly has_key grant_bearer set_balance text_eq insert_consumption ◌-ℤ◌
consume-keyed_test =
    consume-keyed no_faults funded_db funded_db (scanned (bytes "k")).1 (scan (bytes "k")) refl

consume-keyless_test :
    (consume no_faults (scanned []).1 (scanned []).1 (scanned []).1 (scan [])).0 ≢ inr (pos 5)
unfolding consume grant_monthly has_key grant_bearer set_balance text_eq insert_consumption ◌-ℤ◌
consume-keyless_test =
    consume-keyless no_faults (scanned []).1 (scanned []).1 (scanned []).1 (scan []) (pos 5) refl
      refl

grant_monthly-twice_example :
    All (Settled (bytes "acme") free 7 funded_db) (janitor ∷ [])
    × ((grant_monthly false fine (bytes "acme") free 7 funded_db).1 ≡ funded_db)
unfolding grant_monthly grant_bearer
grant_monthly-twice_example =
    grant_monthly-twice (bytes "acme") free 7 false fine fine empty_db refl

abbrev broken : GrantFaults
broken = record { record_fails = false; add_fails = true }

grant_bearer-lost_test :
    (grant_bearer
      (fine [])
      (bytes "acme")
      free
      7
      janitor
      (grant_bearer broken (bytes "acme") free 7 janitor empty_db).1).1
    ≡ (grant_bearer broken (bytes "acme") free 7 janitor empty_db).1
unfolding grant_bearer
grant_bearer-lost_test =
    grant_bearer-lost (bytes "acme") free 7 broken (fine []) janitor empty_db refl

Steps-IsSound_example : IsSound (scanned (bytes "k")).1 × IsOnce (scanned (bytes "k")).1
Steps-IsSound_example =
    Steps-IsSound empty_db (scanned (bytes "k")).1
      (extend empty_db funded_db (scanned (bytes "k")).1
        (extend empty_db empty_db funded_db (done empty_db)
          (granted false fine (bytes "acme") free 7 empty_db funded_db refl))
        (consumed no_faults funded_db funded_db funded_db (scanned (bytes "k")).1 (scan (bytes "k"))
          refl))
      (λ o b. (omega arith, refl)) (λ o key. omega arith)
