-- ===== src/Credits/Consume/Outcomes.antt =====
-- What ConsumeCredits does to the tables.
use featuresignals_unified.Base.{
  ◌≡◌, ◌≢◌, Bool, true, false, ◌⊎◌, inl, inr, Option, none, some, ◌∷◌, if◌then◌else◌, refl, arith,
  Bool-cases,
}
use featuresignals_unified.Base.Int.{ℤ, pos, negsuc, ◌+ℤ◌, ◌-ℤ◌, leb_ℤ, ◌≤ℤ◌}
use featuresignals_unified.Eval.Engine.{is_nil}
use featuresignals_unified.Credits.{
  CreditBalance, CreditConsumption, Db, Faults, Result, with_balance, set_balance, has_key,
}
use featuresignals_unified.Credits.Consume.{
  lookup_idempotent, deduct_row, insert_consumption, consume, consume_tx, after_lookup, deducted,
  record_consumption,
}

-- The tables after a consumption from the row: the credits moved from the balance to the used
-- ones, and the consumption recorded.
abbrev pub charged : Db → CreditConsumption → CreditBalance → Db
charged db c row = record {
  balances =
      set_balance c.org_id c.bearer_id
        (record {
          balance = row.balance -ℤ c.credits;
          lifetime_used = row.lifetime_used +ℤ c.credits;
        })
        db.balances;
  consumptions = c ∷ db.consumptions;
  purchases = db.purchases;
  grants = db.grants;
  packs = db.packs;
  bearers = db.bearers;
}

-- An answer without a change: -1 for a key that was seen.
abbrev pub Repeated : Db → Db → CreditConsumption → ℤ → Db → Type 0
Repeated seen db c answer after =
    (answer ≡ negsuc 0)
    × (after ≡ db)
    × (is_nil c.idempotency_key ≡ false)
    × (has_key c.org_id c.idempotency_key seen.consumptions ≡ true)

-- The credits were there, the key was not, and the answer is the new balance.
abbrev pub Charged : Db → CreditConsumption → ℤ → Db → Type 0
Charged db c answer after =
    (row : CreditBalance) × (db.balances c.org_id c.bearer_id ≡ some row)
    × (pos 1 ≤ℤ c.credits)
    × (c.credits ≤ℤ row.balance)
    × (has_key c.org_id c.idempotency_key db.consumptions ≡ false)
    × (answer ≡ row.balance -ℤ c.credits)
    × (after ≡ charged db c row)

abbrev pub Outcome : Db → Db → CreditConsumption → Result ℤ × Db → Type 0
Outcome seen db c (inl e, after) = after ≡ db
Outcome seen db c (inr answer, after) = Repeated seen db c answer after ⊎ Charged db c answer after

module _ (faults : Faults) (seen checked db : Db) (c : CreditConsumption) where
  record-Outcome :
      (row : CreditBalance)
      → db.balances c.org_id c.bearer_id ≡ some row
      → pos 1 ≤ℤ c.credits
      → c.credits ≤ℤ row.balance
      → Outcome seen db c (
          record_consumption faults db c (
            row.balance -ℤ c.credits,
            with_balance db c.org_id c.bearer_id (record {
              balance = row.balance -ℤ c.credits;
              lifetime_used = row.lifetime_used +ℤ c.credits;
            }),
          ))
  unfolding insert_consumption
  record-Outcome row e p le = elim (Bool-cases faults.insert_record_fails) [
    | inl t ↦ rw t refl
    | inr f ↦ elim (Bool-cases (has_key c.org_id c.idempotency_key db.consumptions)) [
      | inl t ↦ rw (f, t) refl
      | inr k ↦ elim (Bool-cases faults.commit_fails) [
        | inl t ↦ rw (f, k, t) refl
        | inr d ↦ rw (f, k, d) (inr (row, e, p, le, k, refl, refl))
      ]
    ]
  ]

  deducted-Outcome :
      (o : Option CreditBalance)
      → db.balances c.org_id c.bearer_id ≡ o
      → pos 1 ≤ℤ c.credits
      → Outcome seen db c
          (deducted faults checked db c (deduct_row db c.org_id c.bearer_id c.credits o))
  deducted-Outcome none e p = refl
  deducted-Outcome (some row) e p = elim (Bool-cases (leb_ℤ c.credits row.balance)) [
    | inl t ↦ rw t (record-Outcome row e p (ground arith))
    | inr f ↦ rw f refl
  ]

  consume_tx-Outcome : pos 1 ≤ℤ c.credits → Outcome seen db c (consume_tx faults checked db c)
  consume_tx-Outcome p = elim (Bool-cases faults.begin_fails) [
    | inl t ↦ rw t refl
    | inr b ↦ elim (Bool-cases faults.deduct_fails) [
      | inl t ↦ rw (b, t) refl
      | inr d ↦ rw (b, d) (deducted-Outcome (db.balances c.org_id c.bearer_id) refl p)
    ]
  ]

  after_lookup-Outcome :
      (o : Option ℤ)
      → ((answer : ℤ) → o ≡ some answer → Repeated seen db c answer db)
      → pos 1 ≤ℤ c.credits
      → Outcome seen db c (after_lookup faults checked db c o)
  after_lookup-Outcome none r p = consume_tx-Outcome p
  after_lookup-Outcome (some answer) r p = inl (r answer refl)

  lookup-cases :
      (nil fails : Bool) (answer : ℤ)
      → (if nil then none else lookup_idempotent fails seen c.org_id c.idempotency_key)
        ≡ some answer
      → (answer ≡ negsuc 0)
        × (nil ≡ false)
        × (has_key c.org_id c.idempotency_key seen.consumptions ≡ true)
  unfolding lookup_idempotent
  lookup-cases true fails answer e = absurd (cc e)
  lookup-cases false true answer e = absurd (cc e)
  lookup-cases false false answer e = ground (arith, e)

  looked_up-Repeated :
      (answer : ℤ)
      → (if is_nil c.idempotency_key
          then none
          else lookup_idempotent faults.lookup_fails seen c.org_id c.idempotency_key)
        ≡ some answer
      → Repeated seen db c answer db
  looked_up-Repeated answer e =
      let (a, n, k) = lookup-cases (is_nil c.idempotency_key) faults.lookup_fails answer e in
      (a, refl, n, k)

  -- Whatever statements fail and whatever other transactions do before and during the call: an
  -- error leaves the tables as they are, and an answer is -1 for a key whose consumption was
  -- seen, or the new balance after the credits, which were there and whose key was not recorded,
  -- were moved and recorded.
  pub consume-Outcome : Outcome seen db c (consume faults seen checked db c)
  unfolding consume
  consume-Outcome = elim (Bool-cases (leb_ℤ c.credits (pos 0))) [
    | inl t ↦ rw t refl
    | inr p ↦ rw p (
        after_lookup-Outcome
          (if is_nil c.idempotency_key
            then none
            else lookup_idempotent faults.lookup_fails seen c.org_id c.idempotency_key)
          looked_up-Repeated (ground arith))
  ]

  keyed-Outcome :
      (result : Result ℤ × Db)
      → Outcome seen db c result
      → has_key c.org_id c.idempotency_key db.consumptions ≡ true
      → result.1 ≡ db
  keyed-Outcome (inl e, after) h k = h
  keyed-Outcome (inr answer, after) (inl h) k = h.1
  keyed-Outcome (inr answer, after) (inr h) k = absurd (cc (h.4, k))

  -- Once an organization's idempotency key is recorded, no call with it changes the tables again,
  -- whatever the call saw before and whatever fails; the key may be the empty one.
  pub consume-keyed :
      has_key c.org_id c.idempotency_key db.consumptions ≡ true
      → (consume faults seen checked db c).1 ≡ db
  consume-keyed = keyed-Outcome (consume faults seen checked db c) consume-Outcome

  keyless-Outcome :
      (result : Result ℤ × Db) (answer : ℤ)
      → Outcome seen db c result
      → has_key c.org_id c.idempotency_key db.consumptions ≡ true
      → is_nil c.idempotency_key ≡ true
      → result.0 ≢ inr answer
  keyless-Outcome (inl e, after) answer h k nil r = absurd (cc r)
  keyless-Outcome (inr a, after) answer (inl h) k nil r = absurd (cc (h.2, nil))
  keyless-Outcome (inr a, after) answer (inr h) k nil r = absurd (cc (h.4, k))

  -- After one consumption of an organization without an idempotency key, every further one
  -- without a key fails.
  pub consume-keyless :
      (answer : ℤ)
      → has_key c.org_id c.idempotency_key db.consumptions ≡ true
      → is_nil c.idempotency_key ≡ true
      → (consume faults seen checked db c).0 ≢ inr answer
  consume-keyless answer = keyless-Outcome (consume faults seen checked db c) answer consume-Outcome
