-- ===== src/Credits/Monthly/Granted.antt =====
-- What GrantMonthlyCredits does to the tables.
use mathlib.Core.Path.{subst}
use featuresignals_unified.Base.{
  ℕ, ◌≡◌, ◌⊎◌, inl, inr, Bool, true, false, List, [], ◌∷◌, refl, arith, Bool-cases, ap, sym, ◌∙◌,
}
use featuresignals_unified.Base.Int.{pos, leb_ℤ}
use featuresignals_unified.Base.Preds.{All}
use featuresignals_unified.Base.Text.{Text, text_eq_refl}
use featuresignals_unified.Plans.{Plan}
use featuresignals_unified.Credits.{
  CostBearer, Db, Result, record_grant, add_credits, add_to_balance,
}
use featuresignals_unified.Credits.Monthly.{
  tier_units, GrantFaults, set_grant, with_grant, period_day, grant_bearer, grant_loop, grant_next,
  grant_monthly,
}

-- The tier includes none of the bearer's units, or the period's grant is recorded.
abbrev pub Settled : Text → Plan → ℕ → Db → CostBearer → Type 0
Settled org plan start db b =
    (leb_ℤ (tier_units plan b) (pos 0) ≡ true) ⊎ (db.grants org b.id (period_day start) ≡ true)

-- What the body of the loop does: nothing, when the bearer is settled or the record cannot be
-- inserted; otherwise the grant is recorded, and the credits are added unless that fails.
abbrev pub GrantOutcome : Text → Plan → ℕ → CostBearer → Db → Result Unit × Db → Type 0
GrantOutcome org plan start b db r =
    ((r ≡ (inr tt, db)) × Settled org plan start db b)
    ⊎ ((r ≡ (inl record_grant, db))
        ⊎ ((leb_ℤ (tier_units plan b) (pos 0) ≡ false)
            × (db.grants org b.id (period_day start) ≡ false)
            × ((r ≡ (inl add_credits, with_grant org b.id (period_day start) db))
                ⊎ (r ≡ (
                  inr tt,
                  add_to_balance org b.id (tier_units plan b)
                      (with_grant org b.id (period_day start) db),
                )))))

set_grant_mono :
    (o b o' b' : Text) (p p' : ℕ) (grants : Text → Text → ℕ → Bool)
    → grants o' b' p' ≡ true
    → set_grant o b p grants o' b' p' ≡ true
unfolding set_grant
set_grant_mono o b o' b' p p' grants e = ground (arith, e)

set_grant_self :
    (o b : Text) (p : ℕ) (grants : Text → Text → ℕ → Bool) → set_grant o b p grants o b p ≡ true
unfolding set_grant
set_grant_self o b p grants = ground (arith, text_eq_refl o, text_eq_refl b)

module _ (org : Text) (plan : Plan) (start : ℕ) where
  pub grant_bearer-GrantOutcome :
      (faults : GrantFaults) (b : CostBearer) (db : Db)
      → GrantOutcome org plan start b db (grant_bearer faults org plan start b db)
  unfolding grant_bearer
  grant_bearer-GrantOutcome faults b db = elim (Bool-cases (leb_ℤ (tier_units plan b) (pos 0))) [
    | inl t ↦ rw t (inl (refl, inl refl))
    | inr f ↦ elim (Bool-cases faults.record_fails) [
      | inl t ↦ rw (f, t) (inr (inl refl))
      | inr g ↦ elim (Bool-cases (db.grants org b.id (period_day start))) [
        | inl t ↦ rw (f, g, t) (inl (refl, inr refl))
        | inr k ↦ elim (Bool-cases faults.add_fails) [
          | inl t ↦ rw (f, g, k, t) (inr (inr (refl, refl, inl refl)))
          | inr d ↦ rw (f, g, k, d) (inr (inr (refl, refl, inr refl)))
        ]
      ]
    ]
  ]

  noop-Settled :
      (b : CostBearer) (db : Db) (r : Result Unit × Db)
      → GrantOutcome org plan start b db r
      → Settled org plan start db b
      → r.1 ≡ db
  noop-Settled b db r (inl (e, s)) h = ap (λ x. x.1) e
  noop-Settled b db r (inr (inl e)) h = ap (λ x. x.1) e
  noop-Settled b db r (inr (inr (f, g, o))) (inl h) = absurd (cc (f, h))
  noop-Settled b db r (inr (inr (f, g, o))) (inr h) = absurd (cc (g, h))

  -- A grant that is recorded stays so, and the bearers stay.
  abbrev Kept : Db → Db → Type 0
  Kept db after =
      (after.bearers ≡ db.bearers)
      × ((b : CostBearer) → Settled org plan start db b → Settled org plan start after b)

  Kept-trans : (a b c : Db) → Kept a b → Kept b c → Kept a c
  Kept-trans a b c h k = (k.0 ∙ h.0, λ x s. k.1 x (h.1 x s))

  with_grant-Kept : (b : CostBearer) (db : Db) → Kept db (with_grant org b.id (period_day start) db)
  with_grant-Kept b db = (
    refl,
    λ x s. elim s [
      | inl e ↦ inl e
      | inr e ↦
          inr (set_grant_mono org b.id org x.id (period_day start) (period_day start) db.grants e)
    ],
  )

  GrantOutcome-Kept :
      (b : CostBearer) (db : Db) (r : Result Unit × Db)
      → GrantOutcome org plan start b db r
      → Kept db r.1
  GrantOutcome-Kept b db r (inl (e, s)) = rw e (refl, λ x s. s)
  GrantOutcome-Kept b db r (inr (inl e)) = rw e (refl, λ x s. s)
  GrantOutcome-Kept b db r (inr (inr (f, g, inl e))) = rw e (with_grant-Kept b db)
  GrantOutcome-Kept b db r (inr (inr (f, g, inr e))) = rw e (with_grant-Kept b db)

  GrantOutcome-Settled :
      (b : CostBearer) (db : Db) (r : Result Unit × Db)
      → GrantOutcome org plan start b db r
      → (r.0 ≡ inr tt) ⊎ (r.0 ≡ inl add_credits)
      → Settled org plan start r.1 b
  GrantOutcome-Settled b db r (inl (e, s)) h = rw e s
  GrantOutcome-Settled b db r (inr (inl e)) (inl h) = absurd (cc (e, h))
  GrantOutcome-Settled b db r (inr (inl e)) (inr h) = absurd (cc (e, h))
  GrantOutcome-Settled b db r (inr (inr (f, g, inl e))) h =
      rw e (inr (set_grant_self org b.id (period_day start) db.grants))
  GrantOutcome-Settled b db r (inr (inr (f, g, inr e))) h =
      rw e (inr (set_grant_self org b.id (period_day start) db.grants))

  grant_next-noop :
      (db : Db) (r : Result Unit × Db) (next : Db → Result Unit × Db)
      → r.1 ≡ db
      → (next db).1 ≡ db
      → (grant_next r next).1 ≡ db
  grant_next-noop db (inl e, after) next h k = h
  grant_next-noop db (inr u, after) next h k = ap (λ x. (next x).1) h ∙ k

  grant_next-Kept :
      (db : Db) (r : Result Unit × Db) (next : Db → Result Unit × Db)
      → Kept db r.1
      → ((d : Db) → Kept d (next d).1)
      → Kept db (grant_next r next).1
  grant_next-Kept db (inl e, after) next h k = h
  grant_next-Kept db (inr u, after) next h k = Kept-trans db after (next after).1 h (k after)

  grant_next-All :
      (b : CostBearer) (bs : List CostBearer) (r : Result Unit × Db) (next : Db → Result Unit × Db)
      → (r.0 ≡ inr tt → Settled org plan start r.1 b)
      → ((d : Db) → (next d).0 ≡ inr tt → All (Settled org plan start (next d).1) bs)
      → ((d : Db) → Kept d (next d).1)
      → (grant_next r next).0 ≡ inr tt
      → All (Settled org plan start (grant_next r next).1) (b ∷ bs)
  grant_next-All b bs (inl e, after) next s all kept h = absurd (cc h)
  grant_next-All b bs (inr u, after) next s all kept h = ((kept after).1 b (s refl), all after h)

  grant_loop-noop :
      (faults : Text → GrantFaults) (bs : List CostBearer) (db : Db)
      → All (Settled org plan start db) bs
      → (grant_loop faults org plan start bs db).1 ≡ db
  unfolding grant_loop
  grant_loop-noop faults [] db all = refl
  grant_loop-noop faults (b ∷ bs) db all =
      grant_next-noop db (grant_bearer (faults b.id) org plan start b db)
        (λ after. grant_loop faults org plan start bs after)
        (noop-Settled b db (grant_bearer (faults b.id) org plan start b db)
          (grant_bearer-GrantOutcome (faults b.id) b db) all.0)
        (grant_loop-noop faults bs db all.1)

  grant_loop-Kept :
      (faults : Text → GrantFaults) (bs : List CostBearer) (db : Db)
      → Kept db (grant_loop faults org plan start bs db).1
  unfolding grant_loop
  grant_loop-Kept faults [] db = (refl, λ x s. s)
  grant_loop-Kept faults (b ∷ bs) db =
      grant_next-Kept db (grant_bearer (faults b.id) org plan start b db)
        (λ after. grant_loop faults org plan start bs after)
        (GrantOutcome-Kept b db (grant_bearer (faults b.id) org plan start b db)
          (grant_bearer-GrantOutcome (faults b.id) b db))
        (grant_loop-Kept faults bs)

  grant_loop-All :
      (faults : Text → GrantFaults) (bs : List CostBearer) (db : Db)
      → (grant_loop faults org plan start bs db).0 ≡ inr tt
      → All (Settled org plan start (grant_loop faults org plan start bs db).1) bs
  unfolding grant_loop
  grant_loop-All faults [] db h = tt
  grant_loop-All faults (b ∷ bs) db h =
      grant_next-All b bs (grant_bearer (faults b.id) org plan start b db)
        (λ after. grant_loop faults org plan start bs after)
        (λ e.
          GrantOutcome-Settled b db (grant_bearer (faults b.id) org plan start b db)
            (grant_bearer-GrantOutcome (faults b.id) b db) (inl e))
        (grant_loop-All faults bs) (grant_loop-Kept faults bs) h

  -- A monthly grant that succeeded has settled every bearer, and every later call for the same
  -- organization, tier and period leaves the tables as they are, whatever fails in it.
  pub grant_monthly-twice :
      (list_fails : Bool) (faults faults' : Text → GrantFaults) (db : Db)
      → (grant_monthly false faults org plan start db).0 ≡ inr tt
      → All (Settled org plan start (grant_monthly false faults org plan start db).1) db.bearers
        × ((grant_monthly list_fails faults' org plan start
              (grant_monthly false faults org plan start db).1).1
            ≡ (grant_monthly false faults org plan start db).1)
  unfolding grant_monthly
  grant_monthly-twice true faults faults' db h = (grant_loop-All faults db.bearers db h, refl)
  grant_monthly-twice false faults faults' db h =
      let after = (grant_loop faults org plan start db.bearers db).1 in
      let all = grant_loop-All faults db.bearers db h in
      (
        all,
        grant_loop-noop faults' after.bearers after (
            subst (All (Settled org plan start after))
              (sym (grant_loop-Kept faults db.bearers db).0) all),
      )

  -- When the credits of a recorded grant could not be added, every later attempt for the period
  -- leaves the tables as they are: the credits stay missing.
  pub grant_bearer-lost :
      (faults faults' : GrantFaults) (b : CostBearer) (db : Db)
      → (grant_bearer faults org plan start b db).0 ≡ inl add_credits
      → (grant_bearer faults' org plan start b (grant_bearer faults org plan start b db).1).1
        ≡ (grant_bearer faults org plan start b db).1
  grant_bearer-lost faults faults' b db h =
      let after = (grant_bearer faults org plan start b db).1 in
      noop-Settled b after (grant_bearer faults' org plan start b after)
        (grant_bearer-GrantOutcome faults' b after)
        (GrantOutcome-Settled b db (grant_bearer faults org plan start b db)
          (grant_bearer-GrantOutcome faults b db) (inr h))
