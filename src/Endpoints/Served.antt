-- ===== src/Endpoints/Served.antt =====
-- What the evaluation endpoints answer: server/internal/api/handlers/eval.go over the engine and the
-- cache of rulesets.
use featuresignals_unified.Base.{
  ℕ, ◌≤◌, ◌≡◌, ◌≢◌, refl, sym, ap, ◌∙◌, inl, inr, false, Bool-cases, Option, none, some, List, [],
  ◌∷◌, ltb, length, arith, if◌then◌else◌,
}
use featuresignals_unified.Base.Preds.{In}
use featuresignals_unified.Base.Text.{Text, text_eq, text_eq_iff}
use featuresignals_unified.Base.Assoc.{lookup, insert, lookup-insert}
use featuresignals_unified.Domain.{Ruleset, EvalContext, EvalResult}
use featuresignals_unified.Eval.Std.{Std}
use featuresignals_unified.Eval.Engine.{evaluate}
use featuresignals_unified.Eval.Engine.Termination.{evaluate_total}
use featuresignals_unified.Cache.{Rows, Cache, build_ruleset, ruleset_for}
use featuresignals_unified.Cache.World.{World, Reach, IsCalm, initial}
use featuresignals_unified.Cache.Requests.{Reach-refines}
use featuresignals_unified.Endpoints.{
  Store, Host, Environment, ApiKey, ok, with_ruleset, get_environment_by_api_key_hash,
  get_ruleset_from_api_key, or_unauthorized, evaluate_request, bulk_results, bulk_evaluate,
}

is_empty_no : (x : Text) → x ≢ [] → text_eq x [] ≡ false
is_empty_no x h = ground (arith, text_eq_iff x [])

module _ (hash : Text → Text) (now : ℕ) (s : Store) (std : Std) where
  inserted-kept :
      (ctx : EvalContext std.Float) (rs : Ruleset) (k key : Text)
      (found : Option (Option (EvalResult std.Float)))
      → found ≡ some (evaluate std now ctx rs key)
      → (if text_eq k key then some (evaluate std now ctx rs k) else found)
        ≡ some (evaluate std now ctx rs key)
  inserted-kept ctx rs k key found h = elim (Bool-cases (text_eq k key)) [
    | inl t ↦ rw t (ap (λ j. some (evaluate std now ctx rs j)) ((text_eq_iff k key).0 t))
    | inr f ↦ rw f h
  ]

  bulk_results-kept :
      (ctx : EvalContext std.Float) (rs : Ruleset) (key : Text) (ks : List Text)
      (m : List (Text × Option (EvalResult std.Float)))
      → lookup key m ≡ some (evaluate std now ctx rs key)
      → lookup key (bulk_results hash now s std ctx rs ks m) ≡ some (evaluate std now ctx rs key)
  unfolding bulk_results
  bulk_results-kept ctx rs key [] m h = h
  bulk_results-kept ctx rs key (k ∷ ks) m h =
      bulk_results-kept ctx rs key ks (insert k (evaluate std now ctx rs k) m) (
        lookup-insert k key (evaluate std now ctx rs k) m
        ∙ inserted-kept ctx rs k key (lookup key m) h)

  bulk_results-asked :
      (ctx : EvalContext std.Float) (rs : Ruleset) (key : Text) (ks : List Text)
      (m : List (Text × Option (EvalResult std.Float)))
      → In key ks
      → lookup key (bulk_results hash now s std ctx rs ks m) ≡ some (evaluate std now ctx rs key)
  unfolding bulk_results
  bulk_results-asked ctx rs key [] m asked = absurd asked
  bulk_results-asked ctx rs key (k ∷ ks) m (inl same) =
      bulk_results-kept ctx rs key ks (insert k (evaluate std now ctx rs k) m) (
        lookup-insert k key (evaluate std now ctx rs k) m
        ∙ rw ((text_eq_iff k key).1 same) (ap (λ j. some (evaluate std now ctx rs j)) same))
  bulk_results-asked ctx rs key (k ∷ ks) m (inr asked) =
      bulk_results-asked ctx rs key ks (insert k (evaluate std now ctx rs k) m) asked

  bulk_results-unasked :
      (ctx : EvalContext std.Float) (rs : Ruleset) (key : Text) (ks : List Text)
      (m : List (Text × Option (EvalResult std.Float)))
      → (In key ks → ⊥)
      → lookup key (bulk_results hash now s std ctx rs ks m) ≡ lookup key m
  unfolding bulk_results
  bulk_results-unasked ctx rs key [] m h = refl
  bulk_results-unasked ctx rs key (k ∷ ks) m h =
      bulk_results-unasked ctx rs key ks (insert k (evaluate std now ctx rs k) m) (λ a. h (inr a))
      ∙ lookup-insert k key (evaluate std now ctx rs k) m
      ∙ elim (Bool-cases (text_eq k key)) [
        | inl t ↦ absurd (h (inl ((text_eq_iff k key).0 t)))
        | inr f ↦ rw f refl
      ]

  or_unauthorized-ok :
      {A : Type 0} (g : Ruleset → A) (found : Option (Ruleset × Text) × Host) (a : A) (after : Host)
      → or_unauthorized hash now s (λ rs env. ok (g rs)) found ≡ (ok a, after)
      → (rs : Ruleset) × (env : Text) × (found ≡ (some (rs, env), after)) × (g rs ≡ a)
  or_unauthorized-ok g (none, h) a after e = absurd (cc (ap (λ p. p.0) e))
  or_unauthorized-ok g (some (rs, env), h) a after e =
      (rs, env, ap (λ p. (some (rs, env), p.1)) e, cc (ap (λ p. p.0) e))

  -- What a bulk request that is answered says, the flags that were not asked for included, and that a
  -- request for one flag says the same.
  pub record IsBulk (api_key : Text) (ks : List Text) (ctx : EvalContext std.Float) (h after : Host)
      (results : List (Text × Option (EvalResult std.Float))) : Type 0 where
    pub few : length ks ≤ 100
    pub asked :
        (key : Text)
        → In key ks
        → key ≢ []
        → (r : EvalResult std.Float) × (lookup key results ≡ some (some r))
          × (evaluate_request hash now s std api_key (some (key, ctx)) h ≡ (ok (some r), after))
    pub unasked : (key : Text) → (In key ks → ⊥) → lookup key results ≡ none

  evaluate_request-found :
      (api_key key : Text) (ctx : EvalContext std.Float) (h after : Host) (rs : Ruleset)
      (env : Text)
      → key ≢ []
      → text_eq ctx.key [] ≡ false
      → get_ruleset_from_api_key hash now s api_key h ≡ (some (rs, env), after)
      → evaluate_request hash now s std api_key (some (key, ctx)) h
        ≡ (ok (evaluate std now ctx rs key), after)
  unfolding evaluate_request
  evaluate_request-found api_key key ctx h after rs env named user found =
      rw (is_empty_no key named, user)
        (ap (or_unauthorized hash now s (λ rs' env'. ok (evaluate std now ctx rs' key))) found)

  bulk_results-IsBulk :
      (api_key : Text) (ks : List Text) (ctx : EvalContext std.Float) (h after : Host)
      (results : List (Text × Option (EvalResult std.Float)))
      → text_eq ctx.key [] ≡ false
      → ltb 100 (length ks) ≡ false
      → (rs : Ruleset) × (env : Text) × (get_ruleset_from_api_key hash now s api_key h
          ≡ (some (rs, env), after))
        × (bulk_results hash now s std ctx rs ks [] ≡ results)
      → IsBulk api_key ks ctx h after results
  bulk_results-IsBulk api_key ks ctx h after results user few (rs, env, found, same) = record {
    few = ground (arith, few);
    asked = λ key asked named.
        let (r, total) = evaluate_total std now ctx rs key in
        (
          r,
          ap (lookup key) (sym same) ∙ bulk_results-asked ctx rs key ks [] asked ∙ ap some total,
          evaluate_request-found api_key key ctx h after rs env named user found
              ∙ ap (λ o. (ok o, after)) total,
        );
    unasked = λ key no.
        ap (lookup key) (sym same)
        ∙ bulk_results-unasked ctx rs key ks [] no
        ∙ unfold lookup in refl;
  }

  -- BulkEvaluate answers for at most 100 flags. Each flag that is asked for, by a key that is not empty,
  -- has the result that Evaluate answers alone from the same state, which is left the same way; no
  -- other flag has a result.
  pub bulk_evaluate-IsBulk :
      (api_key : Text) (ks : List Text) (ctx : EvalContext std.Float) (h after : Host)
      (results : List (Text × Option (EvalResult std.Float)))
      → bulk_evaluate hash now s std api_key (some (ks, ctx)) h ≡ (ok results, after)
      → IsBulk api_key ks ctx h after results
  unfolding bulk_evaluate
  bulk_evaluate-IsBulk api_key ks ctx h after results e = elim (Bool-cases (text_eq ctx.key [])) [
    | inl t ↦ absurd (cc (ap (λ p. p.0) (rw t at e)))
    | inr user ↦ elim (Bool-cases (ltb 100 (length ks))) [
      | inl many ↦ absurd (cc (ap (λ p. p.0) (rw (user, many) at e)))
      | inr few ↦ bulk_results-IsBulk api_key ks ctx h after results user few (
          or_unauthorized-ok (λ rs. bulk_results hash now s std ctx rs ks [])
            (get_ruleset_from_api_key hash now s api_key h) results after (rw (user, few) at e))
    ]
  ]

  with_ruleset-ok :
      {A : Type 0} (g : Ruleset → A) (env key : Text) (h : Host) (found : Option Ruleset × Cache)
      (rs : Ruleset)
      → found.0 ≡ some rs
      → (or_unauthorized hash now s (λ rs' env'. ok (g rs')) (with_ruleset env key h found)).0
        ≡ ok (g rs)
  with_ruleset-ok g env key h (none, c) rs e = absurd (cc e)
  with_ruleset-ok g env key h (some rs', c) rs e = ap (λ x. ok (g x)) (cc e)

  -- A run of the cache is calm for the environment of a live key: its flags and segments are not
  -- changed in the run, and none of its notifications is lost or handled while a load of it is in
  -- flight. Where, besides, no notification of it is on its way and the rows can be loaded, a request
  -- with the key, for a flag and a user with keys that are not empty, has the result of the engine on
  -- the rows that the database has for the environment.
  pub evaluate_request-Current :
      (db : Text → Rows) (w : World) (api_key key : Text) (ctx : EvalContext std.Float)
      (used : List Text) (env : Environment) (k : ApiKey) (run : Reach (initial db) w)
      → IsCalm env.id run
      → (In env.id w.pending → ⊥)
      → s.rows env.id ≡ some (w.db env.id)
      → api_key ≢ []
      → get_environment_by_api_key_hash now (hash api_key) s ≡ some (env, k)
      → key ≢ []
      → ctx.key ≢ []
      → (r : EvalResult std.Float) × (evaluate std now ctx (build_ruleset (w.db env.id)) key
          ≡ some r)
        × ((evaluate_request hash now s std api_key
              (some (key, ctx))
              (record { cache = w.cache; last_used = used })).0
            ≡ ok (some r))
  unfolding get_ruleset_from_api_key evaluate_request
  evaluate_request-Current db w api_key key ctx used env k run calm quiet fresh given live named
        user =
      let (r, total) = evaluate_total std now ctx (build_ruleset (w.db env.id)) key in
      (
        r,
        total,
        rw (is_empty_no key named, is_empty_no ctx.key user, is_empty_no api_key given, live, fresh)
            (with_ruleset-ok (λ rs. evaluate std now ctx rs key) env.id k.id
                (record { cache = w.cache; last_used = used })
                (ruleset_for (some (w.db env.id)) env.id w.cache) (build_ruleset (w.db env.id))
                (Reach-refines db w env.id run calm quiet)
              ∙ ap ok total),
      )
