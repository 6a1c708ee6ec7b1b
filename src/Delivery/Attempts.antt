-- ===== src/Delivery/Attempts.antt =====
-- Which attempts a delivery makes, and what it records.
use mathlib.Core.Path.{subst}
use featuresignals_unified.Base.{
  ℕ, zero, suc, ◌≤◌, ◌<◌, ◌≡◌, ◌↔◌, ◌⊎◌, inl, inr, true, false, Option, none, some, List, [], ◌∷◌,
  arith, refl, Bool-cases, sym, ◌∙◌,
}
use featuresignals_unified.Base.Text.{Text}
use featuresignals_unified.Delivery.{
  Reply, no_request, client_error, response, Progress, is_success, is_client_error, waited, judge,
  proceed, deliver_loop, deliver,
}

-- The client answers the attempt with a status from 200 to 299.
abbrev pub IsDelivered : (ℕ → Reply) → ℕ → Type 0
IsDelivered client i =
    (status : ℕ) × (body : Text) × (client i ≡ response status body)
    × (200 ≤ status)
    × (status < 300)

abbrev pub AnyDelivered : (ℕ → Reply) → List ℕ → Type 0
AnyDelivered client [] = ⊥
AnyDelivered client (i ∷ is) = IsDelivered client i ⊎ AnyDelivered client is

-- The client errs, or answers with a status that is neither from 200 to 299 nor from 400 to 499.
abbrev pub IsRetryable : Reply → Type 0
IsRetryable no_request = ⊥
IsRetryable (client_error err) = Unit
IsRetryable (response status body) =
    (200 ≤ status → status < 300 → ⊥) × (400 ≤ status → status < 500 → ⊥)

-- The attempts are consecutive from the first on, at most `left` and at least one if any may be
-- made, and each but the last was retryable.
abbrev pub Consecutive : (ℕ → Reply) → ℕ → ℕ → List ℕ → Type 0
Consecutive client left attempt [] = left ≡ 0
Consecutive client zero attempt (i ∷ is) = ⊥
Consecutive client (suc left) attempt (i ∷ []) =
    (i ≡ attempt) × ((left ≡ 0) ⊎ (IsRetryable (client attempt) → ⊥))
Consecutive client (suc left) attempt (i ∷ j ∷ is) =
    (i ≡ attempt) × IsRetryable (client attempt) × Consecutive client left (suc attempt) (j ∷ is)

-- The record, if any, says whether an attempt was answered with success.
abbrev pub IsReported : (ℕ → Reply) → List ℕ × Option Progress → Type 0
IsReported client (sent, none) = AnyDelivered client sent → ⊥
IsReported client (sent, some p) = (p.success ≡ true) ↔ AnyDelivered client sent

waited-success :
    (attempt : ℕ) (o : Option Text) (p : Progress) → (waited attempt o p).success ≡ p.success
waited-success attempt none p = refl
waited-success attempt (some err) p = ground arith

cons-IsReported :
    (client : ℕ → Reply) (attempt : ℕ) (r : List ℕ × Option Progress)
    → (IsDelivered client attempt → ⊥)
    → IsReported client r
    → IsReported client (attempt ∷ r.0, r.1)
cons-IsReported client attempt (sent, none) fails h = λ m. elim m [ inl d ↦ fails d | inr k ↦ h k ]
cons-IsReported client attempt (sent, some p) fails h =
    ((λ t. inr (h.0 t)), (λ m. elim m [ inl d ↦ absurd (fails d) | inr k ↦ h.1 k ]))

module _ (client : ℕ → Reply) (attempt : ℕ) (p : Progress)
    (rest : Progress → List ℕ × Option Progress) where
  response-IsReported :
      (status : ℕ) (body : Text)
      → client attempt ≡ response status body
      → p.success ≡ false
      → ((q : Progress) → q.success ≡ false → IsReported client (rest q))
      → IsReported client (proceed attempt (judge p (response status body)) rest)
  response-IsReported status body e f k = elim (Bool-cases (is_success status)) [
    | inl t ↦ rw t ((λ s. inl (status, body, e, ground (arith, t), ground (arith, t))), (λ m. refl))
    | inr n ↦
        let fails : IsDelivered client attempt → ⊥ = λ d.
          let (status', body', e', low, high) = d in
          let same : response status body ≡ response status' body' = sym e ∙ e' in
          let number : status ≡ status' = cc same in ground (arith, n, number, low, high) in
        elim (Bool-cases (is_client_error status)) [
          | inl t ↦
              rw (n, t)
                (
                  (λ s. absurd (cc (f, s))),
                  (λ m. elim m [ inl d ↦ absurd (fails d) | inr d ↦ absurd d ]),
                )
          | inr c ↦
              let q : Progress = record {
                last_status = status;
                last_body = body;
                success = p.success;
              } in
              rw (n, c) (cons-IsReported client attempt (rest q) fails (k q f))
        ]
  ]

  proceed-IsReported :
      (r : Reply)
      → client attempt ≡ r
      → p.success ≡ false
      → ((q : Progress) → q.success ≡ false → IsReported client (rest q))
      → IsReported client (proceed attempt (judge p r) rest)
  proceed-IsReported no_request e f k =
      λ m. elim m [ inl d ↦ absurd (cc (e, d.2)) | inr d ↦ absurd d ]
  proceed-IsReported (client_error err) e f k =
      let q : Progress = record { last_status = 0; last_body = err; success = p.success } in
      cons-IsReported client attempt (rest q) (λ d. absurd (cc (e, d.2))) (k q f)
  proceed-IsReported (response status body) e f k = response-IsReported status body e f k

deliver_loop-IsReported :
    (client : ℕ → Reply) (cancelled : ℕ → Option Text) (left attempt : ℕ) (p : Progress)
    → p.success ≡ false
    → IsReported client (deliver_loop client cancelled left attempt p)
unfolding deliver_loop
deliver_loop-IsReported client cancelled zero attempt p f =
    ((λ s. absurd (cc (f, s))), (λ d. absurd d))
deliver_loop-IsReported client cancelled (suc left) attempt p f =
    proceed-IsReported client attempt (waited attempt (cancelled attempt) p)
      (deliver_loop client cancelled left (suc attempt)) (client attempt) refl
      (waited-success attempt (cancelled attempt) p ∙ f)
      (deliver_loop-IsReported client cancelled left (suc attempt))

cons-Consecutive :
    (client : ℕ → Reply) (left attempt : ℕ) (is : List ℕ)
    → IsRetryable (client attempt)
    → Consecutive client left (suc attempt) is
    → Consecutive client (suc left) attempt (attempt ∷ is)
cons-Consecutive client left attempt [] retry h = (refl, inl h)
cons-Consecutive client left attempt (j ∷ is) retry h = (refl, retry, h)

module _ (client : ℕ → Reply) (left attempt : ℕ) (p : Progress)
    (rest : Progress → List ℕ × Option Progress)
    (consecutive : (q : Progress) → Consecutive client left (suc attempt) (rest q).0) where
  proceed-Consecutive :
      (r : Reply)
      → client attempt ≡ r
      → Consecutive client (suc left) attempt (proceed attempt (judge p r) rest).0
  proceed-Consecutive no_request e = (refl, inr (subst (λ r. IsRetryable r → ⊥) (sym e) (λ h. h)))
  proceed-Consecutive (client_error err) e =
      let q : Progress = record { last_status = 0; last_body = err; success = p.success } in
      cons-Consecutive client left attempt (rest q).0 (subst IsRetryable (sym e) tt) (consecutive q)
  proceed-Consecutive (response status body) e = elim (Bool-cases (is_success status)) [
    | inl t ↦ rw t (
      refl,
      inr (
          subst (λ r. IsRetryable r → ⊥) (sym e)
            (λ h. h.0 (ground (arith, t)) (ground (arith, t)))),
    )
    | inr n ↦ elim (Bool-cases (is_client_error status)) [
      | inl t ↦
          rw (n, t)
            (
              refl,
              inr (
                  subst (λ r. IsRetryable r → ⊥) (sym e)
                    (λ h. h.1 (ground (arith, t)) (ground (arith, t)))),
            )
      | inr c ↦
          let q : Progress = record {
            last_status = status;
            last_body = body;
            success = p.success;
          } in
          rw (n, c)
            (cons-Consecutive client left attempt (rest q).0
              (subst IsRetryable (sym e)
                ((λ a b. ground (arith, n, a, b)), λ a b. ground (arith, c, a, b)))
              (consecutive q))
    ]
  ]

deliver_loop-Consecutive :
    (client : ℕ → Reply) (cancelled : ℕ → Option Text) (left attempt : ℕ) (p : Progress)
    → Consecutive client left attempt (deliver_loop client cancelled left attempt p).0
unfolding deliver_loop
deliver_loop-Consecutive client cancelled zero attempt p = refl
deliver_loop-Consecutive client cancelled (suc left) attempt p =
    proceed-Consecutive client left attempt (waited attempt (cancelled attempt) p)
      (deliver_loop client cancelled left (suc attempt))
      (deliver_loop-Consecutive client cancelled left (suc attempt)) (client attempt) refl

-- A delivery makes its attempts in order from the first on, at most three, each after one that
-- could be retried, and stops before the third only after one that could not. What it records says
-- that it succeeded exactly when an attempt was answered with a status from 200 to 299; when it
-- records nothing, no attempt was. The context being done while it waits changes none of this.
pub deliver-Consecutive :
    (client : ℕ → Reply) (cancelled : ℕ → Option Text)
    → Consecutive client 3 1 (deliver client cancelled).0
      × IsReported client (deliver client cancelled)
unfolding deliver
deliver-Consecutive client cancelled = (
  deliver_loop-Consecutive client cancelled 3 1
      (record { last_status = 0; last_body = []; success = false }),
  deliver_loop-IsReported client cancelled 3 1
      (record { last_status = 0; last_body = []; success = false }) refl,
)
