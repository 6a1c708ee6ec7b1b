-- ===== src/Approvals/Reviewing.antt =====
-- What a review changes, and who may make it.
use featuresignals_unified.Base.{
  ℕ, ◌≡◌, ◌≢◌, ◌⊎◌, inl, inr, refl, Bool, true, false, Option, none, some, if◌then◌else◌, arith,
  Bool-cases, ap, sym, ◌∙◌,
}
use featuresignals_unified.Base.Text.{Text, bytes, text_eq, text_eq_iff}
use featuresignals_unified.Domain.{FlagState}
use featuresignals_unified.Eval.Engine.{is_nil}
use featuresignals_unified.Approvals.{
  ApprovalStatus, pending, approved, rejected, applied, ApprovalRequest, Tables, ReviewFaults,
  ReviewResponse, is_pending, reviewed, update_request, row_id, placed, upsert_state,
}
use featuresignals_unified.Approvals.Review.{
  apply_state, apply_change, mark_applied, decide_request, review_body, review_found, review,
}

-- The request is pending, of the reviewer's organization, and another user's.
abbrev pub MayReview : Text → Text → ApprovalRequest → Type 0
MayReview org user ar = (ar.org_id ≡ org) × (ar.status ≡ pending) × (ar.requestor_id ≢ user)

module _ (parse_state : Text → Option FlagState) (new_id : Text) where
  -- The states hold the payload's state in the place of the request, and are the old ones elsewhere.
  abbrev pub IsApplied : ApprovalRequest → Tables → Tables → Type 0
  IsApplied ar t after =
      (s : FlagState) × (parse_state ar.payload ≡ some s)
      × (after.states
          ≡ (upsert_state (placed (row_id new_id (t.states ar.flag_id ar.env_id)) ar s) t).states)

  -- What an approval makes of a request that may be reviewed: it is approved and not applied, with no
  -- state changed, or it is shown as applied.
  abbrev pub IsApproved :
      Text → ℕ → Text → ApprovalRequest → Tables → ReviewResponse × Tables → Type 0
  IsApproved user now note ar t r =
      ((r.0.shown ≡ some (reviewed approved user note now ar))
        × (r.1 ≡ update_request (reviewed approved user note now ar) t))
      ⊎ (IsApplied ar t r.1 × (r.0.shown ≡ some (reviewed applied user note now ar)))

  -- What becomes of a request that may be reviewed, by the action and the note of the body: an
  -- approval approves it, and a rejection rejects it, with no state changed.
  abbrev pub IsDecided :
      Text → ℕ → Option (Text × Text) → ApprovalRequest → Tables → ReviewResponse × Tables → Type 0
  IsDecided user now body ar t r =
      (note : Text) × (((body ≡ some (bytes "reject", note))
          × (r.0.shown ≡ some (reviewed rejected user note now ar))
          × (r.1 ≡ update_request (reviewed rejected user note now ar) t))
        ⊎ ((body ≡ some (bytes "approve", note)) × IsApproved user now note ar t r))

  -- A review changes nothing, or decides a request that the user may review.
  abbrev pub IsReview :
      Text
      → Text
      → ℕ
      → Option (Text × Text)
      → Option ApprovalRequest
      → Tables
      → ReviewResponse × Tables
      → Type 0
  IsReview org user now body found t r =
      (r.1 ≡ t)
      ⊎ ((ar : ApprovalRequest) × (found ≡ some ar)
          × MayReview org user ar
          × IsDecided user now body ar t r)

  mark_applied-IsApproved :
      (faults : ReviewFaults) (org user note : Text) (now : ℕ) (ar : ApprovalRequest) (t : Tables)
      (o : Option FlagState)
      → parse_state ar.payload ≡ o
      → IsApproved user now note ar t (
          mark_applied parse_state new_id faults user note now ar
            (update_request (reviewed approved user note now ar) t)
            (apply_state parse_state new_id faults org user
              (reviewed approved user note now ar)
              o
              (update_request (reviewed approved user note now ar) t)))
  mark_applied-IsApproved faults org user note now ar t none e = inl (refl, refl)
  mark_applied-IsApproved faults org user note now ar t (some s) e =
      elim (Bool-cases faults.upsert_fails) [
        | inl b ↦ rw b (inl (refl, refl))
        | inr b ↦ elim (Bool-cases faults.audit_fails) [
          | inl c ↦ elim (Bool-cases faults.mark_fails) [
            | inl d ↦ rw (b, c, d) (inr ((s, e, refl), refl))
            | inr d ↦ rw (b, c, d) (inr ((s, e, refl), refl))
          ]
          | inr c ↦ elim (Bool-cases faults.mark_fails) [
            | inl d ↦ rw (b, c, d) (inr ((s, e, refl), refl))
            | inr d ↦ rw (b, c, d) (inr ((s, e, refl), refl))
          ]
        ]
      ]

  -- Nothing changes, or the request is decided.
  abbrev Decision :
      Text → ℕ → Option (Text × Text) → ApprovalRequest → Tables → ReviewResponse × Tables → Type 0
  Decision user now body ar t r = (r.1 ≡ t) ⊎ IsDecided user now body ar t r

  asks :
      (action wanted note : Text)
      → text_eq action wanted ≡ true
      → ◌≡◌ {A = Option (Text × Text)} (some (action, note)) (some (wanted, note))
  asks action wanted note e = ap (λ x. some (x, note)) ((text_eq_iff action wanted).0 e)

  decide_request-Decision :
      (faults : ReviewFaults) (org user : Text) (now : ℕ) (action note : Text)
      (ar : ApprovalRequest) (t : Tables)
      → Decision user now
          (some (action, note))
          ar
          t
          (decide_request parse_state new_id faults org user now action note ar t)
  unfolding apply_change
  decide_request-Decision faults org user now action note ar t =
      elim (Bool-cases (text_eq action (bytes "approve"))) [
        | inl a ↦ elim (Bool-cases faults.update_fails) [
          | inl b ↦ rw (a, b) (inl refl)
          | inr b ↦
              rw (a, b)
                (inr (
                  note,
                  inr (
                    asks action (bytes "approve") note a,
                    mark_applied-IsApproved faults org user note now ar t (parse_state ar.payload)
                        refl,
                  ),
                ))
        ]
        | inr a ↦ elim (Bool-cases (text_eq action (bytes "reject"))) [
          | inl c ↦ elim (Bool-cases faults.update_fails) [
            | inl b ↦ rw (a, c, b) (inl refl)
            | inr b ↦
                rw (a, c, b) (inr (note, inl (asks action (bytes "reject") note c, refl, refl)))
          ]
          | inr c ↦ rw (a, c) (inl refl)
        ]
      ]

  review_body-Decision :
      (faults : ReviewFaults) (org user : Text) (now : ℕ) (body : Option (Text × Text))
      (ar : ApprovalRequest) (t : Tables)
      → Decision user now body ar t (review_body parse_state new_id faults org user now body ar t)
  review_body-Decision faults org user now none ar t = inl refl
  review_body-Decision faults org user now (some (action, note)) ar t =
      decide_request-Decision faults org user now action note ar t

  is_pending-pending : (status : ApprovalStatus) → is_pending status ≡ true → status ≡ pending
  is_pending-pending status e = ground arith

  review_found-IsReview :
      (faults : ReviewFaults) (org user : Text) (now : ℕ) (body : Option (Text × Text))
      (found : Option ApprovalRequest) (t : Tables)
      → IsReview org user now body found t
          (review_found parse_state new_id faults org user now body found t)
  review_found-IsReview faults org user now body none t = inl refl
  review_found-IsReview faults org user now body (some ar) t =
      elim (Bool-cases (text_eq ar.org_id org)) [
        | inr a ↦ rw a (inl refl)
        | inl a ↦ elim (Bool-cases (is_pending ar.status)) [
          | inr b ↦ rw (a, b) (inl refl)
          | inl b ↦ elim (Bool-cases (text_eq ar.requestor_id user)) [
            | inl c ↦ rw (a, b, c) (inl refl)
            | inr c ↦
                let other_user : ar.requestor_id ≢ user =
                  λ e. absurd (cc ((text_eq_iff ar.requestor_id user).1 e, c)) in
                let may : MayReview org user ar =
                  ((text_eq_iff ar.org_id org).0 a, is_pending-pending ar.status b, other_user) in
                rw (a, b, c)
                  (elim (review_body-Decision faults org user now body ar t) [
                    | inl same ↦ inl same
                    | inr decided ↦ inr (ar, refl, may, decided)
                  ])
          ]
        ]
      ]

  found-IsReview :
      (fails : Bool) (org user : Text) (now : ℕ) (body : Option (Text × Text)) (approval_id : Text)
      (t : Tables) (r : ReviewResponse × Tables)
      → IsReview org user now body (if fails then none else t.requests approval_id) t r
      → IsReview org user now body (t.requests approval_id) t r
  found-IsReview true org user now body approval_id t r (inl same) = inl same
  found-IsReview true org user now body approval_id t r (inr (ar, e, may, k)) = absurd (cc e)
  found-IsReview false org user now body approval_id t r h = h

  -- Whatever fails, a review leaves all tables as they are, or the request is pending, belongs to
  -- the reviewer's organization and was made by another user. Then the body's action is "reject",
  -- and the request is rejected, with every flag state as before; or the action is "approve", and the
  -- request is approved and not applied, with every flag state as before, or shown as applied, and the
  -- states differ only in that the payload's state stands for the flag and environment of the request.
  pub review-IsReview :
      (faults : ReviewFaults) (org user : Text) (now : ℕ) (approval_id : Text)
      (body : Option (Text × Text)) (t : Tables)
      → IsReview org user now body
          (t.requests approval_id)
          t
          (review parse_state new_id faults org user now approval_id body t)
  unfolding review
  review-IsReview faults org user now approval_id body t = elim (Bool-cases (is_nil approval_id)) [
    | inl a ↦ rw a (inl refl)
    | inr a ↦
        let found = if faults.get_fails then none else t.requests approval_id in
        rw a (
          found-IsReview faults.get_fails org user now body approval_id t
            (review_found parse_state new_id faults org user now body found t)
            (review_found-IsReview faults org user now body found t))
  ]

  IsReview-decided :
      (org user : Text) (now : ℕ) (body : Option (Text × Text)) (found : Option ApprovalRequest)
      (ar : ApprovalRequest) (t : Tables) (r : ReviewResponse × Tables)
      → IsReview org user now body found t r
      → found ≡ some ar
      → ar.status ≢ pending
      → r.1 ≡ t
  IsReview-decided org user now body found ar t r (inl same) e decided = same
  IsReview-decided org user now body found ar t r (inr (ar', e', may, k)) e decided =
      let same : ar' ≡ ar = cc (sym e' ∙ e) in
      absurd (decided (ap (λ x. x.status) (sym same) ∙ may.1))

  -- A request that is no longer pending is never decided again: no review of it changes a table.
  pub review-decided :
      (faults : ReviewFaults) (org user : Text) (now : ℕ) (approval_id : Text)
      (body : Option (Text × Text)) (t : Tables) (ar : ApprovalRequest)
      → t.requests approval_id ≡ some ar
      → ar.status ≢ pending
      → (review parse_state new_id faults org user now approval_id body t).1 ≡ t
  review-decided faults org user now approval_id body t ar e decided =
      IsReview-decided org user now body (t.requests approval_id) ar t
        (review parse_state new_id faults org user now approval_id body t)
        (review-IsReview faults org user now approval_id body t) e decided
