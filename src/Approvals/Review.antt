-- ===== src/Approvals/Review.antt =====
-- Review and applyChange of server/internal/api/handlers/approval.go, after the check of ownership
-- of handlers/orgguard.go. Between its statements no other review of the request comes in.
use featuresignals_unified.Base.{ℕ, not, Option, none, some, if◌then◌else◌}
use featuresignals_unified.Base.Text.{Text, bytes, text_eq}
use featuresignals_unified.Domain.{FlagState}
use featuresignals_unified.Eval.Engine.{is_nil}
use featuresignals_unified.Approvals.{
  approved, rejected, applied, ApprovalRequest, Tables, ReviewFaults, ReviewResponse, refuse,
  is_pending, reviewed, update_request, row_id, placed, upsert_state, add_audit,
}

module _ (parse_state : Text → Option FlagState) (new_id : Text) where
  -- applyChange after the payload was parsed: `none` is an error, which leaves the tables.
  abbrev pub apply_state :
      ReviewFaults → Text → Text → ApprovalRequest → Option FlagState → Tables → Option Tables
  apply_state faults org user ar none t = none
  apply_state faults org user ar (some s) t =
      let row = placed (row_id new_id (t.states ar.flag_id ar.env_id)) ar s in
      if faults.upsert_fails
      then none
      else some (
          add_audit faults.audit_fails
            (record { org_id = org; actor_id = user; resource_id = ar.flag_id; after_state = row })
            (upsert_state row t))

  unfoldable pub apply_change :
      ReviewFaults → Text → Text → ApprovalRequest → Tables → Option Tables
  apply_change faults org user ar t = apply_state faults org user ar (parse_state ar.payload) t

  abbrev pub shown : ApprovalRequest → ReviewResponse
  shown ar = record { code = 200; shown = some ar }

  -- The end of Review, after the change was applied or not.
  abbrev pub mark_applied :
      ReviewFaults
      → Text
      → Text
      → ℕ
      → ApprovalRequest
      → Tables
      → Option Tables
      → ReviewResponse × Tables
  mark_applied faults user note now ar t none = (shown (reviewed approved user note now ar), t)
  mark_applied faults user note now ar t (some after) = (
    shown (reviewed applied user note now ar),
    (if faults.mark_fails then after else update_request (reviewed applied user note now ar) after),
  )

  -- The update of the request, and the change if it was approved.
  abbrev pub decide_request :
      ReviewFaults
      → Text
      → Text
      → ℕ
      → Text
      → Text
      → ApprovalRequest
      → Tables
      → ReviewResponse × Tables
  decide_request faults org user now action note ar t =
      if text_eq action (bytes "approve")
      then (if faults.update_fails
          then (refuse 500, t)
          else mark_applied faults user note now ar
              (update_request (reviewed approved user note now ar) t)
              (apply_change faults org user (reviewed approved user note now ar)
                (update_request (reviewed approved user note now ar) t)))
      else (if text_eq action (bytes "reject")
          then (if faults.update_fails then (refuse 500, t) else (
            shown (reviewed rejected user note now ar),
            update_request (reviewed rejected user note now ar) t,
          ))
          else (refuse 400, t))

  -- `body` is the decoded action and note, `none` for a body that is not valid.
  abbrev pub review_body :
      ReviewFaults
      → Text
      → Text
      → ℕ
      → Option (Text × Text)
      → ApprovalRequest
      → Tables
      → ReviewResponse × Tables
  review_body faults org user now none ar t = (refuse 400, t)
  review_body faults org user now (some (action, note)) ar t =
      decide_request faults org user now action note ar t

  -- The tests of Review on a request of the organization.
  abbrev pub review_owned :
      ReviewFaults
      → Text
      → Text
      → ℕ
      → Option (Text × Text)
      → ApprovalRequest
      → Tables
      → ReviewResponse × Tables
  review_owned faults org user now body ar t =
      if not (is_pending ar.status)
      then (refuse 409, t)
      else (if text_eq ar.requestor_id user
          then (refuse 403, t)
          else review_body faults org user now body ar t)

  -- verifyApprovalOwnership for the request that was found, then Review.
  abbrev pub review_found :
      ReviewFaults
      → Text
      → Text
      → ℕ
      → Option (Text × Text)
      → Option ApprovalRequest
      → Tables
      → ReviewResponse × Tables
  review_found faults org user now body none t = (refuse 404, t)
  review_found faults org user now body (some ar) t =
      if not (text_eq ar.org_id org)
      then (refuse 404, t)
      else review_owned faults org user now body ar t

  unfoldable pub review :
      ReviewFaults
      → Text
      → Text
      → ℕ
      → Text
      → Option (Text × Text)
      → Tables
      → ReviewResponse × Tables
  unfolding apply_change
  review faults org user now approval_id body t =
      if is_nil approval_id
      then (refuse 400, t)
      else review_found faults org user now body
          (if faults.get_fails then none else t.requests approval_id) t
