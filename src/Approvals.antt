-- ===== src/Approvals.antt =====
-- Change requests: server/internal/api/handlers/approval.go with the check of ownership of
-- handlers/orgguard.go, the request of domain/approval.go, and the two statements of
-- store/postgres/store.go that a review runs. Each statement may fail; `parse_state` is
-- json.Unmarshal into a FlagState.
pub mod Review
pub mod Reviewing
mod Tests
use featuresignals_unified.Base.{
  ℕ, Bool, true, false, not, ◌&&◌, ◌||◌, Option, none, some, List, [], ◌∷◌, if◌then◌else◌,
}
use featuresignals_unified.Base.Text.{Text, bytes, text_eq}
use featuresignals_unified.Domain.{FlagState}
use featuresignals_unified.Eval.Engine.{is_nil}

pub data ApprovalStatus : Type 0 where
  pending approved rejected applied : ApprovalStatus
  other : Text → ApprovalStatus

pub record ApprovalRequest : Type 0 where
  pub id : Text
  pub org_id : Text
  pub requestor_id : Text
  pub flag_id : Text
  pub env_id : Text
  pub change_type : Text
  pub payload : Text
  pub status : ApprovalStatus
  pub reviewer_id : Option Text
  pub review_note : Text
  pub reviewed_at : Option ℕ

-- The fields of an audit entry that differ between entries.
pub record AuditEntry : Type 0 where
  pub org_id : Text
  pub actor_id : Text
  pub resource_id : Text
  pub after_state : FlagState

-- The tables: requests by ID, and states by flag and environment.
pub record Tables : Type 0 where
  pub requests : Text → Option ApprovalRequest
  pub states : Text → Text → Option FlagState
  pub audit : List AuditEntry

pub record ReviewFaults : Type 0 where
  pub get_fails : Bool
  pub update_fails : Bool
  pub upsert_fails : Bool
  pub mark_fails : Bool
  pub audit_fails : Bool

-- The response's status, and the request that it shows.
pub record ReviewResponse : Type 0 where
  pub code : ℕ
  pub shown : Option ApprovalRequest

abbrev pub refuse : ℕ → ReviewResponse
refuse code = record { code = code; shown = none }

abbrev pub is_pending : ApprovalStatus → Bool
is_pending pending = true
is_pending _ = false

-- `ar.Status`, `ar.ReviewerID`, `ar.ReviewNote` and `ar.ReviewedAt` are set.
abbrev pub reviewed : ApprovalStatus → Text → Text → ℕ → ApprovalRequest → ApprovalRequest
reviewed status user note now ar = record {
  id = ar.id;
  org_id = ar.org_id;
  requestor_id = ar.requestor_id;
  flag_id = ar.flag_id;
  env_id = ar.env_id;
  change_type = ar.change_type;
  payload = ar.payload;
  status = status;
  reviewer_id = some user;
  review_note = note;
  reviewed_at = some now;
}

-- UpdateApprovalRequest: the reviewed columns of the row with the ID, if there is one.
abbrev pub updated_row : ApprovalRequest → Option ApprovalRequest → Option ApprovalRequest
updated_row ar none = none
updated_row ar (some row) = some (record {
  id = row.id;
  org_id = row.org_id;
  requestor_id = row.requestor_id;
  flag_id = row.flag_id;
  env_id = row.env_id;
  change_type = row.change_type;
  payload = row.payload;
  status = ar.status;
  reviewer_id = ar.reviewer_id;
  review_note = ar.review_note;
  reviewed_at = ar.reviewed_at;
})

abbrev pub update_request : ApprovalRequest → Tables → Tables
update_request ar t = record {
  requests = λ id. if text_eq ar.id id then updated_row ar (t.requests id) else t.requests id;
  states = t.states;
  audit = t.audit;
}

-- The ID of the row that UpsertFlagState writes: that of the row in its place, or a new one.
abbrev pub row_id : Text → Option FlagState → Text
row_id new_id none = new_id
row_id new_id (some row) = row.id

-- The state of a payload, for the flag and the environment of the request.
abbrev pub placed : Text → ApprovalRequest → FlagState → FlagState
placed id ar s = record {
  id = id;
  flag_id = ar.flag_id;
  env_id = ar.env_id;
  enabled = s.enabled;
  default_value = s.default_value;
  rules = s.rules;
  percentage_rollout = s.percentage_rollout;
  variants = s.variants;
  scheduled_enable_at = s.scheduled_enable_at;
  scheduled_disable_at = s.scheduled_disable_at;
}

-- UpsertFlagState.
abbrev pub upsert_state : FlagState → Tables → Tables
upsert_state s t = record {
  requests = t.requests;
  states = λ f e. if text_eq s.flag_id f && text_eq s.env_id e then some s else t.states f e;
  audit = t.audit;
}

abbrev pub add_audit : Bool → AuditEntry → Tables → Tables
add_audit true entry t = t
add_audit false entry t = record {
  requests = t.requests;
  states = t.states;
  audit = entry ∷ t.audit;
}

-- The decoded body of a new request.
pub record CreateRequest : Type 0 where
  pub flag_id : Text
  pub env_id : Text
  pub change_type : Text
  pub payload : Text

abbrev pub new_request : Text → Text → Text → CreateRequest → ApprovalRequest
new_request id org user req = record {
  id = id;
  org_id = org;
  requestor_id = user;
  flag_id = req.flag_id;
  env_id = req.env_id;
  change_type = req.change_type;
  payload = req.payload;
  status = pending;
  reviewer_id = none;
  review_note = [];
  reviewed_at = none;
}

-- Create; `id` is the row's ID, which CreateApprovalRequest scans into the request.
unfoldable pub create :
    Bool → Text → Text → Text → Option CreateRequest → Tables → ReviewResponse × Tables
create store_fails id org user none t = (refuse 400, t)
create store_fails id org user (some req) t =
    if is_nil req.flag_id || is_nil req.env_id || is_nil req.change_type
    then (refuse 400, t)
    else (if store_fails then (refuse 500, t) else (
      record { code = 201; shown = some (new_request id org user req) },
      record {
        requests = λ i. if text_eq id i then some (new_request id org user req) else t.requests i;
        states = t.states;
        audit = t.audit;
      },
    ))
