-- ===== src/Delivery.antt =====
-- Webhook deliveries: server/internal/webhook/dispatcher.go, with the waits of
-- server/internal/retry/backoff.go in Delivery/Backoff.antt. The HTTP client and the cancellation
-- of the context are arguments; spans, metrics and log lines are left out.
pub mod Backoff
pub mod Queue
pub mod Attempts
mod Tests
use featuresignals_unified.Base.{
  ℕ, zero, suc, Bool, true, false, not, ◌&&◌, ◌||◌, Option, none, some, List, [], ◌∷◌, leb, ltb,
  if◌then◌else◌,
}
use featuresignals_unified.Base.Text.{Text, bytes, text_eq}

pub record Webhook : Type 0 where
  pub id : Text
  pub events : List Text
  pub enabled : Bool

unfoldable pub event_matches : List Text → Text → Bool
event_matches [] event_type = false
event_matches (s ∷ ss) event_type =
    if text_eq s event_type || text_eq s (bytes "*") then true else event_matches ss event_type

-- The loop of dispatch, as the list of the work that it queues. `done` says whether the context is
-- done when the work of a webhook is about to be queued, and that case of the select is taken.
unfoldable pub dispatch_loop : (Webhook → Bool) → Text → List Webhook → List Webhook
unfolding event_matches
dispatch_loop done event_type [] = []
dispatch_loop done event_type (wh ∷ whs) =
    let rest = dispatch_loop done event_type whs in
    if not wh.enabled
    then rest
    else (if not (event_matches wh.events event_type)
        then rest
        else (if done wh then [] else wh ∷ rest))

-- `webhooks` is what the store lists, `none` for its error.
unfoldable pub dispatch : (Webhook → Bool) → Text → Option (List Webhook) → List Webhook
dispatch done event_type none = []
dispatch done event_type (some whs) = dispatch_loop done event_type whs

-- What becomes of an attempt: the request cannot be made, the client errs, or there is a
-- response with its status and the start of its body.
pub data Reply : Type 0 where
  no_request : Reply
  client_error : Text → Reply
  response : ℕ → Text → Reply

-- `lastStatus`, `lastBody` and `success`
pub record Progress : Type 0 where
  pub last_status : ℕ
  pub last_body : Text
  pub success : Bool

abbrev pub is_success : ℕ → Bool
is_success status = leb 200 status && ltb status 300

abbrev pub is_client_error : ℕ → Bool
is_client_error status = leb 400 status && ltb status 500

-- Before a further attempt the context may be done: `break` leaves the select only, so the attempt
-- is made all the same.
abbrev pub waited : ℕ → Option Text → Progress → Progress
waited attempt none p = p
waited attempt (some err) p =
    if ltb 1 attempt
    then record { last_status = p.last_status; last_body = err; success = p.success }
    else p

-- The result of an attempt: the function returns, the loop ends, or it goes on.
pub data Round : Type 0 where
  returned : Round
  ended : Progress → Round
  going_on : Progress → Round

abbrev pub judge : Progress → Reply → Round
judge p no_request = returned
judge p (client_error err) =
    going_on (record { last_status = 0; last_body = err; success = p.success })
judge p (response status body) =
    if is_success status
    then ended (record { last_status = status; last_body = body; success = true })
    else (if is_client_error status
        then ended (record { last_status = status; last_body = body; success = p.success })
        else going_on (record { last_status = status; last_body = body; success = p.success }))

-- What follows an attempt: nothing is recorded, the end of the loop, or the rest of it.
abbrev pub proceed : ℕ → Round → (Progress → List ℕ × Option Progress) → List ℕ × Option Progress
proceed attempt returned rest = (attempt ∷ [], none)
proceed attempt (ended q) rest = (attempt ∷ [], some q)
proceed attempt (going_on q) rest = (attempt ∷ (rest q).0, (rest q).1)

-- `left` attempts are left, of which `attempt` is the next; `cancelled` is the error of a context
-- that is done at the wait before an attempt. The result has the attempts that were made, and
-- `none` when nothing is recorded.
unfoldable pub deliver_loop :
    (ℕ → Reply) → (ℕ → Option Text) → ℕ → ℕ → Progress → List ℕ × Option Progress
deliver_loop client cancelled zero attempt p = ([], some p)
deliver_loop client cancelled (suc left) attempt p =
    proceed attempt (judge (waited attempt (cancelled attempt) p) (client attempt))
      (deliver_loop client cancelled left (suc attempt))

-- `maxRetries: 3`
abbrev pub max_retries : ℕ
max_retries = 3

unfoldable pub deliver : (ℕ → Reply) → (ℕ → Option Text) → List ℕ × Option Progress
deliver client cancelled =
    deliver_loop client cancelled max_retries 1
      (record { last_status = 0; last_body = []; success = false })
