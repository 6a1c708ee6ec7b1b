-- ===== src/Delivery/Tests.antt =====
-- Deliveries to concrete clients.
use featuresignals_unified.Base.{
  ℕ, ◌+◌, ◌/◌, ◌≤◌, ◌<◌, ◌≡◌, ◌↔◌, refl, true, false, Option, none, some, [], ◌∷◌, arith, ◌==◌,
  if◌then◌else◌,
}
use featuresignals_unified.Base.Int.{pos}
use featuresignals_unified.Base.Preds.{In}
use featuresignals_unified.Base.Text.{Text, bytes}
use featuresignals_unified.Delivery.{
  Webhook, dispatch, Reply, client_error, response, deliver, deliver_loop,
}
use featuresignals_unified.Delivery.Queue.{Subscribes, dispatch_iff}
use featuresignals_unified.Delivery.Attempts.{Consecutive, IsReported, deliver-Consecutive}
use featuresignals_unified.Delivery.Backoff.{
  jittered_backoff, planned, rounds, jittered_backoff-planned, grow,
}

-- A server that is down, then overloaded, then fine.
abbrev flaky : ℕ → Reply
flaky attempt =
    if attempt == 1
    then client_error (bytes "refused")
    else (if attempt == 2 then response 503 [] else response 200 [])

abbrev never : ℕ → Option Text
never i = none

deliver-Consecutive_example :
    Consecutive flaky 3 1 (deliver flaky never).0 × IsReported flaky (deliver flaky never)
deliver-Consecutive_example = deliver-Consecutive flaky never

delivered :
    deliver flaky never
    ≡ (1 ∷ 2 ∷ 3 ∷ [], some (record { last_status = 200; last_body = []; success = true }))
unfolding deliver deliver_loop
delivered = refl

-- The context is done at the wait before the second attempt, which is made all the same.
delivered_after_cancel : (deliver flaky (λ i. some (bytes "context canceled"))).0 ≡ 1 ∷ 2 ∷ 3 ∷ []
unfolding deliver deliver_loop
delivered_after_cancel = refl

abbrev all_events : Webhook
all_events = record { id = bytes "w1"; events = bytes "*" ∷ []; enabled = true }

abbrev switched_off : Webhook
switched_off = record { id = bytes "w2"; events = bytes "flag.updated" ∷ []; enabled = false }

dispatch_iff_example :
    In all_events
      (dispatch (λ w. false) (bytes "flag.updated") (some (switched_off ∷ all_events ∷ [])))
    ↔ (In all_events (switched_off ∷ all_events ∷ [])
        × Subscribes (bytes "flag.updated") all_events)
dispatch_iff_example =
    dispatch_iff (bytes "flag.updated") (switched_off ∷ all_events ∷ []) all_events

-- The defaults: 200 ms, factor 2, at most 30 s.
jittered_backoff-planned_example :
    (b : ℕ) × (jittered_backoff (λ n. 0) (pos 2) 200000000 2 30000000000 ≡ some b)
    × (planned (rounds (pos 2)) 200000000 2 30000000000 ≤ b)
    × (b
        < planned (rounds (pos 2)) 200000000 2 30000000000
          + planned (rounds (pos 2)) 200000000 2 30000000000 / 2)
jittered_backoff-planned_example =
    jittered_backoff-planned (λ n. 0) (pos 2) 200000000 2 30000000000 (λ n le. omega (arith, le))
      (omega arith) (omega arith) (omega arith) (omega arith)

waits : jittered_backoff (λ n. 7) (pos 3) 200000000 2 30000000000 ≡ some 800000007
unfolding jittered_backoff grow
waits = refl
