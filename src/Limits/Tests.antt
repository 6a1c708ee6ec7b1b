-- ===== src/Limits/Tests.antt =====
-- The limiters on concrete requests.
use Prim.Native.Nat.{min}
use featuresignals_unified.Base.{
  ◌+◌, ◌-◌, ◌*◌, ◌≤◌, ◌≡◌, inl, refl, none, some, List, [], ◌∷◌, arith,
}
use featuresignals_unified.Base.Text.{bytes, text_eq}
use featuresignals_unified.Limits.{Visitors, admit, put}
use featuresignals_unified.Limits.Window.{
  Event, request, tick, passed_requests, all_requests, passed_requests-window,
}
use featuresignals_unified.Limits.Bursts.{passed_requests-fresh, passed_requests-minute}

abbrev nobody : Visitors
nobody key = none

abbrev ann_seen : Visitors
ann_seen key = some (record { count = 1; reset_at = 60000000000 })

-- Two requests of `ann`, whose limit is 2, with one of `bob` and a tick between them.
abbrev two_more : List Event
two_more =
    request (bytes "ann") 2 1000 1001
    ∷ request (bytes "bob") 1 1500 1501
    ∷ tick 2000
    ∷ request (bytes "ann") 2 3000 3001
    ∷ []

passed_requests-window_example :
    passed_requests (bytes "ann") two_more ann_seen
    ≡ min (all_requests (bytes "ann") two_more) (2 - 1)
passed_requests-window_example =
    passed_requests-window (bytes "ann") 2 two_more (record { count = 1; reset_at = 60000000000 })
      ann_seen refl (ground arith)

passed_requests-fresh_test :
    passed_requests (bytes "ann") (request (bytes "ann") 2 500 501 ∷ two_more) nobody
    ≡ 1 + min (all_requests (bytes "ann") two_more) (2 - 1)
passed_requests-fresh_test =
    passed_requests-fresh (bytes "ann") 2 500 501 two_more nobody (inl refl) (ground arith)

passed_requests-minute_example : passed_requests (bytes "ann") two_more ann_seen ≤ 2 * 2
passed_requests-minute_example =
    passed_requests-minute (bytes "ann") 2 900 (omega arith) two_more ann_seen (ground arith)

-- With a limit of 2, three requests pass within two seconds around the end of a window.
burst :
    passed_requests
      (bytes "ann")
      (request (bytes "ann") 2 59000000000 59000000001
        ∷ request (bytes "ann") 2 60000000001 60000000002
        ∷ request (bytes "ann") 2 60500000000 60500000001
        ∷ [])
      ann_seen
    ≡ 3
unfolding passed_requests admit put text_eq
burst = refl
