-- ===== src/Examples/Sending.antt =====
-- The theorems on delivery, on the plan of the news event.
use tdaudiibncba.Common.{◌≡◌, ◌≢◌, ◌↔◌, ◌⊎◌, refl, none, some, [], arith}
use tdaudiibncba.Delivery.Status.{status_eq}
use tdaudiibncba.Delivery.Errors.{default_policy, next_attempt_at, capped_delay}
use tdaudiibncba.Delivery.Policy.{Decision, PolicyCheckable, check}
use tdaudiibncba.Delivery.Executor.{checkable, execute}
use tdaudiibncba.Delivery.Backoff.{IsScheduled, next_attempt_at-IsScheduled}
use tdaudiibncba.Delivery.Gate.{IsCleared, check_allow_iff}
use tdaudiibncba.Delivery.Effects.{Reports, refusal, execute_gated}
use tdaudiibncba.Examples.Data.{news_plan, live_sender, open_policy, working_transport}

abbrev news_job : PolicyCheckable
news_job = checkable working_transport news_plan 4 "tenant" "project"

check_allow_iff_example :
    (check news_job live_sender open_policy none 100 ≡ Decision.allow)
    ↔ IsCleared news_job live_sender open_policy none 100
check_allow_iff_example = check_allow_iff news_job live_sender open_policy none 100

execute_gated_example :
    let d = check news_job live_sender open_policy none 100 in
    let r =
      execute working_transport news_plan live_sender open_policy none 4 "tenant" "project" 100
        none in
    ((d ≢ Decision.allow) × (r ≡ (refusal news_plan d, [])))
    ⊎ ((d ≡ Decision.allow) × Reports working_transport news_plan [] r.0 r.1)
execute_gated_example =
    execute_gated working_transport news_plan live_sender open_policy none 4 "tenant" "project" 100
      none

third_attempt : next_attempt_at default_policy 3 0 200 ≡ some 20000000
unfolding next_attempt_at capped_delay
third_attempt = refl

next_attempt_at-IsScheduled_example : IsScheduled default_policy 3 0 20000000
next_attempt_at-IsScheduled_example =
    next_attempt_at-IsScheduled default_policy 3 0 200 20000000 (omega arith) third_attempt
