-- ===== src/Examples/Looping.antt =====
-- The theorems on a poll round of an account, on one ready job and a transport that crashes.
use tdaudiibncba.Common.{
  length, ℕ, ◌≤◌, String, ◌≡◌, ◌≢◌, refl, false, none, some, [], ◌∷◌, arith, string_eq, contains,
  List, ◌==◌, Bool-cases, inl, inr, ap, sym, ◌∙◌, some_inj, none≢some, eq_of_beq, update_by,
}
use tdaudiibncba.Common.Dict
use tdaudiibncba.Planner.Model.{RuleSnapshot}
use tdaudiibncba.Delivery.Status.{place}
use tdaudiibncba.Storage.Batches.{DrainTables}
use tdaudiibncba.Storage.Closing.{ResultTables}
use tdaudiibncba.Storage.Jobs.{DeliveryJob}
use tdaudiibncba.Storage.Pending.{pending}
use tdaudiibncba.Storage.Batches.{drain_to_jobs, next_unprocessed, unprocessed, limited}
use tdaudiibncba.Storage.Claiming.{
  Claim, claim_next, claim_from, candidates, reclaim_stale_sending, reclaim_jobs, stale_ids,
}
use tdaudiibncba.Worker.Draining.{drain_inbox, all_known}
use tdaudiibncba.Worker.Runner.{Round, send_next}
use tdaudiibncba.Worker.Looping.{Ended, send_all, run_once, drained_by}
use tdaudiibncba.Worker.Progress.{IsUnthrottled}
use tdaudiibncba.Worker.Ending.{run_once_ends}
use tdaudiibncba.Worker.Idle.{IsWaiting}
use tdaudiibncba.Worker.Idling.{send_all_idle}
use tdaudiibncba.Examples.Running.{ready_job, tables, deps, moments, tables-IsFiled}

abbrev no_rules : String → List RuleSnapshot
no_rules account = []

abbrev empty_inbox : DrainTables
empty_inbox = record { jobs = []; inbox = [] }

unthrottled : (n : ℕ) → IsUnthrottled deps "sender1"
unfolding contains
unthrottled n = record { unflooded = refl; unlimited = λ route. refl }

drained_pending :
    pending
      (drained_by "sender1" 4 200 no_rules
        (λ row n. 0)
        "t"
        "p"
        (λ n. "new")
        40
        tables
        empty_inbox).1.jobs
    ≡ 1
unfolding pending drain_inbox drain_to_jobs next_unprocessed unprocessed limited all_known
drained_pending = refl

run_once_ends_example :
    ((run_once "sender1" 4 200 no_rules
        (λ row n. 0)
        "t"
        "p"
        (λ n. "new")
        40
        none
        2
        (λ n. deps)
        (λ n. moments)
        tables
        empty_inbox).ended
      ≢ Ended.out_of_fuel)
    × (length
          (run_once "sender1" 4 200 no_rules
            (λ row n. 0)
            "t"
            "p"
            (λ n. "new")
            40
            none
            2
            (λ n. deps)
            (λ n. moments)
            tables
            empty_inbox).calls
        ≤ pending
            (drained_by "sender1" 4 200 no_rules
              (λ row n. 0)
              "t"
              "p"
              (λ n. "new")
              40
              tables
              empty_inbox).1.jobs)
run_once_ends_example =
    run_once_ends "sender1" 4 200 no_rules (λ row n. 0) "t" "p" (λ n. "new") 40 none 2 (λ n. deps)
      (λ n. moments) tables empty_inbox unthrottled tables-IsFiled (omega (arith, drained_pending))

-- A second job, which waits until the time 900.
abbrev waiting_job : DeliveryJob
waiting_job = record ready_job { id = "j2"; next_attempt_at = some 900 }

abbrev waiting_tables : ResultTables
waiting_tables = record {
  tables = record { jobs = ("j2", waiting_job) ∷ []; attempts = [] };
  maps = [];
}

waiting_under :
    (id : String) (job : DeliveryJob)
    → Dict.get waiting_tables.tables.jobs id ≡ some job
    → job.id ≡ id
unfolding Dict.get
waiting_under id job h = elim (Bool-cases ("j2" == id)) [
  | inl p ↦ ap (λ (j : DeliveryJob). j.id) (sym (some_inj (rw p at h))) ∙ eq_of_beq "j2" id p
  | inr p ↦ absurd (none≢some (rw p at h))
]

abbrev idle_round : Round
idle_round = record {
  acted = none;
  raised = false;
  halted = none;
  tables = waiting_tables;
  calls = [];
}

nothing_claimed :
    claim_next "sender1" 4 50 waiting_tables.tables ≡ (Claim.nothing, waiting_tables.tables)
unfolding claim_next claim_from candidates reclaim_stale_sending reclaim_jobs stale_ids place
    update_by
nothing_claimed = refl

round_idle : send_next deps "sender1" 4 moments waiting_tables ≡ idle_round
unfolding send_next
round_idle = rw nothing_claimed

waiting_idle : (send_all "sender1" 4 1 (λ n. deps) (λ n. moments) waiting_tables).ended ≡ Ended.idle
unfolding send_all
waiting_idle = rw round_idle

waiting_left :
    Dict.get
      (send_all "sender1" 4 1 (λ n. deps) (λ n. moments) waiting_tables).tables.tables.jobs
      "j2"
    ≡ some waiting_job
unfolding send_all Dict.get
waiting_left = rw round_idle

send_all_idle_example : (n : ℕ) × IsWaiting moments.claims waiting_job
send_all_idle_example =
    send_all_idle "sender1" 4 1 (λ n. deps) (λ n. moments) waiting_tables "j2" waiting_job
      unthrottled (record { own = waiting_under }) waiting_idle waiting_left refl refl
