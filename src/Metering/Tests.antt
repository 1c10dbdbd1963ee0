-- ===== src/Metering/Tests.antt =====
-- apps/marketplace/src/services/metering.service.ts and `getUsageSummary` at concrete inputs.
use ngotag_platform.Common.{
  ℕ, ◌+◌, ◌-◌, ◌≡◌, refl, true, false, Option, some, List, [], ◌∷◌, ◌++◌, String,
}
use ngotag_platform.Metering.{
  issuance_txn, BillableEvent, Plan, included_usage, aggregate_subscription_usage, UsageEvent,
  Calls, pending, accepted, expired, submit_pending_usage,
}
use ngotag_platform.Metering.Billing.{used, billed, aggregate_subscription_usage-billed}
use ngotag_platform.Metering.Submission.{
  Follows, late_marks, timely_marks, submit_pending_usage-updated,
}
use ngotag_platform.Metering.Summary.{MeteringTotal}

abbrev plan : Option Plan
plan = some (record {
  included_issuance_transactions = 5;
  included_verification_transactions = 0;
  included_schemas = 1;
})

abbrev issued : String → ℕ → ℕ → BillableEvent
issued id n at = record {
  id = id;
  event_type = "issuance_completed";
  quantity = n;
  occurred_at = at;
}

abbrev events : List BillableEvent
events = issued "a" 3 1000 ∷ issued "b" 4 2000 ∷ issued "c" 2 4000000 ∷ []

aggregate_subscription_usage-billed_example :
    billed issuance_txn (aggregate_subscription_usage plan events)
    ≡ used issuance_txn events - included_usage plan issuance_txn
aggregate_subscription_usage-billed_example =
    aggregate_subscription_usage-billed plan events issuance_txn

abbrev accept_all : List UsageEvent → List (Option String)
accept_all [] = []
accept_all (e ∷ es) = some "Accepted" ∷ accept_all es

abbrev accepting : Calls
accepting = record { submit = λ batch. some (accept_all batch); throws = λ u. false }

-- The event "turning" becomes a day old between the two filters.
abbrev waiting : List UsageEvent
waiting =
    record { id = "old"; usage_start_time = 0; quantity = 1 }
    ∷ record { id = "turning"; usage_start_time = 13600002; quantity = 1 }
    ∷ record { id = "new"; usage_start_time = 90000000; quantity = 2 }
    ∷ []

abbrev clock : ℕ → ℕ
clock n = 100000000 + n

submit_pending_usage-updated_example :
    Follows
      (submit_pending_usage accepting clock waiting)
      (late_marks clock 3 waiting ++ timely_marks clock 0 waiting)
submit_pending_usage-updated_example = submit_pending_usage-updated accepting clock waiting

turning_twice :
    late_marks clock 3 waiting ++ timely_marks clock 0 waiting
    ≡ ("old", true) ∷ ("turning", true) ∷ ("turning", false) ∷ ("new", false) ∷ []
turning_twice = refl

abbrev totals : List MeteringTotal
totals =
    record { dimension = issuance_txn; status = pending; quantity = 2 }
    ∷ record { dimension = issuance_txn; status = accepted; quantity = 3 }
    ∷ record { dimension = issuance_txn; status = expired; quantity = 4 }
    ∷ []
