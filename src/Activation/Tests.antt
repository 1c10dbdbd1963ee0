-- ===== src/Activation/Tests.antt =====
-- Runs of the activation.
use ngotag_platform.Activation.{
  pending, subscribed, not_started, open_session, Row, Db, Call, activate_call, call_failed,
  returned, thrown, Env, find_row, find_session, update_rows, update_sessions, has_fee,
  set_activation_status, set_subscription_status, update_onboarding_session, record_setup_fee_usage,
  call, and_then, complete_activation, refreshed, attempt, rethrown, record_failure, attempted,
  outcome_of, started, activate_row, is_linked_to, is_org, activate_found, valid_row,
  activate_subscription,
}
use ngotag_platform.Activation.Effects.{is_failed}
use ngotag_platform.Activation.Fees.{fees_due, Attempt, run, run-fees_due}
use ngotag_platform.Activation.Due.{all_due}
use ngotag_platform.Activation.Outcomes.{is_served, activate_subscription-returned}
use ngotag_platform.Activation.Failures.{activate_row-failed}
use ngotag_platform.Activation.Reconciliation.{
  Listed, reconcile_subscriptions, all_settled, reconcile_subscriptions-settled,
}
use ngotag_platform.Common.{◌≡◌, refl, Bool, true, false, some, List, [], ◌∷◌}

abbrev row : Row
row = record {
  id = "s";
  org_id = some "o";
  local_user_id = some "u";
  saas = pending;
  activation = not_started;
}

abbrev tables : Db
tables = record {
  rows = row ∷ [];
  sessions =
      record { id = "x"; subscription_id = "s"; expires_at = 50; status = open_session } ∷ [];
  fees = [];
}

abbrev smooth : Env
smooth = record { mock = false; latest = subscribed; fails = λ c. false }

abbrev refuses : Call → Bool
refuses activate_call = true
refuses c = false

abbrev refusing : Env
refusing = record { mock = false; latest = subscribed; fails = refuses }

runs : Unit {0}
unfolding find_row find_session update_rows update_sessions has_fee set_activation_status
    set_subscription_status update_onboarding_session record_setup_fee_usage call and_then
    complete_activation refreshed attempt rethrown record_failure attempted outcome_of started
    activate_row is_linked_to is_org activate_found valid_row activate_subscription
runs = tt

smooth_run : (activate_subscription smooth tables 10 "x" "o" "u").1 ≡ returned subscribed
unfolding runs
smooth_run = refl

refused_run : (activate_row refusing tables "x" "o" row).1 ≡ thrown (call_failed activate_call)
unfolding runs
refused_run = refl

activate_subscription-returned_example :
    is_served "x" "o" "u"
      (activate_subscription smooth tables 10 "x" "o" "u").0
      (valid_row 10 tables (find_session tables.sessions "x"))
    ≡ true
activate_subscription-returned_example =
    activate_subscription-returned smooth tables 10 "x" "o" "u" subscribed smooth_run

activate_row-failed_example : is_failed "s" "x" (activate_row refusing tables "x" "o" row).0 ≡ true
unfolding runs
activate_row-failed_example =
    activate_row-failed refusing tables "x" "o" row (call_failed activate_call) refl refl refl refl
      refl refl refused_run

abbrev attempts : List Attempt
attempts =
    record { env = refusing; now = 10; session = "x"; org = "o"; user = "u" }
    ∷ record { env = smooth; now = 11; session = "x"; org = "o"; user = "u" }
    ∷ []

no_fees : fees_due tables ≡ true
unfolding fees_due all_due
no_fees = refl

run-fees_due_example : fees_due (run tables attempts) ≡ true
run-fees_due_example = run-fees_due tables attempts no_fees

abbrev listed : List Listed
listed = record { id = "s"; saas = subscribed } ∷ record { id = "new"; saas = pending } ∷ []

reconcile_subscriptions-settled_example :
    all_settled (reconcile_subscriptions true tables listed) listed ≡ true
reconcile_subscriptions-settled_example = reconcile_subscriptions-settled tables listed
