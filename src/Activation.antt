-- ===== src/Activation.antt =====
-- apps/marketplace/src/marketplace.service.ts, `activateSubscription`, and
-- apps/marketplace/src/services/reconciliation.service.ts, over the tables of the onboarding, of which
-- they read and write these columns. Each call of the database and of the marketplace may throw:
-- `fails` says which calls of a run do. An id is the key of its table.
pub mod Rows
pub mod Due
pub mod Fees
pub mod Effects
pub mod Completed
pub mod Outcomes
pub mod Failures
pub mod Reconciliation
mod Tests
use ngotag_platform.Common.{
  ℕ, Bool, true, false, not, ◌&&◌, ◌||◌, Option, none, some, List, [], ◌∷◌, ◌++◌, String, str_eq,
  ltb, if◌then◌else◌,
}

pub data SaasStatus : Type 0 where
  pending subscribed suspended unsubscribed : SaasStatus

pub data ActivationStatus : Type 0 where
  not_started in_progress activated failed : ActivationStatus

pub data SessionStatus : Type 0 where
  open_session activated_session failed_session : SessionStatus

pub record Row : Type 0 where
  pub id : String
  pub org_id : Option String
  pub local_user_id : Option String
  pub saas : SaasStatus
  pub activation : ActivationStatus

pub record SessionRow : Type 0 where
  pub id : String
  pub subscription_id : String
  pub expires_at : ℕ
  pub status : SessionStatus

-- The rows of `billing_usage_event` whose type is 'organization_setup_completed'.
pub record Fee : Type 0 where
  pub source_id : String
  pub org : String

pub record Db : Type 0 where
  pub rows : List Row
  pub sessions : List SessionRow
  pub fees : List Fee

-- The calls of one run that may throw.
pub data Call : Type 0 where
  set_activation_call : ActivationStatus → Call
  session_call : SessionStatus → Call
  status_call fee_call activate_call refresh_call update_call : Call

pub data Failure : Type 0 where
  session_not_found link_required wrong_organization : Failure
  call_failed : Call → Failure

pub data Outcome : Type 0 where
  returned : SaasStatus → Outcome
  thrown : Failure → Outcome

pub find_row : List Row → String → Option Row
find_row [] id = none
find_row (r ∷ rs) id = let later = find_row rs id in if str_eq r.id id then some r else later

pub find_session : List SessionRow → String → Option SessionRow
find_session [] id = none
find_session (s ∷ ss) id =
    let later = find_session ss id in if str_eq s.id id then some s else later

pub update_rows : List Row → String → (Row → Row) → List Row
update_rows [] id f = []
update_rows (r ∷ rs) id f =
    let later = update_rows rs id f in if str_eq r.id id then f r ∷ rs else r ∷ later

pub update_sessions : List SessionRow → String → SessionStatus → List SessionRow
update_sessions [] id st = []
update_sessions (s ∷ ss) id st =
    let later = update_sessions ss id st in
    if str_eq s.id id then record s { status = st } ∷ ss else s ∷ later

pub has_fee : List Fee → String → Bool
has_fee [] id = false
has_fee (f ∷ fs) id = str_eq f.source_id id || has_fee fs id

pub set_activation_status : Db → String → ActivationStatus → Db
set_activation_status d id a = record d {
  rows = update_rows d.rows id (λ r. record r { activation = a });
}

pub set_subscription_status : Db → String → SaasStatus → Db
set_subscription_status d id s = record d {
  rows = update_rows d.rows id (λ r. record r { saas = s });
}

pub update_onboarding_session : Db → String → SessionStatus → Db
update_onboarding_session d id st = record d { sessions = update_sessions d.sessions id st }

-- `recordSetupFeeUsage`: an upsert that updates nothing.
pub record_setup_fee_usage : Db → String → String → Db
record_setup_fee_usage d id org =
    if has_fee d.fees id
    then d
    else record d { fees = (record { source_id = id; org = org }) ∷ d.fees }

-- A call, and what follows it unless it throws.
pub call : (Call → Bool) → Call → Db → Db → Db × Option Failure
call fails c before after = if fails c then (before, some (call_failed c)) else (after, none)

unfoldable pub and_then : Db × Option Failure → (Db → Db × Option Failure) → Db × Option Failure
and_then (d, some e) f = (d, some e)
and_then (d, none) f = f d

-- What this run finds: whether the mock is enabled, and what the marketplace answers to a refresh.
pub record Env : Type 0 where
  pub mock : Bool
  pub latest : SaasStatus
  pub fails : Call → Bool

abbrev pub is_subscribed : SaasStatus → Bool
is_subscribed subscribed = true
is_subscribed s = false

-- The status of the subscription, that of the session, and the fee.
pub complete_activation : Env → Db → String → String → String → Db × Option Failure
complete_activation v d sub session org =
    and_then
      (call v.fails (set_activation_call activated) d (set_activation_status d sub activated))
      (λ d1.
        and_then
          (call v.fails (session_call activated_session) d1
            (update_onboarding_session d1 session activated_session))
          (λ d2. call v.fails fee_call d2 (record_setup_fee_usage d2 sub org)))

-- The refresh after the activation, whose failure is only logged.
unfoldable pub refreshed : Env → Db → String → SaasStatus → Db × SaasStatus
refreshed v d sub known =
    if v.fails refresh_call || v.fails update_call
    then (d, known)
    else (set_subscription_status d sub v.latest, v.latest)

-- The body of the `try`.
unfoldable pub attempt : Env → Db → String → String → String → Db × Option Failure
attempt v d sub session org =
    if v.mock
    then and_then (call v.fails status_call d (set_subscription_status d sub subscribed))
        (λ d1. complete_activation v d1 sub session org)
    else and_then (call v.fails activate_call d d) (λ d1. complete_activation v d1 sub session org)

pub rethrown : Failure → Option Failure → Outcome
rethrown e none = thrown e
rethrown e (some f) = thrown f

-- The `catch`, which throws the error again.
pub record_failure : Env → Db → String → String → Failure → Db × Outcome
record_failure v d sub session e =
    let (d1, e1) =
      and_then (call v.fails (set_activation_call failed) d (set_activation_status d sub failed))
        (λ d1.
          call v.fails (session_call failed_session) d1
            (update_onboarding_session d1 session failed_session)) in
    (d1, rethrown e e1)

pub attempted : Env → String → String → SaasStatus → Db × Option Failure → Db × Outcome
attempted v sub session known (d, some e) = record_failure v d sub session e
attempted v sub session known (d, none) =
    if v.mock
    then (d, returned subscribed)
    else let (d1, s) = refreshed v d sub known in (d1, returned s)

pub outcome_of : SaasStatus → Db × Option Failure → Db × Outcome
outcome_of s (d, none) = (d, returned s)
outcome_of s (d, some e) = (d, thrown e)

pub started : Env → String → String → String → SaasStatus → Db × Option Failure → Db × Outcome
started v sub session org known (d, some e) = (d, thrown e)
started v sub session org known (d, none) =
    attempted v sub session known (attempt v d sub session org)

pub activate_row : Env → Db → String → String → Row → Db × Outcome
activate_row v d session org r =
    if is_subscribed r.saas
    then outcome_of subscribed (complete_activation v d r.id session org)
    else started v r.id session org r.saas (
        call v.fails (set_activation_call in_progress) d (set_activation_status d r.id in_progress))

unfoldable pub is_linked_to : Option String → String → Bool
is_linked_to none user = false
is_linked_to (some l) user = not (str_eq l "") && str_eq l user

pub is_org : Option String → String → Bool
is_org none org = false
is_org (some o) org = str_eq o org

pub activate_found : Env → Db → String → String → String → Option Row → Db × Outcome
activate_found v d session org user none = (d, thrown session_not_found)
activate_found v d session org user (some r) =
    if not (is_linked_to r.local_user_id user)
    then (d, thrown link_required)
    else if not (is_org r.org_id org)
    then (d, thrown wrong_organization)
    else activate_row v d session org r

-- `getValidSession`, with the subscription that the session reads.
pub valid_row : ℕ → Db → Option SessionRow → Option Row
valid_row now d none = none
valid_row now d (some s) = if ltb s.expires_at now then none else find_row d.rows s.subscription_id

-- `activateSubscription`
pub activate_subscription : Env → Db → ℕ → String → String → String → Db × Outcome
activate_subscription v d now session org user =
    activate_found v d session org user (valid_row now d (find_session d.sessions session))
