-- ===== src/Webhook.antt =====
-- apps/marketplace/src/services/webhook.service.ts: an event of the marketplace, as the sequence of
-- calls that it makes on the database and on the marketplace, any of which may throw.
pub mod Acknowledgement
mod Tests
use ngotag_platform.Common.{
  ℕ, ◌≡◌, Bool, true, false, not, ◌&&◌, ◌||◌, Option, none, some, List, [], ◌∷◌, ◌++◌, String,
  str_eq, ◌==◌, if◌then◌else◌,
}

pub data Action : Type 0 where
  change_plan change_quantity renew reinstate suspend unsubscribe other_action : Action

pub record Payload : Type 0 where
  pub id : Option String
  pub action : Action
  pub plan_id : Option String

pub data AckStatus : Type 0 where
  not_required ack_pending success : AckStatus

pub data Processing : Type 0 where
  processed failed : Processing

-- The calls, in the order in which they are made; the last three are the marketplace's.
pub data Call : Type 0 where
  upsert_operation : String → AckStatus → Call
  update_subscription_from_microsoft : Call
  set_plan : String → Call
  set_suspended set_unsubscribed : Call
  update_ack : String → AckStatus → Call
  create_webhook_event : Call
  update_webhook_event : Processing → Call
  get_operation : String → Call
  get_subscription : Call
  patch_operation : String → Call

-- How the marketplace answers: with success, with a status 400, or with another error.
pub data Answer : Type 0 where
  success_answer bad_request other_error : Answer

-- What the marketplace answers to each kind of call, and which calls of the database throw; no handling
-- makes the same one twice.
pub record Environment : Type 0 where
  pub database_throws : Call → Bool
  pub on_get_operation : Answer
  pub on_get_subscription : Answer
  pub on_patch : Answer

-- The calls made, and whether an error was thrown at the end of them.
pub record Trace : Type 0 where
  pub calls : List Call
  pub thrown : Bool

abbrev pub finished : List Call → Trace
finished cs = record { calls = cs; thrown = false }

-- First the one, then, where it threw nothing, the other.
pub and_then : Trace → Trace → Trace
and_then a b = if a.thrown then a else record { calls = a.calls ++ b.calls; thrown = b.thrown }

pub is_success : Answer → Bool
is_success success_answer = true
is_success a = false

-- `if (payload.id)`, `if (payload.planId)`: a text that is not empty.
pub given : Option String → Option String
given none = none
given (some s) = if str_eq s "" then none else some s

pub needs_ack : Action → Bool
needs_ack change_plan = true
needs_ack change_quantity = true
needs_ack reinstate = true
needs_ack a = false

-- A call of the marketplace that throws on any error.
pub asked : Call → Answer → Trace
asked c a = record { calls = c ∷ []; thrown = not (is_success a) }

-- A call of the database.
pub written : Environment → Call → Trace
written m c = record { calls = c ∷ []; thrown = m.database_throws c }

pub record_operation : Environment → Option String → Action → Trace
record_operation m none a = finished []
record_operation m (some id) a =
    written m (upsert_operation id (if needs_ack a then ack_pending else not_required))

pub look_up_operation : Environment → Option String → Action → Trace
look_up_operation m none a = finished []
look_up_operation m (some id) a =
    if needs_ack a then asked (get_operation id) m.on_get_operation else finished []

-- The subscription is read from the marketplace and written.
pub refreshed : Environment → Trace
refreshed m =
    and_then (asked get_subscription m.on_get_subscription)
      (written m update_subscription_from_microsoft)

-- `patchOperationIfNeeded` swallows a status 400 and rethrows any other error.
pub patch_operation_if_needed : Environment → Option String → Trace
patch_operation_if_needed m none = finished []
patch_operation_if_needed m (some id) = record {
  calls = patch_operation id ∷ [];
  thrown = elim m.on_patch [ success_answer ↦ false | bad_request ↦ false | other_error ↦ true ];
}

pub acknowledged : Environment → Option String → Trace
acknowledged m none = finished []
acknowledged m (some id) = written m (update_ack id success)

pub patched : Environment → Option String → Trace
patched m id = and_then (patch_operation_if_needed m id) (acknowledged m id)

-- A change of plan without a plan falls through all branches.
pub plan_changed : Environment → Option String → Option String → Trace
plan_changed m id none = finished []
plan_changed m id (some plan) =
    and_then (refreshed m) (and_then (written m (set_plan plan)) (patched m id))

pub act : Environment → Option String → Option String → Action → Trace
act m id plan change_plan = plan_changed m id plan
act m id plan change_quantity = and_then (refreshed m) (patched m id)
act m id plan renew = refreshed m
act m id plan reinstate = and_then (refreshed m) (patched m id)
act m id plan suspend = written m set_suspended
act m id plan unsubscribe = written m set_unsubscribed
act m id plan other_action = finished []

pub apply_webhook_action : Environment → Payload → Trace
apply_webhook_action m p = and_then (record_operation m (given p.id) p.action) (
    and_then (look_up_operation m (given p.id) p.action)
      (act m (given p.id) (given p.plan_id) p.action))

-- The `catch`: what threw is thrown again, unless the last call throws in its place.
pub concluded : Trace → Trace
concluded t =
    if t.thrown
    then record { calls = t.calls ++ (update_webhook_event failed ∷ []); thrown = true }
    else t

-- The `try` of `processWebhook`, for a subscription that is known.
pub process_known : Environment → Payload → Trace
process_known m p =
    concluded (and_then (apply_webhook_action m p) (written m (update_webhook_event processed)))

-- `Subscription not found`: an error either way.
process_unknown : Trace
process_unknown = record { calls = update_webhook_event failed ∷ []; thrown = true }

-- `processWebhook` after the checks of the token and of the offer, and after the subscription was
-- looked up.
pub process_webhook : Environment → Bool → Payload → Trace
process_webhook m known p =
    and_then (written m create_webhook_event) (if known then process_known m p else process_unknown)
