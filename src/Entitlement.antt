-- ===== src/Entitlement.antt =====
-- apps/marketplace/src/services/entitlement.service.ts: which features an organisation may use, from
-- its subscription, its plan and the settings of the deployment.
pub mod Rules
mod Tests
use ngotag_platform.Common.{
  ℕ, ◌-◌, ◌≡◌, Bool, true, false, not, ◌&&◌, ◌||◌, Option, none, some, List, [], ◌∷◌, String,
  str_eq, if◌then◌else◌,
}

pub data SubscriptionStatus : Type 0 where
  pending_fulfillment_start subscribed suspended unsubscribed : SubscriptionStatus

pub data ActivationStatus : Type 0 where
  not_started in_progress activated activation_failed : ActivationStatus

pub record Subscription : Type 0 where
  pub saas_subscription_status : SubscriptionStatus
  pub activation_status : ActivationStatus

-- An object of features: what it holds under a name.
abbrev pub Features : Type 0
Features = String → Option Bool

abbrev pub default_names : List String
default_names =
    "schemaCreate" ∷ "credentialDefinitionCreate" ∷ "issuance" ∷ "bulkIssuance" ∷ "verification"
    ∷ "apiAccess" ∷ []

pub listed : List String → String → Bool
listed [] x = false
listed (y ∷ ys) x = str_eq y x || listed ys x

pub default_features : Features
default_features name = if listed default_names name then some true else none

pub disable_features : Features
disable_features name = if listed default_names name then some false else none

-- `{ ...base, ...over }`
pub spread : Features → Features → Features
spread base over name = elim (over name) [ none ↦ base name | some b ↦ some b ]

-- `planFeatures`: the plan, if there is one, with its features, if it has an object of them.
pub plan_features : Option (Option Features) → Features
plan_features none = default_features
plan_features (some none) = default_features
plan_features (some (some over)) = spread default_features over

pub data BlockedReason : Type 0 where
  subscription_required activation_required is_suspended is_unsubscribed failed : BlockedReason

pub blocked_reason : SubscriptionStatus → ActivationStatus → Option BlockedReason
blocked_reason pending_fulfillment_start a = some activation_required
blocked_reason suspended a = some is_suspended
blocked_reason unsubscribed a = some is_unsubscribed
blocked_reason subscribed activation_failed = some failed
blocked_reason subscribed a = none

pub is_active : SubscriptionStatus → ActivationStatus → Bool
is_active subscribed activated = true
is_active s a = false

pub record Entitlements : Type 0 where
  pub features : Features
  pub blocked : Option BlockedReason

-- `getEntitlements` from what it looks up: whether the organisation is exempt, whether a
-- subscription is required, the subscription and its plan.
pub get_entitlements : Bool → Bool → Option Subscription → Option (Option Features) → Entitlements
get_entitlements true required sub plan = record { features = default_features; blocked = none }
get_entitlements false true none plan = record {
  features = disable_features;
  blocked = some subscription_required;
}
get_entitlements false false none plan = record { features = default_features; blocked = none }
get_entitlements false required (some s) plan =
    if is_active s.saas_subscription_status s.activation_status
    then record { features = plan_features plan; blocked = none }
    else record {
      features = disable_features;
      blocked = blocked_reason s.saas_subscription_status s.activation_status;
    }

-- `Boolean(value)`
pub truthy : Option Bool → Bool
truthy none = false
truthy (some b) = b

pub is_feature_allowed :
    Bool → Bool → Option Subscription → Option (Option Features) → String → Bool
is_feature_allowed exempt required sub plan feature =
    truthy ((get_entitlements exempt required sub plan).features feature)
