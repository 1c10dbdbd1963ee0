-- ===== src/Entitlement/Rules.antt =====
-- apps/marketplace/src/services/entitlement.service.ts: who may use a feature.
use ngotag_platform.Entitlement.{
  Subscription, Features, default_names, listed, default_features, disable_features, spread,
  plan_features, BlockedReason, is_active, get_entitlements, truthy, is_feature_allowed,
}
use ngotag_platform.Common.{
  ◌≡◌, refl, sym, ◌∙◌, Bool, true, false, not, ◌&&◌, ◌||◌, Option, none, some, String, arith,
  Bool-cases, inl, inr, if◌then◌else◌,
}

-- What a plan allows: the feature by its own entry, or, where it has none, each of the known ones.
abbrev plan_allows : Option (Option Features) → String → Bool
plan_allows none name = listed default_names name
plan_allows (some none) name = listed default_names name
plan_allows (some (some over)) name = elim (over name) [
  | none ↦ listed default_names name
  | some b ↦ b
]

abbrev is_live : Option Subscription → Bool
is_live none = false
is_live (some s) = is_active s.saas_subscription_status s.activation_status

abbrev is_absent : Option Subscription → Bool
is_absent none = true
is_absent (some s) = false

abbrev may_use : Bool → Bool → Option Subscription → Option (Option Features) → String → Bool
may_use exempt required sub plan name =
    if exempt || (is_absent sub && not required)
    then listed default_names name
    else is_live sub && plan_allows plan name

default_truthy : (name : String) → truthy (default_features name) ≡ listed default_names name
unfolding truthy default_features
default_truthy name = ground arith

disabled_truthy : (name : String) → truthy (disable_features name) ≡ false
unfolding truthy disable_features
disabled_truthy name = ground arith

plan_truthy :
    (plan : Option (Option Features)) (name : String)
    → truthy (plan_features plan name) ≡ plan_allows plan name
unfolding plan_features spread truthy
plan_truthy none name = default_truthy name
plan_truthy (some none) name = default_truthy name
plan_truthy (some (some over)) name = let d = default_truthy name in ground arith

-- A feature is allowed exactly so: without the check, for an exempt organisation or one without a
-- subscription where none is required, if it is a known feature; else if the subscription is active
-- and the plan allows it.
is_feature_allowed_lem :
    (exempt required : Bool) (sub : Option Subscription) (plan : Option (Option Features))
    (feature : String)
    → is_feature_allowed exempt required sub plan feature ≡ may_use exempt required sub plan feature
unfolding is_feature_allowed get_entitlements
is_feature_allowed_lem true required sub plan f = default_truthy f
is_feature_allowed_lem false true none plan f = disabled_truthy f
is_feature_allowed_lem false false none plan f = default_truthy f
is_feature_allowed_lem false required (some s) plan f =
    let p = plan_truthy plan f in
    let d = disabled_truthy f in
    elim (Bool-cases (is_active s.saas_subscription_status s.activation_status)) [
      | inl e ↦ rw (e) p
      | inr e ↦ rw (e) d
    ]

active_unblocked :
    (required : Bool) (s : Subscription) (plan : Option (Option Features))
    → is_active s.saas_subscription_status s.activation_status ≡ true
    → (get_entitlements false required (some s) plan).blocked ≡ none
unfolding get_entitlements
active_unblocked required s plan h = rw (h) refl

clash : (r : BlockedReason) → some r ≡ none → ⊥
clash r h = cc

-- An organisation with a blocking reason may use no feature.
blocked_refused :
    (exempt required : Bool) (sub : Option Subscription) (plan : Option (Option Features))
    (reason : BlockedReason) (feature : String)
    → (get_entitlements exempt required sub plan).blocked ≡ some reason
    → is_feature_allowed exempt required sub plan feature ≡ false
unfolding is_feature_allowed get_entitlements
blocked_refused true required sub plan reason f e = cc
blocked_refused false true none plan reason f e = disabled_truthy f
blocked_refused false false none plan reason f e = cc
blocked_refused false required (some s) plan reason f e =
    let d = disabled_truthy f in
    elim (Bool-cases (is_active s.saas_subscription_status s.activation_status)) [
      | inl h ↦
          let unblocked = active_unblocked required s plan h in
          absurd (clash reason (sym e ∙ unblocked))
      | inr h ↦ rw (h) d
    ]
