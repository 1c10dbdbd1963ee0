-- ===== src/Entitlement/Tests.antt =====
-- apps/marketplace/src/services/entitlement.service.ts at concrete inputs.
use ngotag_platform.Common.{◌≡◌, refl, true, false, none, some, str_eq, if◌then◌else◌}
use ngotag_platform.Entitlement.{
  subscribed, suspended, activated, in_progress, Subscription, Features, is_suspended,
  get_entitlements, blocked_reason, is_active,
}

abbrev live : Subscription
live = record { saas_subscription_status = subscribed; activation_status = activated }

abbrev without_bulk : Features
without_bulk name = if str_eq name "bulkIssuance" then some false else none

abbrev paused : Subscription
paused = record { saas_subscription_status = suspended; activation_status = activated }

paused_blocked : (get_entitlements false true (some paused) none).blocked ≡ some is_suspended
unfolding get_entitlements is_active blocked_reason
paused_blocked = refl

-- A subscription that the marketplace calls subscribed and that is still being activated here has all
-- features off and no reason given.
abbrev starting : Subscription
starting = record { saas_subscription_status = subscribed; activation_status = in_progress }

starting_unexplained : (get_entitlements false true (some starting) none).blocked ≡ none
unfolding get_entitlements is_active blocked_reason
starting_unexplained = refl
