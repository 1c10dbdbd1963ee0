-- ===== src/Webhook/Tests.antt =====
-- apps/marketplace/src/services/webhook.service.ts at a concrete event.
use ngotag_platform.Common.{◌≡◌, refl, true, false, some, ◌∷◌, []}
use ngotag_platform.Webhook.{
  change_plan, Payload, processed, success, patch_operation, update_ack, update_webhook_event,
  success_answer, bad_request, Environment, and_then, is_success, given, needs_ack, asked,
  record_operation, look_up_operation, written, concluded, refreshed, patch_operation_if_needed,
  acknowledged, patched, plan_changed, act, apply_webhook_action, process_known, process_webhook,
}
use ngotag_platform.Webhook.Acknowledgement.{EndsWith, has_plan, process_webhook-acknowledged}

-- The operation is no longer in progress at the marketplace.
abbrev closed : Environment
closed = record {
  database_throws = λ c. false;
  on_get_operation = success_answer;
  on_get_subscription = success_answer;
  on_patch = bad_request;
}

abbrev upgrade : Payload
upgrade = record { id = some "op"; action = change_plan; plan_id = some "gold" }

computed : Unit {0}
unfolding and_then is_success given needs_ack asked record_operation look_up_operation refreshed
    written concluded patch_operation_if_needed acknowledged patched plan_changed act
    apply_webhook_action process_known process_webhook
computed = tt

upgrade_handled : (process_webhook closed true upgrade).thrown ≡ false
unfolding computed
upgrade_handled = refl

upgrade_given : given upgrade.id ≡ some "op"
unfolding computed
upgrade_given = refl

upgrade_has_plan : has_plan change_plan (given upgrade.plan_id) ≡ true
unfolding computed
upgrade_has_plan = refl

upgrade_asks : needs_ack change_plan ≡ true
unfolding computed
upgrade_asks = refl

process_webhook-acknowledged_example :
    EndsWith closed
      (patch_operation "op" ∷ update_ack "op" success ∷ update_webhook_event processed ∷ [])
      (process_webhook closed true upgrade)
process_webhook-acknowledged_example =
    process_webhook-acknowledged closed "op" upgrade upgrade_given upgrade_asks upgrade_has_plan
      upgrade_handled
