-- ===== src/Webhook/Acknowledgement.antt =====
-- apps/marketplace/src/services/webhook.service.ts: which events are acknowledged.
use ngotag_platform.Webhook.{
  Action, change_plan, change_quantity, renew, reinstate, suspend, unsubscribe, other_action,
  Payload, success, processed, Call, update_ack, update_webhook_event, create_webhook_event,
  set_plan, patch_operation, Answer, success_answer, bad_request, other_error, Environment, Trace,
  and_then, given, needs_ack, record_operation, look_up_operation, refreshed, written,
  patch_operation_if_needed, acknowledged, patched, plan_changed, act, apply_webhook_action,
  concluded, process_known, process_webhook,
}
use ngotag_platform.Common.{
  append_assoc, ◌≡◌, refl, sym, ◌∙◌, ap, Bool, true, false, Option, none, some, List, [], ◌∷◌, ◌++◌,
  String, arith, Bool-cases, inl, inr,
}

-- The marketplace answers with success, or with the status 400.
abbrev is_tolerated : Answer → Bool
is_tolerated success_answer = true
is_tolerated bad_request = true
is_tolerated other_error = false

abbrev pub has_plan : Action → Option String → Bool
has_plan change_plan none = false
has_plan a plan = true

-- The last of the calls are those given, and the marketplace tolerates a PATCH.
pub record EndsWith (m : Environment) (last : List Call) (t : Trace) : Type 0 where
  pub tolerated : is_tolerated m.on_patch ≡ true
  pub earlier : List Call
  pub calls_are : t.calls ≡ earlier ++ last

quiet_parts :
    (a b : Trace)
    → (and_then a b).thrown ≡ false
    → (a.thrown ≡ false) × (b.thrown ≡ false) × ((and_then a b).calls ≡ a.calls ++ b.calls)
unfolding and_then
quiet_parts a b h = elim (Bool-cases a.thrown) [
  | inl e ↦ absurd (ground arith)
  | inr e ↦ (e, ground arith, rw (e) refl)
]

-- Where nothing is thrown, a handling ends as its last part does.
EndsWith-after :
    (m : Environment) (last : List Call) (a b : Trace)
    → (and_then a b).thrown ≡ false
    → (b.thrown ≡ false → EndsWith m last b)
    → EndsWith m last (and_then a b)
EndsWith-after m last a b h f =
    let (_, q, same) = quiet_parts a b h in
    let c = f q in
    record {
      tolerated = c.tolerated;
      earlier = a.calls ++ c.earlier;
      calls_are =
          same ∙ ap (λ l. a.calls ++ l) c.calls_are ∙ sym (append_assoc a.calls c.earlier last);
    }

-- A last call after such an end.
EndsWith-before :
    (m : Environment) (last more : List Call) (a b : Trace)
    → (and_then a b).thrown ≡ false
    → (a.thrown ≡ false → EndsWith m last a)
    → b.calls ≡ more
    → EndsWith m (last ++ more) (and_then a b)
EndsWith-before m last more a b h f e =
    let (q, _, same) = quiet_parts a b h in
    let c = f q in
    record {
      tolerated = c.tolerated;
      earlier = c.earlier;
      calls_are =
          same
          ∙ ap (λ l. a.calls ++ l) e
          ∙ ap (λ l. l ++ more) c.calls_are
          ∙ append_assoc c.earlier last more;
    }

-- The `catch` changes nothing where nothing is thrown.
EndsWith-concluded :
    (m : Environment) (last : List Call) (t : Trace)
    → (concluded t).thrown ≡ false
    → (t.thrown ≡ false → EndsWith m last t)
    → EndsWith m last (concluded t)
unfolding concluded
EndsWith-concluded m last t h f = elim (Bool-cases t.thrown) [
  | inl e ↦ absurd (ground arith)
  | inr e ↦
      let c = f e in
      record { tolerated = c.tolerated; earlier = c.earlier; calls_are = rw (e) c.calls_are }
]

module _ (m : Environment) (id : String) where
  abbrev answered : List Call
  answered = patch_operation id ∷ update_ack id success ∷ []

  patch_tolerated :
      (patch_operation_if_needed m (some id)).thrown ≡ false → is_tolerated m.on_patch ≡ true
  unfolding patch_operation_if_needed
  patch_tolerated h = ground arith

  patched-EndsWith :
      (patched m (some id)).thrown ≡ false → EndsWith m answered (patched m (some id))
  unfolding patched
  patched-EndsWith h =
      let (q, _, same) =
        quiet_parts (patch_operation_if_needed m (some id)) (acknowledged m (some id)) h in
      record {
        tolerated = patch_tolerated q;
        earlier = [];
        calls_are = same ∙ (unfold patch_operation_if_needed acknowledged written in refl);
      }

  act-EndsWith :
      (plan : Option String) (a : Action)
      → needs_ack a ≡ true
      → has_plan a plan ≡ true
      → (act m (some id) plan a).thrown ≡ false
      → EndsWith m answered (act m (some id) plan a)
  unfolding needs_ack act plan_changed
  act-EndsWith (some plan) change_plan n h q = EndsWith-after m answered (refreshed m) _ q λ r.
      EndsWith-after m answered (written m (set_plan plan)) (patched m (some id)) r patched-EndsWith
  act-EndsWith none change_plan n h q = absurd (ground arith)
  act-EndsWith plan change_quantity n h q =
      EndsWith-after m answered (refreshed m) (patched m (some id)) q patched-EndsWith
  act-EndsWith plan reinstate n h q =
      EndsWith-after m answered (refreshed m) (patched m (some id)) q patched-EndsWith
  act-EndsWith plan renew n h q = absurd (ground arith)
  act-EndsWith plan suspend n h q = absurd (ground arith)
  act-EndsWith plan unsubscribe n h q = absurd (ground arith)
  act-EndsWith plan other_action n h q = absurd (ground arith)

  module _ (p : Payload) (e : given p.id ≡ some id) (n : needs_ack p.action ≡ true)
      (k : has_plan p.action (given p.plan_id) ≡ true) where
    applied-EndsWith :
        (apply_webhook_action m p).thrown ≡ false → EndsWith m answered (apply_webhook_action m p)
    unfolding apply_webhook_action
    applied-EndsWith = rw (e) (λ q.
        EndsWith-after m answered (record_operation m (some id) p.action) _ q λ r.
          EndsWith-after m answered (look_up_operation m (some id) p.action) _ r
            (act-EndsWith (given p.plan_id) p.action n k))

    abbrev recorded : List Call
    recorded = patch_operation id ∷ update_ack id success ∷ update_webhook_event processed ∷ []

    known-EndsWith : (process_known m p).thrown ≡ false → EndsWith m recorded (process_known m p)
    unfolding process_known
    known-EndsWith q =
        let done = written m (update_webhook_event processed) in
        EndsWith-concluded m recorded (and_then (apply_webhook_action m p) done) q λ quiet.
          EndsWith-before m answered (update_webhook_event processed ∷ [])
            (apply_webhook_action m p) done quiet applied-EndsWith (unfold written in refl)

    -- An event that asks for an acknowledgement, for a known subscription, with the id of an operation
    -- and, for a change of plan, a plan: where its handling throws nothing, its last calls send the PATCH
    -- of the operation, record the operation as acknowledged and record the event as processed, in this
    -- order, and the marketplace answers the PATCH with success or with the status 400.
    pub process_webhook-acknowledged :
        (process_webhook m true p).thrown ≡ false → EndsWith m recorded (process_webhook m true p)
    unfolding process_webhook
    process_webhook-acknowledged q =
        EndsWith-after m recorded (written m create_webhook_event) (process_known m p) q
          known-EndsWith
