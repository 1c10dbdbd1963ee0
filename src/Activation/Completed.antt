-- ===== src/Activation/Completed.antt =====
-- apps/marketplace/src/marketplace.service.ts: the three writes of an activation that does not throw.
use ngotag_platform.Activation.{
  SaasStatus, subscribed, activated, activated_session, Db, Call, set_activation_call, session_call,
  activate_call, fee_call, status_call, Failure, call_failed, returned, find_row, find_session,
  has_fee, set_activation_status, set_subscription_status, update_onboarding_session,
  record_setup_fee_usage, call, and_then, Env, complete_activation, attempt, rethrown,
}
use ngotag_platform.Activation.Effects.{
  is_completed, same_id, row_is-set, row_is-status, is_some-status, session_is-update,
}
use ngotag_platform.Common.{
  ◌≡◌, refl, sym, ap, ◌∙◌, Bool, true, false, Option, none, some, String, arith, Bool-cases, inl,
  inr, if◌then◌else◌, is_some,
}

-- A call that does not throw has its effect, and what follows goes on from there.
if-none :
    (b : Bool) (d e : Db) (x : Failure) (f : Db → Db × Option Failure)
    → (and_then (if b then (d, some x) else (e, none)) f).1 ≡ none
    → and_then (if b then (d, some x) else (e, none)) f ≡ f e
unfolding and_then
if-none true d e x f h = absurd (ground arith)
if-none false d e x f h = refl

then-none :
    (fails : Call → Bool) (c : Call) (d e : Db) (f : Db → Db × Option Failure)
    → (and_then (call fails c d e) f).1 ≡ none
    → and_then (call fails c d e) f ≡ f e
unfolding call
then-none fails c d e f h = if-none (fails c) d e (call_failed c) f h

call-none :
    (b : Bool) (d e : Db) (x : Failure) (p : Db × Option Failure)
    → p ≡ (if b then (d, some x) else (e, none))
    → p.1 ≡ none
    → p.0 ≡ e
call-none true d e x p q h = absurd (ground arith)
call-none false d e x p q h = ap (λ r. r.0) q

complete-none :
    (v : Env) (d : Db) (sub session org : String)
    → (complete_activation v d sub session org).1 ≡ none
    → (complete_activation v d sub session org).0
      ≡ record_setup_fee_usage
          (update_onboarding_session
            (set_activation_status d sub activated)
            session
            activated_session)
          sub
          org
unfolding complete_activation call
complete-none v d sub session org h =
    let one =
      then-none v.fails (set_activation_call activated) d (set_activation_status d sub activated) _
        h in
    let d1 = set_activation_status d sub activated in
    let two =
      then-none v.fails (session_call activated_session) d1
        (update_onboarding_session d1 session activated_session) _ (ap (λ p. p.1) (sym one) ∙ h) in
    let d2 = update_onboarding_session d1 session activated_session in
    call-none (v.fails fee_call) d2 (record_setup_fee_usage d2 sub org) (call_failed fee_call) _
      (one ∙ two) h

-- Where the rows and the session stand, a completed activation has all three effects.
effects-completed :
    (d : Db) (sub session org : String)
    → is_some (find_row d.rows sub) ≡ true
    → is_some (find_session d.sessions session) ≡ true
    → is_completed sub session (
        record_setup_fee_usage
          (update_onboarding_session
            (set_activation_status d sub activated)
            session
            activated_session)
          sub
          org)
      ≡ true
unfolding is_completed record_setup_fee_usage update_onboarding_session set_activation_status
    has_fee
effects-completed d sub session org e s =
    let row = row_is-set d sub activated refl e in
    let open_one = session_is-update d.sessions session activated_session refl s in
    let id = same_id sub in
    elim (Bool-cases (has_fee d.fees sub)) [
      | inl h ↦ rw (h, row, open_one, h) refl
      | inr h ↦ rw (h, row, open_one, id) refl
    ]

-- The steps before and after: the status of the plan and the refresh change no row's activation.
pub completed-status :
    (d : Db) (sub session : String) (s : SaasStatus)
    → is_completed sub session d ≡ true
    → is_completed sub session (set_subscription_status d sub s) ≡ true
unfolding is_completed
completed-status d sub session s h =
    rw (row_is-status d sub sub s activated) (unfold set_subscription_status in h)

pub completed-if :
    {B : Type 0} (b : Bool) (sub session : String) (p q : Db × B)
    → is_completed sub session p.0 ≡ true
    → is_completed sub session q.0 ≡ true
    → is_completed sub session (if b then p else q).0 ≡ true
completed-if true sub session p q h k = h
completed-if false sub session p q h k = k

chosen-completed :
    (b : Bool) (sub session : String) (p q : Db × Option Failure)
    → (p.1 ≡ none → is_completed sub session p.0 ≡ true)
    → (q.1 ≡ none → is_completed sub session q.0 ≡ true)
    → (if b then p else q).1 ≡ none
    → is_completed sub session (if b then p else q).0 ≡ true
chosen-completed true sub session p q h k e = h e
chosen-completed false sub session p q h k e = k e

pub complete-completed :
    (v : Env) (d : Db) (sub session org : String)
    → is_some (find_row d.rows sub) ≡ true
    → is_some (find_session d.sessions session) ≡ true
    → (complete_activation v d sub session org).1 ≡ none
    → is_completed sub session (complete_activation v d sub session org).0 ≡ true
complete-completed v d sub session org e s h =
    rw (complete-none v d sub session org h) (effects-completed d sub session org e s)

pub attempt-completed :
    (v : Env) (d : Db) (sub session org : String)
    → is_some (find_row d.rows sub) ≡ true
    → is_some (find_session d.sessions session) ≡ true
    → (attempt v d sub session org).1 ≡ none
    → is_completed sub session (attempt v d sub session org).0 ≡ true
unfolding attempt
attempt-completed v d sub session org e s h =
    chosen-completed v.mock sub session _ _
      (λ k.
        let same = then-none v.fails status_call d (set_subscription_status d sub subscribed) _ k in
        rw (same) (
          complete-completed v (set_subscription_status d sub subscribed) sub session org
            (is_some-status d sub sub subscribed ∙ e) (unfold set_subscription_status in s)
            (ap (λ p. p.1) (sym same) ∙ k)))
      (λ k.
        let same = then-none v.fails activate_call d d _ k in
        rw (same) (complete-completed v d sub session org e s (ap (λ p. p.1) (sym same) ∙ k)))
      h

pub failure-thrown :
    (o : Option Failure) (e : Failure) (s : SaasStatus) → rethrown e o ≡ returned s → ⊥
unfolding rethrown
failure-thrown none e s h = cc
failure-thrown (some f) e s h = cc
