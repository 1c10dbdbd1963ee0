-- ===== src/Activation/Failures.antt =====
-- apps/marketplace/src/marketplace.service.ts: what an activation that throws leaves behind.
use ngotag_platform.Activation.{
  SaasStatus, subscribed, ActivationStatus, activated, failed, in_progress, SessionStatus,
  activated_session, failed_session, Row, SessionRow, Db, Call, set_activation_call, session_call,
  Failure, Outcome, returned, thrown, find_row, find_session, update_sessions, has_fee,
  set_activation_status, set_subscription_status, update_onboarding_session, record_setup_fee_usage,
  call, and_then, Env, complete_activation, refreshed, attempt, record_failure, attempted, started,
  activate_row, is_subscribed,
}
use ngotag_platform.Activation.Effects.{
  is_failed, row_is-set, is_some-set, is_some-status, session_is-update,
}
use ngotag_platform.Common.{
  ◌≡◌, refl, ◌∙◌, Bool, true, false, ◌&&◌, Option, none, some, List, [], ◌∷◌, String, str_eq, arith,
  Bool-cases, inl, inr, if◌then◌else◌, is_some,
}

-- The rows of the subscription and of the session are there.
stands : String → String → Db → Bool
stands sub session d = is_some (find_row d.rows sub) && is_some (find_session d.sessions session)

is_some-update :
    (ss : List SessionRow) (id : String) (st : SessionStatus) (j : String)
    → is_some (find_session (update_sessions ss id st) j) ≡ is_some (find_session ss j)
unfolding find_session update_sessions
is_some-update [] id st j = refl
is_some-update (s ∷ ss) id st j = elim (Bool-cases (str_eq s.id id)) [
  | inl b ↦ rw (b) (is_some-if (str_eq s.id j) (record s { status = st }) s (find_session ss j))
  | inr b ↦ rw (b) (is_some-later (str_eq s.id j) s _ _ (is_some-update ss id st j))
]
  where
    is_some-if :
        (b : Bool) (x y : SessionRow) (o : Option SessionRow)
        → is_some (if b then some x else o) ≡ is_some (if b then some y else o)
    is_some-if true x y o = refl
    is_some-if false x y o = refl

    is_some-later :
        (b : Bool) (x : SessionRow) (o p : Option SessionRow)
        → is_some o ≡ is_some p
        → is_some (if b then some x else o) ≡ is_some (if b then some x else p)
    is_some-later true x o p h = refl
    is_some-later false x o p h = h

stands-activation :
    (d : Db) (id sub session : String) (a : ActivationStatus)
    → stands sub session (set_activation_status d id a) ≡ stands sub session d
unfolding stands
stands-activation d id sub session a =
    rw (is_some-set d id sub a) (unfold set_activation_status in refl)

stands-status :
    (d : Db) (id sub session : String) (s : SaasStatus)
    → stands sub session (set_subscription_status d id s) ≡ stands sub session d
unfolding stands
stands-status d id sub session s =
    rw (is_some-status d id sub s) (unfold set_subscription_status in refl)

stands-session :
    (d : Db) (id sub session : String) (s : SessionStatus)
    → stands sub session (update_onboarding_session d id s) ≡ stands sub session d
unfolding stands update_onboarding_session
stands-session d id sub session s = rw (is_some-update d.sessions id s session) refl

stands-fee :
    (d : Db) (id org sub session : String)
    → stands sub session (record_setup_fee_usage d id org) ≡ stands sub session d
unfolding stands record_setup_fee_usage
stands-fee d id org sub session = elim (Bool-cases (has_fee d.fees id)) [
  | inl h ↦ rw (h) refl
  | inr h ↦ rw (h) refl
]

stands-call :
    (fails : Call → Bool) (c : Call) (sub session : String) (d e : Db)
    → stands sub session e ≡ stands sub session d
    → stands sub session (call fails c d e).0 ≡ stands sub session d
unfolding call
stands-call fails c sub session d e h = elim (Bool-cases (fails c)) [
  | inl b ↦ rw (b) refl
  | inr b ↦ rw (b) h
]

stands-and_then :
    (sub session : String) (x : Bool) (p : Db × Option Failure) (f : Db → Db × Option Failure)
    → stands sub session p.0 ≡ x
    → ((d : Db) → stands sub session (f d).0 ≡ stands sub session d)
    → stands sub session (and_then p f).0 ≡ x
unfolding and_then
stands-and_then sub session x (d, some e) f h k = h
stands-and_then sub session x (d, none) f h k = k d ∙ h

stands-if :
    {B : Type 0} (b : Bool) (sub session : String) (x : Bool) (p q : Db × B)
    → stands sub session p.0 ≡ x
    → stands sub session q.0 ≡ x
    → stands sub session (if b then p else q).0 ≡ x
stands-if true sub session x p q h k = h
stands-if false sub session x p q h k = k

stands_complete :
    (v : Env) (d : Db) (sub session org : String)
    → stands sub session (complete_activation v d sub session org).0 ≡ stands sub session d
unfolding complete_activation
stands_complete v d sub session org =
    stands-and_then sub session (stands sub session d) _ _
      (stands-call v.fails _ sub session d _ (stands-activation d sub sub session activated))
      (λ d1.
        stands-and_then sub session (stands sub session d1) _ _
          (stands-call v.fails _ sub session d1 _
            (stands-session d1 session sub session activated_session))
          (λ d2. stands-call v.fails _ sub session d2 _ (stands-fee d2 sub org sub session)))

stands-attempt :
    (v : Env) (d : Db) (sub session org : String)
    → stands sub session (attempt v d sub session org).0 ≡ stands sub session d
unfolding attempt
stands-attempt v d sub session org =
    stands-if v.mock sub session (stands sub session d) _ _
      (stands-and_then sub session (stands sub session d) _ _
        (stands-call v.fails _ sub session d _ (stands-status d sub sub session subscribed))
        (λ d1. stands_complete v d1 sub session org))
      (stands-and_then sub session (stands sub session d) _ _
        (stands-call v.fails _ sub session d d refl) (λ d1. stands_complete v d1 sub session org))

record_failure-failed :
    (v : Env) (d : Db) (sub session : String) (e : Failure)
    → stands sub session d ≡ true
    → v.fails (set_activation_call failed) ≡ false
    → v.fails (session_call failed_session) ≡ false
    → is_failed sub session (record_failure v d sub session e).0 ≡ true
unfolding record_failure call and_then is_failed update_onboarding_session stands
record_failure-failed v d sub session e s a b =
    let standing : is_some (find_row d.rows sub) ≡ true = ground arith in
    let there : is_some (find_session d.sessions session) ≡ true = ground arith in
    let row = row_is-set d sub failed refl standing in
    let closed = session_is-update d.sessions session failed_session refl there in
    rw (a, b, row) (unfold set_activation_status in closed)

-- Where the writes of the failure are made, whatever was thrown before them.
Recorded : Env → Type 0
Recorded v =
    (v.fails (set_activation_call failed) ≡ false) × (v.fails (session_call failed_session) ≡ false)

returned-ne-thrown : (x : SaasStatus) (e : Failure) → returned x ≡ thrown e → ⊥
returned-ne-thrown x e h = cc

if-thrown :
    (b : Bool) (p q : Db × Outcome) (e : Failure)
    → (p.1 ≡ thrown e → ⊥)
    → (q.1 ≡ thrown e → ⊥)
    → (if b then p else q).1 ≡ thrown e
    → ⊥
if-thrown true p q e h k = h
if-thrown false p q e h k = k

attempted-failed :
    (v : Env) (sub session : String) (known : SaasStatus) (p : Db × Option Failure) (e : Failure)
    → Recorded v
    → stands sub session p.0 ≡ true
    → (attempted v sub session known p).1 ≡ thrown e
    → is_failed sub session (attempted v sub session known p).0 ≡ true
unfolding attempted Recorded
attempted-failed v sub session known (d, some f) e (a, b) s h =
    record_failure-failed v d sub session f s a b
attempted-failed v sub session known (d, none) e r s h = absurd (
    if-thrown v.mock (d, returned subscribed) _ e (returned-ne-thrown subscribed e)
      (returned-ne-thrown (refreshed v d sub known).1 e) h)

started-failed :
    (v : Env) (d : Db) (sub session org : String) (known : SaasStatus) (a : ActivationStatus)
    (e : Failure)
    → Recorded v
    → stands sub session d ≡ true
    → v.fails (set_activation_call a) ≡ false
    → (started v sub session org known
        (call v.fails (set_activation_call a) d (set_activation_status d sub a))).1
      ≡ thrown e
    → is_failed sub session
        (started v sub session org known
          (call v.fails (set_activation_call a) d (set_activation_status d sub a))).0
      ≡ true
unfolding started call
started-failed v d sub session org known a e r s f h =
    let d1 = set_activation_status d sub a in
    let standing =
      stands-attempt v d1 sub session org ∙ stands-activation d sub sub session a ∙ s in
    rw (f) (
      attempted-failed v sub session known (attempt v d1 sub session org) e r standing
        (rw (f) at h))

-- An activation of a subscription that the marketplace does not yet report as subscribed, and that
-- throws once it is in progress, leaves the subscription and the session failed, whichever call threw,
-- if the two writes that record the failure do not throw themselves.
pub activate_row-failed :
    (v : Env) (d : Db) (session org : String) (r : Row) (e : Failure)
    → is_some (find_row d.rows r.id) ≡ true
    → is_some (find_session d.sessions session) ≡ true
    → is_subscribed r.saas ≡ false
    → v.fails (set_activation_call in_progress) ≡ false
    → v.fails (set_activation_call failed) ≡ false
    → v.fails (session_call failed_session) ≡ false
    → (activate_row v d session org r).1 ≡ thrown e
    → is_failed r.id session (activate_row v d session org r).0 ≡ true
unfolding activate_row stands Recorded
activate_row-failed v d session org r e x y s f g i h =
    let standing : stands r.id session d ≡ true = rw (x, y) refl in
    not_subscribed (is_subscribed r.saas) s _ _ (is_failed r.id session) e
      (started-failed v d r.id session org r.saas in_progress e (g, i) standing f) h
  where
    not_subscribed :
        (b : Bool)
        → b ≡ false
        → (p q : Db × Outcome) (k : Db → Bool) (e : Failure) → (q.1 ≡ thrown e → k q.0 ≡ true)
        → (if b then p else q).1 ≡ thrown e
        → k (if b then p else q).0 ≡ true
    not_subscribed true z p q k e l m = absurd (ground arith)
    not_subscribed false z p q k e l m = l m
