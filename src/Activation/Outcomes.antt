-- ===== src/Activation/Outcomes.antt =====
-- apps/marketplace/src/marketplace.service.ts: what an activation leaves behind, by its outcome.
use ngotag_platform.Activation.{
  SaasStatus, subscribed, ActivationStatus, in_progress, Row, SessionRow, Db, Call,
  set_activation_call, Failure, Outcome, returned, thrown, find_row, find_session,
  set_activation_status, call, Env, complete_activation, refreshed, attempt, record_failure,
  attempted, outcome_of, started, activate_row, is_linked_to, is_org, activate_found, valid_row,
  activate_subscription, is_subscribed,
}
use ngotag_platform.Activation.Rows.{find_row-id}
use ngotag_platform.Activation.Effects.{is_completed, is_some-set}
use ngotag_platform.Common.{
  ℕ, ◌≡◌, refl, ap, ◌∙◌, Bool, true, false, not, ◌&&◌, Option, none, some, String, arith,
  Bool-cases, inl, inr, if◌then◌else◌, ltb, is_some,
}
use ngotag_platform.Activation.Completed.{
  failure-thrown, completed-status, completed-if, complete-completed, attempt-completed,
}

attempted-completed :
    (v : Env) (sub session : String) (known s : SaasStatus) (p : Db × Option Failure)
    → (p.1 ≡ none → is_completed sub session p.0 ≡ true)
    → (attempted v sub session known p).1 ≡ returned s
    → is_completed sub session (attempted v sub session known p).0 ≡ true
unfolding attempted record_failure refreshed
attempted-completed v sub session known s (d, some e) k h = absurd (failure-thrown _ e s h)
attempted-completed v sub session known s (d, none) k h =
    completed-if v.mock sub session (d, returned subscribed) _ (k refl)
      (completed-if _ sub session (d, known) _ (k refl)
        (completed-status d sub session v.latest (k refl)))

started-completed :
    (v : Env) (sub session org : String) (known s : SaasStatus) (p : Db × Option Failure)
    → is_some (find_row p.0.rows sub) ≡ true
    → is_some (find_session p.0.sessions session) ≡ true
    → (started v sub session org known p).1 ≡ returned s
    → is_completed sub session (started v sub session org known p).0 ≡ true
unfolding started
started-completed v sub session org known s (d, some e) a b h = absurd (ground arith)
started-completed v sub session org known s (d, none) a b h =
    attempted-completed v sub session known s (attempt v d sub session org)
      (attempt-completed v d sub session org a b) h

outcome-completed :
    (s known : SaasStatus) (sub session : String) (p : Db × Option Failure)
    → (p.1 ≡ none → is_completed sub session p.0 ≡ true)
    → (outcome_of known p).1 ≡ returned s
    → is_completed sub session (outcome_of known p).0 ≡ true
unfolding outcome_of
outcome-completed s known sub session (d, none) k h = k refl
outcome-completed s known sub session (d, some e) k h = absurd (ground arith)

chosen-outcome :
    (b : Bool) (sub session : String) (s : SaasStatus) (p q : Db × Outcome)
    → (p.1 ≡ returned s → is_completed sub session p.0 ≡ true)
    → (q.1 ≡ returned s → is_completed sub session q.0 ≡ true)
    → (if b then p else q).1 ≡ returned s
    → is_completed sub session (if b then p else q).0 ≡ true
chosen-outcome true sub session s p q h k e = h e
chosen-outcome false sub session s p q h k e = k e

call-is_some :
    (fails : Call → Bool) (c : Call) (d : Db) (id session : String) (a : ActivationStatus)
    → is_some (find_row d.rows id) ≡ true
    → is_some (find_row (call fails c d (set_activation_status d id a)).0.rows id) ≡ true
unfolding call
call-is_some fails c d id session a e = elim (Bool-cases (fails c)) [
  | inl b ↦ rw (b) e
  | inr b ↦ rw (b) (is_some-set d id id a ∙ e)
]

call-session :
    (fails : Call → Bool) (c : Call) (d : Db) (id session : String) (a : ActivationStatus)
    → is_some (find_session d.sessions session) ≡ true
    → is_some (find_session (call fails c d (set_activation_status d id a)).0.sessions session)
      ≡ true
unfolding call set_activation_status
call-session fails c d id session a e = elim (Bool-cases (fails c)) [
  | inl b ↦ rw (b) e
  | inr b ↦ rw (b) e
]

activate_row-completed :
    (v : Env) (d : Db) (session org : String) (r : Row) (s : SaasStatus)
    → is_some (find_row d.rows r.id) ≡ true
    → is_some (find_session d.sessions session) ≡ true
    → (activate_row v d session org r).1 ≡ returned s
    → is_completed r.id session (activate_row v d session org r).0 ≡ true
unfolding activate_row
activate_row-completed v d session org r s a b h =
    chosen-outcome (is_subscribed r.saas) r.id session s _ _
      (outcome-completed s subscribed r.id session (complete_activation v d r.id session org)
        (complete-completed v d r.id session org a b))
      (started-completed v r.id session org r.saas s _
        (call-is_some v.fails (set_activation_call in_progress) d r.id session in_progress a)
        (call-session v.fails (set_activation_call in_progress) d r.id session in_progress b))
      h

-- The subscription is linked to the caller and to the organisation, and its activation is complete.
pub is_served : String → String → String → Db → Option Row → Bool
is_served session org user d none = false
is_served session org user d (some r) =
    is_linked_to r.local_user_id user && is_org r.org_id org && is_completed r.id session d

guard-served :
    (a b : Bool) (d : Db) (x y : Failure) (q : Db × Outcome) (s : SaasStatus) (f : Db → Bool)
    → (q.1 ≡ returned s → f q.0 ≡ true)
    → (if not a then (d, thrown x) else if not b then (d, thrown y) else q).1 ≡ returned s
    → (a && b && f (if not a then (d, thrown x) else if not b then (d, thrown y) else q).0) ≡ true
guard-served true true d x y q s f k h = k h
guard-served true false d x y q s f k h = absurd (ground arith)
guard-served false b d x y q s f k h = absurd (ground arith)

found-served :
    (v : Env) (d : Db) (session org user id : String) (o : Option Row) (s : SaasStatus)
    → find_row d.rows id ≡ o
    → is_some (find_session d.sessions session) ≡ true
    → (activate_found v d session org user o).1 ≡ returned s
    → is_served session org user (activate_found v d session org user o).0 o ≡ true
unfolding activate_found is_served
found-served v d session org user id none s e b h = absurd (ground arith)
found-served v d session org user id (some r) s e b h =
    let known : find_row d.rows r.id ≡ some r =
      ap (find_row d.rows) (find_row-id d.rows id r e) ∙ e in
    guard-served (is_linked_to r.local_user_id user) (is_org r.org_id org) d _ _ _ s
      (is_completed r.id session) (activate_row-completed v d session org r s (ap is_some known) b)
      h

-- An activation that returns was asked for by the user and for the organisation to which the
-- subscription of a valid session is linked, and it leaves the subscription and the session activated
-- and the set-up fee recorded.
pub activate_subscription-returned :
    (v : Env) (d : Db) (now : ℕ) (session org user : String) (s : SaasStatus)
    → (activate_subscription v d now session org user).1 ≡ returned s
    → is_served session org user
        (activate_subscription v d now session org user).0
        (valid_row now d (find_session d.sessions session))
      ≡ true
unfolding activate_subscription valid_row activate_found
activate_subscription-returned v d now session org user s h =
    go (find_session d.sessions session) refl h
  where
    go :
        (o : Option SessionRow)
        → find_session d.sessions session ≡ o
        → (activate_found v d session org user (valid_row now d o)).1 ≡ returned s
        → is_served session org user
            (activate_found v d session org user (valid_row now d o)).0
            (valid_row now d o)
          ≡ true
    go none e k = absurd (ground arith)
    go (some x) e k = elim (Bool-cases (ltb x.expires_at now)) [
      | inl b ↦ absurd (ground arith)
      | inr b ↦ rw (b) (
          found-served v d session org user x.subscription_id (find_row d.rows x.subscription_id) s
            refl (ap is_some e) (rw (b) at k))
    ]
