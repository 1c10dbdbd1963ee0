-- ===== src/Activation/Due.antt =====
-- apps/marketplace/src/marketplace.service.ts: what every call of an activation keeps of the set-up fees.
use ngotag_platform.Activation.{
  SaasStatus, subscribed, ActivationStatus, activated, failed, in_progress, SessionStatus,
  activated_session, failed_session, Row, Fee, Db, Call, Failure, returned, find_row, update_rows,
  has_fee, set_activation_status, set_subscription_status, update_onboarding_session,
  record_setup_fee_usage, call, and_then, Env, complete_activation, refreshed, attempt,
  record_failure, attempted, outcome_of, started, activate_row, is_org, is_subscribed,
}
use ngotag_platform.Activation.Rows.{mapped, find_row-update}
use ngotag_platform.Common.{
  ◌≡◌, refl, Bool, true, false, not, ◌&&◌, Option, none, some, List, [], ◌∷◌, String, str_eq, arith,
  Bool-cases, inl, inr, if◌then◌else◌,
}

abbrev pub is_user : Option String → Bool
is_user none = false
is_user (some u) = not (str_eq u "")

-- The fee is charged to the organisation to which its subscription is linked, after a user was.
unfoldable pub is_due_of : Option Row → String → Bool
is_due_of none org = false
is_due_of (some r) org = is_user r.local_user_id && is_org r.org_id org

pub is_due : List Row → Fee → Bool
is_due rows f = is_due_of (find_row rows f.source_id) f.org

-- Every fee is due, and there is one for each subscription at most.
unfoldable pub all_due : List Row → List Fee → Bool
all_due rows [] = true
all_due rows (f ∷ fs) = is_due rows f && not (has_fee fs f.source_id) && all_due rows fs

all_due-step :
    (a b c d : Bool) → (c ≡ true → d ≡ true) → (a && not b && c) ≡ true → (a && not b && d) ≡ true
all_due-step a b c d f h = ground arith

and_step : (a b c : Bool) → (b ≡ true → c ≡ true) → (a && b) ≡ true → (a && c) ≡ true
and_step a b c f h = ground arith

keeps_due :
    (b : Bool) (g : Row → Row) (o : Option Row) (org : String)
    → ((r : Row) → is_due_of (some (g r)) org ≡ is_due_of (some r) org)
    → is_due_of (if b then mapped g o else o) org ≡ is_due_of o org
keeps_due false g o org h = refl
keeps_due true g none org h = refl
keeps_due true g (some r) org h = h r

all_due-update :
    (rs : List Row) (id : String) (g : Row → Row) (fs : List Fee)
    → ((r : Row) → (g r).id ≡ r.id)
    → ((r : Row) (org : String) → is_due_of (some (g r)) org ≡ is_due_of (some r) org)
    → all_due rs fs ≡ true
    → all_due (update_rows rs id g) fs ≡ true
unfolding all_due is_due
all_due-update rs id g [] h k d = refl
all_due-update rs id g (f ∷ fs) h k d =
    let later = all_due-update rs id g fs h k in
    let same =
      keeps_due (str_eq id f.source_id) g (find_row rs f.source_id) f.org (λ r. k r f.org) in
    let found = find_row-update rs id g f.source_id h in
    rw (found, same)
      (all_due-step (is_due_of (find_row rs f.source_id) f.org) (has_fee fs f.source_id)
        (all_due rs fs) (all_due (update_rows rs id g) fs) later d)

-- What an activation of the subscription for the organisation keeps.
unfoldable pub good : String → String → Db → Bool
good sub org d = is_due_of (find_row d.rows sub) org && all_due d.rows d.fees

good-update :
    (d : Db) (id sub org : String) (g : Row → Row)
    → ((r : Row) → (g r).id ≡ r.id)
    → ((r : Row) (o : String) → is_due_of (some (g r)) o ≡ is_due_of (some r) o)
    → good sub org d ≡ true
    → good sub org (record d { rows = update_rows d.rows id g }) ≡ true
unfolding good
good-update d id sub org g h k e =
    let all = all_due-update d.rows id g d.fees h k in
    let same = keeps_due (str_eq id sub) g (find_row d.rows sub) org (λ r. k r org) in
    rw (find_row-update d.rows id g sub h, same)
      (and_step (is_due_of (find_row d.rows sub) org) (all_due d.rows d.fees)
        (all_due (update_rows d.rows id g) d.fees) all e)

good-set_activation :
    (d : Db) (id sub org : String) (a : ActivationStatus)
    → good sub org d ≡ true
    → good sub org (set_activation_status d id a) ≡ true
unfolding set_activation_status is_due_of
good-set_activation d id sub org a e =
    good-update d id sub org (λ r. record r { activation = a }) (λ r. refl) (λ r o. refl) e

good-set_status :
    (d : Db) (id sub org : String) (s : SaasStatus)
    → good sub org d ≡ true
    → good sub org (set_subscription_status d id s) ≡ true
unfolding set_subscription_status is_due_of
good-set_status d id sub org s e =
    good-update d id sub org (λ r. record r { saas = s }) (λ r. refl) (λ r o. refl) e

good-session :
    (d : Db) (id sub org : String) (s : SessionStatus)
    → good sub org d ≡ true
    → good sub org (update_onboarding_session d id s) ≡ true
unfolding update_onboarding_session good
good-session d id sub org s e = e

good-fee :
    (d : Db) (sub org : String)
    → good sub org d ≡ true
    → good sub org (record_setup_fee_usage d sub org) ≡ true
unfolding record_setup_fee_usage good all_due is_due
good-fee d sub org e = elim (Bool-cases (has_fee d.fees sub)) [
  | inl h ↦ rw (h) e
  | inr h ↦ rw (h) (ground arith)
]

good-call :
    (fails : Call → Bool) (c : Call) (sub org : String) (d e : Db)
    → good sub org d ≡ true
    → good sub org e ≡ true
    → good sub org (call fails c d e).0 ≡ true
unfolding call
good-call fails c sub org d e h k = elim (Bool-cases (fails c)) [
  | inl b ↦ rw (b) h
  | inr b ↦ rw (b) k
]

good-and_then :
    (sub org : String) (p : Db × Option Failure) (f : Db → Db × Option Failure)
    → good sub org p.0 ≡ true
    → ((d : Db) → good sub org d ≡ true → good sub org (f d).0 ≡ true)
    → good sub org (and_then p f).0 ≡ true
unfolding and_then
good-and_then sub org (d, some e) f h k = h
good-and_then sub org (d, none) f h k = k d h

good_complete :
    (v : Env) (d : Db) (sub session org : String)
    → good sub org d ≡ true
    → good sub org (complete_activation v d sub session org).0 ≡ true
unfolding complete_activation
good_complete v d sub session org h =
    good-and_then sub org _ _
      (good-call v.fails _ sub org d _ h (good-set_activation d sub sub org activated h))
      (λ d1 h1.
        good-and_then sub org _ _
          (good-call v.fails _ sub org d1 _ h1
            (good-session d1 session sub org activated_session h1))
          (λ d2 h2. good-call v.fails _ sub org d2 _ h2 (good-fee d2 sub org h2)))

good-if :
    {B : Type 0} (b : Bool) (sub org : String) (p q : Db × B)
    → good sub org p.0 ≡ true
    → good sub org q.0 ≡ true
    → good sub org (if b then p else q).0 ≡ true
good-if true sub org p q h k = h
good-if false sub org p q h k = k

good-attempt :
    (v : Env) (d : Db) (sub session org : String)
    → good sub org d ≡ true
    → good sub org (attempt v d sub session org).0 ≡ true
unfolding attempt
good-attempt v d sub session org h =
    good-if v.mock sub org _ _
      (good-and_then sub org _ _
        (good-call v.fails _ sub org d _ h (good-set_status d sub sub org subscribed h))
        (λ d1 h1. good_complete v d1 sub session org h1))
      (good-and_then sub org _ _ (good-call v.fails _ sub org d d h h)
        (λ d1 h1. good_complete v d1 sub session org h1))

good-record_failure :
    (v : Env) (d : Db) (sub session org : String) (e : Failure)
    → good sub org d ≡ true
    → good sub org (record_failure v d sub session e).0 ≡ true
unfolding record_failure
good-record_failure v d sub session org e h =
    good-and_then sub org _ _
      (good-call v.fails _ sub org d _ h (good-set_activation d sub sub org failed h))
      (λ d1 h1.
        good-call v.fails _ sub org d1 _ h1 (good-session d1 session sub org failed_session h1))

good-refreshed :
    (v : Env) (d : Db) (sub org : String) (s : SaasStatus)
    → good sub org d ≡ true
    → good sub org (refreshed v d sub s).0 ≡ true
unfolding refreshed
good-refreshed v d sub org s h =
    good-if _ sub org (d, s) _ h (good-set_status d sub sub org v.latest h)

good-attempted :
    (v : Env) (sub session org : String) (s : SaasStatus) (p : Db × Option Failure)
    → good sub org p.0 ≡ true
    → good sub org (attempted v sub session s p).0 ≡ true
unfolding attempted
good-attempted v sub session org s (d, some e) h = good-record_failure v d sub session org e h
good-attempted v sub session org s (d, none) h =
    good-if v.mock sub org (d, returned subscribed) _ h (good-refreshed v d sub org s h)

good-started :
    (v : Env) (sub session org : String) (s : SaasStatus) (p : Db × Option Failure)
    → good sub org p.0 ≡ true
    → good sub org (started v sub session org s p).0 ≡ true
unfolding started
good-started v sub session org s (d, some e) h = h
good-started v sub session org s (d, none) h =
    good-attempted v sub session org s (attempt v d sub session org)
      (good-attempt v d sub session org h)

good-outcome_of :
    (s : SaasStatus) (sub org : String) (p : Db × Option Failure)
    → good sub org p.0 ≡ true
    → good sub org (outcome_of s p).0 ≡ true
unfolding outcome_of
good-outcome_of s sub org (d, none) h = h
good-outcome_of s sub org (d, some e) h = h

pub good-activate_row :
    (v : Env) (d : Db) (session org : String) (r : Row)
    → good r.id org d ≡ true
    → good r.id org (activate_row v d session org r).0 ≡ true
unfolding activate_row
good-activate_row v d session org r h =
    good-if (is_subscribed r.saas) r.id org _ _
      (good-outcome_of subscribed r.id org (complete_activation v d r.id session org)
        (good_complete v d r.id session org h))
      (good-started v r.id session org r.saas _
        (good-call v.fails _ r.id org d _ h (good-set_activation d r.id r.id org in_progress h)))
