-- ===== src/Onboarding/Repository.antt =====
-- apps/marketplace/src/repositories/marketplace.repository.ts as the onboarding uses it: the database
-- is a parameter, with the effect of each update on what a session reads as a law.
use ngotag_platform.Common.{◌≡◌, Bool, true, Option, none, some, String, str_eq, ℕ, if◌then◌else◌}

pub record Subscription : Type 0 where
  pub id : String
  pub org_id : Option String
  pub local_user_id : Option String
  pub purchaser_email : Option String
  pub beneficiary_email : Option String
  pub is_subscribed : Bool
  pub is_activated : Bool

pub record Session : Type 0 where
  pub id : String
  pub expires_at : ℕ
  pub subscription : Subscription

pub data OnboardingStatus : Type 0 where
  account_linked org_linked : OnboardingStatus

abbrev pub with_user : Session → String → Session
with_user s user = record s { subscription = record s.subscription { local_user_id = some user } }

abbrev pub with_org : Session → String → Session
with_org s org = record s { subscription = record s.subscription { org_id = some org } }

-- What a session reads after its subscription, if it is the one updated, has changed.
abbrev pub changed : String → (Session → Session) → Option Session → Option Session
changed sub f none = none
changed sub f (some s) = some (if str_eq s.subscription.id sub then f s else s)

pub record Repository : Type 1 where
  pub Db : Type 0
  pub get_onboarding_session : Db → String → Option Session
  pub update_onboarding_session : Db → String → OnboardingStatus → Db
  pub link_user : Db → String → String → Db
  -- none for the violation of the unique index, P2002
  pub link_organization : Db → String → String → Option Db
  -- whether another subscription than the given one still occupies the organisation
  pub has_active_subscription : Db → String → String → Bool
  pub get-update :
      (d : Db) (id : String) (status : OnboardingStatus) (j : String)
      → get_onboarding_session (update_onboarding_session d id status) j
        ≡ get_onboarding_session d j
  pub get-link_user :
      (d : Db) (sub user j : String)
      → get_onboarding_session (link_user d sub user) j
        ≡ changed sub (λ s. with_user s user) (get_onboarding_session d j)
  pub get-link_organization :
      (d e : Db) (sub org j : String)
      → link_organization d sub org ≡ some e
      → get_onboarding_session e j ≡ changed sub (λ s. with_org s org) (get_onboarding_session d j)
  -- Two sessions of one subscription read the same row.
  pub one_row :
      (d : Db) (i j : String) (s t : Session)
      → get_onboarding_session d i ≡ some s
      → get_onboarding_session d j ≡ some t
      → str_eq t.subscription.id s.subscription.id ≡ true
      → t.subscription ≡ s.subscription
