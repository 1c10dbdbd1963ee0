-- ===== src/Onboarding.antt =====
-- apps/marketplace/src/marketplace.service.ts: the onboarding of a subscription that was bought on
-- the marketplace, up to its organisation. `lower` is `toLowerCase`. The organisation service is an
-- argument: its answer to an ownership query, and the organisation that it creates.
pub mod Repository
pub mod Identity
pub mod Linking
pub mod TableRepository
mod Tests
use Repository.{
  Subscription, Session, OnboardingStatus, account_linked, org_linked, Repository as Store,
}
use ngotag_platform.Common.Find.{among}
use ngotag_platform.Common.{
  ℕ, ◌≡◌, Bool, true, false, not, ◌&&◌, ◌||◌, Option, none, some, List, [], ◌∷◌, String, str_eq,
  ltb, if◌then◌else◌,
}

pub data Refusal : Type 0 where
  session_not_found identity_unverified email_mismatch link_required org_id_required : Refusal
  ownership_unverified ownership_required already_linked name_required create_failed : Refusal

pub data Result {ℓ} (A : Type ℓ) : Type ℓ where
  done : A → Result A
  refused : Refusal → Result A

pub record Caller : Type 0 where
  pub id : String
  pub email : Option String

-- `nextAction`
pub data NextAction : Type 0 where
  open_dashboard link_account_first create_organization activate manage_billing : NextAction

abbrev pub is_text : Option String → Bool
is_text none = false
is_text (some s) = not (str_eq s "")

next_action : Subscription → NextAction
next_action s =
    if s.is_subscribed && is_text s.org_id && s.is_activated
    then open_dashboard
    else if not (is_text s.local_user_id)
    then link_account_first
    else if not (is_text s.org_id)
    then create_organization
    else if not s.is_activated
    then activate
    else manage_billing

module _ (lower : String → String) where
  -- `(email || '').toLowerCase()`
  pub lowered : Option String → String
  lowered none = ""
  lowered (some e) = if str_eq e "" then "" else lower e

  pub nonempty : String → List String → List String
  nonempty e es = if str_eq e "" then es else e ∷ es

  pub expected_emails : Subscription → List String
  unfolding nonempty
  expected_emails s =
      nonempty (lowered s.purchaser_email) (nonempty (lowered s.beneficiary_email) [])

abbrev pub is_none : List String → Bool
is_none [] = true
is_none (x ∷ xs) = false

-- What the organisation service answers to `get-organization-owner`: none where the query fails.
abbrev pub Owners : Type 0
Owners = String → Option (List String)

module _ (store : Store) (lower : String → String) where
  open store use {
    Db, get_onboarding_session, update_onboarding_session, link_user, link_organization,
    has_active_subscription,
  }

  pub valid : ℕ → Option Session → Result Session
  valid now none = refused session_not_found
  valid now (some s) = if ltb s.expires_at now then refused session_not_found else done s

  pub get_valid_session : Db → ℕ → String → Result Session
  unfolding valid
  get_valid_session d now id = valid now (get_onboarding_session d id)

  pub link_account_of : Db → Caller → Session → Result Db
  link_account_of d u s =
      if is_none (expected_emails lower s.subscription) || str_eq (lowered lower u.email) ""
      then refused identity_unverified
      else if not (among (expected_emails lower s.subscription) (lowered lower u.email))
      then refused email_mismatch
      else done (update_onboarding_session (link_user d s.subscription.id u.id) s.id account_linked)

  pub then_in : Result Session → (Session → Result Db) → Result Db
  then_in (refused r) f = refused r
  then_in (done s) f = f s

  pub link_account : Db → ℕ → String → Caller → Result Db
  unfolding link_account_of
  link_account d now id u = then_in (get_valid_session d now id) (link_account_of d u)

  -- `assertSessionAccountLinkedTo`
  pub is_linked_to : Option String → String → Bool
  is_linked_to none user = false
  is_linked_to (some l) user = not (str_eq l "") && str_eq l user

  pub finish : Session → Option Db → Result Db
  finish s none = refused already_linked
  finish s (some e) = done (update_onboarding_session e s.id org_linked)

  -- `linkSubscriptionToOrg` and what follows it.
  pub link_subscription_to_org : Db → Session → String → Result Db
  unfolding finish
  link_subscription_to_org d s org = finish s (link_organization d s.subscription.id org)

  pub owned_then : Option (List String) → String → Result Db → Result Db
  owned_then none user r = refused ownership_unverified
  owned_then (some owners) user r = if among owners user then r else refused ownership_required

  -- The mode `link_existing`; `assertUserOwnsOrganization` first.
  pub link_existing : Owners → Db → Caller → Session → String → Result Db
  unfolding owned_then
  link_existing owners d u s org =
      if str_eq org ""
      then refused org_id_required
      else owned_then (owners org) u.id (
          if has_active_subscription d org s.subscription.id
          then refused already_linked
          else link_subscription_to_org d s org)

  pub created_then : Db → Session → Option String → Result Db
  created_then d s none = refused create_failed
  created_then d s (some org) = link_subscription_to_org d s org

  -- The mode `create`.
  pub link_created : (String → Option String) → Db → Session → String → Result Db
  unfolding created_then
  link_created create d s name =
      if str_eq name "" then refused name_required else created_then d s (create name)

  pub link_organization_of :
      Owners → (String → Option String) → Db → Caller → Bool → String → Session → Result Db
  link_organization_of owners create d u existing text s =
      if not (is_linked_to s.subscription.local_user_id u.id)
      then refused link_required
      else if existing
      then link_existing owners d u s text
      else link_created create d s text

  -- `linkOrganization`, with the organisation's id or the name of a new one.
  pub link_org :
      Owners → (String → Option String) → Db → ℕ → String → Caller → Bool → String → Result Db
  link_org owners create d now id u existing text =
      then_in (get_valid_session d now id) (link_organization_of owners create d u existing text)
