-- ===== src/Onboarding/Identity.antt =====
-- apps/marketplace/src/marketplace.service.ts: who can take a subscription through its onboarding.
use ngotag_platform.Onboarding.Repository.{
  Subscription, Session, OnboardingStatus, account_linked, org_linked, with_user, with_org, changed,
  Repository as Store,
}
use ngotag_platform.Onboarding.{
  Result, done, refused, Caller, lowered, expected_emails, is_none, link_account_of, finish,
  link_subscription_to_org,
}
use ngotag_platform.Common.Find.{among}
use ngotag_platform.Common.{
  ◌≡◌, refl, ap, ◌∙◌, Bool, true, ◌||◌, Option, none, some, String, str_eq, Bool-cases,
  Option-cases, inl, inr,
}

module _ (store : Store) (lower : String → String) (email_of : String → Option String) where
  open store use {
    Db, get_onboarding_session, update_onboarding_session, link_user, link_organization,
    has_active_subscription,
  }

  -- The user's email is the purchaser's or the beneficiary's.
  abbrev pub is_buyer : Subscription → String → Bool
  is_buyer s user = among (expected_emails lower s) (lowered lower (email_of user))

  abbrev pub buyer_only : Subscription → Option String → Bool
  buyer_only s none = true
  buyer_only s (some user) = is_buyer s user

  abbrev pub bound : Option Session → Bool
  bound none = true
  bound (some s) = buyer_only s.subscription s.subscription.local_user_id

  -- Every account that is linked is a buyer's.
  abbrev pub IsBound : Db → Type 0
  IsBound d = (id : String) → bound (get_onboarding_session d id) ≡ true

  abbrev pub caller : String → Caller
  caller user = record { id = user; email = email_of user }

  abbrev pub result_or : Db → Result Db → Db
  result_or d (done e) = e
  result_or d (refused r) = d

  with_user_buyer :
      (t : Session) (s : Subscription) (user : String)
      → t.subscription ≡ s
      → is_buyer (with_user t user).subscription user ≡ is_buyer s user
  unfolding expected_emails
  with_user_buyer t s user e = ap (λ x. is_buyer x user) e

  with_org_buyer :
      (t : Session) (org : String) (o : Option String)
      → buyer_only (with_org t org).subscription o ≡ buyer_only t.subscription o
  unfolding expected_emails
  with_org_buyer t org none = refl
  with_org_buyer t org (some user) = refl

  bound-with_user :
      (o : Option Session) (s : Session) (user : String)
      → ((t : Session)
          → o ≡ some t
          → str_eq t.subscription.id s.subscription.id ≡ true
          → t.subscription ≡ s.subscription)
      → is_buyer s.subscription user ≡ true
      → bound o ≡ true
      → bound (changed s.subscription.id (λ x. with_user x user) o) ≡ true
  bound-with_user none s user same buyer b = refl
  bound-with_user (some t) s user same buyer b =
      elim (Bool-cases (str_eq t.subscription.id s.subscription.id)) [
        | inl e ↦ rw (e) (with_user_buyer t s.subscription user (same t refl e) ∙ buyer)
        | inr e ↦ rw (e) b
      ]

  bound-with_org :
      (o : Option Session) (sub org : String)
      → bound o ≡ true
      → bound (changed sub (λ x. with_org x org) o) ≡ true
  bound-with_org none sub org b = refl
  bound-with_org (some t) sub org b = elim (Bool-cases (str_eq t.subscription.id sub)) [
    | inl e ↦ rw (e) (with_org_buyer t org t.subscription.local_user_id ∙ b)
    | inr e ↦ rw (e) b
  ]

  link_user-IsBound :
      (d : Db) (s : Session) (user id : String) (status : OnboardingStatus)
      → get_onboarding_session d id ≡ some s
      → is_buyer s.subscription user ≡ true
      → IsBound d
      → IsBound (update_onboarding_session (link_user d s.subscription.id user) s.id status)
  link_user-IsBound d s user id status found buyer b j =
      ap bound (
        store.get-update (link_user d s.subscription.id user) s.id status j
        ∙ store.get-link_user d s.subscription.id user j)
      ∙ bound-with_user (get_onboarding_session d j) s user
          (λ t e k. store.one_row d id j s t found e k) buyer (b j)

  pub link_account_of-IsBound :
      (d : Db) (s : Session) (user id : String)
      → get_onboarding_session d id ≡ some s
      → IsBound d
      → IsBound (result_or d (link_account_of store lower d (caller user) s))
  unfolding link_account_of
  link_account_of-IsBound d s user id found b =
      elim (Bool-cases (
        is_none (expected_emails lower s.subscription)
        || str_eq (lowered lower (email_of user)) "")) [
          | inl e ↦ rw (e) b
          | inr e ↦ elim (Bool-cases (is_buyer s.subscription user)) [
            | inl k ↦ rw (e, k) (link_user-IsBound d s user id account_linked found k b)
            | inr k ↦ rw (e, k) b
          ]
        ]

  pub link_subscription_to_org-IsBound :
      (d : Db) (s : Session) (org : String)
      → IsBound d
      → IsBound (result_or d (link_subscription_to_org store lower d s org))
  unfolding link_subscription_to_org finish
  link_subscription_to_org-IsBound d s org b =
      elim (Option-cases (link_organization d s.subscription.id org)) [
        | inl e ↦ rw (e) b
        | inr (e, k) ↦ rw (k) (λ j.
            ap bound (
              store.get-update e s.id org_linked j
              ∙ store.get-link_organization d e s.subscription.id org j k)
            ∙ bound-with_org (get_onboarding_session d j) s.subscription.id org (b j))
      ]
