-- ===== src/Onboarding/Tests.antt =====
-- apps/marketplace/src/marketplace.service.ts at a concrete history.
use ngotag_platform.Common.Find.{among}
use ngotag_platform.Common.{
  ◌≡◌, refl, true, false, Option, none, some, List, [], ◌∷◌, String, str_eq, Bool-cases, inl, inr,
  if◌then◌else◌,
}
use ngotag_platform.Onboarding.Repository.{Subscription, Session}
use ngotag_platform.Onboarding.{
  done, Owners, lowered, expected_emails, get_valid_session, valid, then_in, link_account_of,
  link_account, is_linked_to, finish, link_subscription_to_org, owned_then, link_existing,
  link_organization_of, link_org, nonempty,
}
use ngotag_platform.Onboarding.Identity.{is_buyer, IsBound, caller}
use ngotag_platform.Onboarding.Linking.{
  Request, links_account, run_request, run_requests, link_org-is_buyer,
}
use ngotag_platform.Onboarding.TableRepository.{Tables, table_repository, org_linked_to}

abbrev bought : String → Subscription
bought sub = record {
  id = sub;
  org_id = none;
  local_user_id = none;
  purchaser_email = some "buyer@x";
  beneficiary_email = none;
  is_subscribed = false;
  is_activated = false;
}

abbrev start : Tables
start = record {
  sessions = λ id. if str_eq id "s1" then some (100, "m1") else none;
  rows = bought;
  occupant = λ org. none;
  own_id = λ sub. refl;
}

abbrev email_of : String → Option String
email_of user = if str_eq user "u1" then some "buyer@x" else some "other@x"

abbrev as_is : String → String
as_is s = s

abbrev owners : Owners
owners org = some ("u1" ∷ [])

abbrev create : String → Option String
create name = none

start-IsBound : IsBound table_repository as_is email_of start
start-IsBound id = elim (Bool-cases (str_eq id "s1")) [ inl e ↦ rw (e) refl | inr e ↦ rw (e) refl ]

abbrev earlier : List Request
earlier = links_account 9 "s1" "u2" ∷ links_account 10 "s1" "u1" ∷ []

abbrev linked : Tables
linked =
    org_linked_to (run_requests table_repository as_is email_of owners create start earlier) "m1"
      "o1"

links :
    link_org table_repository as_is owners create
      (run_requests table_repository as_is email_of owners create start earlier)
      20
      "s1"
      (caller table_repository as_is email_of "u1")
      true
      "o1"
    ≡ done linked
unfolding run_requests run_request get_valid_session valid then_in link_account_of link_account
    is_linked_to finish link_subscription_to_org owned_then link_existing link_organization_of
    link_org expected_emails lowered among nonempty
links = refl

link_org-is_buyer_example :
    (s : Session) × (table_repository.get_onboarding_session
        (run_requests table_repository as_is email_of owners create start earlier)
        "s1"
      ≡ some s)
    × (is_buyer table_repository as_is email_of s.subscription "u1" ≡ true)
link_org-is_buyer_example =
    link_org-is_buyer table_repository as_is email_of owners create start linked earlier 20 "s1"
      "u1" true "o1" start-IsBound links
