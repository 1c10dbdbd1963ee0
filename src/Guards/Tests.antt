-- ===== src/Guards/Tests.antt =====
-- apps/api-gateway/src/authz at concrete requests.
use ngotag_platform.Common.{
  ◌≡◌, refl, Bool, true, false, not, ◌&&◌, ◌||◌, none, some, List, [], ◌∷◌, String, str_eq,
}
use ngotag_platform.Guards.{
  OrgRoleItem, User, Request, is_allow, is_type_error, org_roles_guard, ecosystem_roles_guard,
  some_role, ecosystem_roles, ecosystem_org, given_text,
}
use ngotag_platform.Common.Json.{str, number}
use ngotag_platform.Guards.Organization.{
  is_untrimmable_query, is_untrimmable_body, permits, org_roles_guard_ends,
}
use ngotag_platform.Guards.Ecosystem.{is_platform_admin, ecosystem_roles_guard-allow}
use ngotag_platform.Guards.Swagger.{PathItem}

abbrev as_is : String → String
as_is s = s

abbrev any_id : String → Bool
any_id s = true

abbrev items : List OrgRoleItem
items =
    record { org_id = some "o1"; role = "verifier" }
    ∷ record { org_id = some "o2"; role = "issuer" }
    ∷ []

abbrev issuer : User
issuer = record {
  client_id = none;
  email = some "a@x";
  is_holder = false;
  user_org_roles = some items;
  resource_access = [];
  realm_roles = [];
  ecosystem_access = record { lead = []; member = "e" ∷ [] } ∷ [];
}

abbrev request : Request
request = record {
  user = some issuer;
  params_org = none;
  query_org = some (str "o2");
  body_org = none;
}

abbrev required : List String
required = "owner" ∷ "issuer" ∷ []

-- The body of this request holds a number where the guard trims a text.
abbrev numbered : Request
numbered = record {
  user = some issuer;
  params_org = none;
  query_org = none;
  body_org = some (number 1);
}

org_roles_guard_ends_example :
    (is_type_error (org_roles_guard as_is any_id (some required) numbered) ≡ (
      not issuer.is_holder
      && (is_untrimmable_query as_is any_id numbered.query_org
          || is_untrimmable_body as_is any_id numbered.body_org)))
    × (is_type_error (org_roles_guard as_is any_id none numbered) ≡ true)
org_roles_guard_ends_example =
    org_roles_guard_ends as_is any_id required numbered issuer items refl refl

ecosystem_roles_guard-allow_example :
    is_allow (ecosystem_roles_guard as_is any_id (some required) none request) ≡ (
      some_role required (ecosystem_roles issuer.ecosystem_access)
      || is_platform_admin as_is any_id required none issuer items
      || (let org =
            ecosystem_org as_is any_id request.params_org
              (given_text as_is any_id request.query_org)
              (given_text as_is any_id request.body_org) in
          not (str_eq org "") && any_id org && permits as_is any_id required org issuer))
ecosystem_roles_guard-allow_example =
    ecosystem_roles_guard-allow as_is any_id "owner" ("issuer" ∷ []) none request issuer items refl
      refl

abbrev document : List PathItem
document =
    record {
      path = "/ecosystem";
      operations = record { method = "get"; tags = "ecosystem" ∷ [] } ∷ [];
    }
    ∷ record { path = "/orgs"; operations = record { method = "get"; tags = [] } ∷ [] }
    ∷ []
