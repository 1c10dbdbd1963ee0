-- ===== src/Token/Tests.antt =====
-- A token that claims the role of a holder, of a user without it.
use ngotag_platform.Token.{
  accepted, Services, spread, remove, is_text, some_holder, holder_of, is_holder, with_access,
  user_for_request, with_role, request_user, known_or, identified, has_session, validate,
}
use ngotag_platform.Token.Claims.{user_of, view, validate-view}
use ngotag_platform.Common.Json.{str, list, no_items, Fields, no_fields, field, lookup, put}
use ngotag_platform.Common.{◌≡◌, refl, true, false, none, some}

abbrev claims : Fields
claims = field "sub" (str "k1") (field "userRole" (str "holder") no_fields)

abbrev database : Services
database = record {
  check_session = λ v. true;
  find_organization_owner = λ id. none;
  find_user =
      λ sub. some (field "id" (str "u1") (field "user_role_mapping" (list no_items) no_fields));
  is_uuid = λ id. false;
}

abbrev user : Fields
user = field "id" (str "u1") (field "sub" (str "k1") no_fields)

accepted_claims : validate database claims ≡ accepted user
unfolding validate has_session identified known_or request_user with_role user_for_request
    with_access is_holder holder_of some_holder is_text spread remove lookup put
accepted_claims = refl

validate-view_example : lookup user "userRole" ≡ view (user_of database claims) claims "userRole"
validate-view_example = validate-view database claims user "userRole" accepted_claims
