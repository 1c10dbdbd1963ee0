-- ===== src/Guards/Organization.antt =====
-- apps/api-gateway/src/authz/guards/org-roles.guard.ts: who passes OrgRolesGuard.
use ngotag_platform.Guards.{
  OrgRoleItem, User, Request, is_type_error, includes, some_role, lookup, has_role, platform_admin,
  requested_org, org_decision, trimmed_query, trimmed_body, own_roles, org_access, admin_access,
  is_holder_user, with_user, org_roles_guard,
}
use ngotag_platform.Guards.Roles.{holds_role}
use ngotag_platform.Common.{
  ◌≡◌, refl, Bool, true, false, not, ◌&&◌, Option, none, some, List, String, str_eq, arith,
  if◌then◌else◌, ◌||◌, ◌==◌, is_some,
}
use ngotag_platform.Common.Json.{Value, null, boolean, number, str, list, object}

module _ (trim : String → String) (is_uuid : String → Bool) where
  -- What the roles of a user permit at an organisation: those of the token where it names the
  -- organisation, else those of the user's rows.
  abbrev pub permits_own : List String → String → Option (List OrgRoleItem) → Bool
  permits_own required org none = false
  permits_own required org (some items) = holds_role trim is_uuid required org items

  abbrev pub permits : List String → String → User → Bool
  permits required org u = elim (lookup u.resource_access org) [
    | some roles ↦ some_role required roles
    | none ↦ permits_own required org u.user_org_roles
  ]

  abbrev is_admin : Option (List OrgRoleItem) → Bool
  is_admin none = false
  is_admin (some items) = has_role items platform_admin

  abbrev pub may_pass : List String → Option String → User → Bool
  may_pass required none u = false
  may_pass required (some org) u =
      not u.is_holder
      && (if str_eq org ""
          then includes required platform_admin && is_admin u.user_org_roles
          else is_uuid org && permits required org u)

  -- A value without the method `trim` on which the guard calls it: in the query one that is truthy and
  -- no text, in the body one that is neither a text nor null.
  abbrev pub is_untrimmable_query : Option Value → Bool
  is_untrimmable_query (some (boolean b)) = b
  is_untrimmable_query (some (number n)) = not (n == 0)
  is_untrimmable_query (some (list vs)) = true
  is_untrimmable_query (some (object fs)) = true
  is_untrimmable_query v = false

  abbrev pub is_untrimmable_body : Option Value → Bool
  is_untrimmable_body none = false
  is_untrimmable_body (some null) = false
  is_untrimmable_body (some (str s)) = false
  is_untrimmable_body (some v) = true

  own_roles_ends :
      (required : List String) (org : String) (items : List OrgRoleItem)
      → is_type_error (own_roles trim is_uuid required org (some items)) ≡ false
  unfolding own_roles
  own_roles_ends required org items = ground arith

  org_access_ends :
      (required : List String) (org : String) (u : User) (items : List OrgRoleItem)
      → u.user_org_roles ≡ some items
      → is_type_error (org_access trim is_uuid required org u) ≡ false
  unfolding org_access
  org_access_ends required org u items e =
      let own = own_roles_ends required org items in rw (e) (ground arith)

  trimmed_query-none :
      (v : Option Value) → is_some (trimmed_query trim is_uuid v) ≡ not (is_untrimmable_query v)
  unfolding trimmed_query
  trimmed_query-none none = refl
  trimmed_query-none (some null) = refl
  trimmed_query-none (some (boolean b)) = ground arith
  trimmed_query-none (some (number n)) = ground arith
  trimmed_query-none (some (str s)) = refl
  trimmed_query-none (some (list vs)) = refl
  trimmed_query-none (some (object fs)) = refl

  trimmed_body-none :
      (v : Option Value) → is_some (trimmed_body trim is_uuid v) ≡ not (is_untrimmable_body v)
  unfolding trimmed_body
  trimmed_body-none none = refl
  trimmed_body-none (some null) = refl
  trimmed_body-none (some (boolean b)) = refl
  trimmed_body-none (some (number n)) = refl
  trimmed_body-none (some (str s)) = refl
  trimmed_body-none (some (list vs)) = refl
  trimmed_body-none (some (object fs)) = refl

  requested_org-none :
      (req : Request)
      → is_some (requested_org trim is_uuid req)
        ≡ (not (is_untrimmable_query req.query_org) && not (is_untrimmable_body req.body_org))
  unfolding requested_org
  requested_org-none req =
      let query = trimmed_query-none req.query_org in
      let body = trimmed_body-none req.body_org in ground arith

  org_decision_ends :
      (required : List String) (u : User) (items : List OrgRoleItem) (org : Option String)
      → u.user_org_roles ≡ some items
      → is_type_error (org_decision trim is_uuid required (some u) org) ≡ not (is_some org)
  unfolding org_decision with_user admin_access
  org_decision_ends required u items none e = refl
  org_decision_ends required u items (some org) e =
      let access = org_access_ends required org u items e in rw (e) (ground arith)

  -- Where the route names its roles and the user has rows, OrgRolesGuard runs into a TypeError exactly
  -- if the user is no holder and the organisation in the query or in the body is a value that cannot be
  -- trimmed; where the route names no roles it always does, though the code has a check for that.
  pub org_roles_guard_ends :
      (required : List String) (req : Request) (u : User) (items : List OrgRoleItem)
      → req.user ≡ some u
      → u.user_org_roles ≡ some items
      → (is_type_error (org_roles_guard trim is_uuid (some required) req) ≡ (
          not u.is_holder
          && (is_untrimmable_query req.query_org || is_untrimmable_body req.body_org)))
        × (is_type_error (org_roles_guard trim is_uuid none req) ≡ true)
  unfolding org_roles_guard is_holder_user
  org_roles_guard_ends required req u items e f =
      let ends = org_decision_ends required u items (requested_org trim is_uuid req) f in
      let known = requested_org-none req in (rw (e) (ground arith), refl)
