-- ===== src/Guards/Ecosystem.antt =====
-- apps/api-gateway/src/authz/guards/ecosystem-roles.guard.ts: who passes EcosystemRolesGuard.
use ngotag_platform.Guards.{
  OrgRoleItem, User, Request, is_allow, includes, some_role, has_role, platform_admin, own_filtered,
  given_text, ecosystem_org, ecosystem_org_access, as_admin, ecosystem_user_access, ecosystem_roles,
  groups_of, ecosystem_roles_guard, with_user, same_email,
}
use ngotag_platform.Guards.Roles.{filtered_roles_lem, holds_role-belongs}
use ngotag_platform.Guards.Organization.{permits, permits_own}
use ngotag_platform.Common.{
  ◌≡◌, refl, Bool, not, ◌&&◌, ◌||◌, Option, none, some, List, ◌∷◌, String, str_eq, arith,
}

module _ (trim : String → String) (is_uuid : String → Bool) where
  own_filtered-allow :
      (required : List String) (org : String) (rows : Option (List OrgRoleItem))
      → is_allow (own_filtered trim is_uuid required org rows)
        ≡ permits_own trim is_uuid required org rows
  unfolding own_filtered
  own_filtered-allow required org none = refl
  own_filtered-allow required org (some items) =
      let same = filtered_roles_lem trim is_uuid required org items in
      let known = holds_role-belongs trim is_uuid required org items in ground arith

  ecosystem_org_access-allow :
      (required : List String) (org : String) (u : User)
      → is_allow (ecosystem_org_access trim is_uuid required org u)
        ≡ (not (str_eq org "") && is_uuid org && permits trim is_uuid required org u)
  unfolding ecosystem_org_access
  ecosystem_org_access-allow required org u =
      let own = own_filtered-allow required org u.user_org_roles in ground arith

  -- The platform's administrator: the configured email and the role.
  abbrev pub is_platform_admin : List String → Option String → User → List OrgRoleItem → Bool
  is_platform_admin required admin_email u items =
      same_email u.email admin_email
      && includes required platform_admin
      && has_role items platform_admin

  ecosystem_user_access-allow :
      (required : List String) (admin_email : Option String) (org : String) (u : User)
      (items : List OrgRoleItem)
      → u.user_org_roles ≡ some items
      → is_allow (ecosystem_user_access trim is_uuid required admin_email org u) ≡ (
          is_platform_admin required admin_email u items
          || (not (str_eq org "") && is_uuid org && permits trim is_uuid required org u))
  unfolding ecosystem_user_access as_admin
  ecosystem_user_access-allow required admin_email org u items e =
      let access = ecosystem_org_access-allow required org u in rw (e) (ground arith)

  -- Where a route names its roles, a request of a signed-in user with rows passes EcosystemRolesGuard
  -- exactly if one of the user's roles in any ecosystem is required, or the user is the platform's
  -- administrator, by role and configured email, and the route admits them, or the user has a required
  -- role at the organisation that the first text among the three values of the request names, a valid
  -- UUID.
  pub ecosystem_roles_guard-allow :
      (role : String) (others : List String) (admin_email : Option String) (req : Request)
      (u : User) (items : List OrgRoleItem)
      → req.user ≡ some u
      → u.user_org_roles ≡ some items
      → is_allow (ecosystem_roles_guard trim is_uuid (some (role ∷ others)) admin_email req) ≡ (
          some_role (role ∷ others) (ecosystem_roles u.ecosystem_access)
          || is_platform_admin (role ∷ others) admin_email u items
          || (let org =
                ecosystem_org trim is_uuid req.params_org
                  (given_text trim is_uuid req.query_org)
                  (given_text trim is_uuid req.body_org) in
              not (str_eq org "") && is_uuid org && permits trim is_uuid (role ∷ others) org u))
  unfolding ecosystem_roles_guard with_user groups_of
  ecosystem_roles_guard-allow role others admin_email req u items e f =
      let access =
        ecosystem_user_access-allow (role ∷ others) admin_email
          (ecosystem_org trim is_uuid req.params_org (given_text trim is_uuid req.query_org)
            (given_text trim is_uuid req.body_org))
          u items f in
      rw (e) (ground arith)
