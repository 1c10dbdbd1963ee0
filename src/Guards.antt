-- ===== src/Guards.antt =====
-- apps/api-gateway/src/authz: the guards that decide whether a request reaches its handler, the
-- strategy that builds the user they read, and the filter that hides routes from the published
-- interface. `trim` and `is_uuid` stand for `String.prototype.trim` and `validate` of the package
-- `uuid`.
pub mod Roles
pub mod Organization
pub mod Ecosystem
pub mod Access
pub mod Swagger
mod Tests
use ngotag_platform.Common.{
  ℕ, ◌≡◌, Bool, true, false, not, ◌&&◌, ◌||◌, Option, none, some, List, [], ◌∷◌, ◌++◌, map, String,
  str_eq, if◌then◌else◌, is_some, ◌==◌, ◌>>=◌,
}
use ngotag_platform.Common.Json.{Value, null, boolean, number, str, list, object}

pub record OrgRoleItem : Type 0 where
  pub org_id : Option String
  pub role : String

-- `ecosystem_role` of one ecosystem; a list that is absent counts as empty.
pub record EcosystemRoleGroup : Type 0 where
  pub lead : List String
  pub member : List String

-- `request.user`. `userRole` is `holder` or undefined, as the strategy leaves it.
pub record User : Type 0 where
  pub client_id : Option String
  pub email : Option String
  pub is_holder : Bool
  pub user_org_roles : Option (List OrgRoleItem)
  pub resource_access : List (String × List String)
  pub realm_roles : List String
  pub ecosystem_access : List EcosystemRoleGroup

-- `orgId` is a text in `params`; in `query` and `body` it is whatever the client sent.
pub record Request : Type 0 where
  pub user : Option User
  pub params_org : Option String
  pub query_org : Option Value
  pub body_org : Option Value

-- What a guard does: it lets the request through, returns false, throws, or runs into a TypeError.
pub data Verdict : Type 0 where
  allow deny unauthorized holder_refused holder_required : Verdict
  invalid_org org_required org_not_match role_not_match forbidden type_error : Verdict

abbrev pub is_allow : Verdict → Bool
is_allow allow = true
is_allow _ = false

abbrev pub is_type_error : Verdict → Bool
is_type_error type_error = true
is_type_error _ = false

pub includes : List String → String → Bool
includes [] r = false
includes (x ∷ xs) r = str_eq x r || includes xs r

-- `requiredRoles.some((role) => held.includes(role))`
pub some_role : List String → List String → Bool
some_role [] held = false
some_role (r ∷ required) held = includes held r || some_role required held

-- The same over a list with holes, where `includes` never finds a hole.
pub includes_held : List (Option String) → String → Bool
includes_held [] r = false
includes_held (none ∷ xs) r = includes_held xs r
includes_held (some x ∷ xs) r = str_eq x r || includes_held xs r

pub some_role_held : List String → List (Option String) → Bool
some_role_held [] held = false
some_role_held (r ∷ required) held = includes_held held r || some_role_held required held

pub lookup : List (String × List String) → String → Option (List String)
lookup [] org = none
lookup ((key, roles) ∷ rest) org =
    let later = lookup rest org in if str_eq key org then some roles else later

pub has_role : List OrgRoleItem → String → Bool
has_role [] role = false
has_role (i ∷ is) role = str_eq i.role role || has_role is role

abbrev pub platform_admin : String
platform_admin = "platform_admin"

abbrev pub is_empty {ℓ} : {A : Type ℓ} → List A → Bool
is_empty [] = true
is_empty (x ∷ xs) = false

-- `user.email === process.env.PLATFORM_ADMIN_EMAIL`, where both may be undefined.
pub same_email : Option String → Option String → Bool
same_email none none = true
same_email none (some b) = false
same_email (some a) none = false
same_email (some a) (some b) = str_eq a b

has_lead : List EcosystemRoleGroup → Bool
has_lead [] = false
has_lead (g ∷ gs) = not (is_empty g.lead) || has_lead gs

has_member : List EcosystemRoleGroup → Bool
has_member [] = false
has_member (g ∷ gs) = not (is_empty g.member) || has_member gs

pub ecosystem_roles : List EcosystemRoleGroup → List String
ecosystem_roles gs =
    (if has_lead gs then "Ecosystem Lead" ∷ [] else [])
    ++ (if has_member gs then "Ecosystem Member" ∷ [] else [])

pub groups_of : Option User → List EcosystemRoleGroup
groups_of none = []
groups_of (some u) = u.ecosystem_access

module _ (trim : String → String) (is_uuid : String → Bool) where
  pub same_org : String → Option String → Bool
  same_org org none = false
  same_org org (some o) = not (str_eq o "") && str_eq (trim o) (trim org)

  abbrev pub matches : String → OrgRoleItem → Bool
  matches org i = same_org org i.org_id

  -- `userOrgRoles.find(...)`, of which only the presence is used.
  pub belongs : String → List OrgRoleItem → Bool
  belongs org [] = false
  belongs org (i ∷ is) = matches org i || belongs org is

  -- `selectedOrg.orgRoles` of OrgRolesGuard.
  pub selected_roles : String → List OrgRoleItem → List (Option String)
  selected_roles org [] = []
  selected_roles org (i ∷ is) =
      (if matches org i then some i.role else none) ∷ selected_roles org is

  trimmed : Option String → String
  trimmed none = ""
  trimmed (some s) = if str_eq s "" then "" else trim s

  -- `orgId ? orgId.trim() : ''`; none is a TypeError, as only a text has `trim`.
  pub trimmed_query : Option Value → Option String
  trimmed_query none = some ""
  trimmed_query (some null) = some ""
  trimmed_query (some (boolean b)) = if b then none else some ""
  trimmed_query (some (number n)) = if n == 0 then some "" else none
  trimmed_query (some (str s)) = some (trimmed (some s))
  trimmed_query (some (list vs)) = none
  trimmed_query (some (object fs)) = none

  -- `orgId?.trim() || ''`
  pub trimmed_body : Option Value → Option String
  trimmed_body none = some ""
  trimmed_body (some null) = some ""
  trimmed_body (some (str s)) = some (trim s)
  trimmed_body (some v) = none

  first_org : String → String → String → String
  first_org params query body =
      if not (str_eq params "") then params else if not (str_eq query "") then query else body

  -- The organisation that a request names, an empty text if it names none; none is a TypeError.
  pub requested_org : Request → Option String
  requested_org req = do
    query ← trimmed_query req.query_org
    body ← trimmed_body req.body_org
    some (first_org (trimmed req.params_org) query body)

  pub own_roles : List String → String → Option (List OrgRoleItem) → Verdict
  own_roles required org none = type_error
  own_roles required org (some items) =
      if not (belongs org items)
      then org_not_match
      else if some_role_held required (selected_roles org items)
      then allow
      else role_not_match

  pub org_access : List String → String → User → Verdict
  org_access required org u = elim (lookup u.resource_access org) [
    | some roles ↦ if some_role required roles then allow else role_not_match
    | none ↦ own_roles required org u.user_org_roles
  ]

  pub admin_access : Option (List OrgRoleItem) → Verdict
  admin_access none = type_error
  admin_access (some items) = if has_role items platform_admin then allow else deny

  pub is_holder_user : Option User → Bool
  is_holder_user none = false
  is_holder_user (some u) = u.is_holder

  pub with_user : Option User → (User → Verdict) → Verdict
  with_user none f = type_error
  with_user (some u) f = f u

  -- What follows once the organisation is known.
  pub org_decision : List String → Option User → Option String → Verdict
  org_decision required user none = type_error
  org_decision required user (some org) =
      if not (str_eq org "")
      then if not (is_uuid org) then invalid_org else with_user user (org_access required org)
      else if includes required platform_admin
      then with_user user (λ u. admin_access u.user_org_roles)
      else org_required

  -- OrgRolesGuard; `Object.values(undefined)` is a TypeError.
  pub org_roles_guard : Option (List String) → Request → Verdict
  org_roles_guard none req = type_error
  org_roles_guard (some required) req =
      if is_holder_user req.user
      then holder_refused
      else org_decision required req.user (requested_org req)

  -- EcosystemRolesGuard takes the first of the three that is a text, be it empty.
  pub given_text : Option Value → Option String
  given_text (some (str s)) = some s
  given_text v = none

  pub ecosystem_org : Option String → Option String → Option String → String
  ecosystem_org (some o) query body = trim o
  ecosystem_org none (some o) body = trim o
  ecosystem_org none none (some o) = trim o
  ecosystem_org none none none = ""

  -- `selectedOrg.orgRoles` of EcosystemRolesGuard.
  pub filtered_roles : String → List OrgRoleItem → List String
  filtered_roles org [] = []
  filtered_roles org (i ∷ is) =
      let rest = filtered_roles org is in if matches org i then i.role ∷ rest else rest

  pub own_filtered : List String → String → Option (List OrgRoleItem) → Verdict
  own_filtered required org none = type_error
  own_filtered required org (some items) =
      if not (belongs org items)
      then org_not_match
      else if some_role required (filtered_roles org items)
      then allow
      else role_not_match

  pub ecosystem_org_access : List String → String → User → Verdict
  ecosystem_org_access required org u =
      if str_eq org ""
      then deny
      else if not (is_uuid org)
      then invalid_org
      else elim (lookup u.resource_access org) [
        | some roles ↦ if some_role required roles then allow else role_not_match
        | none ↦ own_filtered required org u.user_org_roles
      ]

  -- The branch of the platform's administrator, from the roles of the user and what follows it.
  pub as_admin : Option (List OrgRoleItem) → Verdict → Verdict
  as_admin none otherwise = type_error
  as_admin (some items) otherwise = if has_role items platform_admin then allow else otherwise

  pub ecosystem_user_access : List String → Option String → String → User → Verdict
  ecosystem_user_access required admin_email org u =
      if same_email u.email admin_email && includes required platform_admin
      then as_admin u.user_org_roles (ecosystem_org_access required org u)
      else ecosystem_org_access required org u

  pub ecosystem_roles_guard : Option (List String) → Option String → Request → Verdict
  ecosystem_roles_guard none admin_email req = allow
  ecosystem_roles_guard (some []) admin_email req = allow
  ecosystem_roles_guard (some (r ∷ required)) admin_email req =
      if some_role (r ∷ required) (ecosystem_roles (groups_of req.user))
      then allow
      else with_user req.user (
          ecosystem_user_access (r ∷ required) admin_email
            (ecosystem_org req.params_org (given_text req.query_org) (given_text req.body_org)))

pub client_access_guard : Option User → Verdict
client_access_guard none = unauthorized
client_access_guard (some u) = if is_some u.client_id then allow else unauthorized

pub user_access_guard : Option User → Verdict
user_access_guard none = type_error
user_access_guard (some u) =
    if is_some u.client_id then unauthorized else if u.is_holder then holder_refused else allow

pub user_role_guard : Option User → Verdict
user_role_guard none = holder_required
user_role_guard (some u) = if u.is_holder then allow else holder_required

trust_service_role_guard : Option User → Verdict
trust_service_role_guard none = unauthorized
trust_service_role_guard (some u) =
    if includes u.realm_roles "trust-service" then allow else forbidden

-- `config?.isEcosystemEnabled`
pub is_enabled : Option Bool → Bool
is_enabled none = false
is_enabled (some b) = b

ecosystem_feature_guard : Option Bool → Verdict
ecosystem_feature_guard config = if is_enabled config then allow else forbidden
