-- ===== src/Token.antt =====
-- apps/api-gateway/src/authz/jwt.strategy.ts, `validate`: the user that the guards read, from the claims of
-- a token and from the database. The token is JSON, whose keys are distinct. The session, the owner of an
-- organisation and the user of Keycloak are what the services answer.
pub mod Claims
mod Tests
use ngotag_platform.Common.Json.{
  Value, null, boolean, number, str, list, object, Items, no_items, item, Fields, no_fields, field,
  lookup, member, put,
}
use ngotag_platform.Template.Payload.{is_falsy}
use ngotag_platform.Common.{
  ◌≡◌, refl, Bool, true, false, not, ◌&&◌, ◌||◌, Option, none, some, String, str_eq, eq_iff, arith,
  if◌then◌else◌,
}

-- An exception, or the TypeError of a write to undefined.
pub data Rejection : Type 0 where
  invalid_token org_not_found user_not_found type_error : Rejection

pub data Result : Type 0 where
  accepted : Fields → Result
  rejected : Rejection → Result

-- The answers of the services, by the identifier asked for. An organisation is given by the values of
-- its `userOrgRoles`.
pub record Services : Type 0 where
  pub check_session : Value → Bool
  pub find_organization_owner : String → Option Items
  pub find_user : Option Value → Option Fields
  pub is_uuid : String → Bool

-- `{ ...a, ...b }`
unfoldable pub spread : Fields → Fields → Fields
spread a no_fields = a
spread a (field k v fs) = put (spread a fs) k v

pub remove : Fields → String → Fields
remove no_fields k = no_fields
remove (field j v fs) k = let rest = remove fs k in if str_eq j k then rest else field j v rest

-- `mapping?.user_role?.role` is 'HOLDER' for one of the mappings.
pub is_text : Option Value → String → Bool
is_text (some (str s)) t = str_eq s t
is_text v t = false

pub some_holder : Items → Bool
some_holder no_items = false
some_holder (item v vs) =
    is_text (member (member (some v) "user_role") "role") "HOLDER" || some_holder vs

pub holder_of : Option Value → Bool
holder_of (some (list vs)) = some_holder vs
holder_of v = false

pub is_holder : Option Fields → Bool
is_holder none = false
is_holder (some user) = holder_of (lookup user "user_role_mapping")

-- The one organisation role that an owner's user keeps.
keep_member : Fields → Value → String → Fields
keep_member fs role k = elim (member (some role) k) [ none ↦ fs | some v ↦ put fs k v ]

org_role_of : Value → Value
org_role_of role = object (
    keep_member
      (keep_member
        (keep_member (keep_member (keep_member no_fields role "id") role "userId") role "orgRoleId")
        role "orgId")
      role "orgRole")

-- The user of the first role; without one, the code writes to undefined.
owner_user : Value → Option Value → Option Fields
owner_user role (some (object user)) =
    some (put user "userOrgRoles" (list (item (org_role_of role) no_items)))
owner_user role v = none

pub first_owner : Items → Option Fields
first_owner no_items = none
first_owner (item role roles) = owner_user role (member (some role) "user")

-- The user with the access of the token, without the mappings, under the claims of the token; the role
-- comes last, and an undefined one is left out.
pub with_access : Fields → Option Value → Fields
with_access user none = user
with_access user (some v) = if is_falsy (some v) then user else put user "ecosystem_access" v

pub user_for_request : Option Fields → Fields → Fields
user_for_request none claims = no_fields
user_for_request (some user) claims =
    remove (with_access user (lookup claims "ecosystem_access")) "user_role_mapping"

pub with_role : Bool → Fields → Fields
with_role true fs = put fs "userRole" (str "holder")
with_role false fs = remove fs "userRole"

pub request_user : Option Fields → Fields → Fields
request_user user claims = with_role (is_holder user) (spread (user_for_request user claims) claims)

pub known_or : Option Fields → Fields → Result
known_or none claims = rejected user_not_found
known_or (some user) claims = accepted (request_user (some user) claims)

pub of_organization : Option Items → Fields → Result
of_organization none claims = rejected org_not_found
of_organization (some roles) claims = elim (first_owner roles) [
  | none ↦ rejected type_error
  | some user ↦ accepted (request_user (some user) claims)
]

-- By the claim `client_id`: an organisation's client, a service, or a user.
pub identified : Services → Fields → Option Value → Result
identified s claims none = known_or (s.find_user (lookup claims "sub")) claims
identified s claims (some (str id)) =
    if s.is_uuid id
    then of_organization (s.find_organization_owner id) claims
    else accepted (request_user none claims)
identified s claims (some v) = accepted (request_user none claims)

pub has_session : Services → Option Value → Bool
has_session s none = true
has_session s (some sid) = is_falsy (some sid) || s.check_session sid

-- `validate`
pub validate : Services → Fields → Result
validate s claims =
    if has_session s (lookup claims "sid")
    then identified s claims (lookup claims "client_id")
    else rejected invalid_token
