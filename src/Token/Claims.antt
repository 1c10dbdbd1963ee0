-- ===== src/Token/Claims.antt =====
-- apps/api-gateway/src/authz/jwt.strategy.ts: what the guards read of a validated token, and where from.
use ngotag_platform.Token.{
  type_error, Result, accepted, rejected, Services, spread, remove, is_holder, first_owner,
  with_access, user_for_request, with_role, request_user, known_or, of_organization, identified,
  has_session, validate,
}
use ngotag_platform.Template.Payload.{is_falsy}
use ngotag_platform.Common.Json.{
  Value, null, boolean, number, str, list, object, Items, Fields, no_fields, field, lookup,
  lookup-put,
}
use ngotag_platform.Common.{
  ◌≡◌, refl, sym, ap, ◌∙◌, Bool, true, false, Option, none, some, String, str_eq, eq_iff, arith,
  ◌>>=◌, Bool-cases, inl, inr, if◌then◌else◌, or_else,
}

-- The user of the database: the first owner of the organisation whose client the token is, nobody for
-- the client of a service, and otherwise the user that the token names.
user_of_client : Services → Option Value → Option Value → Option Fields
user_of_client s none sub = s.find_user sub
user_of_client s (some (str id)) sub =
    if s.is_uuid id then s.find_organization_owner id >>= first_owner else none
user_of_client s (some v) sub = none

pub user_of : Services → Fields → Option Fields
user_of s claims = user_of_client s (lookup claims "client_id") (lookup claims "sub")

-- A member of the user that is no mapping of roles.
own_member : Option Fields → String → Option Value
own_member none k = none
own_member (some user) k = if str_eq k "user_role_mapping" then none else lookup user k

role_member : Bool → Option Value
role_member true = some (str "holder")
role_member false = none

-- What a guard reads: the role of the database, and else the claim, or the member of the user.
pub view : Option Fields → Fields → String → Option Value
view user claims k =
    if str_eq k "userRole"
    then role_member (is_holder user)
    else or_else (lookup claims k) (own_member user k)

lookup-remove :
    (fs : Fields) (j k : String)
    → lookup (remove fs j) k ≡ (if str_eq k j then none else lookup fs k)
unfolding lookup remove
lookup-remove no_fields j k = elim (Bool-cases (str_eq k j)) [
  | inl e ↦ rw (e) refl
  | inr e ↦ rw (e) refl
]
lookup-remove (field i v fs) j k =
    ground (arith, eq_iff i j, eq_iff i k, eq_iff k j, lookup-remove fs j k)

lookup-spread :
    (a b : Fields) (k : String) → lookup (spread a b) k ≡ or_else (lookup b k) (lookup a k)
unfolding lookup spread
lookup-spread a no_fields k = refl
lookup-spread a (field j v fs) k =
    lookup-put (spread a fs) j v k
    ∙ ap (λ o. if str_eq j k then some v else o) (lookup-spread a fs k)
    ∙ chosen (str_eq j k) v (lookup fs k) (lookup a k)
  where
    chosen :
        (b : Bool) (v : Value) (o p : Option Value)
        → (if b then some v else or_else o p) ≡ or_else (if b then some v else o) p
    chosen true v o p = refl
    chosen false v o p = refl

lookup-with_role :
    (b : Bool) (fs : Fields) (k : String)
    → lookup (with_role b fs) k ≡ (if str_eq k "userRole" then role_member b else lookup fs k)
unfolding with_role role_member
lookup-with_role true fs k =
    lookup-put fs "userRole" (str "holder") k
    ∙ ap (λ b. if b then some (str "holder") else lookup fs k) (turned "userRole" k)
  where
    turned : (i j : String) → str_eq i j ≡ str_eq j i
    turned i j = ground (arith, eq_iff i j, eq_iff j i)
lookup-with_role false fs k = lookup-remove fs "userRole" k

-- The access that the token gives is the token's own claim.
access-shadowed :
    (u claims : Fields) (o : Option Value) (k : String)
    → lookup claims "ecosystem_access" ≡ o
    → or_else (lookup claims k) (lookup (with_access u o) k)
      ≡ or_else (lookup claims k) (lookup u k)
unfolding with_access
access-shadowed u claims none k e = refl
access-shadowed u claims (some v) k e = elim (Bool-cases (is_falsy (some v))) [
  | inl b ↦ rw (b) refl
  | inr b ↦
      rw (b, lookup-put u "ecosystem_access" v k)
        (elim (Bool-cases (str_eq "ecosystem_access" k)) [
          | inl c ↦
              let same = (eq_iff "ecosystem_access" k).0 c in
              let known : lookup claims k ≡ some v = ap (lookup claims) (sym same) ∙ e in
              rw (c, known) refl
          | inr c ↦ rw (c) refl
        ])
]

own_member_lem :
    (user : Option Fields) (claims : Fields) (k : String)
    → or_else (lookup claims k) (lookup (user_for_request user claims) k)
      ≡ or_else (lookup claims k) (own_member user k)
unfolding user_for_request own_member lookup
own_member_lem none claims k = refl
own_member_lem (some u) claims k = unfold_of (str_eq k "user_role_mapping") refl
  where
    unfold_of :
        (b : Bool)
        → str_eq k "user_role_mapping" ≡ b
        → or_else (lookup claims k) (
            lookup
              (remove (with_access u (lookup claims "ecosystem_access")) "user_role_mapping")
              k)
          ≡ or_else (lookup claims k) (if str_eq k "user_role_mapping" then none else lookup u k)
    unfold_of true e =
        rw
          (
            lookup-remove (with_access u (lookup claims "ecosystem_access")) "user_role_mapping" k,
            e,
          )
          refl
    unfold_of false e =
        rw
          (
            lookup-remove (with_access u (lookup claims "ecosystem_access")) "user_role_mapping" k,
            e,
          )
          (access-shadowed u claims (lookup claims "ecosystem_access") k refl)

request_user-view :
    (user : Option Fields) (claims : Fields) (k : String)
    → lookup (request_user user claims) k ≡ view user claims k
unfolding request_user view
request_user-view user claims k =
    lookup-with_role (is_holder user) (spread (user_for_request user claims) claims) k
    ∙ ap (λ o. if str_eq k "userRole" then role_member (is_holder user) else o)
        (lookup-spread (user_for_request user claims) claims k ∙ own_member_lem user claims k)

abbrev MatchesView : Option Fields → Fields → String → Result → Type 0
MatchesView user claims k (rejected e) = Unit {0}
MatchesView user claims k (accepted r) = lookup r k ≡ view user claims k

organization-view :
    (o : Option Items) (claims : Fields) (k : String)
    → MatchesView (o >>= first_owner) claims k (of_organization o claims)
unfolding of_organization
organization-view none claims k = tt
organization-view (some roles) claims k = by_owner (first_owner roles)
  where
    by_owner :
        (o : Option Fields)
        → MatchesView o claims k (elim o [
          | none ↦ rejected type_error
          | some user ↦ accepted (request_user (some user) claims)
        ])
    by_owner none = tt
    by_owner (some user) = request_user-view (some user) claims k

identified-view :
    (s : Services) (claims : Fields) (o : Option Value) (k : String)
    → MatchesView (user_of_client s o (lookup claims "sub")) claims k (identified s claims o)
unfolding identified user_of_client
identified-view s claims none k = of_user (s.find_user (lookup claims "sub"))
  where
    of_user : (u : Option Fields) → MatchesView u claims k (known_or u claims)
    of_user none = unfold known_or in tt
    of_user (some user) = unfold known_or in request_user-view (some user) claims k
identified-view s claims (some (str id)) k = by_kind (s.is_uuid id)
  where
    by_kind :
        (b : Bool)
        → MatchesView (if b then s.find_organization_owner id >>= first_owner else none) claims k (
            if b
            then of_organization (s.find_organization_owner id) claims
            else accepted (request_user none claims))
    by_kind true = organization-view (s.find_organization_owner id) claims k
    by_kind false = request_user-view none claims k
identified-view s claims (some null) k = request_user-view none claims k
identified-view s claims (some (boolean b)) k = request_user-view none claims k
identified-view s claims (some (number n)) k = request_user-view none claims k
identified-view s claims (some (list vs)) k = request_user-view none claims k
identified-view s claims (some (object fs)) k = request_user-view none claims k

-- Where a token is accepted, a guard reads the role of the holder from the mappings of the database's
-- user alone, whatever the token claims; every other member is the token's claim, and else that of the
-- database's user, whose mappings are not passed on.
pub validate-view :
    (s : Services) (claims r : Fields) (k : String)
    → validate s claims ≡ accepted r
    → lookup r k ≡ view (user_of s claims) claims k
unfolding validate user_of
validate-view s claims r k h = elim (Bool-cases (has_session s (lookup claims "sid"))) [
  | inl b ↦
      let all = identified-view s claims (lookup claims "client_id") k in
      let same : identified s claims (lookup claims "client_id") ≡ accepted r = rw (b) at h in
      rw (same) at all
  | inr b ↦ absurd (ground arith)
]
