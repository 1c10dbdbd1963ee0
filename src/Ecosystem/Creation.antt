-- ===== src/Ecosystem/Creation.antt =====
-- apps/ecosystem/src/ecosystem.service.ts, `inviteUserToCreateEcosystem` and `createEcosystem`. The id of a
-- new ecosystem is an argument.
use ngotag_platform.Ecosystem.{
  accepted, ecosystem, ecosystem_lead, active, Invitation, Membership, Tables, email_missing,
  invitation_conflict, invitation_exists, invitation_required, name_exists, user_not_found,
  user_id_missing, role_not_found, membership_conflict, keycloak_failed, email_failed,
  invalid_query, Answer, done, thrown, ◌>>=◌, ◌>>◌, guard, known, checked, Env, is_accepted,
  is_member, is_id, is_org_of, same_key, create_invitation,
}
use ngotag_platform.Common.{
  ℕ, Bool, true, false, not, ◌&&◌, Option, none, some, ◌∷◌, String, str_eq, if◌then◌else◌,
}
use ngotag_platform.Common.Find.{any, find_first, update_first}

abbrev pub is_free : Invitation → Bool
is_free i = elim i.ecosystem_id [ none ↦ true | some eco ↦ false ]

abbrev pub invitation_of_admin : Env → String → Invitation
invitation_of_admin e email = record {
  email = email;
  status = accepted;
  user_id = e.user_by_email email;
  invite_type = ecosystem;
  ecosystem_id = none;
  invited_org = none;
}

-- `getPendingInvitationByEmail`
abbrev pub is_free_of : String → Invitation → Bool
is_free_of email i = str_eq i.email email && is_free i

abbrev pub is_free_member : Option Invitation → Bool
is_free_member none = false
is_free_member (some i) = is_member i.invite_type

unfoldable pub created_or_conflict : Env → Option Tables → Tables → Tables × Answer Bool
created_or_conflict e none db = (db, thrown invitation_conflict)
created_or_conflict e (some db') db = (db', do sent ← known e.sent email_failed; done true)

-- `inviteUserToCreateEcosystem`
unfoldable pub invite_user : Env → String → Tables → Tables × Answer Bool
invite_user e email db =
    if str_eq email ""
    then (db, thrown email_missing)
    else if is_free_member (find_first (is_free_of email) db.invitations)
    then (db, thrown invitation_exists)
    else created_or_conflict e (create_invitation (invitation_of_admin e email) db) db

-- `findAcceptedInvitationByUserId`
abbrev pub is_accepted_by : ℕ → Invitation → Bool
is_accepted_by user i = is_id i.user_id user && is_accepted i.status

-- `updateEcosystemInvitationDetails`
abbrev pub is_free_accepted : String → Invitation → Bool
is_free_accepted email i = str_eq i.email email && is_accepted i.status && is_free i

unfoldable pub bound_to : ℕ → ℕ → Invitation → Invitation
bound_to eco org i = record i { ecosystem_id = some eco; invited_org = some org }

abbrev pub lead_of : ℕ → ℕ → ℕ → Membership
lead_of eco org user = record {
  org_id = org;
  ecosystem_id = eco;
  role = ecosystem_lead;
  status = active;
  user_id = user;
}

-- The transaction: an error leaves the tables as they were.
unfoldable pub found_ecosystem : Env → ℕ → ℕ → ℕ → String → Tables → Answer Tables
found_ecosystem e user org eco email db = do
  guard (e.role_found ecosystem_lead) role_not_found
  guard (not (any (is_org_of eco org) db.orgs)) membership_conflict
  i ← known (find_first (is_free_accepted email) db.invitations) invitation_required
  guard (not (any (same_key (bound_to eco org i)) db.invitations)) invitation_conflict
  done (record {
    orgs = lead_of eco org user ∷ db.orgs;
    invitations = update_first (is_free_accepted email) (bound_to eco org) db.invitations;
  })

-- The checks and the transaction of `createEcosystem`; a user whose email is null makes the query for
-- the invitation throw.
unfoldable pub founded : Env → Option ℕ → ℕ → ℕ → Tables → Answer Tables
founded e user_id org eco db = do
  user ← known user_id user_id_missing
  i ← known (find_first (is_accepted_by user) db.invitations) invitation_required
  guard (not e.name_taken) name_exists
  u ← known (e.user user) user_not_found
  email ← known u.email invalid_query
  found_ecosystem e user org eco email db

-- `createEcosystem`
unfoldable pub create_ecosystem : Env → Option ℕ → ℕ → ℕ → Tables → Tables × Answer Bool
create_ecosystem e user_id org eco db =
    checked (founded e user_id org eco db) db
      (λ db'. (db', if e.keycloak_works then done true else thrown keycloak_failed))
