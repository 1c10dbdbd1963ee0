-- ===== src/Ecosystem/Invitations.antt =====
-- apps/ecosystem/src/ecosystem.service.ts, `inviteMemberToEcosystem` and
-- `updateEcosystemInvitationStatus`.
use ngotag_platform.Ecosystem.{
  Status, Invitation, Membership, Tables, Answer, ◌>>=◌, ◌>>◌, guard, known, checked, User, Env,
  is_accepted, is_rejected, is_pending, is_member, is_id, is_org_of, create_invitation,
  find_invitation, with_status, set_status, create_org, accepted, pending, member, ecosystem_member,
  active, done, thrown, platform_config_not_found, organization_not_found, user_not_found,
  user_email_required, invitation_exists, lead_not_invited, invitation_conflict,
  invitation_not_found, already_accepted, role_not_found, org_id_missing, user_id_missing,
  email_failed,
}
use ngotag_platform.Common.{
  ℕ, Bool, true, not, ◌&&◌, Option, none, some, String, str_eq, ◌==◌, if◌then◌else◌,
}
use ngotag_platform.Common.Find.{find_first}

abbrev pub member_of : ℕ → ℕ → ℕ → Membership
member_of eco org user = record {
  org_id = org;
  ecosystem_id = eco;
  role = ecosystem_member;
  status = active;
  user_id = user;
}

unfoldable pub add_unless : Env → Membership → Option Membership → Tables → Tables × Answer Bool
add_unless e m none db = create_org e m db
add_unless e m (some old) db = (db, done true)

-- `getEcosystemOrg(result.ecosystemId, userId)`: the id of the user stands where that of an organisation is
-- asked for.
unfoldable pub add_member : Env → ℕ → ℕ → ℕ → Tables → Tables × Answer Bool
add_member e eco org user db =
    add_unless e (member_of eco org user) (find_first (is_org_of eco user) db.orgs) db

-- The checks of an accepted invitation.
unfoldable pub joinable : Env → Invitation → Answer (ℕ × ℕ)
joinable e i = do
  guard (e.role_found ecosystem_member) role_not_found
  org ← known i.invited_org org_id_missing
  user ← known i.user_id user_id_missing
  done (org, user)

unfoldable pub join_ecosystem : Env → Invitation → Option ℕ → Tables → Tables × Answer Bool
join_ecosystem e i none db = (db, done true)
join_ecosystem e i (some eco) db =
    checked (joinable e i) db (λ found. add_member e eco found.0 found.1 db)

-- After the update, whose result is the row with its new status.
unfoldable pub join : Env → Invitation → Tables → Tables × Answer Bool
join e i db = if is_accepted i.status then join_ecosystem e i i.ecosystem_id db else (db, done true)

abbrev present : Option String → Option String
present none = none
present (some s) = if str_eq s "" then none else some s

unfoldable pub identified : Env → ℕ → Answer (User × String)
identified e id = do
  u ← known (e.user id) user_not_found
  email ← known (present u.email) user_email_required
  done (u, email)

-- The checks of `updateEcosystemInvitationStatus`.
unfoldable pub updatable : Env → ℕ → ℕ → ℕ → Tables → Answer (String × Invitation)
updatable e req_user eco org db = do
  found ← identified e req_user
  i ← known (find_invitation found.1 eco org db) invitation_not_found
  guard (not (is_accepted i.status)) already_accepted
  done (found.1, i)

-- `updateEcosystemInvitationStatus`
unfoldable pub update_invitation_status : Env → Status → ℕ → ℕ → ℕ → Tables → Tables × Answer Bool
update_invitation_status e status req_user eco org db =
    checked (updatable e req_user eco org db) db
      (λ r. join e (with_status status r.1) (set_status status r.0 eco org db))

unfoldable pub invitation_to : User → String → ℕ → ℕ → Invitation
invitation_to u email eco org = record {
  email = email;
  status = pending;
  user_id = some u.id;
  invite_type = member;
  ecosystem_id = some eco;
  invited_org = some org;
}

abbrev pub always_true : Tables × Answer Bool → Tables × Answer Bool
always_true (db, done b) = (db, done true)
always_true (db, thrown e) = (db, thrown e)

unfoldable pub send_invitation :
    Env → ℕ → ℕ → ℕ → User → Option Tables → Tables → Tables × Answer Bool
send_invitation e org req_user eco u none db = (db, thrown invitation_conflict)
send_invitation e org req_user eco u (some db') db =
    if req_user == u.id
    then always_true (update_invitation_status e accepted req_user eco org db')
    else (db', known e.sent email_failed)

unfoldable pub is_reopened : ℕ → Invitation → Bool
is_reopened eco i = is_rejected i.status && is_id i.ecosystem_id eco

unfoldable pub is_repeated : ℕ → ℕ → Invitation → Bool
is_repeated eco org i =
    is_id i.ecosystem_id eco
    && is_id i.invited_org org
    && is_pending i.status
    && is_member i.invite_type

unfoldable pub is_of_lead : ℕ → Invitation → Bool
is_of_lead eco i = is_id i.ecosystem_id eco && is_accepted i.status && not (is_member i.invite_type)

-- What is done about the invitation that was found, where `create` is the rest.
unfoldable pub invite_again :
    String → ℕ → ℕ → Option Invitation → Tables → Tables × Answer Bool → Tables × Answer Bool
invite_again email eco org none db create = create
invite_again email eco org (some i) db create =
    if is_reopened eco i
    then (set_status pending email eco org db, done true)
    else if is_repeated eco org i
    then (db, thrown invitation_exists)
    else if is_of_lead eco i
    then (db, thrown lead_not_invited)
    else create

unfoldable pub invite_owner : Env → ℕ → ℕ → ℕ → User → String → Tables → Tables × Answer Bool
invite_owner e org req_user eco u email db =
    invite_again email eco org (find_invitation email eco org db) db (
      send_invitation e org req_user eco u (create_invitation (invitation_to u email eco org) db)
        db)

-- The owner of the organisation.
unfoldable pub invitable : Env → ℕ → Answer (User × String)
invitable e org = do
  guard e.platform_config platform_config_not_found
  owner ← known (e.owner_of org) organization_not_found
  identified e owner

-- `inviteMemberToEcosystem`
unfoldable pub invite_member : Env → ℕ → ℕ → ℕ → Tables → Tables × Answer Bool
invite_member e org req_user eco db =
    checked (invitable e org) db (λ found. invite_owner e org req_user eco found.0 found.1 db)
