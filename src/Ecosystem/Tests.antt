-- ===== src/Ecosystem/Tests.antt =====
-- Runs of apps/ecosystem/src/ecosystem.service.ts, and the hypotheses of its claims at concrete inputs.
use ngotag_platform.Ecosystem.{
  User, accepted, pending, member, Invitation, Tables, done, thrown, membership_conflict, Env,
  is_org_of, find_invitation, create_invitation, create_org, is_among, is_deleted_invitation,
  is_deleted_org, set_status, with_status, delete_orgs,
}
use ngotag_platform.Ecosystem.Invitations.{
  member_of, identified, invitable, invite_owner, invite_again, invitation_to, is_of_lead,
  is_reopened, is_repeated, add_member, add_unless, join, join_ecosystem, joinable, send_invitation,
  updatable, update_invitation_status, invite_member,
}
use ngotag_platform.Ecosystem.Creation.{
  lead_of, created_or_conflict, invite_user, bound_to, found_ecosystem, founded, create_ecosystem,
}
use ngotag_platform.Ecosystem.Service.{
  Call, user_invited, ecosystem_created, member_invited, status_updated, orgs_deleted, handle,
  handle_all,
}
use ngotag_platform.Ecosystem.Change.{IsSound, Changes, is_well_kinded, is_backed, accepts, fits}
use ngotag_platform.Ecosystem.Refinement.{handle_all-Changes}
use ngotag_platform.Ecosystem.Standing.{is_standing, handle_all-standing}
use ngotag_platform.Ecosystem.Joining.{
  IsApart, invites_user, is_apart_org, accept-member, accept-conflict,
}
use ngotag_platform.Common.{
  ℕ, ◌≡◌, refl, Bool, true, false, some, List, [], ◌∷◌, String, ◌==◌, ltb, if◌then◌else◌,
}
use ngotag_platform.Common.Find.{any, all, keep, find_first, update_first}

-- Users are numbered from 1 and organisations from 11; user 1 owns organisation 11 and user 2 owns 12.
abbrev is_user : ℕ → Bool
is_user n = ltb n 10

abbrev email_of : ℕ → String
email_of n = if n == 1 then "lead@x.org" else "member@x.org"

abbrev env : Env
env = record {
  platform_config = true;
  owner_of = λ org. some (if org == 11 then 1 else 2);
  user = λ id. some (record { id = id; email = some (email_of id) });
  user_by_email = λ email. some 1;
  role_found = λ r. true;
  name_taken = false;
  keycloak_works = true;
  sent = some true;
}

abbrev empty : Tables
empty = record { invitations = []; orgs = [] }

abbrev calls : List Call
calls =
    user_invited env "lead@x.org"
    ∷ ecosystem_created env (some 1) 11 100
    ∷ member_invited env 12 1 100
    ∷ status_updated env accepted 2 100 12
    ∷ orgs_deleted 100 (13 ∷ [])
    ∷ []

two_members : (handle_all calls empty).orgs ≡ member_of 100 12 2 ∷ lead_of 100 11 1 ∷ []
unfolding handle_all handle identified find_invitation invitable invite_owner invite_again
    create_invitation create_org invitation_to is_among is_deleted_invitation is_deleted_org
    is_of_lead is_reopened is_repeated add_member add_unless join join_ecosystem joinable
    send_invitation set_status with_status updatable update_invitation_status invite_member
    delete_orgs created_or_conflict invite_user bound_to found_ecosystem founded create_ecosystem
    any keep find_first update_first
two_members = refl

empty-IsSound : IsSound empty
unfolding all
empty-IsSound = record { kinds = refl; backed = refl }

abbrev Any : ℕ → List ℕ → Type 0
Any eco orgs = Unit

handle_all-Changes_example :
    Changes Any empty (handle_all calls empty) × IsSound (handle_all calls empty)
handle_all-Changes_example = handle_all-Changes Any calls empty (tt, tt) empty-IsSound

-- The invitation of organisation 12, open and accepted.
abbrev to_member : Invitation
to_member = record {
  email = "member@x.org";
  status = pending;
  user_id = some 2;
  invite_type = member;
  ecosystem_id = some 100;
  invited_org = some 12;
}

abbrev invited_only : Tables
invited_only = record { invitations = to_member ∷ []; orgs = [] }

abbrev accepted_once : Tables
accepted_once = record {
  invitations = with_status accepted to_member ∷ [];
  orgs = member_of 100 12 2 ∷ [];
}

accepted_once-IsSound : IsSound accepted_once
unfolding all is_well_kinded is_backed any with_status accepts fits
accepted_once-IsSound = record { kinds = refl; backed = refl }

handle_all-standing_example :
    any (is_standing "member@x.org" 100 12) (handle_all calls accepted_once).invitations ≡ true
unfolding any is_standing with_status is_among
handle_all-standing_example =
    handle_all-standing "member@x.org" 100 12 calls accepted_once (refl, tt) accepted_once-IsSound
      refl

invited_only-IsApart : IsApart is_user invited_only
unfolding all invites_user is_apart_org
invited_only-IsApart = record { users = refl; orgs = refl }

accept_returns : (update_invitation_status env accepted 2 100 12 invited_only).1 ≡ done true
unfolding update_invitation_status updatable identified find_invitation find_first join
    join_ecosystem joinable add_member add_unless create_org set_status update_first with_status any
accept_returns = refl

accept-member_example :
    (caller : User) × (email : String) × (i : Invitation) × (user : ℕ) × (env.user 2 ≡ some caller)
    × (caller.email ≡ some email)
    × (find_invitation email 100 12 invited_only ≡ some i)
    × (i.user_id ≡ some user)
    × (any (is_org_of 100 12) invited_only.orgs ≡ false)
    × ((update_invitation_status env accepted 2 100 12 invited_only).0 ≡ record {
      invitations = (set_status accepted email 100 12 invited_only).invitations;
      orgs = member_of 100 12 user ∷ invited_only.orgs;
    })
accept-member_example =
    accept-member is_user env 2 100 12 invited_only invited_only-IsApart true accept_returns

-- Organisation 12 is a member already, and the invitation of its present owner is open.
abbrev invited_again : Tables
invited_again = record { invitations = to_member ∷ []; orgs = member_of 100 12 3 ∷ [] }

invited_again-IsApart : IsApart is_user invited_again
unfolding all invites_user is_apart_org
invited_again-IsApart = record { users = refl; orgs = refl }

is_updatable : updatable env 2 100 12 invited_again ≡ done ("member@x.org", to_member)
unfolding updatable identified find_invitation find_first
is_updatable = refl

is_joinable : joinable env (with_status accepted to_member) ≡ done (12, 2)
unfolding joinable with_status
is_joinable = refl

is_org_already : any (is_org_of 100 12) invited_again.orgs ≡ true
unfolding any
is_org_already = refl

accept-conflict_example :
    update_invitation_status env accepted 2 100 12 invited_again
    ≡ (set_status accepted "member@x.org" 100 12 invited_again, thrown membership_conflict)
accept-conflict_example =
    accept-conflict is_user env 2 100 12 invited_again invited_again-IsApart "member@x.org"
      to_member (12, 2) is_updatable is_joinable is_org_already
