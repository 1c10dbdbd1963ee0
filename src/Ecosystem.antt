-- ===== src/Ecosystem.antt =====
-- apps/ecosystem/src/ecosystem.service.ts with apps/ecosystem/repositories/ecosystem.repository.ts: the
-- invitations to ecosystems and the memberships that they lead to. A UUID is a number. The tables hold
-- the newest row first; an update by the id of a row that was just found changes that row. No call sets
-- `deletedAt`, which is left out. `Env` is what the other services answer during one call.
pub mod Invitations
pub mod Creation
pub mod Service
pub mod Change
mod Sound
mod Members
mod Leads
mod Refinement
mod Standing
mod Joining
mod Tests
use ngotag_platform.Common.{
  ℕ, Bool, true, false, not, ◌&&◌, Option, none, some, List, [], ◌∷◌, String, str_eq, ◌==◌,
  if◌then◌else◌,
}
use ngotag_platform.Common.Find.{any, keep, find_first, update_first}

-- `Invitation`, `InviteType`, `EcosystemRoles` and `EcosystemOrgStatus`
pub data Status : Type 0 where
  accepted rejected pending : Status

pub data InviteType : Type 0 where
  ecosystem member : InviteType

pub data Role : Type 0 where
  ecosystem_lead ecosystem_member : Role

pub data OrgStatus : Type 0 where
  active inactive : OrgStatus

-- A row of `ecosystem_invitations` and one of `ecosystem_orgs`.
pub record Invitation : Type 0 where
  pub email : String
  pub status : Status
  pub user_id : Option ℕ
  pub invite_type : InviteType
  pub ecosystem_id : Option ℕ
  pub invited_org : Option ℕ

pub record Membership : Type 0 where
  pub org_id : ℕ
  pub ecosystem_id : ℕ
  pub role : Role
  pub status : OrgStatus
  pub user_id : ℕ

pub record Tables : Type 0 where
  pub invitations : List Invitation
  pub orgs : List Membership

pub data Error : Type 0 where
  platform_config_not_found organization_not_found user_not_found user_email_required : Error
  invitation_exists lead_not_invited invitation_conflict invitation_not_found already_accepted :
      Error
  role_not_found org_id_missing user_id_missing membership_conflict keycloak_failed : Error
  email_missing email_failed invitation_required name_exists invalid_query : Error

pub data Answer (A : Type 0) : Type 0 where
  done : A → Answer A
  thrown : Error → Answer A

infixl 5 ◌>>=◌ ◌>>◌
abbrev pub ◌>>=◌ : {A B : Type 0} → Answer A → (A → Answer B) → Answer B
done a >>= f = f a
thrown e >>= f = thrown e

abbrev pub ◌>>◌ : {B : Type 0} → Answer (Unit {0}) → Answer B → Answer B
m >> k = m >>= λ _. k

abbrev pub guard : Bool → Error → Answer (Unit {0})
guard true e = done tt
guard false e = thrown e

abbrev pub known : {A : Type 0} → Option A → Error → Answer A
known none e = thrown e
known (some a) e = done a

-- What a call does with the tables after checks that only read them.
abbrev pub checked :
    {A : Type 0} → Answer A → Tables → (A → Tables × Answer Bool) → Tables × Answer Bool
checked (done a) db k = k a
checked (thrown e) db k = (db, thrown e)

pub record User : Type 0 where
  pub id : ℕ
  pub email : Option String

-- `user_by_email` is `getUserDetails`; `sent` is none where the sending of the mail throws.
pub record Env : Type 0 where
  pub platform_config : Bool
  pub owner_of : ℕ → Option ℕ
  pub user : ℕ → Option User
  pub user_by_email : String → Option ℕ
  pub role_found : Role → Bool
  pub name_taken : Bool
  pub keycloak_works : Bool
  pub sent : Option Bool

abbrev pub is_accepted : Status → Bool
is_accepted accepted = true
is_accepted s = false

abbrev pub is_rejected : Status → Bool
is_rejected rejected = true
is_rejected s = false

abbrev pub is_pending : Status → Bool
is_pending pending = true
is_pending s = false

abbrev pub is_member : InviteType → Bool
is_member member = true
is_member ecosystem = false

abbrev is_member_role : Role → Bool
is_member_role ecosystem_member = true
is_member_role ecosystem_lead = false

abbrev pub is_id : Option ℕ → ℕ → Bool
is_id none n = false
is_id (some m) n = m == n

-- The key of `getEcosystemInvitationsByEmail` and `updateEcosystemInvitationStatusByEmail`.
abbrev pub is_invitation_of : String → ℕ → ℕ → Invitation → Bool
is_invitation_of email eco org i =
    str_eq i.email email && is_id i.ecosystem_id eco && is_id i.invited_org org

abbrev pub is_org_of : ℕ → ℕ → Membership → Bool
is_org_of eco org m = m.ecosystem_id == eco && m.org_id == org

-- `@@unique([email, ecosystemId, invitedOrg])`, where no null equals another
abbrev pub same_id : Option ℕ → Option ℕ → Bool
same_id none o = false
same_id (some m) o = is_id o m

abbrev pub same_key : Invitation → Invitation → Bool
same_key i j =
    str_eq j.email i.email
    && same_id i.ecosystem_id j.ecosystem_id
    && same_id i.invited_org j.invited_org

-- `createEcosystemInvitation`, none where the key is taken
pub create_invitation : Invitation → Tables → Option Tables
create_invitation i db =
    if any (same_key i) db.invitations
    then none
    else some (record db { invitations = i ∷ db.invitations })

pub find_invitation : String → ℕ → ℕ → Tables → Option Invitation
find_invitation email eco org db = find_first (is_invitation_of email eco org) db.invitations

pub with_status : Status → Invitation → Invitation
with_status s i = record i { status = s }

pub set_status : Status → String → ℕ → ℕ → Tables → Tables
set_status s email eco org db = record db {
  invitations = update_first (is_invitation_of email eco org) (with_status s) db.invitations;
}

-- `createEcosystemOrg` with `@@unique([orgId, ecosystemId])`, and the call of Keycloak after it
pub create_org : Env → Membership → Tables → Tables × Answer Bool
create_org e m db =
    if any (is_org_of m.ecosystem_id m.org_id) db.orgs then (db, thrown membership_conflict) else (
      record db { orgs = m ∷ db.orgs },
      if e.keycloak_works then done true else thrown keycloak_failed,
    )

pub is_among : List ℕ → ℕ → Bool
is_among orgs org = any (λ o. o == org) orgs

pub is_deleted_org : ℕ → List ℕ → Membership → Bool
is_deleted_org eco orgs m = m.ecosystem_id == eco && is_member_role m.role && is_among orgs m.org_id

abbrev is_invited_among : List ℕ → Option ℕ → Bool
is_invited_among orgs none = false
is_invited_among orgs (some org) = is_among orgs org

pub is_deleted_invitation : ℕ → List ℕ → Invitation → Bool
is_deleted_invitation eco orgs i =
    is_id i.ecosystem_id eco && is_member i.invite_type && is_invited_among orgs i.invited_org

-- `deleteOrgsFromEcosystem`, one transaction
pub delete_orgs : ℕ → List ℕ → Tables → Tables
delete_orgs eco orgs db = record db {
  orgs = keep (λ m. not (is_deleted_org eco orgs m)) db.orgs;
  invitations = keep (λ i. not (is_deleted_invitation eco orgs i)) db.invitations;
}

-- `updateEcosystemOrgStatus`
pub update_org_status : ℕ → List ℕ → OrgStatus → List Membership → List Membership
update_org_status eco orgs s [] = []
update_org_status eco orgs s (m ∷ ms) =
    let rest = update_org_status eco orgs s ms in
    (if m.ecosystem_id == eco && is_among orgs m.org_id then record m { status = s } else m) ∷ rest
