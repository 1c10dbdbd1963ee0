-- ===== src/Ecosystem/Change.antt =====
-- apps/ecosystem/src/ecosystem.service.ts as an abstract machine: how the invitations and memberships may
-- change.
use ngotag_platform.Ecosystem.{
  Status, InviteType, ecosystem, member, Role, ecosystem_lead, ecosystem_member, OrgStatus,
  Invitation, Membership, Tables, is_accepted, is_member, is_id, find_invitation, set_status,
  delete_orgs, update_org_status,
}
use ngotag_platform.Ecosystem.Creation.{is_free, is_free_accepted, bound_to, lead_of}
use ngotag_platform.Common.{ℕ, ◌≡◌, Bool, true, false, not, ◌&&◌, ◌||◌, some, List, ◌∷◌, String}
use ngotag_platform.Common.Find.{any, all, find_first, update_first}

unfoldable pub fits : InviteType → Role → Bool
fits ecosystem ecosystem_lead = true
fits member ecosystem_member = true
fits t r = false

-- The invitation on which a membership rests.
unfoldable pub accepts : Membership → Invitation → Bool
accepts m i =
    is_accepted i.status
    && is_id i.ecosystem_id m.ecosystem_id
    && is_id i.invited_org m.org_id
    && fits i.invite_type m.role

unfoldable pub is_backed : List Invitation → Membership → Bool
is_backed is m = any (accepts m) is

-- What is not accepted invites a member, and what names no ecosystem yet comes from the administrator.
unfoldable pub is_well_kinded : Invitation → Bool
is_well_kinded i =
    (is_accepted i.status || is_member i.invite_type) && not (is_free i && is_member i.invite_type)

pub record IsSound (db : Tables) : Type 0 where
  pub kinds : all is_well_kinded db.invitations ≡ true
  pub backed : all (is_backed db.invitations) db.orgs ≡ true

-- The tables after a new ecosystem, from the free invitation that it takes.
unfoldable pub with_ecosystem : ℕ → ℕ → ℕ → String → Tables → Tables
with_ecosystem user org eco email db = record {
  orgs = lead_of eco org user ∷ db.orgs;
  invitations = update_first (is_free_accepted email) (bound_to eco org) db.invitations;
}

-- `D` says which deletions may happen.
pub data Change (D : ℕ → List ℕ → Type 0) (db : Tables) : Tables → Type 0 where
  invited :
      (i : Invitation)
      → is_well_kinded i ≡ true
      → Change D db (record db { invitations = i ∷ db.invitations })
  answered :
      (s : Status) (email : String) (eco org : ℕ) (i : Invitation)
      → find_invitation email eco org db ≡ some i
      → is_accepted i.status ≡ false
      → Change D db (set_status s email eco org db)
  joined :
      (m : Membership)
      → is_backed db.invitations m ≡ true
      → Change D db (record db { orgs = m ∷ db.orgs })
  founded_anew :
      (user org eco : ℕ) (email : String) (i : Invitation)
      → find_first (is_free_accepted email) db.invitations ≡ some i
      → Change D db (with_ecosystem user org eco email db)
  deleted : (eco : ℕ) (orgs : List ℕ) → D eco orgs → Change D db (delete_orgs eco orgs db)
  restated :
      (eco : ℕ) (orgs : List ℕ) (s : OrgStatus)
      → Change D db (record db { orgs = update_org_status eco orgs s db.orgs })

pub data Changes (D : ℕ → List ℕ → Type 0) (db : Tables) : Tables → Type 0 where
  start : Changes D db db
  next : {mid end : Tables} → Changes D db mid → Change D mid end → Changes D db end
