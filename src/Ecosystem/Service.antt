-- ===== src/Ecosystem/Service.antt =====
-- apps/ecosystem/src/ecosystem.service.ts: any calls of the service that change the tables, one after the
-- other, each with what the other services answer to it.
use ngotag_platform.Ecosystem.{Status, OrgStatus, Tables, Env, delete_orgs, update_org_status}
use ngotag_platform.Ecosystem.Invitations.{update_invitation_status, invite_member}
use ngotag_platform.Ecosystem.Creation.{invite_user, create_ecosystem}
use ngotag_platform.Common.{ℕ, Option, List, [], ◌∷◌, String}

pub data Call : Type 0 where
  user_invited : Env → String → Call
  ecosystem_created : Env → Option ℕ → ℕ → ℕ → Call
  member_invited : Env → ℕ → ℕ → ℕ → Call
  status_updated : Env → Status → ℕ → ℕ → ℕ → Call
  orgs_deleted : ℕ → List ℕ → Call
  org_status_updated : ℕ → List ℕ → OrgStatus → Call

unfoldable pub handle : Call → Tables → Tables
handle (user_invited e email) db = (invite_user e email db).0
handle (ecosystem_created e user org eco) db = (create_ecosystem e user org eco db).0
handle (member_invited e org req_user eco) db = (invite_member e org req_user eco db).0
handle (status_updated e s req_user eco org) db =
    (update_invitation_status e s req_user eco org db).0
handle (orgs_deleted eco orgs) db = delete_orgs eco orgs db
handle (org_status_updated eco orgs s) db = record db {
  orgs = update_org_status eco orgs s db.orgs;
}

unfoldable pub handle_all : List Call → Tables → Tables
handle_all [] db = db
handle_all (c ∷ cs) db = handle_all cs (handle c db)
