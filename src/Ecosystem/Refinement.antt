-- ===== src/Ecosystem/Refinement.antt =====
-- apps/ecosystem/src/ecosystem.service.ts: any calls keep to the abstract machine, and what follows.
use ngotag_platform.Ecosystem.{Tables}
use ngotag_platform.Ecosystem.Service.{
  Call, user_invited, ecosystem_created, member_invited, status_updated, orgs_deleted,
  org_status_updated, handle, handle_all,
}
use ngotag_platform.Ecosystem.Change.{IsSound, deleted, restated, Changes, start, next}
use ngotag_platform.Ecosystem.Sound.{Changes-IsSound}
use ngotag_platform.Ecosystem.Members.{invite_member-Changes, update_invitation_status-Changes}
use ngotag_platform.Ecosystem.Leads.{invite_user-Changes, create_ecosystem-Changes}
use ngotag_platform.Common.{ℕ, List, [], ◌∷◌}

-- The deletions among the calls are such as `D` says.
abbrev pub Deletes : (ℕ → List ℕ → Type 0) → List Call → Type 0
Deletes D [] = Unit
Deletes D (orgs_deleted eco orgs ∷ cs) = D eco orgs × Deletes D cs
Deletes D (c ∷ cs) = Deletes D cs

module _ (D : ℕ → List ℕ → Type 0) where
  Changes-trans : {a b c : Tables} → Changes D a b → Changes D b c → Changes D a c
  Changes-trans p start = p
  Changes-trans p (next q c) = next (Changes-trans p q) c

  handle-Changes :
      (c : Call) (cs : List Call) (db : Tables)
      → Deletes D (c ∷ cs)
      → IsSound db
      → Changes D db (handle c db) × Deletes D cs
  unfolding handle
  handle-Changes (user_invited e email) cs db d v = (invite_user-Changes D e email db, d)
  handle-Changes (ecosystem_created e user org eco) cs db d v =
      (create_ecosystem-Changes D e user org eco db, d)
  handle-Changes (member_invited e org req_user eco) cs db d v =
      (invite_member-Changes D e org req_user eco db v, d)
  handle-Changes (status_updated e s req_user eco org) cs db d v =
      (update_invitation_status-Changes D db e s req_user eco org db v start, d)
  handle-Changes (orgs_deleted eco orgs) cs db d v = (next start (deleted eco orgs d.0), d.1)
  handle-Changes (org_status_updated eco orgs s) cs db d v = (next start (restated eco orgs s), d)

  -- In whatever order the service is called, and whichever of its calls to other services fail, what it
  -- does to the tables is a sequence of changes of the abstract machine, with no deletion but those
  -- called for, and IsSound is kept: each membership rests on an accepted invitation of its
  -- organisation to its ecosystem, from the administrator for a lead and from the ecosystem for a
  -- member, every invitation that is not accepted invites a member, and every one that names no
  -- ecosystem is for a lead.
  pub handle_all-Changes :
      (cs : List Call) (db : Tables)
      → Deletes D cs
      → IsSound db
      → Changes D db (handle_all cs db) × IsSound (handle_all cs db)
  unfolding handle_all
  handle_all-Changes [] db d v = (start, v)
  handle_all-Changes (c ∷ cs) db d v =
      let (first, later) = handle-Changes c cs db d v in
      let (rest, end) = handle_all-Changes cs (handle c db) later (Changes-IsSound first v) in
      (Changes-trans first rest, end)
