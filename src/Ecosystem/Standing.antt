-- ===== src/Ecosystem/Standing.antt =====
-- apps/ecosystem/src/ecosystem.service.ts: an invitation that was accepted stays accepted.
use ngotag_platform.Ecosystem.{
  Invitation, Tables, is_accepted, is_invitation_of, find_invitation, with_status, set_status,
  is_among, is_deleted_invitation, delete_orgs,
}
use ngotag_platform.Ecosystem.Service.{Call, handle_all}
use ngotag_platform.Ecosystem.Change.{
  IsSound, with_ecosystem, Change, invited, answered, joined, founded_anew, deleted, restated,
  Changes, start, next,
}
use ngotag_platform.Common.{ℕ, ◌≡◌, Bool, true, false, not, ◌&&◌, List, String, ◌==◌, arith}
use ngotag_platform.Common.Find.{any, any-update_first, find_first-holds, any-keep}
use ngotag_platform.Ecosystem.Refinement.{Deletes, handle_all-Changes}
use ngotag_platform.Ecosystem.Creation.{is_free_accepted, bound_to}

-- An invitation of the email to the ecosystem for the organisation that was accepted.
unfoldable pub is_standing : String → ℕ → ℕ → Invitation → Bool
is_standing email eco org i = is_accepted i.status && is_invitation_of email eco org i

abbrev Spares : ℕ → ℕ → ℕ → List ℕ → Type 0
Spares eco org eco' orgs = (eco' == eco && is_among orgs org) ≡ false

module _ (email : String) (eco org : ℕ) where
  Change-standing :
      {db db' : Tables}
      → Change (Spares eco org) db db'
      → any (is_standing email eco org) db.invitations ≡ true
      → any (is_standing email eco org) db'.invitations ≡ true
  unfolding any is_standing set_status with_status find_invitation with_ecosystem bound_to
      delete_orgs is_deleted_invitation
  Change-standing (invited i w) h = ground arith
  Change-standing {db = db} (answered s email' eco' org' i f a) h =
      any-update_first (is_standing email eco org) (is_invitation_of email' eco' org')
        (with_status s) i db.invitations f (λ q. ground arith) h
  Change-standing (joined m b) h = h
  Change-standing {db = db} (founded_anew user org' eco' email' i f) h =
      let taken = find_first-holds (is_free_accepted email') i db.invitations f in
      any-update_first (is_standing email eco org) (is_free_accepted email') (bound_to eco' org') i
        db.invitations f (λ q. ground (arith, taken)) h
  Change-standing {db = db} (deleted eco' orgs d) h =
      any-keep (is_standing email eco org) (λ i. not (is_deleted_invitation eco' orgs i))
        db.invitations (λ i q. ground arith) h
  Change-standing (restated eco' orgs s) h = h

  Changes-standing :
      {db db' : Tables}
      → Changes (Spares eco org) db db'
      → any (is_standing email eco org) db.invitations ≡ true
      → any (is_standing email eco org) db'.invitations ≡ true
  Changes-standing start h = h
  Changes-standing (next cs c) h = Change-standing c (Changes-standing cs h)

  -- From sound tables on, an invitation that was accepted stays accepted through any calls that do not
  -- delete its organisation from its ecosystem.
  pub handle_all-standing :
      (cs : List Call) (db : Tables)
      → Deletes (Spares eco org) cs
      → IsSound db
      → any (is_standing email eco org) db.invitations ≡ true
      → any (is_standing email eco org) (handle_all cs db).invitations ≡ true
  handle_all-standing cs db d v h =
      Changes-standing (handle_all-Changes (Spares eco org) cs db d v).0 h
