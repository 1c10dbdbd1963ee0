-- ===== src/Ecosystem/Sound.antt =====
-- apps/ecosystem/src/ecosystem.service.ts: what each change of the tables preserves.
use ngotag_platform.Ecosystem.{
  Status, OrgStatus, Invitation, Membership, Tables, is_accepted, is_invitation_of, find_invitation,
  with_status, set_status, is_deleted_org, is_deleted_invitation, delete_orgs, update_org_status,
}
use ngotag_platform.Ecosystem.Invitations.{member_of}
use ngotag_platform.Ecosystem.Creation.{is_free_accepted, bound_to, lead_of}
use ngotag_platform.Ecosystem.Change.{
  fits, accepts, is_backed, is_well_kinded, IsSound, with_ecosystem, Change, invited, answered,
  joined, founded_anew, deleted, restated, Changes, start, next,
}
use ngotag_platform.Common.{ℕ, ◌≡◌, true, false, not, some, List, [], ◌∷◌, String, ==_iff, arith}
use ngotag_platform.Common.Find.{
  any, all, keep, find_first, any-update_first, all-update_first, find_first-holds, all-find_first,
  any-updated, any-keep, all-keep, all_mono,
}

cons-IsSound :
    (i : Invitation) (db : Tables)
    → is_well_kinded i ≡ true
    → IsSound db
    → IsSound (record db { invitations = i ∷ db.invitations })
unfolding all any is_backed
cons-IsSound i db w v = record {
  kinds = ground (arith, v.kinds);
  backed =
      all_mono (is_backed db.invitations) (is_backed (i ∷ db.invitations)) db.orgs
        (λ m h. ground arith) v.backed;
}

set_status-IsSound :
    (s : Status) (email : String) (eco org : ℕ) (db : Tables) (i : Invitation)
    → find_invitation email eco org db ≡ some i
    → is_accepted i.status ≡ false
    → IsSound db
    → IsSound (set_status s email eco org db)
unfolding find_invitation set_status with_status is_backed accepts is_well_kinded
set_status-IsSound s email eco org db i e a v =
    let found = is_invitation_of email eco org in
    let w = all-find_first is_well_kinded found i db.invitations v.kinds e in
    record {
      kinds =
          all-update_first is_well_kinded found (with_status s) i db.invitations e
            (ground (arith, w)) v.kinds;
      backed =
          all_mono (is_backed db.invitations)
            (is_backed (set_status s email eco org db).invitations) db.orgs
            (λ m h.
              any-update_first (accepts m) found (with_status s) i db.invitations e
                (λ q. ground arith) h)
            v.backed;
    }

with_ecosystem-IsSound :
    (user org eco : ℕ) (email : String) (db : Tables) (i : Invitation)
    → find_first (is_free_accepted email) db.invitations ≡ some i
    → IsSound db
    → IsSound (with_ecosystem user org eco email db)
unfolding with_ecosystem all is_backed accepts is_well_kinded bound_to fits
with_ecosystem-IsSound user org eco email db i e v =
    let free = is_free_accepted email in
    let taken = find_first-holds free i db.invitations e in
    let w = all-find_first is_well_kinded free i db.invitations v.kinds e in
    let lead =
      any-updated (accepts (lead_of eco org user)) free (bound_to eco org) i db.invitations e
        (ground (arith, taken, w)) in
    let others =
      all_mono (is_backed db.invitations)
        (is_backed (with_ecosystem user org eco email db).invitations) db.orgs
        (λ m h.
          any-update_first (accepts m) free (bound_to eco org) i db.invitations e
            (λ q. ground (arith, taken)) h)
        v.backed in
    record {
      kinds =
          all-update_first is_well_kinded free (bound_to eco org) i db.invitations e
            (ground (arith, taken, w)) v.kinds;
      backed = ground (arith, lead, others);
    }

-- What backs a membership that stays is not deleted.
kept_backing :
    (eco : ℕ) (orgs : List ℕ) (m : Membership) (i : Invitation)
    → not (is_deleted_org eco orgs m) ≡ true
    → accepts m i ≡ true
    → not (is_deleted_invitation eco orgs i) ≡ true
unfolding is_deleted_org is_deleted_invitation accepts fits
kept_backing eco orgs m i h a = ground arith

delete_orgs-IsSound :
    (eco : ℕ) (orgs : List ℕ) (db : Tables) → IsSound db → IsSound (delete_orgs eco orgs db)
unfolding delete_orgs is_backed
delete_orgs-IsSound eco orgs db v =
    let stays = λ (i : Invitation). not (is_deleted_invitation eco orgs i) in
    let remains = λ (m : Membership). not (is_deleted_org eco orgs m) in
    record {
      kinds = all-keep is_well_kinded is_well_kinded stays db.invitations (λ i p q. q) v.kinds;
      backed =
          all-keep (is_backed db.invitations) (is_backed (keep stays db.invitations)) remains
            db.orgs
            (λ m p q.
              any-keep (accepts m) stays db.invitations (λ i a. kept_backing eco orgs m i p a) q)
            v.backed;
    }

update_org_status-backed :
    (eco : ℕ) (orgs : List ℕ) (s : OrgStatus) (is : List Invitation) (ms : List Membership)
    → all (is_backed is) ms ≡ true
    → all (is_backed is) (update_org_status eco orgs s ms) ≡ true
unfolding all update_org_status is_backed accepts
update_org_status-backed eco orgs s is [] b = b
update_org_status-backed eco orgs s is (m ∷ ms) b =
    ground (arith, update_org_status-backed eco orgs s is ms)

-- The invitation that is accepted backs the membership.
pub accepted-is_backed :
    (s : Status) (email : String) (eco org : ℕ) (db : Tables) (i : Invitation) (eco' org' user : ℕ)
    → IsSound db
    → find_invitation email eco org db ≡ some i
    → is_accepted i.status ≡ false
    → is_accepted s ≡ true
    → i.ecosystem_id ≡ some eco'
    → i.invited_org ≡ some org'
    → is_backed (set_status s email eco org db).invitations (member_of eco' org' user) ≡ true
unfolding is_backed accepts set_status with_status find_invitation is_well_kinded fits
accepted-is_backed s email eco org db i eco' org' user v e a t f g =
    let found = is_invitation_of email eco org in
    let w = all-find_first is_well_kinded found i db.invitations v.kinds e in
    any-updated (accepts (member_of eco' org' user)) found (with_status s) i db.invitations e
      (ground (arith, w, ==_iff eco' eco', ==_iff org' org'))

Change-IsSound :
    {D : ℕ → List ℕ → Type 0} {db db' : Tables} → Change D db db' → IsSound db → IsSound db'
unfolding all
Change-IsSound {db = db} (invited i w) v = cons-IsSound i db w v
Change-IsSound {db = db} (answered s email eco org i f a) v =
    set_status-IsSound s email eco org db i f a v
Change-IsSound (joined m b) v = record { kinds = v.kinds; backed = ground (arith, v.backed) }
Change-IsSound {db = db} (founded_anew user org eco email i f) v =
    with_ecosystem-IsSound user org eco email db i f v
Change-IsSound {db = db} (deleted eco orgs d) v = delete_orgs-IsSound eco orgs db v
Change-IsSound {db = db} (restated eco orgs s) v = record {
  kinds = v.kinds;
  backed = update_org_status-backed eco orgs s db.invitations db.orgs v.backed;
}

pub Changes-IsSound :
    {D : ℕ → List ℕ → Type 0} {db db' : Tables} → Changes D db db' → IsSound db → IsSound db'
Changes-IsSound start v = v
Changes-IsSound (next cs c) v = Change-IsSound c (Changes-IsSound cs v)
