-- ===== src/Ecosystem/Members.antt =====
-- apps/ecosystem/src/ecosystem.service.ts: the calls for members are changes of the abstract machine.
use ngotag_platform.Ecosystem.{
  Status, accepted, pending, Invitation, Membership, Tables, Answer, done, thrown, checked, Env,
  User, is_accepted, is_org_of, same_key, create_invitation, find_invitation, with_status,
  set_status, create_org,
}
use ngotag_platform.Ecosystem.Invitations.{
  member_of, add_unless, add_member, joinable, join_ecosystem, join, identified, updatable,
  update_invitation_status, invitation_to, always_true, send_invitation, is_reopened, is_repeated,
  is_of_lead, invite_again, invite_owner, invitable, invite_member,
}
use ngotag_platform.Ecosystem.Change.{
  is_backed, is_well_kinded, IsSound, invited, answered, joined, Changes, start, next,
}
use ngotag_platform.Ecosystem.Sound.{accepted-is_backed, Changes-IsSound}
use ngotag_platform.Common.{
  ℕ, ◌≡◌, refl, Bool, true, false, Option, none, some, List, ◌∷◌, String, ◌==◌, arith, inl, inr,
  Bool-cases,
}
use ngotag_platform.Common.Find.{any, find_first}

pub checked-keeps :
    {A : Type 0} (P : Tables → Type 0) (r : Answer A) (db : Tables) (k : A → Tables × Answer Bool)
    → P db
    → ((a : A) → r ≡ done a → P (k a).0)
    → P (checked r db k).0
checked-keeps P (done a) db k h f = f a refl
checked-keeps P (thrown e) db k h f = h

pub updatable-done :
    (e : Env) (req_user eco org : ℕ) (db : Tables) (r : String × Invitation)
    → updatable e req_user eco org db ≡ done r
    → (find_invitation r.0 eco org db ≡ some r.1) × (is_accepted r.1.status ≡ false)
unfolding updatable identified
updatable-done e req_user eco org db r h = ground arith

pub joinable-done :
    (e : Env) (i : Invitation) (r : ℕ × ℕ) → joinable e i ≡ done r → i.invited_org ≡ some r.0
unfolding joinable
joinable-done e i r h = ground arith

reopened-rejected :
    (eco : ℕ) (i : Invitation) → is_reopened eco i ≡ true → is_accepted i.status ≡ false
unfolding is_reopened
reopened-rejected eco i h = ground arith

invitation_to-new :
    (u : User) (email : String) (eco org : ℕ)
    → is_well_kinded (invitation_to u email eco org) ≡ true
unfolding is_well_kinded invitation_to
invitation_to-new u email eco org = refl

module _ (D : ℕ → List ℕ → Type 0) (from : Tables) where
  pub create_invitation-Changes :
      (i : Invitation) (db db' : Tables)
      → is_well_kinded i ≡ true
      → Changes D from db
      → create_invitation i db ≡ some db'
      → Changes D from db'
  unfolding create_invitation
  create_invitation-Changes i db db' w v e = elim (Bool-cases (any (same_key i) db.invitations)) [
    | inl taken ↦ absurd (ground arith)
    | inr new ↦
        let same : db' ≡ record db { invitations = i ∷ db.invitations } = ground arith in
        rw (same) (next v (invited i w))
  ]

  create_org-Changes :
      (e : Env) (m : Membership) (db : Tables)
      → is_backed db.invitations m ≡ true
      → Changes D from db
      → Changes D from (create_org e m db).0
  unfolding create_org
  create_org-Changes e m db b v =
      elim (Bool-cases (any (is_org_of m.ecosystem_id m.org_id) db.orgs)) [
        | inl t ↦ rw (t) v
        | inr n ↦ rw (n) (next v (joined m b))
      ]

  add_unless-Changes :
      (e : Env) (m : Membership) (old : Option Membership) (db : Tables)
      → is_backed db.invitations m ≡ true
      → Changes D from db
      → Changes D from (add_unless e m old db).0
  unfolding add_unless
  add_unless-Changes e m none db b v = create_org-Changes e m db b v
  add_unless-Changes e m (some old) db b v = v

  join_ecosystem-Changes :
      (e : Env) (i : Invitation) (eco : Option ℕ) (db : Tables)
      → ((to org user : ℕ)
          → eco ≡ some to
          → i.invited_org ≡ some org
          → is_backed db.invitations (member_of to org user) ≡ true)
      → Changes D from db
      → Changes D from (join_ecosystem e i eco db).0
  unfolding join_ecosystem add_member
  join_ecosystem-Changes e i none db b v = v
  join_ecosystem-Changes e i (some eco) db b v =
      checked-keeps (Changes D from) (joinable e i) db _ v λ r h.
        add_unless-Changes e (member_of eco r.0 r.1) (find_first (is_org_of eco r.1) db.orgs) db
          (b eco r.0 r.1 refl (joinable-done e i r h)) v

  join-Changes :
      (e : Env) (i : Invitation) (db : Tables)
      → (is_accepted i.status ≡ true
          → (to org user : ℕ) → i.ecosystem_id ≡ some to
          → i.invited_org ≡ some org
          → is_backed db.invitations (member_of to org user) ≡ true)
      → Changes D from db
      → Changes D from (join e i db).0
  unfolding join
  join-Changes e i db b v = elim (Bool-cases (is_accepted i.status)) [
    | inl a ↦ rw (a) (join_ecosystem-Changes e i i.ecosystem_id db (b a) v)
    | inr n ↦ rw (n) v
  ]

  pub update_invitation_status-Changes :
      (e : Env) (s : Status) (req_user eco org : ℕ) (db : Tables)
      → IsSound db
      → Changes D from db
      → Changes D from (update_invitation_status e s req_user eco org db).0
  unfolding update_invitation_status with_status
  update_invitation_status-Changes e s req_user eco org db v d =
      checked-keeps (Changes D from) (updatable e req_user eco org db) db _ d λ r h.
        let (f, a) = updatable-done e req_user eco org db r h in
        join-Changes e (with_status s r.1) (set_status s r.0 eco org db)
          (λ t eco' org' user g k.
            accepted-is_backed s r.0 eco org db r.1 eco' org' user v f a t g k)
          (next d (answered s r.0 eco org r.1 f a))

  always_true-keeps :
      (r : Tables × Answer Bool) → Changes D from r.0 → Changes D from (always_true r).0
  always_true-keeps (db, done b) v = v
  always_true-keeps (db, thrown e) v = v

  send_invitation-Changes :
      (e : Env) (org req_user eco : ℕ) (u : User) (created : Option Tables) (db : Tables)
      → ((db' : Tables) → created ≡ some db' → IsSound db' × Changes D from db')
      → Changes D from db
      → Changes D from (send_invitation e org req_user eco u created db).0
  unfolding send_invitation
  send_invitation-Changes e org req_user eco u none db c d = d
  send_invitation-Changes e org req_user eco u (some db') db c d =
      let (v', d') = c db' refl in
      elim (Bool-cases (req_user == u.id)) [
        | inl t ↦ rw (t) (
            always_true-keeps (update_invitation_status e accepted req_user eco org db')
              (update_invitation_status-Changes e accepted req_user eco org db' v' d'))
        | inr n ↦ rw (n) d'
      ]

  invite_again-Changes :
      (email : String) (eco org : ℕ) (found : Option Invitation) (db : Tables)
      (create : Tables × Answer Bool)
      → find_invitation email eco org db ≡ found
      → Changes D from db
      → Changes D from create.0
      → Changes D from (invite_again email eco org found db create).0
  unfolding invite_again
  invite_again-Changes email eco org none db create e v c = c
  invite_again-Changes email eco org (some i) db create e v c =
      elim (Bool-cases (is_reopened eco i)) [
        | inl t ↦ rw (t) (next v (answered pending email eco org i e (reopened-rejected eco i t)))
        | inr n ↦ rw (n) (elim (Bool-cases (is_repeated eco org i)) [
          | inl t ↦ rw (t) v
          | inr m ↦
              rw (m) (elim (Bool-cases (is_of_lead eco i)) [ inl t ↦ rw (t) v | inr l ↦ rw (l) c ])
        ])
      ]

pub invite_member-Changes :
    (D : ℕ → List ℕ → Type 0) (e : Env) (org req_user eco : ℕ) (db : Tables)
    → IsSound db
    → Changes D db (invite_member e org req_user eco db).0
unfolding invite_member invite_owner
invite_member-Changes D e org req_user eco db v =
    checked-keeps (Changes D db) (invitable e org) db
      (λ found. invite_owner e org req_user eco found.0 found.1 db) start
      λ r h.
        let i = invitation_to r.0 r.1 eco org in
        let new = λ (db' : Tables) (c : create_invitation i db ≡ some db').
          create_invitation-Changes D db i db db' (invitation_to-new r.0 r.1 eco org) start c in
        let create = send_invitation e org req_user eco r.0 (create_invitation i db) db in
        invite_again-Changes D db r.1 eco org (find_invitation r.1 eco org db) db create refl start
          (send_invitation-Changes D db e org req_user eco r.0 (create_invitation i db) db
            (λ db' c. (Changes-IsSound (new db' c) v, new db' c)) start)
