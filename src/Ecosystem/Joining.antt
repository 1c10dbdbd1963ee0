-- ===== src/Ecosystem/Joining.antt =====
-- apps/ecosystem/src/ecosystem.service.ts, `updateEcosystemInvitationStatus`: what an acceptance does.
use ngotag_platform.Ecosystem.{
  accepted, Invitation, Membership, Tables, Answer, done, thrown, Error, membership_conflict, Env,
  User, is_invitation_of, is_org_of, find_invitation, with_status, set_status, create_org,
}
use ngotag_platform.Ecosystem.Invitations.{
  member_of, add_unless, add_member, joinable, join_ecosystem, join, identified, updatable,
  update_invitation_status,
}
use ngotag_platform.Ecosystem.Members.{updatable-done, joinable-done}
use ngotag_platform.Common.{
  ℕ, ◌≡◌, refl, ap, ◌∙◌, Bool, true, false, not, none, some, List, [], ◌∷◌, String, ==_iff, arith,
  inl, inr, ◌⊎◌,
}
use ngotag_platform.Common.Find.{
  any, all, find_first, find_first-holds, all-find_first, find_first-none,
}

Answer-cases :
    {A : Type 0} (r : Answer A) → ((a : A) × (r ≡ done a)) ⊎ ((x : Error) × (r ≡ thrown x))
Answer-cases (done a) = inl (a, refl)
Answer-cases (thrown x) = inr (x, refl)

module _ (is_user : ℕ → Bool) where
  unfoldable pub invites_user : Invitation → Bool
  invites_user i = elim i.user_id [ none ↦ true | some u ↦ is_user u ]

  unfoldable pub is_apart_org : Membership → Bool
  is_apart_org m = not (is_user m.org_id)

  -- No organisation has the id of a user.
  pub record IsApart (db : Tables) : Type 0 where
    pub users : all invites_user db.invitations ≡ true
    pub orgs : all is_apart_org db.orgs ≡ true

  no_org_of_user :
      (eco user : ℕ) (ms : List Membership)
      → is_user user ≡ true
      → all is_apart_org ms ≡ true
      → any (is_org_of eco user) ms ≡ false
  unfolding all any is_apart_org
  no_org_of_user eco user [] u a = refl
  no_org_of_user eco user (m ∷ ms) u a =
      ground (arith, ==_iff m.org_id user, no_org_of_user eco user ms u)

  joined_user :
      (e : Env) (i : Invitation) (r : ℕ × ℕ)
      → joinable e i ≡ done r
      → invites_user i ≡ true
      → is_user r.1 ≡ true
  unfolding joinable invites_user
  joined_user e i r h u = ground arith

  join_ecosystem-create :
      (e : Env) (i : Invitation) (eco : ℕ) (r : ℕ × ℕ) (db : Tables)
      → joinable e i ≡ done r
      → find_first (is_org_of eco r.1) db.orgs ≡ none
      → join_ecosystem e i (some eco) db ≡ create_org e (member_of eco r.0 r.1) db
  unfolding join_ecosystem add_member add_unless
  join_ecosystem-create e i eco r db j absent = rw (j, absent) refl

  found_key :
      (email : String) (eco org : ℕ) (db : Tables) (i : Invitation)
      → find_invitation email eco org db ≡ some i
      → (i.ecosystem_id ≡ some eco) × (i.invited_org ≡ some org)
  unfolding find_invitation
  found_key email eco org db i f =
      let k = find_first-holds (is_invitation_of email eco org) i db.invitations f in
      (ground (arith, k), ground (arith, k))

  identified-caller :
      (e : Env) (id : ℕ) (r : User × String)
      → identified e id ≡ done r
      → (e.user id ≡ some r.0) × (r.0.email ≡ some r.1)
  unfolding identified
  identified-caller e id r h = ground arith

  updatable-caller :
      (e : Env) (req_user eco org : ℕ) (db : Tables) (r : String × Invitation)
      → updatable e req_user eco org db ≡ done r
      → (caller : User) × (e.user req_user ≡ some caller) × (caller.email ≡ some r.0)
  unfolding updatable
  updatable-caller e req_user eco org db r h = elim (Answer-cases (identified e req_user)) [
    | inl ((u, email), k) ↦
        let (known_as, own) = identified-caller e req_user (u, email) k in
        (u, known_as, ground arith)
    | inr (x, k) ↦ absurd (ground arith)
  ]

  joinable-user :
      (e : Env) (i : Invitation) (r : ℕ × ℕ)
      → joinable e (with_status accepted i) ≡ done r
      → i.user_id ≡ some r.1
  unfolding joinable with_status
  joinable-user e i r h = ground arith

  module _ (e : Env) (req_user eco org : ℕ) (db : Tables) (a : IsApart db) where
    accept-join :
        (email : String) (i : Invitation)
        → updatable e req_user eco org db ≡ done (email, i)
        → update_invitation_status e accepted req_user eco org db
          ≡ join_ecosystem e
              (with_status accepted i)
              (some eco)
              (set_status accepted email eco org db)
    unfolding update_invitation_status join with_status
    accept-join email i h =
        let (f, _) = updatable-done e req_user eco org db (email, i) h in
        let (to, _) = found_key email eco org db i f in
        rw (h) (
          ap
            (λ o.
              join_ecosystem e (with_status accepted i) o (set_status accepted email eco org db))
            to)

    -- After the checks the call only tries to create the membership.
    accept-create :
        (email : String) (i : Invitation) (r : ℕ × ℕ)
        → updatable e req_user eco org db ≡ done (email, i)
        → joinable e (with_status accepted i) ≡ done r
        → update_invitation_status e accepted req_user eco org db
          ≡ create_org e (member_of eco org r.1) (set_status accepted email eco org db)
    unfolding update_invitation_status join with_status set_status find_invitation invites_user
    accept-create email i r h j =
        let i' = with_status accepted i in
        let db' = set_status accepted email eco org db in
        let (f, _) = updatable-done e req_user eco org db (email, i) h in
        let (_, by) = found_key email eco org db i f in
        let same : r.0 ≡ org = ground (arith, joinable-done e i' r j) in
        let user = joined_user e i' r j (
          all-find_first invites_user (is_invitation_of email eco org) i db.invitations a.users
            f) in
        let absent =
          find_first-none (is_org_of eco r.1) db.orgs
            (no_org_of_user eco r.1 db.orgs user a.orgs) in
        accept-join email i h
        ∙ join_ecosystem-create e i' eco r db' j absent
        ∙ ap (λ o. create_org e (member_of eco o r.1) db') same

    -- Where no organisation has the id of a user: if the organisation is a member of the ecosystem
    -- already, an acceptance that passes the checks throws, and yet the invitation stays accepted.
    pub accept-conflict :
        (email : String) (i : Invitation) (r : ℕ × ℕ)
        → updatable e req_user eco org db ≡ done (email, i)
        → joinable e (with_status accepted i) ≡ done r
        → any (is_org_of eco org) db.orgs ≡ true
        → update_invitation_status e accepted req_user eco org db
          ≡ (set_status accepted email eco org db, thrown membership_conflict)
    unfolding create_org set_status
    accept-conflict email i r h j m = accept-create email i r h j ∙ rw (m) refl

    updatable-thrown :
        (x : Error) (b : Bool)
        → updatable e req_user eco org db ≡ thrown x
        → ¬ ((update_invitation_status e accepted req_user eco org db).1 ≡ done b)
    unfolding update_invitation_status
    updatable-thrown x b u h = ground arith

    joinable-thrown :
        (email : String) (i : Invitation) (x : Error) (b : Bool)
        → updatable e req_user eco org db ≡ done (email, i)
        → joinable e (with_status accepted i) ≡ thrown x
        → ¬ ((update_invitation_status e accepted req_user eco org db).1 ≡ done b)
    unfolding join_ecosystem
    joinable-thrown email i x b u j h = ground (arith, accept-join email i u)

    create_org-done :
        (m : Membership) (db' : Tables) (b : Bool)
        → (create_org e m db').1 ≡ done b
        → ((create_org e m db').0 ≡ record db' { orgs = m ∷ db'.orgs })
          × (any (is_org_of m.ecosystem_id m.org_id) db'.orgs ≡ false)
    unfolding create_org
    create_org-done m db' b h = ground arith

    -- Where no organisation has the id of a user, an acceptance that returns accepts the invitation to the
    -- caller's own email address for that ecosystem and organisation, and adds the one membership of the
    -- organisation, which had none, for the user that the invitation is bound to.
    pub accept-member :
        (b : Bool)
        → (update_invitation_status e accepted req_user eco org db).1 ≡ done b
        → (caller : User) × (email : String) × (i : Invitation) × (user : ℕ) × (e.user req_user
            ≡ some caller)
          × (caller.email ≡ some email)
          × (find_invitation email eco org db ≡ some i)
          × (i.user_id ≡ some user)
          × (any (is_org_of eco org) db.orgs ≡ false)
          × ((update_invitation_status e accepted req_user eco org db).0 ≡ record {
            invitations = (set_status accepted email eco org db).invitations;
            orgs = member_of eco org user ∷ db.orgs;
          })
    unfolding set_status
    accept-member b h = elim (Answer-cases (updatable e req_user eco org db)) [
      | inr (x, u) ↦ absurd (updatable-thrown x b u h)
      | inl ((email, i), u) ↦ elim (Answer-cases (joinable e (with_status accepted i))) [
        | inr (x, j) ↦ absurd (joinable-thrown email i x b u j h)
        | inl (r, j) ↦
            let same = accept-create email i r u j in
            let (f, _) = updatable-done e req_user eco org db (email, i) u in
            let made : (create_org e (member_of eco org r.1)
                  (set_status accepted email eco org db)).1
                ≡ done b =
              rw (← same) h in
            let (new, fresh) =
              create_org-done (member_of eco org r.1) (set_status accepted email eco org db) b
                made in
            let (caller, known_as, own) = updatable-caller e req_user eco org db (email, i) u in
            let bound = joinable-user e i r j in
            (
              caller,
              email,
              i,
              r.1,
              known_as,
              own,
              f,
              bound,
              fresh,
              ap (λ (p : Tables × Answer Bool). p.0) same ∙ new,
            )
      ]
    ]
