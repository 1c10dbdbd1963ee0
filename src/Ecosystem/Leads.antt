-- ===== src/Ecosystem/Leads.antt =====
-- apps/ecosystem/src/ecosystem.service.ts: the calls for new ecosystems are changes of the abstract machine.
use ngotag_platform.Ecosystem.{
  Invitation, Tables, Answer, done, thrown, Env, ◌>>=◌, guard, known, create_invitation,
  keycloak_failed, user_id_missing, invitation_required, name_exists, user_not_found, invalid_query,
}
use ngotag_platform.Ecosystem.Creation.{
  is_free_accepted, is_accepted_by, found_ecosystem, founded, create_ecosystem, invite_user,
  created_or_conflict, invitation_of_admin, is_free_of, is_free_member,
}
use ngotag_platform.Ecosystem.Change.{
  is_well_kinded, with_ecosystem, founded_anew, Changes, start, next,
}
use ngotag_platform.Ecosystem.Members.{checked-keeps, create_invitation-Changes}
use ngotag_platform.Common.{
  ℕ, ◌≡◌, refl, true, not, Option, none, some, List, String, str_eq, arith, if◌then◌else◌, inl, inr,
  Bool-cases, Option-cases,
}
use ngotag_platform.Common.Find.{find_first}

of_admin-new : (e : Env) (email : String) → is_well_kinded (invitation_of_admin e email) ≡ true
unfolding is_well_kinded
of_admin-new e email = refl

created_or_conflict-Changes :
    (D : ℕ → List ℕ → Type 0) (e : Env) (created : Option Tables) (db : Tables)
    → ((db' : Tables) → created ≡ some db' → Changes D db db')
    → Changes D db (created_or_conflict e created db).0
unfolding created_or_conflict
created_or_conflict-Changes D e none db c = start
created_or_conflict-Changes D e (some db') db c = c db' refl

pub invite_user-Changes :
    (D : ℕ → List ℕ → Type 0) (e : Env) (email : String) (db : Tables)
    → Changes D db (invite_user e email db).0
unfolding invite_user
invite_user-Changes D e email db =
    let i = invitation_of_admin e email in
    let created =
      created_or_conflict-Changes D e (create_invitation i db) db
        (λ db' c. create_invitation-Changes D db i db db' (of_admin-new e email) start c) in
    elim (Bool-cases (str_eq email "")) [
      | inl t ↦ rw (t) start
      | inr n ↦
          rw (n)
            (elim (Bool-cases (is_free_member (find_first (is_free_of email) db.invitations))) [
              | inl t ↦ rw (t) start
              | inr m ↦ rw (m) created
            ])
    ]

bind-done :
    {A B : Type 0} (m : Answer A) (f : A → Answer B) (b : B)
    → (m >>= f) ≡ done b
    → (a : A) × (m ≡ done a) × (f a ≡ done b)
bind-done (done a) f b h = (a, refl, h)
bind-done (thrown e) f b h = absurd (ground arith)

found_ecosystem-done :
    (e : Env) (user org eco : ℕ) (email : String) (db db' : Tables)
    → found_ecosystem e user org eco email db ≡ done db'
    → (i : Invitation) × (find_first (is_free_accepted email) db.invitations ≡ some i)
      × (db' ≡ with_ecosystem user org eco email db)
unfolding found_ecosystem with_ecosystem
found_ecosystem-done e user org eco email db db' h =
    elim (Option-cases (find_first (is_free_accepted email) db.invitations)) [
      | inl n ↦ absurd (ground arith)
      | inr (i, f) ↦ (i, f, ground arith)
    ]

founded-done :
    (e : Env) (user_id : Option ℕ) (org eco : ℕ) (db db' : Tables)
    → founded e user_id org eco db ≡ done db'
    → (user : ℕ) × (email : String) × (found_ecosystem e user org eco email db ≡ done db')
unfolding founded
founded-done e user_id org eco db db' h =
    let (user, _, h1) = bind-done (known user_id user_id_missing) _ db' h in
    let (i, _, h2) =
      bind-done (known (find_first (is_accepted_by user) db.invitations) invitation_required) _ db'
        h1 in
    let (t, _, h3) = bind-done (guard (not e.name_taken) name_exists) _ db' h2 in
    let (u, _, h4) = bind-done (known (e.user user) user_not_found) _ db' h3 in
    let (email, _, h5) = bind-done (known u.email invalid_query) _ db' h4 in (user, email, h5)

pub create_ecosystem-Changes :
    (D : ℕ → List ℕ → Type 0) (e : Env) (user_id : Option ℕ) (org eco : ℕ) (db : Tables)
    → Changes D db (create_ecosystem e user_id org eco db).0
unfolding create_ecosystem
create_ecosystem-Changes D e user_id org eco db =
    checked-keeps (Changes D db) (founded e user_id org eco db) db
      (λ db'. (db', if e.keycloak_works then done true else thrown keycloak_failed)) start
      λ db' h.
        let (user, email, f) = founded-done e user_id org eco db db' h in
        let (i, free, same) = found_ecosystem-done e user org eco email db db' f in
        rw (same) (next start (founded_anew user org eco email i free))
