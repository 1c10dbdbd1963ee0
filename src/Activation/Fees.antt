-- ===== src/Activation/Fees.antt =====
-- apps/marketplace/src/marketplace.service.ts: the set-up fees that activations record.
use ngotag_platform.Activation.{
  Row, SessionRow, Db, Outcome, find_row, find_session, Env, activate_row, is_linked_to, is_org,
  activate_found, valid_row, activate_subscription,
}
use ngotag_platform.Activation.Rows.{find_row-id}
use ngotag_platform.Common.{
  ℕ, ◌≡◌, refl, ap, ◌∙◌, Bool, true, false, not, Option, none, some, List, [], ◌∷◌, String, arith,
  Bool-cases, inl, inr, if◌then◌else◌, ltb,
}
use ngotag_platform.Activation.Due.{is_user, is_due_of, all_due, good, good-activate_row}

unfoldable pub fees_due : Db → Bool
fees_due d = all_due d.rows d.fees

guarded :
    (a b : Bool) (d : Db) (x y : Outcome) (q : Db × Outcome)
    → fees_due d ≡ true
    → (a ≡ true → b ≡ true → fees_due q.0 ≡ true)
    → fees_due (if not a then (d, x) else if not b then (d, y) else q).0 ≡ true
guarded true true d x y q h k = k refl refl
guarded true false d x y q h k = h
guarded false b d x y q h k = h

linked-IsUser : (o : Option String) (user : String) → is_linked_to o user ≡ true → is_user o ≡ true
unfolding is_linked_to
linked-IsUser none user h = absurd (ground arith)
linked-IsUser (some l) user h = ground arith

good-fees : (sub org : String) (d : Db) → good sub org d ≡ true → fees_due d ≡ true
unfolding good fees_due
good-fees sub org d h = ground arith

start-good :
    (d : Db) (id org : String) (r : Row) (user : String)
    → find_row d.rows id ≡ some r
    → is_linked_to r.local_user_id user ≡ true
    → is_org r.org_id org ≡ true
    → fees_due d ≡ true
    → good r.id org d ≡ true
unfolding good fees_due is_due_of
start-good d id org r user e a b h =
    let same = find_row-id d.rows id r e in
    let known : find_row d.rows r.id ≡ some r = ap (find_row d.rows) same ∙ e in
    let user_known = linked-IsUser r.local_user_id user a in
    let own : is_due_of (some r) org ≡ true = ground arith in
    let due : is_due_of (find_row d.rows r.id) org ≡ true = ap (λ o. is_due_of o org) known ∙ own in
    ground arith

found-due :
    (v : Env) (d : Db) (session org user id : String) (o : Option Row)
    → find_row d.rows id ≡ o
    → fees_due d ≡ true
    → fees_due (activate_found v d session org user o).0 ≡ true
unfolding activate_found
found-due v d session org user id none e h = h
found-due v d session org user id (some r) e h =
    guarded (is_linked_to r.local_user_id user) (is_org r.org_id org) d _ _ _ h (λ a b.
      good-fees r.id org (activate_row v d session org r).0
        (good-activate_row v d session org r (start-good d id org r user e a b h)))

row-due :
    (v : Env) (d : Db) (now : ℕ) (session org user : String) (s : Option SessionRow)
    → fees_due d ≡ true
    → fees_due (activate_found v d session org user (valid_row now d s)).0 ≡ true
unfolding valid_row activate_found
row-due v d now session org user none h = h
row-due v d now session org user (some s) h = elim (Bool-cases (ltb s.expires_at now)) [
  | inl e ↦ rw (e) h
  | inr e ↦
      rw (e) (
        found-due v d session org user s.subscription_id (find_row d.rows s.subscription_id) refl h)
]

pub record Attempt : Type 0 where
  pub env : Env
  pub now : ℕ
  pub session : String
  pub org : String
  pub user : String

-- Any activations, one after the other.
pub run : Db → List Attempt → Db
run d [] = d
run d (a ∷ more) = run (activate_subscription a.env d a.now a.session a.org a.user).0 more

-- However often subscriptions are activated, by whomever and with whatever calls that throw, each has
-- at most one set-up fee, which is charged to the organisation to which it is linked, and only after
-- a user was linked to it.
pub run-fees_due :
    (d : Db) (attempts : List Attempt) → fees_due d ≡ true → fees_due (run d attempts) ≡ true
unfolding run activate_subscription
run-fees_due d [] h = h
run-fees_due d (a ∷ more) h =
    run-fees_due (activate_subscription a.env d a.now a.session a.org a.user).0 more
      (row-due a.env d a.now a.session a.org a.user (find_session d.sessions a.session) h)
