-- ===== src/Onboarding/TableRepository.antt =====
-- A database that meets the hypotheses of the onboarding: sessions that name a subscription, and the
-- subscriptions' rows. Its unique index admits one subscription per organisation.
use ngotag_platform.Onboarding.Repository.{
  Subscription, Session, with_user, with_org, changed, Repository as Store,
}
use ngotag_platform.Common.{
  ℕ, ◌≡◌, refl, sym, ap, ◌∙◌, Bool, true, false, Option, none, some, String, str_eq, eq_iff,
  Bool-cases, inl, inr, if◌then◌else◌,
}

abbrev pub Rows : Type 0
Rows = String → Subscription

-- The time at which each session expires, with its subscription, and the rows, each under its own id,
-- and the subscription that occupies an organisation.
pub record Tables : Type 0 where
  pub sessions : String → Option (ℕ × String)
  pub rows : Rows
  pub occupant : String → Option String
  pub own_id : (sub : String) → (rows sub).id ≡ sub

abbrev pub joined : Rows → String → Option (ℕ × String) → Option Session
joined rows id none = none
joined rows id (some (end, sub)) =
    some (record { id = id; expires_at = end; subscription = rows sub })

abbrev updated_row : Rows → String → (Subscription → Subscription) → Rows
updated_row rows sub f x = if str_eq x sub then f (rows x) else rows x

abbrev user_set : String → Subscription → Subscription
user_set user r = record r { local_user_id = some user }

abbrev org_set : String → Subscription → Subscription
org_set org r = record r { org_id = some org }

pub own_id_user :
    (rows : Rows) (sub user x : String)
    → (rows x).id ≡ x
    → (updated_row rows sub (user_set user) x).id ≡ x
own_id_user rows sub user x own = elim (Bool-cases (str_eq x sub)) [
  | inl e ↦ rw (e) own
  | inr e ↦ rw (e) own
]

pub own_id_org :
    (rows : Rows) (sub org x : String)
    → (rows x).id ≡ x
    → (updated_row rows sub (org_set org) x).id ≡ x
own_id_org rows sub org x own = elim (Bool-cases (str_eq x sub)) [
  | inl e ↦ rw (e) own
  | inr e ↦ rw (e) own
]

pub joined-user :
    (rows : Rows) (sub user id : String) (o : Option (ℕ × String))
    → ((x : String) → (rows x).id ≡ x)
    → joined (updated_row rows sub (user_set user)) id o
      ≡ changed sub (λ s. with_user s user) (joined rows id o)
joined-user rows sub user id none own = refl
joined-user rows sub user id (some (end, x)) own = elim (Bool-cases (str_eq x sub)) [
  | inl e ↦ rw (own x, e) refl
  | inr e ↦ rw (own x, e) refl
]

joined-org :
    (rows : Rows) (sub org id : String) (o : Option (ℕ × String))
    → ((x : String) → (rows x).id ≡ x)
    → joined (updated_row rows sub (org_set org)) id o
      ≡ changed sub (λ s. with_org s org) (joined rows id o)
joined-org rows sub org id none own = refl
joined-org rows sub org id (some (end, x)) own = elim (Bool-cases (str_eq x sub)) [
  | inl e ↦ rw (own x, e) refl
  | inr e ↦ rw (own x, e) refl
]

abbrev is_other : Option String → String → Bool
is_other none sub = false
is_other (some t) sub = if str_eq t sub then false else true

abbrev user_linked : Tables → String → String → Tables
user_linked t sub user = record {
  sessions = t.sessions;
  rows = updated_row t.rows sub (user_set user);
  occupant = t.occupant;
  own_id = λ x. own_id_user t.rows sub user x (t.own_id x);
}

abbrev pub org_linked_to : Tables → String → String → Tables
org_linked_to t sub org = record {
  sessions = t.sessions;
  rows = updated_row t.rows sub (org_set org);
  occupant = λ o. if str_eq o org then some sub else t.occupant o;
  own_id = λ x. own_id_org t.rows sub org x (t.own_id x);
}

abbrev link_unique : Tables → String → String → Option Tables
link_unique t sub org =
    if is_other (t.occupant org) sub then none else some (org_linked_to t sub org)

clash {ℓ} : {A : Type ℓ} (a : A) → none ≡ some a → ⊥
clash a h = cc

from {ℓ} : {A : Type ℓ} → A → Option A → A
from d none = d
from d (some a) = a

chosen : (b : Bool) (x e : Tables) → (if b then none else some x) ≡ some e → x ≡ e
unfolding from
chosen true x e h = absurd (clash e h)
chosen false x e h = ap (from x) h

row_of :
    (rows : Rows) (id : String) (o : Option (ℕ × String)) (a : Session)
    → ((x : String) → (rows x).id ≡ x)
    → joined rows id o ≡ some a
    → rows a.subscription.id ≡ a.subscription
unfolding from
row_of rows id none a own h = absurd (clash a h)
row_of rows id (some (end, x)) a own h =
    let found : Session = record { id = id; expires_at = end; subscription = rows x } in
    let e : found ≡ a = ap (from found) h in
    ap (λ s. rows s.subscription.id) (sym e) ∙ ap rows (own x) ∙ ap (λ s. s.subscription) e

pub get-link_unique :
    (t e : Tables) (sub org j : String)
    → link_unique t sub org ≡ some e
    → joined e.rows j (e.sessions j)
      ≡ changed sub (λ s. with_org s org) (joined t.rows j (t.sessions j))
get-link_unique t e sub org j h =
    ap (λ y. joined y.rows j (y.sessions j))
      (sym (chosen (is_other (t.occupant org) sub) (org_linked_to t sub org) e h))
    ∙ joined-org t.rows sub org j (t.sessions j) t.own_id

pub same_row :
    (t : Tables) (i j : String) (a b : Session)
    → joined t.rows i (t.sessions i) ≡ some a
    → joined t.rows j (t.sessions j) ≡ some b
    → str_eq b.subscription.id a.subscription.id ≡ true
    → b.subscription ≡ a.subscription
same_row t i j a b p q k =
    sym (row_of t.rows j (t.sessions j) b t.own_id q)
    ∙ ap t.rows ((eq_iff b.subscription.id a.subscription.id).0 k)
    ∙ row_of t.rows i (t.sessions i) a t.own_id p

abbrev pub table_repository : Store
table_repository = record {
  Db = Tables;
  get_onboarding_session = λ t id. joined t.rows id (t.sessions id);
  update_onboarding_session = λ t id status. t;
  link_user = user_linked;
  link_organization = link_unique;
  has_active_subscription = λ t org sub. is_other (t.occupant org) sub;
  get-update = λ t id status j. refl;
  get-link_user = λ t sub user j. joined-user t.rows sub user j (t.sessions j) t.own_id;
  get-link_organization = get-link_unique;
  one_row = same_row;
}
