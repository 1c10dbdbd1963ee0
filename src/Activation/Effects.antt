-- ===== src/Activation/Effects.antt =====
-- apps/marketplace/src/marketplace.service.ts: what the writes of an activation leave behind.
use ngotag_platform.Activation.{
  SaasStatus, ActivationStatus, activated, failed, SessionStatus, activated_session, failed_session,
  Row, SessionRow, Db, find_row, find_session, update_sessions, has_fee, set_activation_status,
  set_subscription_status,
}
use ngotag_platform.Activation.Rows.{mapped, find_row-update}
use ngotag_platform.Common.{
  ◌≡◌, refl, ap, Bool, true, false, ◌&&◌, Option, none, some, List, [], ◌∷◌, String, str_eq, eq_iff,
  arith, Bool-cases, inl, inr, if◌then◌else◌, is_some,
}

abbrev same_activation : ActivationStatus → ActivationStatus → Bool
same_activation activated activated = true
same_activation failed failed = true
same_activation a b = false

abbrev same_session : SessionStatus → SessionStatus → Bool
same_session activated_session activated_session = true
same_session failed_session failed_session = true
same_session s t = false

pub row_is : ActivationStatus → Option Row → Bool
row_is a none = false
row_is a (some r) = same_activation r.activation a

pub session_is : SessionStatus → Option SessionRow → Bool
session_is st none = false
session_is st (some s) = same_session s.status st

-- The subscription and the session are activated, and the fee is recorded.
unfoldable pub is_completed : String → String → Db → Bool
is_completed sub session d =
    row_is activated (find_row d.rows sub)
    && session_is activated_session (find_session d.sessions session)
    && has_fee d.fees sub

-- The subscription and the session have failed.
unfoldable pub is_failed : String → String → Db → Bool
is_failed sub session d =
    row_is failed (find_row d.rows sub)
    && session_is failed_session (find_session d.sessions session)

row_is-mapped :
    (b : Bool) (g : Row → Row) (o : Option Row) (a : ActivationStatus)
    → ((r : Row) → same_activation (g r).activation a ≡ true)
    → is_some o ≡ true
    → b ≡ true
    → row_is a (if b then mapped g o else o) ≡ true
unfolding row_is
row_is-mapped true g none a h e t = absurd (ground arith)
row_is-mapped true g (some r) a h e t = h r
row_is-mapped false g o a h e t = absurd (ground arith)

row_is-kept :
    (b : Bool) (g : Row → Row) (o : Option Row) (a : ActivationStatus)
    → ((r : Row) → (g r).activation ≡ r.activation)
    → row_is a (if b then mapped g o else o) ≡ row_is a o
unfolding row_is
row_is-kept true g none a h = refl
row_is-kept true g (some r) a h = ap (λ x. same_activation x a) (h r)
row_is-kept false g o a h = refl

is_some-mapped :
    (b : Bool) (g : Row → Row) (o : Option Row) → is_some (if b then mapped g o else o) ≡ is_some o
is_some-mapped true g none = refl
is_some-mapped true g (some r) = refl
is_some-mapped false g o = refl

pub same_id : (s : String) → str_eq s s ≡ true
same_id s = (eq_iff s s).1 refl

pub row_is-set :
    (d : Db) (id : String) (a : ActivationStatus)
    → same_activation a a ≡ true
    → is_some (find_row d.rows id) ≡ true
    → row_is a (find_row (set_activation_status d id a).rows id) ≡ true
unfolding set_activation_status
row_is-set d id a h e =
    rw (find_row-update d.rows id (λ r. record r { activation = a }) id (λ r. refl)) (
      row_is-mapped (str_eq id id) (λ r. record r { activation = a }) (find_row d.rows id) a
        (λ r. h) e (same_id id))

pub is_some-set :
    (d : Db) (id j : String) (a : ActivationStatus)
    → is_some (find_row (set_activation_status d id a).rows j) ≡ is_some (find_row d.rows j)
unfolding set_activation_status
is_some-set d id j a =
    rw (find_row-update d.rows id (λ r. record r { activation = a }) j (λ r. refl))
      (is_some-mapped (str_eq id j) (λ r. record r { activation = a }) (find_row d.rows j))

pub row_is-status :
    (d : Db) (id j : String) (s : SaasStatus) (a : ActivationStatus)
    → row_is a (find_row (set_subscription_status d id s).rows j) ≡ row_is a (find_row d.rows j)
unfolding set_subscription_status
row_is-status d id j s a =
    rw (find_row-update d.rows id (λ r. record r { saas = s }) j (λ r. refl))
      (row_is-kept (str_eq id j) (λ r. record r { saas = s }) (find_row d.rows j) a (λ r. refl))

pub is_some-status :
    (d : Db) (id j : String) (s : SaasStatus)
    → is_some (find_row (set_subscription_status d id s).rows j) ≡ is_some (find_row d.rows j)
unfolding set_subscription_status
is_some-status d id j s =
    rw (find_row-update d.rows id (λ r. record r { saas = s }) j (λ r. refl))
      (is_some-mapped (str_eq id j) (λ r. record r { saas = s }) (find_row d.rows j))

pub session_is-update :
    (ss : List SessionRow) (id : String) (st : SessionStatus)
    → same_session st st ≡ true
    → is_some (find_session ss id) ≡ true
    → session_is st (find_session (update_sessions ss id st) id) ≡ true
unfolding find_session update_sessions session_is
session_is-update [] id st h e = absurd (ground arith)
session_is-update (s ∷ ss) id st h e = elim (Bool-cases (str_eq s.id id)) [
  | inl b ↦ rw (b, b) h
  | inr b ↦
      let later : is_some (find_session ss id) ≡ true = ground arith in
      rw (b, b) (session_is-update ss id st h later)
]
