-- ===== src/Activation/Reconciliation.antt =====
-- apps/marketplace/src/services/reconciliation.service.ts: the hourly run over the subscriptions that the
-- marketplace lists. The id of a row stands for both its keys. A call that throws ends the run.
use ngotag_platform.Activation.{
  SaasStatus, ActivationStatus, not_started, in_progress, activated, Row, Db, find_row, update_rows,
  set_activation_status, set_subscription_status, is_subscribed,
}
use ngotag_platform.Activation.Rows.{mapped, find_row-update}
use ngotag_platform.Common.{
  ◌≡◌, refl, sym, ap, ◌∙◌, Bool, true, false, not, ◌&&◌, Option, none, some, List, [], ◌∷◌, ◌++◌,
  String, str_eq, eq_iff, arith, Bool-cases, inl, inr, if◌then◌else◌, is_some,
}

pub record Listed : Type 0 where
  pub id : String
  pub saas : SaasStatus

abbrev is_in_progress : ActivationStatus → Bool
is_in_progress in_progress = true
is_in_progress a = false

abbrev pub new_row : Listed → Row
new_row m = record {
  id = m.id;
  org_id = none;
  local_user_id = none;
  saas = m.saas;
  activation = not_started;
}

-- The update from the marketplace, and the promotion of an activation that was left in progress.
update_existing : Db → Listed → Option Row → Db
update_existing d m none = record d { rows = d.rows ++ (new_row m ∷ []) }
update_existing d m (some r) =
    if is_subscribed m.saas && is_in_progress r.activation
    then set_activation_status (set_subscription_status d m.id m.saas) m.id activated
    else set_subscription_status d m.id m.saas

reconcile_one : Db → Listed → Db
reconcile_one d m = update_existing d m (find_row d.rows m.id)

pub reconcile_subscriptions : Bool → Db → List Listed → Db
reconcile_subscriptions enabled d [] = d
reconcile_subscriptions enabled d (m ∷ ms) =
    let rest = reconcile_subscriptions enabled (reconcile_one d m) ms in if enabled then rest else d

-- The row is there, and is not subscribed with an activation still in progress.
is_settled : Option Row → Bool
is_settled none = false
is_settled (some r) = not (is_subscribed r.saas && is_in_progress r.activation)

pub all_settled : Db → List Listed → Bool
all_settled d [] = true
all_settled d (m ∷ ms) = is_settled (find_row d.rows m.id) && all_settled d ms

find_row-append :
    (rs : List Row) (r : Row) (j : String)
    → find_row (rs ++ (r ∷ [])) j
      ≡ (if is_some (find_row rs j) then find_row rs j else if str_eq r.id j then some r else none)
unfolding find_row
find_row-append [] r j = refl
find_row-append (s ∷ rs) r j = elim (Bool-cases (str_eq s.id j)) [
  | inl b ↦ rw (b) refl
  | inr b ↦ rw (b) (find_row-append rs r j)
]

with_saas : SaasStatus → Row → Row
with_saas s r = record r { saas = s }

with_both : SaasStatus → Row → Row
with_both s r = record r { saas = s; activation = activated }

mapped-twice :
    (b : Bool) (f g : Row → Row) (o : Option Row)
    → (if b then mapped f (if b then mapped g o else o) else (if b then mapped g o else o))
      ≡ (if b then mapped (λ r. f (g r)) o else o)
mapped-twice true f g none = refl
mapped-twice true f g (some r) = refl
mapped-twice false f g o = refl

-- The row of a subscription after the update: another one keeps its row.
existing_row :
    (d : Db) (m : Listed) (r : Row) (j : String)
    → find_row (update_existing d m (some r)).rows j ≡ (
        if str_eq m.id j
        then mapped
            (if is_subscribed m.saas && is_in_progress r.activation
              then with_both m.saas
              else with_saas m.saas)
            (find_row d.rows j)
        else find_row d.rows j)
unfolding update_existing set_activation_status set_subscription_status with_saas with_both
existing_row d m r j = elim (Bool-cases (is_subscribed m.saas && is_in_progress r.activation)) [
  | inl b ↦ rw (b) (
      find_row-update (update_rows d.rows m.id (λ x. record x { saas = m.saas })) m.id
        (λ x. record x { activation = activated }) j (λ x. refl)
      ∙ ap (λ o. if str_eq m.id j then mapped (λ x. record x { activation = activated }) o else o)
          (find_row-update d.rows m.id (λ x. record x { saas = m.saas }) j (λ x. refl))
      ∙ mapped-twice (str_eq m.id j) (λ x. record x { activation = activated })
          (λ x. record x { saas = m.saas }) (find_row d.rows j))
  | inr b ↦ rw (b) (find_row-update d.rows m.id (λ x. record x { saas = m.saas }) j (λ x. refl))
]

settled_self :
    (s : SaasStatus) (r : Row)
    → is_settled (
        some
          ((if is_subscribed s && is_in_progress r.activation then with_both s else with_saas s) r))
      ≡ true
unfolding is_settled with_both with_saas
settled_self s r = elim (Bool-cases (is_subscribed s && is_in_progress r.activation)) [
  | inl b ↦ rw (b) (ground arith)
  | inr b ↦ rw (b) (ground arith)
]

-- The row that an update leaves, by whether it is its own.
settled-existing :
    (d : Db) (m : Listed) (o : Option Row)
    → find_row d.rows m.id ≡ o
    → is_settled (find_row (update_existing d m o).rows m.id) ≡ true
settled-existing d m none e =
    unfold update_existing is_settled in
    rw (find_row-append d.rows (new_row m) m.id, e, (eq_iff m.id m.id).1 refl) (new_settled m.saas)
  where
    new_settled : (s : SaasStatus) → not (is_subscribed s && false) ≡ true
    new_settled s = ground arith
settled-existing d m (some r) e =
    rw (existing_row d m r m.id, (eq_iff m.id m.id).1 refl, e) (settled_self m.saas r)

other_row :
    (d : Db) (m : Listed) (o : Option Row) (j : String)
    → str_eq m.id j ≡ false
    → find_row (update_existing d m o).rows j ≡ find_row d.rows j
other_row d m none j b =
    unfold update_existing in
    rw (find_row-append d.rows (new_row m) j, b) (same (find_row d.rows j))
  where
    same : (o : Option Row) → (if is_some o then o else none) ≡ o
    same none = refl
    same (some r) = refl
other_row d m (some r) j b = rw (existing_row d m r j, b) refl

one-settles : (d : Db) (m : Listed) → is_settled (find_row (reconcile_one d m).rows m.id) ≡ true
unfolding reconcile_one
one-settles d m = settled-existing d m (find_row d.rows m.id) refl

one-keeps :
    (d : Db) (m : Listed) (j : String)
    → is_settled (find_row d.rows j) ≡ true
    → is_settled (find_row (reconcile_one d m).rows j) ≡ true
one-keeps d m j h = elim (Bool-cases (str_eq m.id j)) [
  | inl b ↦
      ap (λ k. is_settled (find_row (reconcile_one d m).rows k)) (sym ((eq_iff m.id j).0 b))
      ∙ one-settles d m
  | inr b ↦ unfold reconcile_one in (ap is_settled (other_row d m (find_row d.rows m.id) j b) ∙ h)
]

all-keep :
    (d : Db) (ms : List Listed) (j : String)
    → is_settled (find_row d.rows j) ≡ true
    → is_settled (find_row (reconcile_subscriptions true d ms).rows j) ≡ true
unfolding reconcile_subscriptions
all-keep d [] j h = h
all-keep d (m ∷ ms) j h = all-keep (reconcile_one d m) ms j (one-keeps d m j h)

-- After a run every listed subscription has a row, and none of them is subscribed and still has its
-- activation in progress.
pub reconcile_subscriptions-settled :
    (d : Db) (ms : List Listed) → all_settled (reconcile_subscriptions true d ms) ms ≡ true
unfolding all_settled reconcile_subscriptions
reconcile_subscriptions-settled d [] = refl
reconcile_subscriptions-settled d (m ∷ ms) =
    rw (all-keep (reconcile_one d m) ms m.id (one-settles d m))
      (reconcile_subscriptions-settled (reconcile_one d m) ms)
