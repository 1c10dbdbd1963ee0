-- ===== src/StatusService/ListTable.antt =====
-- A table as a list of rows, which meets what the service relies on.
use mathlib.Core.Option
use ngotag_platform.Common.{
  ◌≡◌, ◌≢◌, refl, arith, Bool, true, false, ◌||◌, ◌&&◌, List, [], ◌∷◌, Option, none, some, String,
  str_eq, eq_iff, if◌then◌else◌, map, Bool-cases, inl, inr,
}
use ngotag_platform.StatusService.Table.{Row, Change, deactivate, store, change_if, Prisma}

unfoldable pub find_list : List Row → String → Option Row
find_list [] l = none
find_list (r ∷ rs) l = if str_eq r.list_id l then some r else find_list rs l

pub matches : String → String → Row → Bool
matches o s r = str_eq r.org_id o && (str_eq r.issuer_did s && r.is_active)

unfoldable pub first : List Row → String → String → Option Row
first [] o s = none
first (r ∷ rs) o s = if matches o s r then some r else first rs o s

unfoldable pub has_key : Row → List Row → Bool
has_key k [] = false
has_key k (r ∷ rs) = str_eq r.list_id k.list_id || (str_eq r.id k.id || has_key k rs)

abbrev Differs : Row → List Row → Type 0
Differs k [] = Unit
Differs k (r ∷ rs) = (k.list_id ≢ r.list_id) × (k.id ≢ r.id) × Differs k rs

abbrev HasKeys : List Row → Type 0
HasKeys [] = Unit
HasKeys (r ∷ rs) = Differs r rs × HasKeys rs

unfoldable pub insert : List Row → Row → Option (List Row)
insert rs r = if has_key r rs then none else some (r ∷ rs)

abbrev alter : (Row → Bool) → Change → List Row → List Row
alter p c rs = map (λ r. change_if (p r) c r) rs

pub find_list-key : (rs : List Row) (l : String) (r : Row) → find_list rs l ≡ some r → r.list_id ≡ l
unfolding find_list
find_list-key [] l r e = cc
find_list-key (q ∷ rs) l r e = ground (arith, eq_iff q.list_id l, find_list-key rs l r)

Differs-find_list :
    (k : Row) (rs : List Row) (l : String) (r : Row)
    → Differs k rs
    → find_list rs l ≡ some r
    → (k.list_id ≢ l) × (k.id ≢ r.id)
unfolding find_list
Differs-find_list k [] l r d e = cc
Differs-find_list k (q ∷ rs) l r d e =
    ground (arith, eq_iff q.list_id l, Differs-find_list k rs l r d.2)

pub first_sound :
    (rs : List Row) (o s : String) (r : Row)
    → HasKeys rs
    → first rs o s ≡ some r
    → (find_list rs r.list_id ≡ some r) × (r.org_id ≡ o) × (r.issuer_did ≡ s) × (r.is_active ≡ true)
unfolding find_list first matches
first_sound [] o s r k e = cc
first_sound (q ∷ rs) o s r k e = elim (Bool-cases (matches o s q)) [
  | inl here ↦
      let same : q ≡ r = ground arith in
      ground (arith, eq_iff q.list_id r.list_id, eq_iff q.org_id o, eq_iff q.issuer_did s)
  | inr later ↦
      let (found, owner, did, active) = first_sound rs o s r k.1 (rw (later, first) at e) in
      let other : q.list_id ≢ r.list_id = (Differs-find_list q rs r.list_id r k.0 found).0 in
      (ground (arith, eq_iff q.list_id r.list_id), owner, did, active)
]

pub first_complete :
    (rs : List Row) (o s l : String) (r : Row)
    → first rs o s ≡ none
    → find_list rs l ≡ some r
    → r.org_id ≡ o
    → r.issuer_did ≡ s
    → r.is_active ≡ false
unfolding find_list first matches
first_complete [] o s l r n e f g = cc
first_complete (q ∷ rs) o s l r n e f g =
    ground (
      arith,
      eq_iff q.list_id l,
      eq_iff q.org_id o,
      eq_iff q.issuer_did s,
      first_complete rs o s l r,
    )

pub ids_unique :
    (rs : List Row) (l m : String) (r s : Row)
    → HasKeys rs
    → find_list rs l ≡ some r
    → find_list rs m ≡ some s
    → r.id ≡ s.id
    → l ≡ m
unfolding find_list
ids_unique [] l m r s k e f g = cc
ids_unique (q ∷ rs) l m r s k e f g = ground (
  arith,
  eq_iff q.list_id l,
  eq_iff q.list_id m,
  ids_unique rs l m r s k.1,
  Differs-find_list q rs l r k.0,
  Differs-find_list q rs m s k.0,
)

change_if-list_id : (b : Bool) (c : Change) (r : Row) → (change_if b c r).list_id ≡ r.list_id
change_if-list_id true deactivate r = refl
change_if-list_id true (store m n) r = refl
change_if-list_id false c r = refl

change_if-id : (b : Bool) (c : Change) (r : Row) → (change_if b c r).id ≡ r.id
change_if-id true deactivate r = refl
change_if-id true (store m n) r = refl
change_if-id false c r = refl

module _ (p : Row → Bool) (c : Change) where
  pub find_list-alter :
      (rs : List Row) (l : String)
      → find_list (alter p c rs) l ≡ Option.map (λ r. change_if (p r) c r) (find_list rs l)
  unfolding find_list
  find_list-alter [] l = refl
  find_list-alter (q ∷ rs) l =
      rw (change_if-list_id (p q) c q) (elim (Bool-cases (str_eq q.list_id l)) [
        | inl here ↦ rw here
        | inr later ↦ rw later (find_list-alter rs l)
      ])

  Differs-alter :
      (k q : Row) (rs : List Row)
      → q.list_id ≡ k.list_id
      → q.id ≡ k.id
      → Differs k rs
      → Differs q (alter p c rs)
  Differs-alter k q [] e f d = tt
  Differs-alter k q (r ∷ rs) e f d = (
    rw (change_if-list_id (p r) c r, e) d.0,
    rw (change_if-id (p r) c r, f) d.1,
    Differs-alter k q rs e f d.2,
  )

  pub HasKeys-alter : (rs : List Row) → HasKeys rs → HasKeys (alter p c rs)
  HasKeys-alter [] k = tt
  HasKeys-alter (r ∷ rs) k = (
    Differs-alter r (change_if (p r) c r) rs (change_if-list_id (p r) c r) (change_if-id (p r) c r)
        k.0,
    HasKeys-alter rs k.1,
  )

pub find_list-insert :
    (d e : List Row) (r : Row) (l : String)
    → insert d r ≡ some e
    → find_list e l ≡ (if str_eq r.list_id l then some r else find_list d l)
unfolding insert
find_list-insert d e r l h =
    let same : r ∷ d ≡ e = ground arith in rw (← same) (unfold find_list in refl)

has_key-Differs : (r : Row) (rs : List Row) → has_key r rs ≡ false → Differs r rs
unfolding has_key
has_key-Differs r [] h = tt
has_key-Differs r (q ∷ rs) h =
    ground (arith, eq_iff q.list_id r.list_id, eq_iff q.id r.id, has_key-Differs r rs)

pub insert-HasKeys : (d e : List Row) (r : Row) → HasKeys d → insert d r ≡ some e → HasKeys e
unfolding insert
insert-HasKeys d e r k h =
    let same : r ∷ d ≡ e = ground arith in
    let new : has_key r d ≡ false = ground arith in rw (← same) (has_key-Differs r d new, k)

no_key :
    (r : Row) (rs : List Row)
    → HasKeys rs
    → find_list rs r.list_id ≡ none
    → ((l : String) (s : Row) → find_list rs l ≡ some s → s.id ≢ r.id)
    → has_key r rs ≡ false
unfolding has_key find_list
no_key r [] k e f = refl
no_key r (q ∷ rs) k e f = ground (
  arith,
  eq_iff q.list_id r.list_id,
  eq_iff q.id r.id,
  eq_iff q.list_id q.list_id,
  f q.list_id q,
  no_key r rs k.1 (ground (arith, eq_iff q.list_id r.list_id)) λ l s g. f l s (tail_found l s g),
)
  where
    tail_found :
        (l : String) (s : Row)
        → find_list rs l ≡ some s
        → (if str_eq q.list_id l then some q else find_list rs l) ≡ some s
    tail_found l s g = ground (arith, eq_iff q.list_id l, Differs-find_list q rs l s k.0 g)

pub insert_fresh :
    (d : List Row) (r : Row)
    → find_list d r.list_id ≡ none
    → ((l : String) (s : Row) → find_list d l ≡ some s → s.id ≢ r.id)
    → HasKeys d
    → (e : List Row) × (insert d r ≡ some e)
unfolding insert
insert_fresh d r e f k = (r ∷ d, rw (no_key r d k e f))

abbrev pub list_table : Prisma
list_table = record {
  Db = List Row;
  find_first = first;
  find_unique = find_list;
  update_id = λ d i c. alter (λ r. str_eq r.id i) c d;
  update_list = λ d m c. alter (λ r. str_eq r.list_id m) c d;
  create = insert;
  Keys = HasKeys;
  find_unique_key = find_list-key;
  find_first_sound = first_sound;
  find_first_complete = first_complete;
  ids_unique = ids_unique;
  find_unique-update_id = λ d i l c. find_list-alter (λ r. str_eq r.id i) c d l;
  find_unique-update_list = λ d m l c. find_list-alter (λ r. str_eq r.list_id m) c d l;
  find_unique-create = find_list-insert;
  create_fresh = insert_fresh;
  update_id-Keys = λ d i c. HasKeys-alter (λ r. str_eq r.id i) c d;
  update_list-Keys = λ d m c. HasKeys-alter (λ r. str_eq r.list_id m) c d;
  create-Keys = λ d e r. insert-HasKeys d e r;
}
