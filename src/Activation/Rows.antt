-- ===== src/Activation/Rows.antt =====
-- apps/marketplace/src/marketplace.service.ts: reads of a table after an update.
use ngotag_platform.Activation.{Row, find_row, update_rows}
use ngotag_platform.Common.{
  ◌≡◌, refl, ap, ◌∙◌, Bool, true, false, not, ◌&&◌, ◌||◌, Option, none, some, List, [], ◌∷◌, String,
  str_eq, eq_iff, arith, if◌then◌else◌,
}

abbrev pub mapped : (Row → Row) → Option Row → Option Row
mapped g none = none
mapped g (some r) = some (g r)

none_if : (b : Bool) (g : Row → Row) → none ≡ (if b then mapped g none else none)
none_if true g = refl
none_if false g = refl

agree : Bool → Bool → Bool → Bool
agree a b c = (not a || not b || c) && (not a || not c || b) && (not b || not c || a)

agree_ids : (i j k : String) → agree (str_eq i j) (str_eq i k) (str_eq j k) ≡ true
unfolding agree
agree_ids i j k = ground (arith, eq_iff i j, eq_iff i k, eq_iff j k)

mapped-if :
    (a b c : Bool) (g : Row → Row) (r : Row) (o : Option Row)
    → agree a b c ≡ true
    → (if a
        then (if b then some (g r) else o)
        else (if b then some r else (if c then mapped g o else o)))
      ≡ (if c then mapped g (if b then some r else o) else (if b then some r else o))
unfolding agree
mapped-if true true true g r o h = refl
mapped-if true true false g r o h = absurd (ground arith)
mapped-if true false true g r o h = absurd (ground arith)
mapped-if true false false g r o h = refl
mapped-if false true true g r o h = absurd (ground arith)
mapped-if false true false g r o h = refl
mapped-if false false true g r o h = refl
mapped-if false false false g r o h = refl

find_row-if :
    (a : Bool) (g : Row → Row) (r : Row) (rs ss : List Row) (j : String)
    → (g r).id ≡ r.id
    → find_row (if a then g r ∷ rs else r ∷ ss) j ≡ (
        if a
        then (if str_eq r.id j then some (g r) else find_row rs j)
        else (if str_eq r.id j then some r else find_row ss j))
unfolding find_row
find_row-if true g r rs ss j h = ap (λ i. if str_eq i j then some (g r) else find_row rs j) h
find_row-if false g r rs ss j h = refl

pub find_row-update :
    (rs : List Row) (id : String) (g : Row → Row) (j : String)
    → ((r : Row) → (g r).id ≡ r.id)
    → find_row (update_rows rs id g) j
      ≡ (if str_eq id j then mapped g (find_row rs j) else find_row rs j)
unfolding find_row update_rows
find_row-update [] id g j h = none_if (str_eq id j) g
find_row-update (r ∷ rs) id g j h =
    find_row-if (str_eq r.id id) g r rs (update_rows rs id g) j (h r)
    ∙ ap
        (λ o.
          if str_eq r.id id
          then (if str_eq r.id j then some (g r) else find_row rs j)
          else (if str_eq r.id j then some r else o))
        (find_row-update rs id g j h)
    ∙ mapped-if (str_eq r.id id) (str_eq r.id j) (str_eq id j) g r (find_row rs j)
        (agree_ids r.id id j)

-- The row that is found is the one of its id.
pub find_row-id : (rs : List Row) (id : String) (r : Row) → find_row rs id ≡ some r → r.id ≡ id
unfolding find_row
find_row-id [] id r e = absurd (ground arith)
find_row-id (s ∷ rs) id r e = let ih = find_row-id rs id r in ground (arith, eq_iff s.id id)
