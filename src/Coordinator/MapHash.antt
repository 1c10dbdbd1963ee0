-- ===== src/Coordinator/MapHash.antt =====
-- Stores that meet the hypotheses of the coordinator: a hash as a list of entries with different
-- fields, a set as a list, and locks as a function.
use ngotag_platform.Coordinator.Store.{
  Field, capacity, owner, Value, one, field_eq, All, Hash, Members, Locks,
}
use ngotag_platform.Common.{
  suc, ◌+◌, ◌≡◌, refl, sym, ap, ◌∙◌, Bool, true, false, not, ◌&&◌, ◌||◌, Option, none, some, List,
  [], ◌∷◌, String, str_eq, eq_iff, arith, if◌then◌else◌, length, is_some,
}

abbrev pub Entries : Type 0
Entries = List (Field × Value)

abbrev find : Entries → Field → Option Value
find [] f = none
find ((g, v) ∷ es) f = let rest = find es f in if field_eq g f then some v else rest

abbrev pub remove : Entries → Field → Entries
remove [] f = []
remove ((g, v) ∷ es) f = let rest = remove es f in if field_eq g f then rest else (g, v) ∷ rest

abbrev pub distinct : Entries → Bool
distinct [] = true
distinct ((g, v) ∷ es) = not (is_some (find es g)) && distinct es

field_eq_iff : (f g : Field) → field_eq f g ≡ true → f ≡ g
field_eq_iff capacity capacity e = refl
field_eq_iff capacity (owner y) e = cc
field_eq_iff (owner x) capacity e = cc
field_eq_iff (owner x) (owner y) e = ap owner ((eq_iff x y).0 e)

field_eq_refl : (f : Field) → field_eq f f ≡ true
field_eq_refl capacity = refl
field_eq_refl (owner x) = (eq_iff x x).1 refl

field_eq_trans : (f g h : Field) → field_eq f h ≡ true → field_eq g h ≡ true → field_eq f g ≡ true
field_eq_trans f g h a b =
    ap (λ x. field_eq x g) (field_eq_iff f h a ∙ sym (field_eq_iff g h b)) ∙ field_eq_refl g

find_same : (es : Entries) (f g : Field) → field_eq f g ≡ true → find es f ≡ find es g
find_same es f g e = ap (find es) (field_eq_iff f g e)

pub find-remove :
    (es : Entries) (f g : Field) → find (remove es f) g ≡ (if field_eq f g then none else find es g)
find-remove [] f g = ground arith
find-remove ((h, v) ∷ es) f g =
    let ih = find-remove es f g in
    let t = field_eq_trans h f g in
    let u = (λ (e : field_eq h f ≡ true). ap (λ x. field_eq x g) (field_eq_iff h f e)) in
    ground arith

pub distinct-remove :
    (es : Entries) (f : Field) → distinct es ≡ true → distinct (remove es f) ≡ true
distinct-remove [] f d = refl
distinct-remove ((h, v) ∷ es) f d =
    let other = find-remove es f h in ground (arith, distinct-remove es f)

pub length-remove :
    (es : Entries) (f : Field)
    → distinct es ≡ true
    → length (remove es f) + one (is_some (find es f)) ≡ length es
length-remove [] f d = refl
length-remove ((h, v) ∷ es) f d =
    let ih = length-remove es f in let same = find_same es h f in ground arith

weaken :
    (es fs : Entries) (h : Field) (v : Value)
    → find es h ≡ none
    → All (λ e. find es e.0 ≡ some e.1) fs
    → All (λ e. find ((h, v) ∷ es) e.0 ≡ some e.1) fs
weaken es [] h v n all = tt
weaken es ((f, w) ∷ fs) h v n all =
    let here = all.0 in let same = find_same es h f in (ground arith, weaken es fs h v n all.1)

pub find_entries : (es : Entries) → distinct es ≡ true → All (λ e. find es e.0 ≡ some e.1) es
find_entries [] d = tt
find_entries ((h, v) ∷ es) d = (
  let own = field_eq_refl h in ground arith,
  weaken es es h v (ground arith) (find_entries es (ground arith)),
)

abbrev pub Table : Type 0
Table = (es : Entries) × (distinct es ≡ true)

abbrev pub without : Table → Field → Table
without (es, d) f = (remove es f, distinct-remove es f d)

pub distinct-with :
    (es : Entries) (f : Field) (v : Value)
    → distinct es ≡ true
    → distinct ((f, v) ∷ remove es f) ≡ true
distinct-with es f v d =
    let gone = find-remove es f f in
    let own = field_eq_refl f in let rest = distinct-remove es f d in ground arith

pub find-with :
    (es : Entries) (f : Field) (v : Value) (g : Field)
    → find ((f, v) ∷ remove es f) g ≡ (if field_eq f g then some v else find es g)
find-with es f v g = let gone = find-remove es f g in ground arith

pub length-with :
    (es : Entries) (f : Field) (v : Value)
    → distinct es ≡ true
    → suc (length (remove es f)) ≡ length es + one (not (is_some (find es f)))
length-with es f v d = let less = length-remove es f d in ground arith

abbrev with : Table → Field → Value → Table
with (es, d) f v = ((f, v) ∷ remove es f, distinct-with es f v d)

abbrev pub map_hash : Hash
map_hash = record {
  H = Table;
  hget = λ t f. find t.0 f;
  hgetall = λ t. t.0;
  hlen = λ t. length t.0;
  hset = with;
  hdel = without;
  del = λ t. ([], refl);
  hget-hset = λ t f v g. find-with t.0 f v g;
  hget-hdel = λ t f g. find-remove t.0 f g;
  hget-del = λ t g. refl;
  hlen-hset = λ t f v. length-with t.0 f v t.1;
  hlen-hdel = λ t f. length-remove t.0 f t.1;
  hlen-del = λ t. refl;
  hget-hgetall = λ t. find_entries t.0 t.1;
}

abbrev pub member : List String → String → Bool
member [] x = false
member (y ∷ ys) x = str_eq y x || member ys x

abbrev add : List String → String → List String
add s x = if member s x then s else x ∷ s

pub member-add : (s : List String) (x y : String) → member (add s x) y ≡ (str_eq x y || member s y)
member-add s x y =
    let same = eq_iff x y in
    let here = (λ (e : str_eq x y ≡ true). ap (member s) (same.0 e)) in ground arith

pub length-add :
    (s : List String) (x : String) → length (add s x) ≡ length s + one (not (member s x))
length-add s x = ground arith

abbrev pub list_members : Members
list_members = record {
  S = List String;
  empty = [];
  sismember = member;
  scard = length;
  sadd = add;
  scard-empty = refl;
  sismember-sadd = member-add;
  scard-sadd = length-add;
}

abbrev pub function_locks : Locks
function_locks = record {
  L = String → Option String;
  get = λ l key. l key;
  set_nx = λ l key id. (
    (λ other. if str_eq key other && not (is_some (l key)) then some id else l other),
    not (is_some (l key)),
  );
  del = λ l key other. if str_eq key other then none else l other;
  set_nx-done = λ l key id. refl;
  get-set_nx = λ l key id other. refl;
  get-del = λ l key other. refl;
}
