-- ===== src/Offer/Disclosure.antt =====
-- apps/oid4vc-issuance/libs/helpers/credential-sessions.builder.ts,
-- `buildDisclosureFrameFromTemplate`: which claims of an SD-JWT a holder may withhold. An entry that is
-- assigned later replaces an earlier one of its key; a key `_sd`, which would meet the list of that
-- name, is excluded by `is_well_keyed`.
use ngotag_platform.Common.Json.{Value, list, Items, no_items, item, member}
use ngotag_platform.Template.{attribute, Attributes, no_attributes, attributes}
use ngotag_platform.Common.Find.{among}
use ngotag_platform.Common.{
  ℕ, suc, ◌≡◌, refl, ◌∙◌, Bool, true, false, not, ◌&&◌, ◌||◌, Option, none, some, List, [], ◌∷◌,
  String, str_eq, arith, ◌==◌, Bool-cases, inl, inr, if◌then◌else◌,
}

-- `_sd`, and the other entries: one frame, or a copy of a frame for each item of an array.
mutual
  pub data Frame : Type 0 where
    frame : List String → Parts → Frame

  pub data Parts : Type 0 where
    no_parts : Parts
    one_part : String → Frame → Parts → Parts
    each_part : String → ℕ → Frame → Parts → Parts

abbrev count_items : Items → ℕ
count_items no_items = 0
count_items (item v vs) = suc (count_items vs)

-- The length of a value that is an array.
abbrev array_length : Option Value → Option ℕ
array_length (some (list vs)) = some (count_items vs)
array_length v = none

abbrev has_children : Attributes → Bool
has_children no_attributes = false
has_children (attributes a rest) = true

unfoldable pub sd_of : Attributes → List String
sd_of no_attributes = []
sd_of (attributes (attribute key mandatory disclose display children) rest) =
    let later = sd_of rest in if not (has_children children) && disclose then key ∷ later else later

abbrev is_blank : List String → Parts → Bool
is_blank [] no_parts = true
is_blank sd parts = false

unfoldable pub has_part : Parts → String → Bool
has_part no_parts key = false
has_part (one_part k f rest) key = str_eq k key || has_part rest key
has_part (each_part k n f rest) key = str_eq k key || has_part rest key

-- `frame[attr.key] = ...`, before the entries that are assigned later.
unfoldable pub add_part : String → Option ℕ → List String → Parts → Parts → Parts
add_part key (some n) sd parts rest =
    if has_part rest key then rest else each_part key n (frame sd parts) rest
add_part key none sd parts rest =
    if is_blank sd parts || has_part rest key then rest else one_part key (frame sd parts) rest

-- The payload of the children of an attribute: none is given for an array.
abbrev given_below : Option ℕ → Option Value → Option Value
given_below (some n) v = none
given_below none v = v

unfoldable pub parts_of : Attributes → Option Value → Parts
parts_of no_attributes given = no_parts
parts_of (attributes (attribute key mandatory disclose display children) rest) given =
    let value = member given key in
    let below = parts_of children (given_below (array_length value) value) in
    let later = parts_of rest given in
    if has_children children
    then add_part key (array_length value) (sd_of children) below later
    else later

-- The code leaves `_sd` out where it is empty.
unfoldable pub build_disclosure_frame : Attributes → Option Value → Frame
build_disclosure_frame attrs given = frame (sd_of attrs) (parts_of attrs given)

-- The attributes of each level have different keys, none of them `_sd`.
abbrev has_key : Attributes → String → Bool
has_key no_attributes k = false
has_key (attributes (attribute key mandatory disclose display children) rest) k =
    str_eq key k || has_key rest k

unfoldable pub is_well_keyed : Attributes → Bool
is_well_keyed no_attributes = true
is_well_keyed (attributes (attribute key mandatory disclose display children) rest) =
    not (str_eq key "_sd") && not (has_key rest key) && is_well_keyed children && is_well_keyed rest

-- The claim at the path is in the `_sd` of its level.
mutual
  pub lists : Frame → List String → Bool
  lists (frame sd parts) [] = false
  lists (frame sd parts) (k ∷ []) = among sd k
  lists (frame sd parts) (k ∷ j ∷ path) = lists_below parts k (j ∷ path)

  lists_below : Parts → String → List String → Bool
  lists_below no_parts k path = false
  lists_below (one_part key f rest) k path =
      (str_eq key k && lists f path) || lists_below rest k path
  lists_below (each_part key n f rest) k path =
      (str_eq key k && not (n == 0) && lists f path) || lists_below rest k path

-- Read off the template: the attribute at the path has no children and is marked, and no array on the
-- way is empty.
abbrev is_inhabited : Option ℕ → Bool
is_inhabited none = true
is_inhabited (some n) = not (n == 0)

unfoldable pub may_withhold : Attributes → Option Value → List String → Bool
may_withhold no_attributes given path = false
may_withhold (attributes (attribute key mandatory disclose display children) rest) given [] = false
may_withhold (attributes (attribute key mandatory disclose display children) rest) given (k ∷ []) =
    (str_eq key k && not (has_children children) && disclose) || may_withhold rest given (k ∷ [])
may_withhold (attributes (attribute key mandatory disclose display children) rest) given
      (k ∷ j ∷ path) =
    let value = member given key in
    (str_eq key k
      && is_inhabited (array_length value)
      && may_withhold children (given_below (array_length value) value) (j ∷ path))
    || may_withhold rest given (k ∷ j ∷ path)

sd_of_lem :
    (attrs : Attributes) (given : Option Value) (k : String)
    → among (sd_of attrs) k ≡ may_withhold attrs given (k ∷ [])
unfolding among sd_of may_withhold
sd_of_lem no_attributes given k = refl
sd_of_lem (attributes (attribute key m d s children) rest) given k =
    let ih = sd_of_lem rest given k in ground arith

blank_lists :
    (sd : List String) (parts : Parts) (path : List String)
    → is_blank sd parts ≡ true
    → lists (frame sd parts) path ≡ false
unfolding lists among
blank_lists [] no_parts [] h = refl
blank_lists [] no_parts (k ∷ []) h = refl
blank_lists [] no_parts (k ∷ j ∷ path) h = refl
blank_lists [] (one_part key f rest) path h = cc
blank_lists [] (each_part key n f rest) path h = cc
blank_lists (x ∷ sd) parts path h = cc

absent_added :
    (n : Option ℕ) (key : String) (sd : List String) (parts rest : Parts) (k : String)
    → str_eq key k ≡ false
    → has_part rest k ≡ false
    → has_part (add_part key n sd parts rest) k ≡ false
unfolding add_part has_part
absent_added (some n) key sd parts rest k e h = ground arith
absent_added none key sd parts rest k e h = ground arith

has_part-absent :
    (attrs : Attributes) (given : Option Value) (k : String)
    → has_key attrs k ≡ false
    → has_part (parts_of attrs given) k ≡ false
unfolding has_part parts_of add_part
has_part-absent no_attributes given k h = refl
has_part-absent (attributes (attribute key m d s no_attributes) rest) given k h =
    has_part-absent rest given k (ground arith)
has_part-absent (attributes (attribute key m d s (attributes a more)) rest) given k h =
    let ih = has_part-absent rest given k (ground arith) in
    absent_added (array_length (member given key)) key (sd_of (attributes a more))
      (parts_of (attributes a more)
        (given_below (array_length (member given key)) (member given key)))
      (parts_of rest given) k (ground arith) ih

add_part_lem :
    (key : String) (n : Option ℕ) (sd : List String) (parts rest : Parts) (k : String)
    (path : List String)
    → has_part rest key ≡ false
    → lists_below (add_part key n sd parts rest) k path
      ≡ ((str_eq key k && is_inhabited n && lists (frame sd parts) path) || lists_below rest k path)
unfolding add_part lists
add_part_lem key (some n) sd parts rest k path new = rw (new) (ground arith)
add_part_lem key none sd parts rest k path new =
    let blank = blank_lists sd parts path in
    elim (Bool-cases (is_blank sd parts)) [
      | inl e ↦ rw (e, blank e) (ground arith)
      | inr e ↦ rw (e, new) (ground arith)
    ]

dead : (a b c : Bool) → c ≡ ((a && b && false) || c)
dead a b c = ground arith

-- The entries of an attribute with children and of those after it.
added_lem :
    (key : String) (children rest : Attributes) (given : Option Value) (k : String)
    (path : List String)
    → has_key rest key ≡ false
    → lists_below
        (let value = member given key in
          add_part key
            (array_length value)
            (sd_of children)
            (parts_of children (given_below (array_length value) value))
            (parts_of rest given))
        k
        path
      ≡ ((str_eq key k
            && is_inhabited (array_length (member given key))
            && lists
                (build_disclosure_frame children
                  (given_below (array_length (member given key)) (member given key)))
                path)
          || lists_below (parts_of rest given) k path)
unfolding build_disclosure_frame
added_lem key children rest given k path new =
    let value = member given key in
    add_part_lem key (array_length value) (sd_of children)
      (parts_of children (given_below (array_length value) value)) (parts_of rest given) k path
      (has_part-absent rest given key new)

conjuncts :
    (a b c d : Bool) → (not a && not b && c && d) ≡ true → (b ≡ false) × (c ≡ true) × (d ≡ true)
conjuncts a b c d h = (ground arith, ground arith, ground arith)

well_keyed-parts :
    (key : String) (m d : Bool) (s : Option String) (children rest : Attributes)
    → is_well_keyed (attributes (attribute key m d s children) rest) ≡ true
    → (has_key rest key ≡ false) × (is_well_keyed children ≡ true) × (is_well_keyed rest ≡ true)
unfolding is_well_keyed
well_keyed-parts key m d s children rest w =
    conjuncts (str_eq key "_sd") (has_key rest key) (is_well_keyed children) (is_well_keyed rest) w

parts_of_lem :
    (attrs : Attributes) (given : Option Value) (k j : String) (path : List String)
    → is_well_keyed attrs ≡ true
    → lists_below (parts_of attrs given) k (j ∷ path) ≡ may_withhold attrs given (k ∷ j ∷ path)
unfolding lists parts_of may_withhold build_disclosure_frame
parts_of_lem no_attributes given k j path w = refl
parts_of_lem (attributes (attribute key m d s no_attributes) rest) given k j path w =
    parts_of_lem rest given k j path (well_keyed-parts key m d s no_attributes rest w).2
    ∙ dead (str_eq key k) (is_inhabited (array_length (member given key)))
        (may_withhold rest given (k ∷ j ∷ path))
parts_of_lem (attributes (attribute key m d s (attributes a more)) rest) given k j [] w =
    let (new, inner, later) = well_keyed-parts key m d s (attributes a more) rest w in
    let value = member given key in
    let here = added_lem key (attributes a more) rest given k (j ∷ []) new in
    let own = sd_of_lem (attributes a more) (given_below (array_length value) value) j in
    let ih = parts_of_lem rest given k j [] later in here ∙ rw (own, ih) refl
parts_of_lem (attributes (attribute key m d s (attributes a more)) rest) given k j (i ∷ path) w =
    let (new, inner, later) = well_keyed-parts key m d s (attributes a more) rest w in
    let value = member given key in
    let here = added_lem key (attributes a more) rest given k (j ∷ i ∷ path) new in
    let deep =
      parts_of_lem (attributes a more) (given_below (array_length value) value) j i path inner in
    let ih = parts_of_lem rest given k j (i ∷ path) later in here ∙ rw (deep, ih) refl

-- If the attributes of each level have different keys, none of them `_sd`, the disclosure frame of a
-- template and a payload lets the holder withhold exactly the claims whose attributes are marked so and
-- have no attributes below them, at any depth, save below an array of the payload that is empty.
pub build_disclosure_frame-lists :
    (attrs : Attributes) (given : Option Value) (path : List String)
    → is_well_keyed attrs ≡ true
    → lists (build_disclosure_frame attrs given) path ≡ may_withhold attrs given path
unfolding build_disclosure_frame lists may_withhold
build_disclosure_frame-lists no_attributes given [] w = refl
build_disclosure_frame-lists (attributes (attribute key m d s children) rest) given [] w = refl
build_disclosure_frame-lists attrs given (k ∷ []) w = sd_of_lem attrs given k
build_disclosure_frame-lists attrs given (k ∷ j ∷ path) w = parts_of_lem attrs given k j path w
