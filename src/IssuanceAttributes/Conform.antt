-- ===== src/IssuanceAttributes/Conform.antt =====
-- apps/issuance/libs/helpers/attributes.validator.ts: which attributes pass.
use ngotag_platform.IssuanceAttributes.{
  SchemaAttribute, Verdict, valid, has_type, missing_of, mismatch_of, missing_all, mismatched_all,
  is_defined, extra_all, validate_attributes,
}
use ngotag_platform.Template.Payload.{is_nil, is_falsy}
use ngotag_platform.Common.Json.{Value, Fields, no_fields, field, lookup}
use ngotag_platform.Common.{
  ◌≡◌, refl, ◌∙◌, Bool, true, false, not, ◌&&◌, ◌||◌, Option, none, some, List, [], ◌∷◌, ◌++◌,
  arith, if◌then◌else◌,
}

-- An optional attribute may be absent; a required one is there and not falsy; what is there has its type.
conforms_one : SchemaAttribute → Option Value → Bool
conforms_one a none = not a.is_required
conforms_one a (some v) = (not a.is_required || not (is_falsy (some v))) && has_type v a.data_type

pub conforms_all : List SchemaAttribute → Fields → Bool
conforms_all [] given = true
conforms_all (a ∷ more) given = conforms_one a (lookup given a.name) && conforms_all more given

pub all_defined : List SchemaAttribute → Fields → Bool
all_defined attrs no_fields = true
all_defined attrs (field k v fs) = is_defined attrs k && all_defined attrs fs

abbrev pub is_valid : Verdict → Bool
is_valid valid = true
is_valid v = false

is_nil-append : {A : Type 0} (xs ys : List A) → is_nil (xs ++ ys) ≡ (is_nil xs && is_nil ys)
is_nil-append [] ys = refl
is_nil-append (x ∷ xs) ys = refl

one_lem :
    (a : SchemaAttribute) (o : Option Value)
    → (is_nil (missing_of a o) && is_nil (mismatch_of a o)) ≡ conforms_one a o
unfolding missing_of mismatch_of conforms_one
one_lem a none = ground arith
one_lem a (some v) = ground arith

shuffled : (a b c d x y : Bool) → (a && b) ≡ x → (c && d) ≡ y → ((a && c) && (b && d)) ≡ (x && y)
shuffled a b c d x y h k = ground arith

all_lem :
    (attrs : List SchemaAttribute) (given : Fields)
    → (is_nil (missing_all attrs given) && is_nil (mismatched_all attrs given))
      ≡ conforms_all attrs given
unfolding missing_all mismatched_all conforms_all
all_lem [] given = refl
all_lem (a ∷ more) given =
    let o = lookup given a.name in
    rw
      (
        is_nil-append (missing_of a o) (missing_all more given),
        is_nil-append (mismatch_of a o) (mismatched_all more given),
      )
      (shuffled (is_nil (missing_of a o)) (is_nil (mismatch_of a o))
        (is_nil (missing_all more given)) (is_nil (mismatched_all more given)) (conforms_one a o)
        (conforms_all more given) (one_lem a o) (all_lem more given))

extra_lem :
    (attrs : List SchemaAttribute) (given : Fields)
    → is_nil (extra_all attrs given) ≡ all_defined attrs given
unfolding extra_all all_defined
extra_lem attrs no_fields = refl
extra_lem attrs (field k v fs) = let ih = extra_lem attrs fs in ground arith

verdict_lem :
    (a b c : Bool) (x y z : Verdict)
    → is_valid x ≡ false
    → is_valid y ≡ false
    → is_valid z ≡ false
    → is_valid (if not a then x else if not b then y else if not c then z else valid)
      ≡ ((a && b) && c)
verdict_lem true true true x y z h k l = refl
verdict_lem true true false x y z h k l = l
verdict_lem true false c x y z h k l = k
verdict_lem false b c x y z h k l = h

-- The attributes pass exactly if every attribute of the schema conforms, where a required one is given
-- with a value that is not falsy and each given one has the type of the schema, and no other attribute
-- is given.
pub validate_attributes-conforms :
    (attrs : List SchemaAttribute) (given : Fields)
    → is_valid (validate_attributes attrs given)
      ≡ (conforms_all attrs given && all_defined attrs given)
unfolding validate_attributes
validate_attributes-conforms attrs given =
    verdict_lem (is_nil (missing_all attrs given)) (is_nil (mismatched_all attrs given))
      (is_nil (extra_all attrs given)) _ _ _ refl refl refl
    ∙ rw (all_lem attrs given, extra_lem attrs given) refl
