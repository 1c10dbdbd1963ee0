-- ===== src/IssuanceAttributes.antt =====
-- apps/issuance/libs/helpers/attributes.validator.ts: the attributes of a credential against the schema of
-- its type, before it is issued. The attributes that are given are JSON.
pub mod Conform
mod Tests
use ngotag_platform.Common.Json.{
  Value, null, boolean, number, str, list, object, Fields, no_fields, field, lookup,
}
use ngotag_platform.Template.Payload.{is_nil, is_falsy}
use ngotag_platform.Common.{
  Bool, true, false, not, ◌&&◌, ◌||◌, Option, none, some, List, [], ◌∷◌, ◌++◌, String, str_eq,
  if◌then◌else◌,
}

pub record SchemaAttribute : Type 0 where
  pub name : String
  pub data_type : String
  pub is_required : Bool

-- What a message says of an attribute.
pub data Complaint : Type 0 where
  missing not_defined empty_value : String → Complaint
  wrong_type : (name actual expected : String) → Complaint

-- The lists of complaints are checked in this order, and one of them is thrown.
pub data Verdict : Type 0 where
  valid : Verdict
  missing_attributes mismatched_attributes extra_attributes : List Complaint → Verdict

-- `typeof`
type_of : Value → String
type_of (str s) = "string"
type_of (number n) = "number"
type_of (boolean b) = "boolean"
type_of v = "object"

-- A date is a text.
pub has_type : Value → String → Bool
has_type v expected =
    if str_eq expected "datetime-local"
    then str_eq (type_of v) "string"
    else str_eq (type_of v) expected

pub missing_of : SchemaAttribute → Option Value → List Complaint
missing_of a none = if a.is_required then missing a.name ∷ [] else []
missing_of a (some v) = []

pub mismatch_of : SchemaAttribute → Option Value → List Complaint
mismatch_of a none = []
mismatch_of a (some v) =
    if a.is_required && is_falsy (some v)
    then empty_value a.name ∷ []
    else if has_type v a.data_type
    then []
    else wrong_type a.name (type_of v) a.data_type ∷ []

pub missing_all : List SchemaAttribute → Fields → List Complaint
missing_all [] given = []
missing_all (a ∷ more) given = missing_of a (lookup given a.name) ++ missing_all more given

pub mismatched_all : List SchemaAttribute → Fields → List Complaint
mismatched_all [] given = []
mismatched_all (a ∷ more) given = mismatch_of a (lookup given a.name) ++ mismatched_all more given

pub is_defined : List SchemaAttribute → String → Bool
is_defined [] name = false
is_defined (a ∷ more) name = str_eq a.name name || is_defined more name

pub extra_all : List SchemaAttribute → Fields → List Complaint
extra_all attrs no_fields = []
extra_all attrs (field k v fs) =
    let later = extra_all attrs fs in if is_defined attrs k then later else not_defined k ∷ later

-- `validateW3CSchemaAttributes`
unfoldable pub validate_attributes : List SchemaAttribute → Fields → Verdict
validate_attributes attrs given =
    if not (is_nil (missing_all attrs given))
    then missing_attributes (missing_all attrs given)
    else if not (is_nil (mismatched_all attrs given))
    then mismatched_attributes (mismatched_all attrs given)
    else if not (is_nil (extra_all attrs given))
    then extra_attributes (extra_all attrs given)
    else valid
