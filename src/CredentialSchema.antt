-- ===== src/CredentialSchema.antt =====
-- apps/ledger/libs/helpers/w3c.schema.builder.ts: the JSON schema of a W3C credential, built from the
-- attributes of its form. The keywords have values that the classes of libs/validations accept; the
-- keys of an object's properties are no integers, so that they keep their order. `lower` is the
-- method of texts.
pub mod Cover
pub mod Complete
mod Tests
use Prim.Native.String.{◌++◌ as concat}
use ngotag_platform.Common.Json.{Value}
use ngotag_platform.Common.{
  Bool, true, false, ◌||◌, Option, none, some, List, [], ◌∷◌, ◌++◌, String, str_eq, if◌then◌else◌,
}

pub record Facts : Type 0 where
  pub name : String
  pub data_type : String
  pub is_required : Bool
  pub display_name : String
  pub description : Option String
  pub min_length : Option Value
  pub max_length : Option Value
  pub pattern_text : Option Value
  pub minimum : Option Value
  pub exclusive_minimum : Option Value
  pub multiple_of : Option Value
  pub min_items : Option Value
  pub max_items : Option Value
  pub unique_items : Option Value

-- `IW3CAttributeValue`, whose `items` and `properties` may each be absent.
mutual
  pub data Attribute : Type 0 where
    attribute : Facts → Items → Properties → Attribute

  pub data Attributes : Type 0 where
    no_attributes : Attributes
    attributes : Attribute → Attributes → Attributes

  pub data Items : Type 0 where
    no_items : Items
    items : Attributes → Items

  pub data Properties : Type 0 where
    no_properties : Properties
    properties : Entries → Properties

  pub data Entries : Type 0 where
    no_entries : Entries
    entries : String → Attribute → Entries → Entries

pub record Base : Type 0 where
  pub type_name : String
  pub title : String
  pub description : String
  pub format : Option String
  pub keywords : List (String × Value)

-- A schema: that of a plain value, of an object, or of an array whose items are objects. An empty list
-- stands for a `required` that is absent.
mutual
  pub data Schema : Type 0 where
    plain : Base → Schema
    object_of : Base → Members → (required : List String) → Schema
    array_of : Base → Members → (required : List String) → Schema

  pub data Members : Type 0 where
    no_members : Members
    member : String → Schema → Members → Members

-- `members[name] = schema`
pub put_member : Members → String → Schema → Members
put_member no_members k s = member k s no_members
put_member (member j t ms) k s =
    let rest = put_member ms k s in if str_eq j k then member j s ms else member j t rest

keyword : String → Option Value → List (String × Value)
keyword name none = []
keyword name (some v) = (name, v) ∷ []

abbrev facts_of : Attribute → Facts
facts_of (attribute f its ps) = f

abbrev pub name_of : Attribute → String
name_of (attribute f its ps) = f.name

abbrev pub is_required_of : Attribute → Bool
is_required_of (attribute f its ps) = f.is_required

title_of : Facts → String
title_of f = if str_eq f.display_name "" then f.name else f.display_name

-- `description ? description : …`
description_of : Facts → String
description_of f = elim f.description [
  | none ↦ concat f.name " field"
  | some d ↦ if str_eq d "" then concat f.name " field" else d
]

module _ (lower : String → String) where
  -- `applyValidations`
  pub validations : Facts → List (String × Value)
  validations f =
      let t = lower f.data_type in
      (if str_eq t "string"
        then keyword "minLength" f.min_length
          ++ keyword "maxLength" f.max_length
          ++ keyword "pattern" f.pattern_text
        else [])
      ++ (if str_eq t "number" || str_eq t "integer"
          then keyword "minimum" f.minimum
            ++ keyword "exclusiveMinimum" f.exclusive_minimum
            ++ keyword "multipleOf" f.multiple_of
          else [])
      ++ (if str_eq t "array"
          then keyword "minItems" f.min_items
            ++ keyword "maxItems" f.max_items
            ++ keyword "uniqueItems" f.unique_items
          else [])

  pub base_property : Facts → List (String × Value) → Base
  base_property f kws = record {
    type_name = lower f.data_type;
    title = title_of f;
    description = description_of f;
    format = none;
    keywords = kws;
  }

  -- Below the first level the description is never that of the form.
  pub nested_base : Facts → List (String × Value) → Base
  nested_base f kws = record {
    type_name = lower f.data_type;
    title = title_of f;
    description = concat f.name " field";
    format = none;
    keywords = kws;
  }

  pub date_property : Facts → Base
  date_property f = record {
    type_name = "string";
    title = title_of f;
    description = description_of f;
    format = some "date-time";
    keywords = [];
  }

  pub is_simple : String → Bool
  is_simple t = str_eq t "string" || str_eq t "number" || str_eq t "boolean" || str_eq t "integer"

  -- The names of the required attributes, in order.
  pub required_names : Attributes → List String
  required_names no_attributes = []
  required_names (attributes a rest) =
      let later = required_names rest in if is_required_of a then name_of a ∷ later else later

  -- Of an object in an array, by the names of its properties; of an object of the first level, by
  -- their keys.
  pub required_by_name : Entries → List String
  required_by_name no_entries = []
  required_by_name (entries key a rest) =
      let later = required_by_name rest in if is_required_of a then name_of a ∷ later else later

  pub required_by_key : Entries → List String
  required_by_key no_entries = []
  required_by_key (entries key a rest) =
      let later = required_by_key rest in if is_required_of a then key ∷ later else later

  pub add_schema : String → Option Schema → Members → Members
  add_schema name none ms = ms
  add_schema name (some s) ms = put_member ms name s

  unfoldable mutual
    -- `processAttributes`, whose `required` is `required_names`.
    pub process_attributes : Attributes → Members → Members
    process_attributes no_attributes ms = ms
    process_attributes (attributes a rest) ms =
        process_attributes rest (add_schema (name_of a) (schema_of a) ms)

    -- The schema of an attribute of the first level, if its type has one.
    pub schema_of : Attribute → Option Schema
    schema_of (attribute f its ps) =
        let t = lower f.data_type in
        let listed = array_schema f its in
        let nested = object_schema f ps in
        if is_simple t
        then some (plain (base_property f (validations f)))
        else if str_eq t "datetime-local"
        then some (plain (date_property f))
        else if str_eq t "array"
        then listed
        else if str_eq t "object"
        then nested
        else none

    pub array_schema : Facts → Items → Option Schema
    array_schema f no_items = none
    array_schema f (items below) = some (
        array_of (base_property f (validations f)) (item_members below no_members)
          (required_names below))

    pub object_schema : Facts → Properties → Option Schema
    object_schema f no_properties = none
    object_schema f (properties es) =
        some
          (object_of (base_property f []) (nested_members true es no_members) (required_by_key es))

    -- The items of an array of the first level.
    pub item_members : Attributes → Members → Members
    item_members no_attributes ms = ms
    item_members (attributes a rest) ms =
        item_members rest (put_member ms (name_of a) (item_schema a))

    pub item_schema : Attribute → Schema
    item_schema (attribute f its ps) =
        let whole = item_object f ps in
        if str_eq (lower f.data_type) "object" then whole else plain (nested_base f (validations f))

    pub item_object : Facts → Properties → Schema
    item_object f no_properties = plain (nested_base f (validations f))
    item_object f (properties es) =
        object_of (nested_base f []) (nested_members false es no_members) (required_by_name es)

    -- The properties of an object; `checked` is whether an array among them has its keywords.
    pub nested_members : Bool → Entries → Members → Members
    nested_members checked no_entries ms = ms
    nested_members checked (entries key a rest) ms =
        nested_members checked rest (put_member ms (name_of a) (nested_schema checked a))

    pub nested_schema : Bool → Attribute → Schema
    nested_schema checked (attribute f its ps) =
        let listed = nested_array checked f its in
        if str_eq (lower f.data_type) "array" then listed else plain (nested_base f (validations f))

    pub nested_array : Bool → Facts → Items → Schema
    nested_array checked f no_items = plain (nested_base f (validations f))
    nested_array checked f (items below) =
        array_of (nested_base f (if checked then validations f else []))
          (process_attributes below no_members) (required_names below)

  -- The schema of the subject: the attributes and an `id`, with no other property allowed.
  pub id_schema : Schema
  id_schema = plain (record {
    type_name = "string";
    title = "";
    description = "";
    format = some "uri";
    keywords = [];
  })

  pub subject_members : Attributes → Members
  subject_members attrs = put_member (process_attributes attrs no_members) "id" id_schema

  pub subject_required : Attributes → List String
  subject_required attrs = "id" ∷ required_names attrs
