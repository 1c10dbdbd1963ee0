-- ===== src/CredentialSchema/Complete.antt =====
-- apps/ledger/libs/helpers/w3c.schema.builder.ts: whether some credential can satisfy the schema, in that
-- every property that is required is described.
use ngotag_platform.CredentialSchema.{
  Facts, Attribute, attribute, Attributes, no_attributes, attributes, Items, no_items, items,
  Properties, no_properties, properties, Entries, no_entries, entries, Base, Schema, plain,
  object_of, array_of, Members, no_members, member, put_member, name_of, is_required_of,
  validations, base_property, nested_base, date_property, is_simple, required_names,
  required_by_name, required_by_key, add_schema, process_attributes, schema_of, array_schema,
  object_schema, item_members, item_schema, item_object, nested_members, nested_schema,
  nested_array, id_schema, subject_members, subject_required,
}
use ngotag_platform.Common.{
  ◌≡◌, refl, Bool, true, false, not, ◌&&◌, ◌||◌, Option, none, some, List, [], ◌∷◌, String, str_eq,
  arith, if◌then◌else◌,
}
use ngotag_platform.CredentialSchema.Cover.{
  has, covers, is_described, all_sound, is_sound_attribute, sound_items, sound_item_list,
  sound_item, sound_properties, sound_entries, sound_entry, has-put_member, has-put_self, second_of,
  third_of, process-covers, items-covers, nested-covers_name, nested-covers_key,
}

-- At every depth, what is required is described.
unfoldable mutual
  is_complete : Schema → Bool
  is_complete (plain b) = true
  is_complete (object_of b ms required) = covers ms required && all_complete ms
  is_complete (array_of b ms required) = covers ms required && all_complete ms

  pub all_complete : Members → Bool
  all_complete no_members = true
  all_complete (member k s ms) = is_complete s && all_complete ms

all_complete-put_member :
    (ms : Members) (k : String) (s : Schema)
    → all_complete ms ≡ true
    → is_complete s ≡ true
    → all_complete (put_member ms k s) ≡ true
unfolding all_complete put_member
all_complete-put_member no_members k s h c = ground arith
all_complete-put_member (member i t ms) k s h c =
    let ih = all_complete-put_member ms k s (ground arith) c in ground arith

left_of : (a b : Bool) → (a && b) ≡ true → a ≡ true
left_of a b h = ground arith

right_of : (a b : Bool) → (a && b) ≡ true → b ≡ true
right_of a b h = ground arith

both : (a b : Bool) → a ≡ true → b ≡ true → (a && b) ≡ true
both a b h k = ground arith

covers-put_member :
    (ms : Members) (k : String) (s : Schema) (js : List String)
    → covers ms js ≡ true
    → covers (put_member ms k s) js ≡ true
unfolding covers
covers-put_member ms k s [] h = refl
covers-put_member ms k s (j ∷ js) h =
    let ih = covers-put_member ms k s js (right_of (has ms j) (covers ms js) h) in
    ground (arith, has-put_member ms k s j)

-- The members that an attribute adds are complete if its schema is.
complete_schema : Option Schema → Bool
complete_schema none = true
complete_schema (some s) = is_complete s

module _ (lower : String → String) where
  add_schema_complete :
      (name : String) (o : Option Schema) (ms : Members)
      → all_complete ms ≡ true
      → complete_schema o ≡ true
      → all_complete (add_schema lower name o ms) ≡ true
  unfolding add_schema complete_schema
  add_schema_complete name none ms c d = c
  add_schema_complete name (some s) ms c d = all_complete-put_member ms name s c d

  chosen_complete :
      (f : Facts) (b c : Base) (o p : Option Schema)
      → complete_schema o ≡ true
      → complete_schema p ≡ true
      → complete_schema (
          if is_simple lower (lower f.data_type)
          then some (plain b)
          else if str_eq (lower f.data_type) "datetime-local"
          then some (plain c)
          else if str_eq (lower f.data_type) "array"
          then o
          else if str_eq (lower f.data_type) "object"
          then p
          else none)
        ≡ true
  unfolding complete_schema is_complete
  chosen_complete f b c o p h k = ground arith

  if_complete :
      (b : Bool) (s t : Schema)
      → is_complete s ≡ true
      → is_complete t ≡ true
      → is_complete (if b then s else t) ≡ true
  if_complete true s t h k = h
  if_complete false s t h k = k

  mutual
    unfolding process_attributes all_sound is_complete complete_schema

    process_complete :
        (attrs : Attributes) (ms : Members)
        → all_sound lower attrs ≡ true
        → all_complete ms ≡ true
        → all_complete (process_attributes lower attrs ms) ≡ true
    process_complete no_attributes ms h c = c
    process_complete (attributes a rest) ms h c =
        let own =
          second_of (not (is_required_of a) || is_described lower a) (is_sound_attribute lower a)
            (all_sound lower rest) h in
        let more =
          third_of (not (is_required_of a) || is_described lower a) (is_sound_attribute lower a)
            (all_sound lower rest) h in
        process_complete rest (add_schema lower (name_of a) (schema_of lower a) ms) more
          (add_schema_complete (name_of a) (schema_of lower a) ms c (schema_complete a own))

    schema_complete :
        (a : Attribute)
        → is_sound_attribute lower a ≡ true
        → complete_schema (schema_of lower a) ≡ true
    schema_complete (attribute f its ps) h =
        chosen_complete f (base_property lower f (validations lower f)) (date_property lower f)
          (array_schema lower f its) (object_schema lower f ps)
          (array_complete f its
            (left_of (sound_items lower its) (sound_properties lower true ps) h))
          (object_complete f ps
            (right_of (sound_items lower its) (sound_properties lower true ps) h))

    array_complete :
        (f : Facts) (its : Items)
        → sound_items lower its ≡ true
        → complete_schema (array_schema lower f its) ≡ true
    array_complete f no_items h = refl
    array_complete f (items below) h =
        both (covers (item_members lower below no_members) (required_names lower below))
          (all_complete (item_members lower below no_members)) (items-covers lower below no_members)
          (items_complete below no_members h refl)

    object_complete :
        (f : Facts) (ps : Properties)
        → sound_properties lower true ps ≡ true
        → complete_schema (object_schema lower f ps) ≡ true
    object_complete f no_properties h = refl
    object_complete f (properties es) h =
        both (covers (nested_members lower true es no_members) (required_by_key lower es))
          (all_complete (nested_members lower true es no_members))
          (nested-covers_key lower true es no_members h)
          (nested_complete true true es no_members h refl)

    items_complete :
        (attrs : Attributes) (ms : Members)
        → sound_item_list lower attrs ≡ true
        → all_complete ms ≡ true
        → all_complete (item_members lower attrs ms) ≡ true
    items_complete no_attributes ms h c = c
    items_complete (attributes a rest) ms h c =
        items_complete rest (put_member ms (name_of a) (item_schema lower a))
          (right_of (sound_item lower a) (sound_item_list lower rest) h)
          (all_complete-put_member ms (name_of a) (item_schema lower a) c
            (item_complete a (left_of (sound_item lower a) (sound_item_list lower rest) h)))

    item_complete :
        (a : Attribute) → sound_item lower a ≡ true → is_complete (item_schema lower a) ≡ true
    item_complete (attribute f its ps) h =
        if_complete (str_eq (lower f.data_type) "object") (item_object lower f ps)
          (plain (nested_base lower f (validations lower f))) (item_object_complete f ps h) refl

    item_object_complete :
        (f : Facts) (ps : Properties)
        → sound_properties lower false ps ≡ true
        → is_complete (item_object lower f ps) ≡ true
    item_object_complete f no_properties h = refl
    item_object_complete f (properties es) h =
        both (covers (nested_members lower false es no_members) (required_by_name lower es))
          (all_complete (nested_members lower false es no_members))
          (nested-covers_name lower false es no_members)
          (nested_complete false false es no_members h refl)

    nested_complete :
        (checked keyed : Bool) (es : Entries) (ms : Members)
        → sound_entries lower keyed es ≡ true
        → all_complete ms ≡ true
        → all_complete (nested_members lower checked es ms) ≡ true
    nested_complete checked keyed no_entries ms h c = c
    nested_complete checked keyed (entries key a rest) ms h c =
        let own =
          second_of (not keyed || str_eq key (name_of a)) (sound_entry lower a)
            (sound_entries lower keyed rest) h in
        let more =
          third_of (not keyed || str_eq key (name_of a)) (sound_entry lower a)
            (sound_entries lower keyed rest) h in
        nested_complete checked keyed rest
          (put_member ms (name_of a) (nested_schema lower checked a)) more
          (all_complete-put_member ms (name_of a) (nested_schema lower checked a) c
            (nested_schema_complete checked a own))

    nested_schema_complete :
        (checked : Bool) (a : Attribute)
        → sound_entry lower a ≡ true
        → is_complete (nested_schema lower checked a) ≡ true
    nested_schema_complete checked (attribute f no_items ps) h =
        if_complete (str_eq (lower f.data_type) "array") (nested_array lower checked f no_items)
          (plain (nested_base lower f (validations lower f))) refl refl
    nested_schema_complete checked (attribute f (items below) ps) h =
        if_complete (str_eq (lower f.data_type) "array")
          (nested_array lower checked f (items below))
          (plain (nested_base lower f (validations lower f)))
          (both (covers (process_attributes lower below no_members) (required_names lower below))
            (all_complete (process_attributes lower below no_members))
            (process-covers lower below no_members h) (process_complete below no_members h refl))
          refl

  -- The schema of the subject requires only what it describes, and so does the schema of every object
  -- and array in it, if each required attribute of the form has a type that the builder describes and
  -- the keys of objects are the names of their properties.
  pub subject_members_complete :
      (attrs : Attributes)
      → all_sound lower attrs ≡ true
      → (covers (subject_members lower attrs) (subject_required lower attrs)
          && all_complete (subject_members lower attrs))
        ≡ true
  unfolding subject_members subject_required covers is_complete id_schema
  subject_members_complete attrs h =
      let ms = process_attributes lower attrs no_members in
      let id = id_schema lower in
      both
        (has (subject_members lower attrs) "id"
          && covers (subject_members lower attrs) (required_names lower attrs))
        (all_complete (subject_members lower attrs))
        (both (has (subject_members lower attrs) "id")
          (covers (subject_members lower attrs) (required_names lower attrs))
          (has-put_self ms "id" id)
          (covers-put_member ms "id" id (required_names lower attrs)
            (process-covers lower attrs no_members h)))
        (all_complete-put_member ms "id" id (process_complete attrs no_members h refl) refl)
