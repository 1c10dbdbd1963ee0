-- ===== src/CredentialSchema/Cover.antt =====
-- apps/ledger/libs/helpers/w3c.schema.builder.ts: the forms for which the schema is meant, and which
-- properties of a level are described.
use ngotag_platform.CredentialSchema.{
  Attribute, attribute, Attributes, no_attributes, attributes, Items, no_items, items, Properties,
  no_properties, properties, Entries, no_entries, entries, Schema, Members, no_members, member,
  put_member, name_of, is_required_of, is_simple, required_names, required_by_name, required_by_key,
  add_schema, process_attributes, schema_of, item_members, item_schema, nested_members,
  nested_schema,
}
use ngotag_platform.Common.{
  ◌≡◌, refl, sym, ap, ◌∙◌, Bool, true, false, not, ◌&&◌, ◌||◌, Option, none, some, List, [], ◌∷◌,
  String, str_eq, eq_iff, arith, Bool-cases, Option-cases, inl, inr, if◌then◌else◌, is_some,
}

unfoldable pub has : Members → String → Bool
has no_members j = false
has (member k s ms) j = str_eq k j || has ms j

unfoldable pub covers : Members → List String → Bool
covers ms [] = true
covers ms (j ∷ js) = has ms j && covers ms js

abbrev has_items : Items → Bool
has_items no_items = false
has_items (items below) = true

abbrev has_properties : Properties → Bool
has_properties no_properties = false
has_properties (properties es) = true

module _ (lower : String → String) where
  -- The type of the attribute is one that the builder describes.
  unfoldable pub is_described : Attribute → Bool
  is_described (attribute f its ps) =
      let t = lower f.data_type in
      is_simple lower t
      || str_eq t "datetime-local"
      || (str_eq t "array" && has_items its)
      || (str_eq t "object" && has_properties ps)

  -- A form for which the schema is meant: a required attribute is described, and the properties of an
  -- object of the first level have their names as keys; so below.
  unfoldable mutual
    pub all_sound : Attributes → Bool
    all_sound no_attributes = true
    all_sound (attributes a rest) =
        (not (is_required_of a) || is_described a) && is_sound_attribute a && all_sound rest

    pub is_sound_attribute : Attribute → Bool
    is_sound_attribute (attribute f its ps) = sound_items its && sound_properties true ps

    pub sound_items : Items → Bool
    sound_items no_items = true
    sound_items (items below) = sound_item_list below

    pub sound_item_list : Attributes → Bool
    sound_item_list no_attributes = true
    sound_item_list (attributes a rest) = sound_item a && sound_item_list rest

    pub sound_item : Attribute → Bool
    sound_item (attribute f its ps) = sound_properties false ps

    pub sound_properties : Bool → Properties → Bool
    sound_properties keyed no_properties = true
    sound_properties keyed (properties es) = sound_entries keyed es

    pub sound_entries : Bool → Entries → Bool
    sound_entries keyed no_entries = true
    sound_entries keyed (entries key a rest) =
        (not keyed || str_eq key (name_of a)) && sound_entry a && sound_entries keyed rest

    pub sound_entry : Attribute → Bool
    sound_entry (attribute f no_items ps) = true
    sound_entry (attribute f (items below) ps) = all_sound below

true-ne-false : true ≡ false → ⊥
true-ne-false h = cc

pub has-put_member :
    (ms : Members) (k : String) (s : Schema) (j : String)
    → has (put_member ms k s) j ≡ (str_eq k j || has ms j)
unfolding has put_member
has-put_member no_members k s j = refl
has-put_member (member i t ms) k s j =
    ground (arith, eq_iff i k, eq_iff i j, eq_iff k j, has-put_member ms k s j)

pub has-put_self : (ms : Members) (k : String) (s : Schema) → has (put_member ms k s) k ≡ true
has-put_self ms k s = rw (has-put_member ms k s k, (eq_iff k k).1 refl) refl

first_of : (a b c : Bool) → (a && b && c) ≡ true → a ≡ true
first_of a b c h = ground arith

pub second_of : (a b c : Bool) → (a && b && c) ≡ true → b ≡ true
second_of a b c h = ground arith

pub third_of : (a b c : Bool) → (a && b && c) ≡ true → c ≡ true
third_of a b c h = ground arith

modus : (a b : Bool) → (not a || b) ≡ true → a ≡ true → b ≡ true
modus a b h e = ground arith

array-not_object : (t : String) → (not (str_eq t "array") || not (str_eq t "object")) ≡ true
array-not_object t = elim (Bool-cases (str_eq t "array")) [
  | inl e ↦ rw ((eq_iff t "array").0 e) refl
  | inr e ↦ rw (e) refl
]

covers-if :
    (ms : Members) (r : Bool) (j : String) (js : List String)
    → (r ≡ true → has ms j ≡ true)
    → covers ms js ≡ true
    → covers ms (if r then j ∷ js else js) ≡ true
unfolding covers
covers-if ms true j js h c = ground arith
covers-if ms false j js h c = c

module _ (lower : String → String) where
  process-keeps :
      (attrs : Attributes) (ms : Members) (j : String)
      → has ms j ≡ true
      → has (process_attributes lower attrs ms) j ≡ true
  unfolding process_attributes add_schema
  process-keeps no_attributes ms j h = h
  process-keeps (attributes a rest) ms j h = elim (Option-cases (schema_of lower a)) [
    | inl e ↦ rw (e) (process-keeps rest ms j h)
    | inr (s, e) ↦ rw (e) (
        process-keeps rest (put_member ms (name_of a) s) j
          (ground (arith, has-put_member ms (name_of a) s j)))
  ]

  described : (a : Attribute) → is_described lower a ≡ true → is_some (schema_of lower a) ≡ true
  unfolding is_described process_attributes
  described (attribute f no_items no_properties) h = ground arith
  described (attribute f (items below) no_properties) h = ground arith
  described (attribute f no_items (properties es)) h =
      let apart = array-not_object (lower f.data_type) in ground arith
  described (attribute f (items below) (properties es)) h = ground arith

  -- The members after an attribute have it, if it is required.
  added :
      (a : Attribute) (ms : Members) (o : Option Schema)
      → schema_of lower a ≡ o
      → (not (is_required_of a) || is_described lower a) ≡ true
      → is_required_of a ≡ true
      → has (add_schema lower (name_of a) o ms) (name_of a) ≡ true
  unfolding add_schema
  added a ms none e h r =
      let some_schema = described a (modus (is_required_of a) (is_described lower a) h r) in
      absurd (true-ne-false (sym some_schema ∙ ap is_some e))
  added a ms (some s) e h r =
      rw (has-put_member ms (name_of a) s (name_of a), (eq_iff (name_of a) (name_of a)).1 refl) refl

  pub process-covers :
      (attrs : Attributes) (ms : Members)
      → all_sound lower attrs ≡ true
      → covers (process_attributes lower attrs ms) (required_names lower attrs) ≡ true
  unfolding process_attributes required_names all_sound covers
  process-covers no_attributes ms h = refl
  process-covers (attributes a rest) ms h =
      let ms' = add_schema lower (name_of a) (schema_of lower a) ms in
      let one =
        first_of (not (is_required_of a) || is_described lower a) (is_sound_attribute lower a)
          (all_sound lower rest) h in
      let more =
        third_of (not (is_required_of a) || is_described lower a) (is_sound_attribute lower a)
          (all_sound lower rest) h in
      covers-if (process_attributes lower rest ms') (is_required_of a) (name_of a)
        (required_names lower rest)
        (λ r. process-keeps rest ms' (name_of a) (added a ms (schema_of lower a) refl one r))
        (process-covers rest ms' more)

  items-keeps :
      (attrs : Attributes) (ms : Members) (j : String)
      → has ms j ≡ true
      → has (item_members lower attrs ms) j ≡ true
  unfolding process_attributes
  items-keeps no_attributes ms j h = h
  items-keeps (attributes a rest) ms j h =
      let s = item_schema lower a in
      items-keeps rest (put_member ms (name_of a) s) j
        (ground (arith, has-put_member ms (name_of a) s j))

  pub items-covers :
      (attrs : Attributes) (ms : Members)
      → covers (item_members lower attrs ms) (required_names lower attrs) ≡ true
  unfolding process_attributes required_names covers
  items-covers no_attributes ms = refl
  items-covers (attributes a rest) ms =
      let ms' = put_member ms (name_of a) (item_schema lower a) in
      covers-if (item_members lower rest ms') (is_required_of a) (name_of a)
        (required_names lower rest)
        (λ r. items-keeps rest ms' (name_of a) (has-put_self ms (name_of a) (item_schema lower a)))
        (items-covers rest ms')

  nested-keeps :
      (checked : Bool) (es : Entries) (ms : Members) (j : String)
      → has ms j ≡ true
      → has (nested_members lower checked es ms) j ≡ true
  unfolding process_attributes
  nested-keeps checked no_entries ms j h = h
  nested-keeps checked (entries key a rest) ms j h =
      let s = nested_schema lower checked a in
      nested-keeps checked rest (put_member ms (name_of a) s) j
        (ground (arith, has-put_member ms (name_of a) s j))

  pub nested-covers_name :
      (checked : Bool) (es : Entries) (ms : Members)
      → covers (nested_members lower checked es ms) (required_by_name lower es) ≡ true
  unfolding process_attributes required_by_name covers
  nested-covers_name checked no_entries ms = refl
  nested-covers_name checked (entries key a rest) ms =
      let ms' = put_member ms (name_of a) (nested_schema lower checked a) in
      covers-if (nested_members lower checked rest ms') (is_required_of a) (name_of a)
        (required_by_name lower rest)
        (λ r.
          nested-keeps checked rest ms' (name_of a)
            (has-put_self ms (name_of a) (nested_schema lower checked a)))
        (nested-covers_name checked rest ms')

  pub nested-covers_key :
      (checked : Bool) (es : Entries) (ms : Members)
      → sound_entries lower true es ≡ true
      → covers (nested_members lower checked es ms) (required_by_key lower es) ≡ true
  unfolding process_attributes required_by_key covers all_sound
  nested-covers_key checked no_entries ms h = refl
  nested-covers_key checked (entries key a rest) ms h =
      let ms' = put_member ms (name_of a) (nested_schema lower checked a) in
      let same = (eq_iff key (name_of a)).0 (
        first_of (str_eq key (name_of a)) (sound_entry lower a) (sound_entries lower true rest)
          h) in
      let more =
        third_of (str_eq key (name_of a)) (sound_entry lower a) (sound_entries lower true rest) h in
      covers-if (nested_members lower checked rest ms') (is_required_of a) key
        (required_by_key lower rest)
        (λ r.
          nested-keeps checked rest ms' key
            (rw (same) (has-put_self ms (name_of a) (nested_schema lower checked a))))
        (nested-covers_key checked rest ms' more)
