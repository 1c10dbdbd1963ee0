-- ===== src/CredentialSchema/Tests.antt =====
-- Forms and their schemas.
use ngotag_platform.CredentialSchema.{
  Facts, attribute, Attributes, no_attributes, attributes, no_items, items, no_properties,
  properties, Entries, no_entries, entries, no_members, required_names, required_by_key,
  process_attributes, put_member, nested_members, subject_members, subject_required, is_simple,
  add_schema,
}
use ngotag_platform.CredentialSchema.Cover.{has, covers, all_sound, is_described}
use ngotag_platform.CredentialSchema.Complete.{all_complete, subject_members_complete}
use ngotag_platform.Common.{◌≡◌, refl, true, false, ◌&&◌, none, [], ◌∷◌, String}

abbrev same_text : String → String
same_text s = s

abbrev facts : String → String → Facts
facts name data_type = record {
  name = name;
  data_type = data_type;
  is_required = true;
  display_name = "";
  description = none;
  min_length = none;
  max_length = none;
  pattern_text = none;
  minimum = none;
  exclusive_minimum = none;
  multiple_of = none;
  min_items = none;
  max_items = none;
  unique_items = none;
}

-- A name, an address of one city, and degrees of one title each.
abbrev person_form : Attributes
person_form = attributes (attribute (facts "name" "string") no_items no_properties) (
    attributes
      (attribute (facts "address" "object") no_items (
        properties
          (entries "city" (attribute (facts "city" "string") no_items no_properties) no_entries)))
      (attributes
        (attribute (facts "degrees" "array")
          (items
            (attributes (attribute (facts "title" "string") no_items no_properties) no_attributes))
          no_properties)
        no_attributes))

person_form_sound : all_sound same_text person_form ≡ true
unfolding all_sound is_described is_simple
person_form_sound = refl

subject_members_complete_example :
    (covers (subject_members same_text person_form) (subject_required same_text person_form)
      && all_complete (subject_members same_text person_form))
    ≡ true
subject_members_complete_example = subject_members_complete same_text person_form person_form_sound

-- A required array without items is required and not described.
abbrev bare_array : Attributes
bare_array = attributes (attribute (facts "tags" "array") no_items no_properties) no_attributes

bare_array-refuted :
    (required_names same_text bare_array ≡ "tags" ∷ [])
    × (process_attributes same_text bare_array no_members ≡ no_members)
unfolding required_names process_attributes is_simple add_schema
bare_array-refuted = (refl, refl)

-- An object whose key differs from the name of its property.
abbrev renamed : Entries
renamed = entries "town" (attribute (facts "city" "string") no_items no_properties) no_entries

renamed-refuted :
    covers (nested_members same_text true renamed no_members) (required_by_key same_text renamed)
    ≡ false
unfolding covers has nested_members put_member required_by_key
renamed-refuted = refl
