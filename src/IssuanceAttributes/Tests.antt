-- ===== src/IssuanceAttributes/Tests.antt =====
-- The number 0 fails where it is required.
use ngotag_platform.IssuanceAttributes.{
  SchemaAttribute, mismatched_attributes, empty_value, validate_attributes, missing_all,
  mismatched_all, missing_of, mismatch_of,
}
use ngotag_platform.IssuanceAttributes.Conform.{
  conforms_all, all_defined, is_valid, validate_attributes-conforms,
}
use ngotag_platform.Common.Json.{number, Fields, no_fields, field, lookup}
use ngotag_platform.Common.{◌≡◌, refl, true, List, [], ◌∷◌, ◌&&◌}

abbrev score : List SchemaAttribute
score = record { name = "score"; data_type = "number"; is_required = true } ∷ []

abbrev zero_score : Fields
zero_score = field "score" (number 0) no_fields

zero_refused :
    validate_attributes score zero_score ≡ mismatched_attributes (empty_value "score" ∷ [])
unfolding validate_attributes missing_all mismatched_all missing_of mismatch_of lookup
zero_refused = refl

validate_attributes-conforms_example :
    is_valid (validate_attributes score zero_score)
    ≡ (conforms_all score zero_score && all_defined score zero_score)
validate_attributes-conforms_example = validate_attributes-conforms score zero_score
