-- ===== src/Metadata/Tests.antt =====
-- The metadata of the template whose offer is the run of Offer/Tests.
use ngotag_platform.Metadata.{
  Configuration, TemplateRow, config_key, config_format, build_credential_config,
  build_claims_from_template, add_configuration, assign, display_configurations, mapped_displays,
  coerce_json_object, build_configurations, build_credential_configurations_supported,
}
use ngotag_platform.Metadata.Claims.{briefs, row_demands, build_claims_from_template-demands}
use ngotag_platform.Metadata.Configured.{
  templates_of, is_exact, all_exact, all_configured, build_credential_offer_payload-configured,
}
use ngotag_platform.Offer.Tests.{
  person, person_request, signer, certificate, person_envelope, person_offer,
}
use ngotag_platform.Template.{sd_jwt_vc}
use ngotag_platform.Common.Json.{Value, object, no_fields, lookup}
use ngotag_platform.Common.{◌≡◌, refl, true, false, Option, none, some, List, [], ◌∷◌, String}

abbrev same_text : String → String
same_text s = s

abbrev no_json : String → Option Value
no_json s = none

abbrev person_row : TemplateRow
person_row = record { template = person; namespaced = false; appearance = some (object no_fields) }

abbrev person_configurations : List (String × Configuration)
person_configurations = ("Person-sdjwt", build_credential_config person_row [] sd_jwt_vc) ∷ []

person_metadata :
    build_credential_configurations_supported no_json (person_row ∷ []) ≡ some person_configurations
unfolding build_credential_configurations_supported build_configurations add_configuration assign
    config_key config_format display_configurations mapped_displays coerce_json_object lookup
person_metadata = refl

exact_formats : all_exact (templates_of (person_row ∷ [])) ≡ true
unfolding all_exact is_exact templates_of
exact_formats = refl

build_credential_offer_payload-configured_example :
    all_configured person_configurations person_envelope.credentials ≡ true
unfolding templates_of
build_credential_offer_payload-configured_example =
    build_credential_offer_payload-configured same_text same_text no_json (person_row ∷ [])
      person_configurations (signer ∷ []) (certificate ∷ []) person_request none person_envelope
      refl refl exact_formats person_metadata person_offer

build_claims_from_template-demands_example :
    briefs (build_claims_from_template person_row) ≡ row_demands person_row
build_claims_from_template-demands_example = build_claims_from_template-demands person_row
