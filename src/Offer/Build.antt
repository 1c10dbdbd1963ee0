-- ===== src/Offer/Build.antt =====
-- apps/oid4vc-issuance/libs/helpers/credential-sessions.builder.ts: the builders of a credential, for the
-- two formats, and of the credentials of an offer.
use ngotag_platform.Common.Json.{str, object, put}
use ngotag_platform.Offer.Disclosure.{build_disclosure_frame}
use ngotag_platform.Template.{CredentialFormat, sd_jwt_vc, mdoc, Template}
use ngotag_platform.Template.Payload.{is_nil, validate_payload}
use ngotag_platform.Common.Find.{among}
use ngotag_platform.Common.{not, Option, none, some, List, [], ◌∷◌, String, if◌then◌else◌}
use ngotag_platform.Offer.{
  Result, Signer, Certificate, Validity, CredentialRequest, sd_jwt_names, mdoc_names,
  expected_method, find_signer, check_window, check_x5c, check_duration, or_build, supported_id_of,
  BuiltCredential, validity_value, with_dates, find_template, unknown_templates, invalid_payload,
  ok, err, unknown_templates, invalid_payload, unsupported_format, signer_not_configured,
  validity_required, x5c_required,
}

module _ (trim lower : String → String) where
  -- `mapDbFormatToApiFormat`
  unfoldable pub map_db_format : String → Option CredentialFormat
  map_db_format format =
      if among sd_jwt_names (lower format)
      then some sd_jwt_vc
      else if among mdoc_names (lower format)
      then some mdoc
      else none

  unfoldable pub built_sd_jwt :
      CredentialRequest → Template → Signer → CredentialFormat → BuiltCredential
  built_sd_jwt r t s format =
      let payload = put (with_dates r.payload r.validity) "vct" (str t.vct) in
      record {
        supported_id = supported_id_of t.name format;
        signer = s;
        format = format;
        payload = payload;
        disclosure_frame = some (build_disclosure_frame t.attrs (some (object payload)));
      }

  unfoldable pub sd_jwt_signed :
      CredentialRequest
      → Template
      → List Certificate
      → CredentialFormat
      → Option Signer
      → Result BuiltCredential
  sd_jwt_signed r t certs format none = err signer_not_configured
  sd_jwt_signed r t certs format (some s) =
      or_build (check_x5c (expected_method t.signer_option) r.validity certs s)
        (or_build (check_duration r.validity) (ok (built_sd_jwt r t s format)))

  -- `buildSdJwtCredential`
  unfoldable pub build_sd_jwt_credential :
      CredentialRequest
      → Template
      → List Signer
      → List Certificate
      → CredentialFormat
      → Result BuiltCredential
  build_sd_jwt_credential r t signers certs format =
      sd_jwt_signed r t certs format (find_signer signers (expected_method t.signer_option))

  unfoldable pub built_mdoc :
      CredentialRequest → Template → Signer → Validity → CredentialFormat → BuiltCredential
  built_mdoc r t s v format = record {
    supported_id = supported_id_of t.name format;
    signer = s;
    format = format;
    payload = put r.payload "validityInfo" (validity_value v);
    disclosure_frame = none;
  }

  unfoldable pub mdoc_signed :
      CredentialRequest
      → Template
      → Validity
      → List Signer
      → List Certificate
      → CredentialFormat
      → Result BuiltCredential
  mdoc_signed r t v [] certs format = err x5c_required
  mdoc_signed r t v (s ∷ ss) certs format =
      if is_nil s.chain
      then err x5c_required
      else or_build (check_window v certs s) (ok (built_mdoc r t s v format))

  unfoldable pub mdoc_given :
      CredentialRequest
      → Template
      → Option Validity
      → List Signer
      → List Certificate
      → CredentialFormat
      → Result BuiltCredential
  mdoc_given r t none signers certs format = err validity_required
  mdoc_given r t (some v) signers certs format = mdoc_signed r t v signers certs format

  -- `buildMdocCredential`, which signs with the first signer.
  unfoldable pub build_mdoc_credential :
      CredentialRequest
      → Template
      → List Signer
      → List Certificate
      → CredentialFormat
      → Result BuiltCredential
  build_mdoc_credential r t signers certs format = mdoc_given r t r.validity signers certs format

  unfoldable pub build_as :
      CredentialRequest
      → Template
      → List Signer
      → List Certificate
      → Option CredentialFormat
      → Result BuiltCredential
  build_as r t signers certs none = err unsupported_format
  build_as r t signers certs (some sd_jwt_vc) = build_sd_jwt_credential r t signers certs sd_jwt_vc
  build_as r t signers certs (some mdoc) = build_mdoc_credential r t signers certs mdoc

  -- The body of the loop over the credentials.
  unfoldable pub build_credential :
      CredentialRequest → Template → List Signer → List Certificate → Result BuiltCredential
  build_credential r t signers certs =
      if not (is_nil (validate_payload trim t r.payload))
      then err (invalid_payload (validate_payload trim t r.payload))
      else build_as r t signers certs (map_db_format t.format)

  unfoldable pub build_found :
      Option Template → CredentialRequest → List Signer → List Certificate → Result BuiltCredential
  build_found none r signers certs = err (unknown_templates (r.template_id ∷ []))
  build_found (some t) r signers certs = build_credential r t signers certs

  unfoldable pub add_built :
      Result BuiltCredential → Result (List BuiltCredential) → Result (List BuiltCredential)
  add_built (err e) rest = err e
  add_built (ok b) (err e) = err e
  add_built (ok b) (ok bs) = ok (b ∷ bs)

  unfoldable pub build_credentials :
      List Template
      → List Signer
      → List Certificate
      → List CredentialRequest
      → Result (List BuiltCredential)
  build_credentials ts signers certs [] = ok []
  build_credentials ts signers certs (r ∷ rs) =
      add_built (build_found (find_template ts r.template_id) r signers certs)
        (build_credentials ts signers certs rs)
