-- ===== src/Offer/Tests.antt =====
-- Runs of the credential offers: one SD-JWT signed with a certificate.
use ngotag_platform.Offer.{
  ok, x5c, Signer, Certificate, BuiltCredential, find_template, missing_ids, find_signer,
  find_certificate, check_certificate, in_window, check_window, check_x5c, check_duration, or_build,
  with_dates,
}
use ngotag_platform.Offer.Build.{
  map_db_format, built_sd_jwt, sd_jwt_signed, build_sd_jwt_credential, build_as, build_credential,
  build_found, add_built, build_credentials,
}
use ngotag_platform.Offer.Disclosure.{
  sd_of, has_part, is_well_keyed, add_part, parts_of, build_disclosure_frame, lists, may_withhold,
  build_disclosure_frame-lists,
}
use ngotag_platform.Offer.Envelope.{
  pre_authorized, OfferRequest, Envelope, issuer_id, flow_of, envelope_of, with_flow,
  build_credential_offer_payload,
}
use ngotag_platform.Offer.Window.{answers_all, build_credential_offer_payload-answers}
use ngotag_platform.Template.{
  attribute, Attributes, no_attributes, attributes, sd_jwt_vc, Template, x509_p256,
}
use ngotag_platform.Template.Payload.{
  is_nil, validate_attributes, is_empty, validate_payload, fits, validate_payload-fits,
}
use ngotag_platform.Common.Json.{str, number, object, Fields, no_fields, field, lookup, put}
use ngotag_platform.Common.Find.{among}
use ngotag_platform.Common.{◌≡◌, refl, true, false, none, some, [], ◌∷◌, String}

abbrev same_text : String → String
same_text s = s

-- A name that is mandatory, and an address whose city may be withheld.
abbrev person_attributes : Attributes
person_attributes = attributes (attribute "name" true false none no_attributes) (
    attributes
      (attribute "address" false false none
        (attributes (attribute "city" true true none no_attributes) no_attributes))
      no_attributes)

abbrev pub person : Template
person = record {
  id = "t1";
  name = "Person";
  format = "dc+sd-jwt";
  signer_option = x509_p256;
  vct = "urn:person";
  doctype = "";
  attrs = person_attributes;
  namespaces = [];
}

abbrev person_payload : Fields
person_payload =
    field "name" (str "Ada")
      (field "address" (object (field "city" (str "Thimphu") no_fields)) no_fields)

abbrev pub signer : Signer
signer = record { method = x5c; chain = "cert" ∷ [] }

abbrev pub certificate : Certificate
certificate = record { certificate_base64 = "cert"; valid_from = 1000; expiry = 9000 }

abbrev pub person_request : OfferRequest
person_request = record {
  credentials =
      record {
        template_id = "t1";
        payload = person_payload;
        validity = some (record { valid_from = 2000; valid_until = 8000 });
      }
      ∷ [];
  no_auth = true;
  pre_authorized_flow = none;
  authorization_code_flow = none;
  public_issuer_id = some "issuer";
  is_revocable = some true;
}

abbrev built_person : BuiltCredential
built_person = record {
  supported_id = "Person-sdjwt";
  signer = signer;
  format = sd_jwt_vc;
  payload = field "name" (str "Ada") (
      field "address" (object (field "city" (str "Thimphu") no_fields)) (
        field "nbf" (number 2)
          (field "exp" (number 8) (field "vct" (str "urn:person") no_fields))));
  disclosure_frame = some (build_disclosure_frame person_attributes (some (object person_payload)));
}

abbrev pub person_envelope : Envelope
person_envelope = record {
  credentials = built_person ∷ [];
  public_issuer_id = some "issuer";
  is_revocable = some true;
  flow = pre_authorized none none;
}

pub person_offer :
    build_credential_offer_payload same_text same_text person_request
      (person ∷ [])
      none
      (signer ∷ [])
      (certificate ∷ [])
    ≡ ok person_envelope
unfolding build_credential_offer_payload build_credentials build_found add_built build_credential
    build_as find_template missing_ids map_db_format among find_signer find_certificate in_window
    check_certificate check_window check_x5c check_duration or_build with_dates built_sd_jwt
    sd_jwt_signed build_sd_jwt_credential with_flow flow_of envelope_of issuer_id validate_payload
    validate_attributes is_empty lookup put build_disclosure_frame sd_of parts_of add_part has_part
person_offer = refl

build_credential_offer_payload-answers_example :
    answers_all same_text same_text
      (person ∷ [])
      (certificate ∷ [])
      person_request.credentials
      person_envelope.credentials
    ≡ true
build_credential_offer_payload-answers_example =
    build_credential_offer_payload-answers same_text same_text (person ∷ []) (signer ∷ [])
      (certificate ∷ []) person_request none person_envelope person_offer

validate_payload-fits_example :
    is_nil (validate_payload same_text person person_payload) ≡ fits same_text person person_payload
validate_payload-fits_example = validate_payload-fits same_text person person_payload

person-is_well_keyed : is_well_keyed person_attributes ≡ true
unfolding is_well_keyed
person-is_well_keyed = refl

build_disclosure_frame-lists_example :
    lists
      (build_disclosure_frame person_attributes (some (object person_payload)))
      ("address" ∷ "city" ∷ [])
    ≡ may_withhold person_attributes (some (object person_payload)) ("address" ∷ "city" ∷ [])
build_disclosure_frame-lists_example =
    build_disclosure_frame-lists person_attributes (some (object person_payload))
      ("address" ∷ "city" ∷ []) person-is_well_keyed

-- The city, and nothing else, may be withheld.
city_withheld :
    may_withhold person_attributes (some (object person_payload)) ("address" ∷ "city" ∷ []) ≡ true
unfolding may_withhold lookup
city_withheld = refl
