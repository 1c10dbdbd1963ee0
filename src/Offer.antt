-- ===== src/Offer.antt =====
-- apps/oid4vc-issuance/libs/helpers/credential-sessions.builder.ts: the credential offer that a request
-- becomes. Dates are times in milliseconds. `trim` and `lower` are the methods of texts; the dates of
-- `validityInfo` are given together, as its type says.
pub mod Disclosure
pub mod Build
pub mod Envelope
pub mod Window
pub mod Tests
use Prim.Native.String.{◌++◌ as concat}
use ngotag_platform.Common.Json.{Value, number, str, object, Fields, no_fields, field, put}
use Disclosure.{Frame, build_disclosure_frame}
use ngotag_platform.Template.{
  CredentialFormat, sd_jwt_vc, mdoc, SignerOption, did_signer, x509_p256, x509_ed25519, Template,
  format_text,
}
use ngotag_platform.Template.Payload.{Problem, is_nil, validate_payload}
use ngotag_platform.Common.{
  ℕ, zero, suc, ◌+◌, ◌/◌, ◌≡◌, Bool, true, false, not, ◌&&◌, ◌||◌, Option, none, some, List, [],
  ◌∷◌, ◌++◌, String, str_eq, leb, if◌then◌else◌, is_some,
}

pub data Failure : Type 0 where
  unknown_templates : List String → Failure
  invalid_payload : List Problem → Failure
  unsupported_format signer_not_configured certificates_required no_matching_certificate : Failure
  outside_window invalid_duration validity_required x5c_required blank_server not_one_flow : Failure

pub data Result {ℓ} (A : Type ℓ) : Type ℓ where
  ok : A → Result A
  err : Failure → Result A

pub data Method : Type 0 where
  did x5c : Method

abbrev pub method_eq : Method → Method → Bool
method_eq did did = true
method_eq x5c x5c = true
method_eq _ _ = false

pub record Signer : Type 0 where
  pub method : Method
  pub chain : List String

pub record Certificate : Type 0 where
  pub certificate_base64 : String
  pub valid_from : ℕ
  pub expiry : ℕ

pub record Validity : Type 0 where
  pub valid_from : ℕ
  pub valid_until : ℕ

pub record CredentialRequest : Type 0 where
  pub template_id : String
  pub payload : Fields
  pub validity : Option Validity

abbrev pub sd_jwt_names : List String
sd_jwt_names = "sd-jwt" ∷ "dc+sd-jwt" ∷ "vc+sd-jwt" ∷ "sdjwt" ∷ "sd+jwt-vc" ∷ []

abbrev pub mdoc_names : List String
mdoc_names = "mso_mdoc" ∷ "mso-mdoc" ∷ "mdoc" ∷ []

-- `validateCredentialDatesInCertificateWindow`
pub in_window : Validity → Certificate → Bool
in_window v c =
    leb c.valid_from v.valid_from && leb v.valid_until c.expiry && leb v.valid_from v.valid_until

-- The Prisma option as the builder's method.
abbrev pub expected_method : SignerOption → Method
expected_method did_signer = did
expected_method x509_p256 = x5c
expected_method x509_ed25519 = x5c

pub find_signer : List Signer → Method → Option Signer
find_signer [] m = none
find_signer (s ∷ ss) m =
    let later = find_signer ss m in if method_eq s.method m then some s else later

-- `chain[0]`, and the certificate that it names.
pub find_certificate : List Certificate → List String → Option Certificate
find_certificate cs [] = none
find_certificate [] (x ∷ xs) = none
find_certificate (c ∷ cs) (x ∷ xs) =
    let later = find_certificate cs (x ∷ xs) in
    if str_eq c.certificate_base64 x then some c else later

abbrev pub is_x5c : Method → Bool
is_x5c x5c = true
is_x5c did = false

-- The checks of the dates against the certificate that signs.
pub check_certificate : Validity → Option Certificate → Option Failure
check_certificate v none = some no_matching_certificate
check_certificate v (some c) = if in_window v c then none else some outside_window

pub check_window : Validity → List Certificate → Signer → Option Failure
check_window v certs s =
    if is_nil certs
    then some certificates_required
    else check_certificate v (find_certificate certs s.chain)

pub check_x5c : Method → Option Validity → List Certificate → Signer → Option Failure
check_x5c did v certs s = none
check_x5c x5c none certs s = none
check_x5c x5c (some v) certs s = check_window v certs s

pub check_duration : Option Validity → Option Failure
check_duration none = none
check_duration (some v) = if leb v.valid_from v.valid_until then none else some invalid_duration

pub or_build {ℓ} : {A : Type ℓ} → Option Failure → Result A → Result A
or_build none r = r
or_build (some e) r = err e

abbrev format_suffix : CredentialFormat → String
format_suffix sd_jwt_vc = "-sdjwt"
format_suffix mdoc = "-mdoc"

-- The key of a credential configuration, of which an offer names one.
abbrev pub supported_id_of : String → CredentialFormat → String
supported_id_of name format = concat name (format_suffix format)

pub record BuiltCredential : Type 0 where
  pub supported_id : String
  pub signer : Signer
  pub format : CredentialFormat
  pub payload : Fields
  pub disclosure_frame : Option Frame

-- `validityInfo` in the payload of an mdoc.
pub validity_value : Validity → Value
validity_value v =
    object (
      field "validFrom" (number v.valid_from) (field "validUntil" (number v.valid_until) no_fields))

-- The dates as seconds: `nbf` and `exp`.
pub with_dates : Fields → Option Validity → Fields
with_dates payload none = payload
with_dates payload (some v) =
    put (put payload "nbf" (number (v.valid_from / 1000))) "exp" (number (v.valid_until / 1000))

-- A template of the database, by its id; of two with one id the later one stands in the map.
unfoldable pub find_template : List Template → String → Option Template
find_template [] id = none
find_template (t ∷ ts) id =
    let later = find_template ts id in
    if is_some later then later else if str_eq t.id id then some t else none

pub missing_ids : List Template → List CredentialRequest → List String
missing_ids ts [] = []
missing_ids ts (r ∷ rs) =
    let rest = missing_ids ts rs in
    if is_some (find_template ts r.template_id) then rest else r.template_id ∷ rest
