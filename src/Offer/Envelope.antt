-- ===== src/Offer/Envelope.antt =====
-- apps/oid4vc-issuance/libs/helpers/credential-sessions.builder.ts, `buildCredentialOfferPayload`: the
-- envelope of an offer and its authorization flow. A record given is truthy, whatever it holds.
use ngotag_platform.Offer.{
  unknown_templates, blank_server, not_one_flow, Result, ok, err, Signer, Certificate,
  CredentialRequest, BuiltCredential, missing_ids,
}
use ngotag_platform.Offer.Build.{build_credentials}
use ngotag_platform.Template.{Template}
use ngotag_platform.Template.Payload.{is_nil}
use ngotag_platform.Common.{
  ℕ, Bool, not, Option, none, some, List, String, str_eq, if◌then◌else◌, or_else,
}

pub record TxCode : Type 0 where
  pub description : Option String
  pub code_length : ℕ
  pub input_mode : String

abbrev default_tx_code : TxCode
default_tx_code = record { description = some "test abc"; code_length = 4; input_mode = "numeric" }

-- The configuration of the flow with a code agreed beforehand, and that of the flow with a login.
pub data Flow : Type 0 where
  pre_authorized : (tx_code : Option TxCode) (server : Option String) → Flow
  authorization_code : (server : String) → Flow

pub record PreAuthorized : Type 0 where
  pub tx_code : TxCode
  pub server : String

-- `no_auth` is whether `authorizationType` is 'noAuth'.
pub record OfferRequest : Type 0 where
  pub credentials : List CredentialRequest
  pub no_auth : Bool
  pub pre_authorized_flow : Option PreAuthorized
  pub authorization_code_flow : Option String
  pub public_issuer_id : Option String
  pub is_revocable : Option Bool

pub record Issuer : Type 0 where
  pub public_id : String
  pub server_url : Option String

pub record Envelope : Type 0 where
  pub credentials : List BuiltCredential
  pub public_issuer_id : Option String
  pub is_revocable : Option Bool
  pub flow : Flow

-- `a ?? b`
-- An empty identifier is left out of the envelope.
abbrev given_id : Option String → Option String
given_id none = none
given_id (some id) = if str_eq id "" then none else some id

unfoldable pub issuer_id : OfferRequest → Option Issuer → Option String
issuer_id dto none = given_id dto.public_issuer_id
issuer_id dto (some i) = given_id (or_else dto.public_issuer_id (some i.public_id))

-- The server of the issuer, if it is truthy.
pub override_server : Option Issuer → Option String
override_server none = none
override_server (some i) = elim i.server_url [
  | none ↦ none
  | some url ↦ if str_eq url "" then none else some url
]

-- Exactly one of the two flows of the request.
requested_flow : Option PreAuthorized → Option String → Result Flow
requested_flow none none = err not_one_flow
requested_flow (some p) (some server) = err not_one_flow
requested_flow (some p) none = ok (pre_authorized (some p.tx_code) (some p.server))
requested_flow none (some server) = ok (authorization_code server)

module _ (trim : String → String) where
  pub server_flow : Option String → OfferRequest → Result Flow
  server_flow none dto = requested_flow dto.pre_authorized_flow dto.authorization_code_flow
  server_flow (some url) dto =
      if str_eq (trim url) ""
      then err blank_server
      else ok (pre_authorized (some default_tx_code) (some url))

  unfoldable pub flow_of : OfferRequest → Option Issuer → Result Flow
  flow_of dto issuer =
      if dto.no_auth
      then ok (pre_authorized none none)
      else server_flow (override_server issuer) dto

unfoldable pub envelope_of : OfferRequest → Option Issuer → List BuiltCredential → Flow → Envelope
envelope_of dto issuer built flow = record {
  credentials = built;
  public_issuer_id = issuer_id dto issuer;
  is_revocable = dto.is_revocable;
  flow = flow;
}

unfoldable pub with_flow :
    Result (List BuiltCredential) → Result Flow → OfferRequest → Option Issuer → Result Envelope
with_flow (err e) flow dto issuer = err e
with_flow (ok built) (err e) dto issuer = err e
with_flow (ok built) (ok flow) dto issuer = ok (envelope_of dto issuer built flow)

module _ (trim lower : String → String) where
  -- `buildCredentialOfferPayload`
  unfoldable pub build_credential_offer_payload :
      OfferRequest
      → List Template
      → Option Issuer
      → List Signer
      → List Certificate
      → Result Envelope
  build_credential_offer_payload dto templates issuer signers certificates =
      if not (is_nil (missing_ids templates dto.credentials))
      then err (unknown_templates (missing_ids templates dto.credentials))
      else with_flow (build_credentials trim lower templates signers certificates dto.credentials)
          (flow_of trim dto issuer) dto issuer
