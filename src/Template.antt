-- ===== src/Template.antt =====
-- The templates of credentials: apps/oid4vc-issuance/interfaces/oid4vc-template.interfaces.ts, the
-- rows `credential_templates` of the database, and the two spellings of a format.
pub mod Payload
use ngotag_platform.Common.{
  Bool, true, false, ◌||◌, Option, none, some, List, [], ◌∷◌, String, str_eq, if◌then◌else◌,
}

-- `children` that are absent are an empty list.
mutual
  pub data Attribute : Type 0 where
    attribute :
        (key : String) (mandatory disclose : Bool) (display : Option String) (children : Attributes)
        → Attribute

  pub data Attributes : Type 0 where
    no_attributes : Attributes
    attributes : Attribute → Attributes → Attributes

pub record Namespace : Type 0 where
  pub name : String
  pub attrs : Attributes

pub data CredentialFormat : Type 0 where
  sd_jwt_vc mdoc : CredentialFormat

pub data SignerOption : Type 0 where
  did_signer x509_p256 x509_ed25519 : SignerOption

-- A row, with the `attributes` of the two kinds of template: those of an SD-JWT and those of an mdoc.
pub record Template : Type 0 where
  pub id : String
  pub name : String
  pub format : String
  pub signer_option : SignerOption
  pub vct : String
  pub doctype : String
  pub attrs : Attributes
  pub namespaces : List Namespace

-- The texts of the enumeration `CredentialFormat`.
abbrev pub format_text : CredentialFormat → String
format_text sd_jwt_vc = "dc+sd-jwt"
format_text mdoc = "mso_mdoc"
