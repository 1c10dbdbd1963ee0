-- ===== src/Metadata.antt =====
-- apps/oid4vc-issuance/libs/helpers/issuer.metadata.ts: the metadata that an issuer publishes of its
-- credentials. Where the code reads a member of null it throws, and the result is none.
pub mod Issuer
pub mod Claims
pub mod Configured
mod Tests
use Prim.Native.String.{◌++◌ as concat}
use ngotag_platform.Common.Json.{Value, null, str, list, object, Items, no_items, item, member}
use ngotag_platform.Template.{
  Attribute, attribute, Attributes, no_attributes, attributes, Namespace, CredentialFormat,
  sd_jwt_vc, mdoc, Template, format_text,
}
use ngotag_platform.Template.Payload.{is_falsy}
use ngotag_platform.Common.{
  ℕ, Bool, true, false, ◌&&◌, ◌>>=◌, Option, none, some, List, [], ◌∷◌, ◌++◌, String, str_eq,
  if◌then◌else◌,
}

pub record Claim : Type 0 where
  pub path : List String
  pub display : Option String
  pub mandatory : Option Bool

-- `cose n` is the number -n.
pub data Algorithm : Type 0 where
  jose : String → Algorithm
  cose : ℕ → Algorithm

pub record Logo : Type 0 where
  pub uri : Option Value
  pub alt_text : Option Value

pub record Display : Type 0 where
  pub name : Option Value
  pub description : Option Value
  pub locale : Option Value
  pub logo : Option Logo
  pub background_image : Option Value
  pub background_color : Option Value
  pub text_color : Option Value

pub record Configuration : Type 0 where
  pub format : CredentialFormat
  pub scope : String
  pub vct : Option String
  pub doctype : Option String
  pub signing_algs : List Algorithm
  pub binding_methods : List String
  pub proof_algs : List String
  pub claims : List Claim
  pub display : List Display

-- A template and its `appearance`; `namespaced` is whether its attributes have a member `namespaces`.
pub record TemplateRow : Type 0 where
  pub template : Template
  pub namespaced : Bool
  pub appearance : Option Value

abbrev sd_jwt_algs : List Algorithm
sd_jwt_algs = jose "ES256" ∷ jose "EdDSA" ∷ []

abbrev mdoc_algs : List Algorithm
mdoc_algs = cose 7 ∷ cose 9 ∷ []

abbrev sd_jwt_bindings : List String
sd_jwt_bindings = "did:key" ∷ "did:web" ∷ "did:jwk" ∷ "jwk" ∷ []

abbrev mdoc_bindings : List String
mdoc_bindings = "cose_key" ∷ []

abbrev jwt_proof_algs : List String
jwt_proof_algs = "ES256" ∷ "EdDSA" ∷ []

-- An empty namespace is no prefix.
pub with_namespace : Option String → List String → List String
with_namespace none path = path
with_namespace (some n) path = if str_eq n "" then path else n ∷ path

abbrev pub mark : Bool → Option Bool
mark true = some true
mark false = none

abbrev claim_of : List String → Option String → Bool → Claim
claim_of path display mandatory = record {
  path = path;
  display = display;
  mandatory = mark mandatory;
}

pub generate_claims : Attributes → Option String → List String → List Claim
generate_claims no_attributes namespace parent = []
generate_claims (attributes (attribute key mandatory disclose display children) rest) namespace
      parent =
    let current = parent ++ (key ∷ []) in
    claim_of (with_namespace namespace current) display mandatory
    ∷ (generate_claims children namespace current ++ generate_claims rest namespace parent)

pub namespace_claims : List Namespace → List Claim
namespace_claims [] = []
namespace_claims (n ∷ ns) = generate_claims n.attrs (some n.name) [] ++ namespace_claims ns

pub build_claims_from_template : TemplateRow → List Claim
build_claims_from_template row =
    if row.namespaced
    then namespace_claims row.template.namespaces
    else generate_claims row.template.attrs none []

pub config_key : String → CredentialFormat → String
config_key name sd_jwt_vc = concat name "-sdjwt"
config_key name mdoc = concat name "-mdoc"

-- `buildCredentialConfig` of the two formats.
pub build_credential_config : TemplateRow → List Display → CredentialFormat → Configuration
build_credential_config row display sd_jwt_vc = record {
  format = sd_jwt_vc;
  scope = concat "openid4vc:" (concat row.template.vct "-sdjwt");
  vct = some row.template.vct;
  doctype = none;
  signing_algs = sd_jwt_algs;
  binding_methods = sd_jwt_bindings;
  proof_algs = jwt_proof_algs;
  claims = build_claims_from_template row;
  display = display;
}
build_credential_config row display mdoc = record {
  format = mdoc;
  scope = concat "openid4vc:" (concat row.template.doctype "-mdoc");
  vct = none;
  doctype = some row.template.doctype;
  signing_algs = mdoc_algs;
  binding_methods = mdoc_bindings;
  proof_algs = jwt_proof_algs;
  claims = build_claims_from_template row;
  display = display;
}

-- The format of a configuration: any but the exact text of an mdoc is an SD-JWT.
pub config_format : Template → CredentialFormat
config_format t = if str_eq t.format (format_text mdoc) then mdoc else sd_jwt_vc

logo_of : Option Value → Option Logo
logo_of v =
    if is_falsy v
    then none
    else some (record { uri = member v "uri"; alt_text = member v "alt_text" })

image_of : Option Value → Option Value
image_of v = if is_falsy (member v "uri") then none else member v "uri"

display_of : Value → Option Display
display_of null = none
display_of v = some (record {
  name = member (some v) "name";
  description = member (some v) "description";
  locale = member (some v) "locale";
  logo = logo_of (member (some v) "logo");
  background_image = image_of (member (some v) "background_image");
  background_color = member (some v) "background_color";
  text_color = member (some v) "text_color";
})

displays_of : Items → Option (List Display)
displays_of no_items = some []
displays_of (item v vs) = do d ← display_of v; ds ← displays_of vs; some (d ∷ ds)

-- `display?.map`, which only a list has.
pub mapped_displays : Option Value → Option (List Display)
mapped_displays none = some []
mapped_displays (some null) = some []
mapped_displays (some (list vs)) = displays_of vs
mapped_displays v = none

pub display_configurations : Option Value → Option (List Display)
display_configurations none = none
display_configurations (some null) = none
display_configurations v = mapped_displays (member v "display")

-- `Object.assign` of one key.
pub assign : List (String × Configuration) → String → Configuration → List (String × Configuration)
assign [] k c = (k, c) ∷ []
assign ((j, d) ∷ rest) k c =
    let later = assign rest k c in if str_eq j k then (j, c) ∷ rest else (j, d) ∷ later

pub add_configuration :
    TemplateRow → List (String × Configuration) → List Display → List (String × Configuration)
add_configuration row configs display =
    let format = config_format row.template in
    assign configs (config_key row.template.name format)
      (build_credential_config row display format)

module _ (parse : String → Option Value) where
  -- `JSON.parse` of a text that is no JSON throws, and null is the result.
  pub coerce_json_object : Option Value → Option Value
  coerce_json_object (some (str s)) = parse s
  coerce_json_object v = v

  pub build_configurations :
      List TemplateRow → List (String × Configuration) → Option (List (String × Configuration))
  build_configurations [] configs = some configs
  build_configurations (row ∷ rows) configs = do
    display ← display_configurations (coerce_json_object row.appearance)
    build_configurations rows (add_configuration row configs display)

  pub build_credential_configurations_supported :
      List TemplateRow → Option (List (String × Configuration))
  build_credential_configurations_supported rows = build_configurations rows []
