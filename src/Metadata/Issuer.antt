-- ===== src/Metadata/Issuer.antt =====
-- apps/oid4vc-issuance/libs/helpers/issuer.metadata.ts, `buildIssuerPayload`: the metadata of an issuer.
use ngotag_platform.Common.Json.{Value, str, list, Items, no_items, item, member}
use ngotag_platform.Common.{
  ℕ, Bool, true, false, ◌&&◌, Option, none, some, List, [], ◌∷◌, String, str_eq, if◌then◌else◌,
}
use ngotag_platform.Metadata.{Configuration, coerce_json_object}

-- The issuer's row: `metadata` is its display, as JSON.
pub record IssuerRow : Type 0 where
  pub public_issuer_id : String
  pub metadata : Option Value
  pub batch_size : Option ℕ

pub record IssuerPayload : Type 0 where
  pub display : Items
  pub dpop_algs : List String
  pub configurations : List (String × Configuration)
  pub batch_size : ℕ

abbrev pub is_text : Option Value → Bool
is_text (some (str s)) = true
is_text v = false

are_displays : Items → Bool
are_displays no_items = true
are_displays (item v vs) = is_text (member (some v) "name") && are_displays vs

display_items : Option Value → Items
display_items (some (list vs)) = if are_displays vs then vs else no_items
display_items v = no_items

abbrev default_dpop_algs : List String
default_dpop_algs = "RS256" ∷ "ES256" ∷ []

abbrev value_or {ℓ} : {A : Type ℓ} → Option A → A → A
value_or none d = d
value_or (some a) d = a

-- `buildIssuerPayload`, which throws where the issuer has no identifier.
build_issuer_payload :
    (String → Option Value)
    → List (String × Configuration)
    → IssuerRow
    → Option (List String)
    → Option IssuerPayload
build_issuer_payload parse configs issuer algs =
    if str_eq issuer.public_issuer_id ""
    then none
    else some (record {
      display = display_items (coerce_json_object parse issuer.metadata);
      dpop_algs = value_or algs default_dpop_algs;
      configurations = configs;
      batch_size = value_or issuer.batch_size 0;
    })
