-- ===== src/Metadata/Configured.antt =====
-- apps/oid4vc-issuance/libs/helpers/issuer.metadata.ts and credential-sessions.builder.ts: the
-- configurations that offers name, against those that the metadata of the issuer holds.
use ngotag_platform.Metadata.{
  Configuration, Display, TemplateRow, config_key, build_credential_config, config_format,
  display_configurations, assign, add_configuration, coerce_json_object, build_configurations,
  build_credential_configurations_supported,
}
use ngotag_platform.Offer.{
  ok, Signer, Certificate, CredentialRequest, BuiltCredential, supported_id_of, find_template,
}
use ngotag_platform.Offer.Build.{map_db_format}
use ngotag_platform.Offer.Envelope.{OfferRequest, Issuer, Envelope, build_credential_offer_payload}
use ngotag_platform.Offer.Window.{
  is_mapped, answers_template, answers, answers_all, build_credential_offer_payload-answers,
}
use ngotag_platform.Template.{CredentialFormat, sd_jwt_vc, mdoc, Template, format_text}
use ngotag_platform.Common.Json.{Value}
use ngotag_platform.Common.Find.{among}
use ngotag_platform.Common.{
  ◌≡◌, refl, Bool, true, false, ◌&&◌, ◌||◌, Option, none, some, List, [], ◌∷◌, String, str_eq,
  eq_iff, arith, bind-some, Bool-cases, inl, inr,
}

pub has_key : List (String × Configuration) → String → Bool
has_key [] k = false
has_key ((j, c) ∷ rest) k = str_eq j k || has_key rest k

unfoldable pub templates_of : List TemplateRow → List Template
templates_of [] = []
templates_of (row ∷ rows) = row.template ∷ templates_of rows

-- The format is one of the two texts that the enumeration has.
unfoldable pub is_exact : Template → Bool
is_exact t = str_eq t.format (format_text sd_jwt_vc) || str_eq t.format (format_text mdoc)

unfoldable pub all_exact : List Template → Bool
all_exact [] = true
all_exact (t ∷ ts) = is_exact t && all_exact ts

pub all_configured : List (String × Configuration) → List BuiltCredential → Bool
all_configured configs [] = true
all_configured configs (b ∷ bs) = has_key configs b.supported_id && all_configured configs bs

key_of : Template → String
key_of t = config_key t.name (config_format t)

all_keyed : List (String × Configuration) → List Template → Bool
all_keyed configs [] = true
all_keyed configs (t ∷ ts) = has_key configs (key_of t) && all_keyed configs ts

has_key-assign :
    (configs : List (String × Configuration)) (j : String) (c : Configuration) (k : String)
    → has_key (assign configs j c) k ≡ (str_eq j k || has_key configs k)
unfolding has_key assign
has_key-assign [] j c k = refl
has_key-assign ((i, d) ∷ rest) j c k =
    ground (arith, eq_iff i j, eq_iff i k, eq_iff j k, has_key-assign rest j c k)

add_configuration-keeps :
    (row : TemplateRow) (configs : List (String × Configuration)) (d : List Display) (k : String)
    → has_key configs k ≡ true
    → has_key (add_configuration row configs d) k ≡ true
unfolding add_configuration
add_configuration-keeps row configs d k e = ground (
  arith,
  has_key-assign configs (config_key row.template.name (config_format row.template))
      (build_credential_config row d (config_format row.template)) k,
)

add_configuration-adds :
    (row : TemplateRow) (configs : List (String × Configuration)) (d : List Display)
    → has_key (add_configuration row configs d) (key_of row.template) ≡ true
unfolding add_configuration key_of
add_configuration-adds row configs d =
    let k = config_key row.template.name (config_format row.template) in
    ground (
      arith,
      eq_iff k k,
      has_key-assign configs k (build_credential_config row d (config_format row.template)) k,
    )

module _ (parse : String → Option Value) where
  kept :
      (rows : List TemplateRow) (configs m : List (String × Configuration)) (k : String)
      → build_configurations parse rows configs ≡ some m
      → has_key configs k ≡ true
      → has_key m k ≡ true
  unfolding build_configurations
  kept [] configs m k h e = ground arith
  kept (row ∷ rows) configs m k h e =
      let (d, one, rest) =
        bind-some (display_configurations (coerce_json_object parse row.appearance))
          (λ d. build_configurations parse rows (add_configuration row configs d)) m h in
      kept rows (add_configuration row configs d) m k rest
        (add_configuration-keeps row configs d k e)

  keyed :
      (rows : List TemplateRow) (configs m : List (String × Configuration))
      → build_configurations parse rows configs ≡ some m
      → all_keyed m (templates_of rows) ≡ true
  unfolding build_configurations all_keyed templates_of
  keyed [] configs m h = refl
  keyed (row ∷ rows) configs m h =
      let (d, one, rest) =
        bind-some (display_configurations (coerce_json_object parse row.appearance))
          (λ d. build_configurations parse rows (add_configuration row configs d)) m h in
      let here =
        kept rows (add_configuration row configs d) m (key_of row.template) rest
          (add_configuration-adds row configs d) in
      let later = keyed rows (add_configuration row configs d) m rest in ground arith

-- A template that is found is one of the list.
found :
    (m : List (String × Configuration)) (ts : List Template) (id : String) (t : Template)
    → find_template ts id ≡ some t
    → all_exact ts ≡ true
    → all_keyed m ts ≡ true
    → (is_exact t && has_key m (key_of t)) ≡ true
unfolding find_template all_exact all_keyed
found m [] id t h x y = absurd (ground arith)
found m (s ∷ ts) id t h x y = let ih = found m ts id t in ground arith

mapped_sd_jwt :
    (trim lower : String → String) (f : String)
    → lower "dc+sd-jwt" ≡ "dc+sd-jwt"
    → str_eq f "dc+sd-jwt" ≡ true
    → map_db_format trim lower f ≡ some sd_jwt_vc
unfolding map_db_format among
mapped_sd_jwt trim lower f a e = rw ((eq_iff f "dc+sd-jwt").0 e, a) refl

mapped_mdoc :
    (trim lower : String → String) (f : String)
    → lower "mso_mdoc" ≡ "mso_mdoc"
    → str_eq f "mso_mdoc" ≡ true
    → map_db_format trim lower f ≡ some mdoc
unfolding map_db_format among
mapped_mdoc trim lower f a e = rw ((eq_iff f "mso_mdoc").0 e, a) refl

not_mdoc : (f : String) → str_eq f "dc+sd-jwt" ≡ true → str_eq f "mso_mdoc" ≡ false
not_mdoc f e = rw ((eq_iff f "dc+sd-jwt").0 e) refl

named :
    (name : String) (o : Option CredentialFormat) (f g : CredentialFormat)
    → o ≡ some f
    → is_mapped o g ≡ true
    → supported_id_of name g ≡ config_key name f
unfolding is_mapped config_key
named name none f g e m = absurd (ground arith)
named name (some sd_jwt_vc) sd_jwt_vc sd_jwt_vc e m = refl
named name (some mdoc) mdoc mdoc e m = refl
named name o f g e m = absurd (ground arith)

module _ (trim lower : String → String) where
  same_suffix :
      (t : Template) (format : CredentialFormat)
      → lower "dc+sd-jwt" ≡ "dc+sd-jwt"
      → lower "mso_mdoc" ≡ "mso_mdoc"
      → is_exact t ≡ true
      → is_mapped (map_db_format trim lower t.format) format ≡ true
      → supported_id_of t.name format ≡ key_of t
  unfolding is_exact config_format key_of
  same_suffix t format a b x m = elim (Bool-cases (str_eq t.format "dc+sd-jwt")) [
    | inl e ↦ rw (not_mdoc t.format e) (
        named t.name (map_db_format trim lower t.format) sd_jwt_vc format
          (mapped_sd_jwt trim lower t.format a e) m)
    | inr e ↦
        let i : str_eq t.format "mso_mdoc" ≡ true = ground arith in
        rw (i) (
          named t.name (map_db_format trim lower t.format) mdoc format
            (mapped_mdoc trim lower t.format b i) m)
  ]

  template-key :
      (m : List (String × Configuration)) (o : Option Template) (certs : List Certificate)
      (r : CredentialRequest) (b : BuiltCredential)
      → lower "dc+sd-jwt" ≡ "dc+sd-jwt"
      → lower "mso_mdoc" ≡ "mso_mdoc"
      → ((t : Template) → o ≡ some t → (is_exact t && has_key m (key_of t)) ≡ true)
      → answers_template trim lower o certs r b ≡ true
      → has_key m b.supported_id ≡ true
  unfolding answers_template
  template-key m none certs r b l n f h = absurd (ground arith)
  template-key m (some t) certs r b l n f h =
      let known = f t refl in
      let exact : is_exact t ≡ true = ground arith in
      let id = (eq_iff b.supported_id (supported_id_of t.name b.format)).0 (ground arith) in
      rw (id, same_suffix t b.format l n exact (ground arith)) (ground arith)

  all-configured :
      (m : List (String × Configuration)) (ts : List Template) (certs : List Certificate)
      (rs : List CredentialRequest) (bs : List BuiltCredential)
      → lower "dc+sd-jwt" ≡ "dc+sd-jwt"
      → lower "mso_mdoc" ≡ "mso_mdoc"
      → all_exact ts ≡ true
      → all_keyed m ts ≡ true
      → answers_all trim lower ts certs rs bs ≡ true
      → all_configured m bs ≡ true
  unfolding answers_all answers all_configured
  all-configured m ts certs [] [] l n x y h = refl
  all-configured m ts certs [] (b ∷ bs) l n x y h = absurd (ground arith)
  all-configured m ts certs (r ∷ rs) [] l n x y h = absurd (ground arith)
  all-configured m ts certs (r ∷ rs) (b ∷ bs) l n x y h =
      let key =
        template-key m (find_template ts r.template_id) certs r b l n
          (λ t e. found m ts r.template_id t e x y) (ground arith) in
      let later = all-configured m ts certs rs bs l n x y (ground arith) in ground arith

  -- Where the metadata and an offer are built from the same templates, whose formats are the exact
  -- texts of the enumeration, every credential of the offer names a configuration of the metadata.
  pub build_credential_offer_payload-configured :
      (parse : String → Option Value) (rows : List TemplateRow) (m : List (String × Configuration))
      (ss : List Signer) (certs : List Certificate) (dto : OfferRequest) (issuer : Option Issuer)
      (e : Envelope)
      → lower "dc+sd-jwt" ≡ "dc+sd-jwt"
      → lower "mso_mdoc" ≡ "mso_mdoc"
      → all_exact (templates_of rows) ≡ true
      → build_credential_configurations_supported parse rows ≡ some m
      → build_credential_offer_payload trim lower dto (templates_of rows) issuer ss certs ≡ ok e
      → all_configured m e.credentials ≡ true
  unfolding build_credential_configurations_supported
  build_credential_offer_payload-configured parse rows m ss certs dto issuer e l n x c h =
      all-configured m (templates_of rows) certs dto.credentials e.credentials l n x
        (keyed parse rows [] m c)
        (build_credential_offer_payload-answers trim lower (templates_of rows) ss certs dto issuer e
          h)
