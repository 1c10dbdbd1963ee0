-- ===== src/Offer/Window.antt =====
-- apps/oid4vc-issuance/libs/helpers/credential-sessions.builder.ts: what every credential of an offer
-- satisfies.
use ngotag_platform.Offer.{
  Result, ok, err, Method, did, x5c, method_eq, is_x5c, Signer, Certificate, Validity,
  CredentialRequest, BuiltCredential, in_window, find_certificate, find_signer, check_certificate,
  check_window, check_x5c, check_duration, or_build, supported_id_of, find_template,
  expected_method,
}
use ngotag_platform.Offer.Build.{
  map_db_format, build_sd_jwt_credential, build_mdoc_credential, build_credential,
  build_credentials, sd_jwt_signed, mdoc_signed, built_sd_jwt, built_mdoc, build_as, build_found,
  mdoc_given, add_built,
}
use ngotag_platform.Offer.Envelope.{
  OfferRequest, Issuer, Envelope, Flow, flow_of, envelope_of, with_flow,
  build_credential_offer_payload,
}
use ngotag_platform.Template.{CredentialFormat, sd_jwt_vc, mdoc, Template}
use ngotag_platform.Template.Payload.{is_nil, validate_payload, fits, validate_payload-fits}
use ngotag_platform.Common.{
  ◌≡◌, refl, sym, ◌∙◌, Bool, true, false, not, ◌&&◌, ◌||◌, Option, none, some, List, [], ◌∷◌,
  String, str_eq, eq_iff, leb, arith, Bool-cases, inl, inr,
}

pub within : Validity → Option Certificate → Bool
within v none = false
within v (some c) = in_window v c

-- The validity lies in that of the certificate at the head of the signer's chain.
covered : Validity → List Certificate → Signer → Bool
covered v certs s = within v (find_certificate certs s.chain)

pub dated : CredentialFormat → Option Validity → List Certificate → Signer → Bool
dated mdoc none certs s = false
dated mdoc (some v) certs s = covered v certs s
dated sd_jwt_vc none certs s = true
dated sd_jwt_vc (some v) certs s =
    leb v.valid_from v.valid_until && (not (is_x5c s.method) || covered v certs s)

check_window-covered :
    (v : Validity) (certs : List Certificate) (s : Signer)
    → check_window v certs s ≡ none
    → covered v certs s ≡ true
unfolding check_window check_certificate covered within
check_window-covered v certs s h = ground arith

find_signer-method :
    (ss : List Signer) (m : Method) (s : Signer)
    → find_signer ss m ≡ some s
    → method_eq s.method m ≡ true
unfolding find_signer
find_signer-method [] m s h = absurd (ground arith)
find_signer-method (t ∷ ss) m s h = let ih = find_signer-method ss m s in ground arith

unfoldable pub is_mapped : Option CredentialFormat → CredentialFormat → Bool
is_mapped (some sd_jwt_vc) sd_jwt_vc = true
is_mapped (some mdoc) mdoc = true
is_mapped o f = false

x5c-same : (m n : Method) → method_eq m n ≡ true → is_x5c m ≡ is_x5c n
x5c-same did did h = refl
x5c-same did x5c h = absurd (ground arith)
x5c-same x5c did h = absurd (ground arith)
x5c-same x5c x5c h = refl

checked_dates :
    (m : Method) (v : Option Validity) (certs : List Certificate) (s : Signer)
    → method_eq s.method m ≡ true
    → check_x5c m v certs s ≡ none
    → check_duration v ≡ none
    → dated sd_jwt_vc v certs s ≡ true
unfolding check_x5c check_duration dated
checked_dates m none certs s e c d = refl
checked_dates did (some v) certs s e c d = let same = x5c-same s.method did e in ground arith
checked_dates x5c (some v) certs s e c d =
    let cover = check_window-covered v certs s c in ground arith

module _ (trim lower : String → String) where
  -- A built credential answers a request: its template is known, its payload fits the template as far as
  -- the format of the template is checked, its identifier names a configuration of the template, and its dates are sound.
  unfoldable pub answers_template :
      Option Template → List Certificate → CredentialRequest → BuiltCredential → Bool
  answers_template none certs r b = false
  answers_template (some t) certs r b =
      fits trim t r.payload
      && str_eq b.supported_id (supported_id_of t.name b.format)
      && is_mapped (map_db_format trim lower t.format) b.format
      && dated b.format r.validity certs b.signer

  unfoldable pub answers :
      List Template → List Certificate → CredentialRequest → BuiltCredential → Bool
  answers ts certs r b = answers_template (find_template ts r.template_id) certs r b

  unfoldable pub answers_all :
      List Template → List Certificate → List CredentialRequest → List BuiltCredential → Bool
  answers_all ts certs [] [] = true
  answers_all ts certs [] (b ∷ bs) = false
  answers_all ts certs (r ∷ rs) [] = false
  answers_all ts certs (r ∷ rs) (b ∷ bs) = answers ts certs r b && answers_all ts certs rs bs

  pub sound : Option Template → List Certificate → CredentialRequest → Result BuiltCredential → Bool
  sound t certs r (err e) = true
  sound t certs r (ok b) = answers_template t certs r b

  same_id : (s : String) → str_eq s s ≡ true
  same_id s = (eq_iff s s).1 refl

  sd_jwt-sound :
      (r : CredentialRequest) (t : Template) (certs : List Certificate) (o : Option Signer)
      → map_db_format trim lower t.format ≡ some sd_jwt_vc
      → fits trim t r.payload ≡ true
      → ((s : Signer) → o ≡ some s → method_eq s.method (expected_method t.signer_option) ≡ true)
      → sound (some t) certs r (sd_jwt_signed trim lower r t certs sd_jwt_vc o) ≡ true
  unfolding sd_jwt_signed or_build answers_template sound is_mapped built_sd_jwt
  sd_jwt-sound r t certs none g f m = refl
  sd_jwt-sound r t certs (some s) g f m =
      let dates = checked_dates (expected_method t.signer_option) r.validity certs s (m s refl) in
      let id = same_id (supported_id_of t.name sd_jwt_vc) in ground arith

  mdoc-sound :
      (r : CredentialRequest) (t : Template) (v : Validity) (ss : List Signer)
      (certs : List Certificate)
      → map_db_format trim lower t.format ≡ some mdoc
      → fits trim t r.payload ≡ true
      → r.validity ≡ some v
      → sound (some t) certs r (mdoc_signed trim lower r t v ss certs mdoc) ≡ true
  unfolding mdoc_signed or_build answers_template sound is_mapped built_mdoc dated
  mdoc-sound r t v [] certs g f e = refl
  mdoc-sound r t v (s ∷ ss) certs g f e =
      let cover = check_window-covered v certs s in
      let id = same_id (supported_id_of t.name mdoc) in ground arith

  mdoc_given-sound :
      (r : CredentialRequest) (t : Template) (o : Option Validity) (ss : List Signer)
      (certs : List Certificate)
      → map_db_format trim lower t.format ≡ some mdoc
      → fits trim t r.payload ≡ true
      → r.validity ≡ o
      → sound (some t) certs r (mdoc_given trim lower r t o ss certs mdoc) ≡ true
  unfolding mdoc_given sound
  mdoc_given-sound r t none ss certs g f e = refl
  mdoc_given-sound r t (some v) ss certs g f e = mdoc-sound r t v ss certs g f e

  build_as-sound :
      (r : CredentialRequest) (t : Template) (ss : List Signer) (certs : List Certificate)
      (format : Option CredentialFormat)
      → map_db_format trim lower t.format ≡ format
      → fits trim t r.payload ≡ true
      → sound (some t) certs r (build_as trim lower r t ss certs format) ≡ true
  unfolding build_as build_sd_jwt_credential build_mdoc_credential sound
  build_as-sound r t ss certs none g f = refl
  build_as-sound r t ss certs (some sd_jwt_vc) g f =
      sd_jwt-sound r t certs (find_signer ss (expected_method t.signer_option)) g f
        (find_signer-method ss (expected_method t.signer_option))
  build_as-sound r t ss certs (some mdoc) g f = mdoc_given-sound r t r.validity ss certs g f refl

  build_credential-sound :
      (r : CredentialRequest) (t : Template) (ss : List Signer) (certs : List Certificate)
      → sound (some t) certs r (build_credential trim lower r t ss certs) ≡ true
  unfolding build_credential sound
  build_credential-sound r t ss certs =
      let fit = validate_payload-fits trim t r.payload in
      elim (Bool-cases (is_nil (validate_payload trim t r.payload))) [
        | inl e ↦
            rw (e)
              (build_as-sound r t ss certs (map_db_format trim lower t.format) refl (sym fit ∙ e))
        | inr e ↦ rw (e) refl
      ]

  build_found-sound :
      (r : CredentialRequest) (o : Option Template) (ss : List Signer) (certs : List Certificate)
      → sound o certs r (build_found trim lower o r ss certs) ≡ true
  unfolding build_found sound
  build_found-sound r none ss certs = refl
  build_found-sound r (some t) ss certs = build_credential-sound r t ss certs

  all_sound :
      List Template
      → List Certificate
      → List CredentialRequest
      → Result (List BuiltCredential)
      → Bool
  all_sound ts certs rs (err e) = true
  all_sound ts certs rs (ok bs) = answers_all ts certs rs bs

  add_built-sound :
      (ts : List Template) (certs : List Certificate) (r : CredentialRequest)
      (rs : List CredentialRequest) (x : Result BuiltCredential)
      (xs : Result (List BuiltCredential))
      → sound (find_template ts r.template_id) certs r x ≡ true
      → all_sound ts certs rs xs ≡ true
      → all_sound ts certs (r ∷ rs) (add_built trim lower x xs) ≡ true
  unfolding add_built all_sound sound answers_all answers
  add_built-sound ts certs r rs (err e) xs h k = refl
  add_built-sound ts certs r rs (ok b) (err e) h k = refl
  add_built-sound ts certs r rs (ok b) (ok bs) h k = ground arith

  build_credentials_sound :
      (ts : List Template) (ss : List Signer) (certs : List Certificate)
      (rs : List CredentialRequest)
      → all_sound ts certs rs (build_credentials trim lower ts ss certs rs) ≡ true
  unfolding build_credentials all_sound answers_all
  build_credentials_sound ts ss certs [] = refl
  build_credentials_sound ts ss certs (r ∷ rs) =
      add_built-sound ts certs r rs
        (build_found trim lower (find_template ts r.template_id) r ss certs)
        (build_credentials trim lower ts ss certs rs)
        (build_found-sound r (find_template ts r.template_id) ss certs)
        (build_credentials_sound ts ss certs rs)

  enveloped :
      (ts : List Template) (certs : List Certificate) (dto : OfferRequest) (issuer : Option Issuer)
      (built : Result (List BuiltCredential)) (flow : Result Flow) (e : Envelope)
      → all_sound ts certs dto.credentials built ≡ true
      → with_flow built flow dto issuer ≡ ok e
      → answers_all ts certs dto.credentials e.credentials ≡ true
  unfolding with_flow all_sound envelope_of
  enveloped ts certs dto issuer (err f) flow e s h = absurd (ground arith)
  enveloped ts certs dto issuer (ok built) (err f) e s h = absurd (ground arith)
  enveloped ts certs dto issuer (ok built) (ok flow) e s h = ground arith

  -- If an offer is built, its credentials answer the requests one by one: the template of each exists,
  -- the configuration is named after it, an mdoc has a validity within that of the certificate of its
  -- signer, and so has an SD-JWT that is given a validity and signed with a certificate. Where the format
  -- text of the template is exactly `dc+sd-jwt` or `mso_mdoc`, the payload also passes the check against
  -- the template; where it is another text, the payload is not checked.
  pub build_credential_offer_payload-answers :
      (ts : List Template) (ss : List Signer) (certs : List Certificate) (dto : OfferRequest)
      (issuer : Option Issuer) (e : Envelope)
      → build_credential_offer_payload trim lower dto ts issuer ss certs ≡ ok e
      → answers_all ts certs dto.credentials e.credentials ≡ true
  unfolding build_credential_offer_payload
  build_credential_offer_payload-answers ts ss certs dto issuer e h =
      let built = build_credentials_sound ts ss certs dto.credentials in
      let under =
        enveloped ts certs dto issuer (build_credentials trim lower ts ss certs dto.credentials)
          (flow_of trim dto issuer) e built in
      ground arith
