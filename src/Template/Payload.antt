-- ===== src/Template/Payload.antt =====
-- apps/oid4vc-issuance/libs/helpers/credential-sessions.builder.ts, `validatePayloadAgainstTemplate`:
-- the check of a payload against the attributes of its template.
use ngotag_platform.Common.Json.{
  Value, null, boolean, number, str, object, no_fields, member, is_object, Fields, lookup,
}
use ngotag_platform.Template.{
  attribute, Attributes, no_attributes, attributes, Namespace, sd_jwt_vc, mdoc, Template,
  format_text,
}
use ngotag_platform.Common.{
  ◌≡◌, refl, Bool, true, false, not, ◌&&◌, ◌||◌, Option, none, some, List, [], ◌∷◌, ◌++◌, String,
  str_eq, ◌==◌, arith, Bool-cases, inl, inr, if◌then◌else◌,
}

-- A message names the path of its attribute, whose parts the code joins by dots.
pub data Problem : Type 0 where
  missing_attribute : List String → Problem
  missing_namespaces : Problem
  missing_namespace : String → Problem

abbrev pub is_nil {ℓ} : {A : Type ℓ} → List A → Bool
is_nil [] = true
is_nil (x ∷ xs) = false

-- `!value`: undefined and null are
-- falsy, and so are false, the number 0 and the empty text.
abbrev pub is_falsy : Option Value → Bool
is_falsy none = true
is_falsy (some null) = true
is_falsy (some (boolean b)) = not b
is_falsy (some (number n)) = n == 0
is_falsy (some (str s)) = str_eq s ""
is_falsy v = false

-- An independent reading: each attribute by its path, with its mark.
unfoldable pub prefixed : String → List (List String × Bool) → List (List String × Bool)
prefixed key [] = []
prefixed key ((path, m) ∷ ps) = (key ∷ path, m) ∷ prefixed key ps

unfoldable pub demands : Attributes → List (List String × Bool)
demands no_attributes = []
demands (attributes (attribute key mandatory disclose display children) rest) =
    (key ∷ [], mandatory) ∷ (prefixed key (demands children) ++ demands rest)

module _ (trim : String → String) where
  unfoldable pub is_empty : Option Value → Bool
  is_empty none = true
  is_empty (some null) = true
  is_empty (some (str s)) = str_eq (trim s) ""
  is_empty (some (object no_fields)) = true
  is_empty v = false

  -- `validateAttributes`
  unfoldable pub validate_attributes : Attributes → Option Value → List String → List Problem
  validate_attributes no_attributes given path = []
  validate_attributes (attributes (attribute key mandatory disclose display children) rest) given
        path =
      let value = member given key in
      let here =
        if mandatory && is_empty value then missing_attribute (path ++ (key ∷ [])) ∷ [] else [] in
      let below = validate_attributes children value (path ++ (key ∷ [])) in
      here ++ (if is_object value then below else []) ++ validate_attributes rest given path

  -- The value at the path is there, or the attribute is optional, or a value on the way to it is no
  -- object.
  meets : Option Value → List String → Bool → Bool
  meets given [] m = true
  meets given (key ∷ []) m = not m || not (is_empty (member given key))
  meets given (key ∷ k ∷ path) m =
      let deeper = meets (member given key) (k ∷ path) m in
      not (is_object (member given key)) || deeper

  meets_all : Option Value → List (List String × Bool) → Bool
  meets_all given [] = true
  meets_all given ((path, m) ∷ ps) = meets given path m && meets_all given ps

  meets_all-append :
      (given : Option Value) (ps qs : List (List String × Bool))
      → meets_all given (ps ++ qs) ≡ (meets_all given ps && meets_all given qs)
  unfolding meets_all
  meets_all-append given [] qs = refl
  meets_all-append given ((path, m) ∷ ps) qs = let ih = meets_all-append given ps qs in ground arith

  -- Only paths that are not empty are demanded.
  all_long : List (List String × Bool) → Bool
  all_long [] = true
  all_long ((path, m) ∷ ps) = not (is_nil path) && all_long ps

  all_long-append :
      (ps qs : List (List String × Bool)) → all_long (ps ++ qs) ≡ (all_long ps && all_long qs)
  unfolding all_long
  all_long-append [] qs = refl
  all_long-append ((path, m) ∷ ps) qs = let ih = all_long-append ps qs in ground arith

  all_long-prefixed :
      (key : String) (ps : List (List String × Bool)) → all_long (prefixed key ps) ≡ true
  unfolding all_long prefixed
  all_long-prefixed key [] = refl
  all_long-prefixed key ((path, m) ∷ ps) = all_long-prefixed key ps

  all_long-demands : (attrs : Attributes) → all_long (demands attrs) ≡ true
  unfolding all_long demands
  all_long-demands no_attributes = refl
  all_long-demands (attributes (attribute key m d s children) rest) =
      let a = all_long-append (prefixed key (demands children)) (demands rest) in
      let b = all_long-prefixed key (demands children) in
      let c = all_long-demands rest in ground arith

  meets-prefixed :
      (given : Option Value) (key : String) (path : List String) (m : Bool)
      → not (is_nil path) ≡ true
      → meets given (key ∷ path) m
        ≡ (not (is_object (member given key)) || meets (member given key) path m)
  unfolding meets
  meets-prefixed given key [] m h = absurd (ground arith)
  meets-prefixed given key (k ∷ path) m h = refl

  meets_all-prefixed :
      (given : Option Value) (key : String) (ps : List (List String × Bool))
      → all_long ps ≡ true
      → meets_all given (prefixed key ps)
        ≡ (not (is_object (member given key)) || meets_all (member given key) ps)
  unfolding meets_all prefixed all_long
  meets_all-prefixed given key [] h = ground arith
  meets_all-prefixed given key ((path, m) ∷ ps) h =
      let here = meets-prefixed given key path m (ground arith) in
      let ih = meets_all-prefixed given key ps (ground arith) in ground arith

  is_nil-append : {A : Type 0} (xs ys : List A) → is_nil (xs ++ ys) ≡ (is_nil xs && is_nil ys)
  is_nil-append [] ys = refl
  is_nil-append (x ∷ xs) ys = refl

  three_parts :
      {A : Type 0} (a b : Bool) (x : A) (ys zs : List A)
      → is_nil ((if a then x ∷ [] else []) ++ (if b then ys else []) ++ zs)
        ≡ (not a && ((not b || is_nil ys) && is_nil zs))
  three_parts true b x ys zs = refl
  three_parts false true x ys zs = is_nil-append ys zs
  three_parts false false x ys zs = refl

  validate_attributes_lem :
      (attrs : Attributes) (given : Option Value) (path : List String)
      → is_nil (validate_attributes attrs given path) ≡ meets_all given (demands attrs)
  unfolding validate_attributes demands meets_all meets
  validate_attributes_lem no_attributes given path = refl
  validate_attributes_lem (attributes (attribute key m d s children) rest) given path =
      let value = member given key in
      let parts =
        three_parts (m && is_empty value) (is_object value) (missing_attribute (path ++ (key ∷ [])))
          (validate_attributes children value (path ++ (key ∷ [])))
          (validate_attributes rest given path) in
      let below = validate_attributes_lem children value (path ++ (key ∷ [])) in
      let later = validate_attributes_lem rest given path in
      let split = meets_all-append given (prefixed key (demands children)) (demands rest) in
      let deep = meets_all-prefixed given key (demands children) (all_long-demands children) in
      rw (parts, below, later, split, deep) (ground arith)

  pub validate_namespaces : List Namespace → Option Value → List Problem
  validate_namespaces [] given = []
  validate_namespaces (n ∷ ns) given =
      (if is_falsy (member given n.name)
        then missing_namespace n.name ∷ []
        else validate_attributes n.attrs (member given n.name) (n.name ∷ []))
      ++ validate_namespaces ns given

  -- `validatePayloadAgainstTemplate`; a format that is neither text is not checked.
  unfoldable pub validate_payload : Template → Fields → List Problem
  validate_payload t payload =
      if str_eq t.format (format_text sd_jwt_vc)
      then validate_attributes t.attrs (some (object payload)) []
      else if str_eq t.format (format_text mdoc)
      then if is_falsy (lookup payload "namespaces")
        then missing_namespaces ∷ []
        else validate_namespaces t.namespaces (lookup payload "namespaces")
      else []

  namespace_met : Option Value → Namespace → Bool
  namespace_met given n =
      not (is_falsy (member given n.name)) && meets_all (member given n.name) (demands n.attrs)

  namespaces_met : Option Value → List Namespace → Bool
  namespaces_met given [] = true
  namespaces_met given (n ∷ ns) = namespace_met given n && namespaces_met given ns

  validate_namespaces_lem :
      (ns : List Namespace) (given : Option Value)
      → is_nil (validate_namespaces ns given) ≡ namespaces_met given ns
  unfolding validate_namespaces namespaces_met namespace_met
  validate_namespaces_lem [] given = refl
  validate_namespaces_lem (n ∷ ns) given =
      let ih = validate_namespaces_lem ns given in
      let one = validate_attributes_lem n.attrs (member given n.name) (n.name ∷ []) in
      elim (Bool-cases (is_falsy (member given n.name))) [
        | inl e ↦ rw (e) refl
        | inr e ↦
            rw
              (
                e,
                is_nil-append (validate_attributes n.attrs (member given n.name) (n.name ∷ []))
                    (validate_namespaces ns given),
                one,
                ih,
              )
              refl
      ]

  -- What a payload owes its template, by the paths of the attributes; nothing where the format is
  -- neither text.
  pub fits : Template → Fields → Bool
  fits t payload =
      if str_eq t.format (format_text sd_jwt_vc)
      then meets_all (some (object payload)) (demands t.attrs)
      else if str_eq t.format (format_text mdoc)
      then not (is_falsy (lookup payload "namespaces"))
        && namespaces_met (lookup payload "namespaces") t.namespaces
      else true

  -- With the format text `dc+sd-jwt` a payload passes the check exactly if every mandatory attribute of
  -- the template, at any depth, has a value that is not empty, save below a value that is no object; with
  -- `mso_mdoc` exactly if it has namespaces, each namespace of the template is there, and in each the same
  -- holds for its attributes; with any other format text every payload passes.
  pub validate_payload-fits :
      (t : Template) (payload : Fields) → is_nil (validate_payload t payload) ≡ fits t payload
  unfolding validate_payload fits
  validate_payload-fits t payload =
      let one = validate_attributes_lem t.attrs (some (object payload)) [] in
      let many = validate_namespaces_lem t.namespaces (lookup payload "namespaces") in ground arith
