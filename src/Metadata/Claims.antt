-- ===== src/Metadata/Claims.antt =====
-- apps/oid4vc-issuance/libs/helpers/issuer.metadata.ts: the claims that the metadata of a template
-- advertises, against the attributes by which payloads are checked.
use ngotag_platform.Metadata.{
  Claim, with_namespace, mark, generate_claims, namespace_claims, TemplateRow,
  build_claims_from_template,
}
use ngotag_platform.Template.{attribute, Attributes, no_attributes, attributes, Namespace}
use ngotag_platform.Template.Payload.{prefixed, demands}
use ngotag_platform.Common.{
  ◌≡◌, refl, ap, ◌∙◌, Bool, true, false, Option, none, some, List, [], ◌∷◌, ◌++◌, String, str_eq,
  arith, if◌then◌else◌,
}

is_marked : Option Bool → Bool
is_marked none = false
is_marked (some b) = b

-- What a claim says of the attribute: its path and whether it is mandatory.
brief : Claim → List String × Bool
brief c = (c.path, is_marked c.mandatory)

pub briefs : List Claim → List (List String × Bool)
briefs [] = []
briefs (c ∷ cs) = brief c ∷ briefs cs

-- A namespace of no name is no prefix.
pub under : String → List (List String × Bool) → List (List String × Bool)
under name ps = if str_eq name "" then ps else prefixed name ps

namespace_demands : List Namespace → List (List String × Bool)
namespace_demands [] = []
namespace_demands (n ∷ ns) = under n.name (demands n.attrs) ++ namespace_demands ns

pub row_demands : TemplateRow → List (List String × Bool)
row_demands row =
    if row.namespaced then namespace_demands row.template.namespaces else demands row.template.attrs

is_marked-mark : (b : Bool) → is_marked (mark b) ≡ b
unfolding is_marked
is_marked-mark true = refl
is_marked-mark false = refl

briefs-append : (cs ds : List Claim) → briefs (cs ++ ds) ≡ briefs cs ++ briefs ds
unfolding briefs
briefs-append [] ds = refl
briefs-append (c ∷ cs) ds = ap (λ l. brief c ∷ l) (briefs-append cs ds)

-- The paths below a parent, in a namespace.
placed : Option String → List String → List (List String × Bool) → List (List String × Bool)
placed namespace parent [] = []
placed namespace parent ((path, m) ∷ ps) =
    (with_namespace namespace (parent ++ path), m) ∷ placed namespace parent ps

placed-append :
    (namespace : Option String) (parent : List String) (ps qs : List (List String × Bool))
    → placed namespace parent (ps ++ qs) ≡ placed namespace parent ps ++ placed namespace parent qs
unfolding placed
placed-append namespace parent [] qs = refl
placed-append namespace parent ((path, m) ∷ ps) qs =
    ap (λ l. (with_namespace namespace (parent ++ path), m) ∷ l)
      (placed-append namespace parent ps qs)

append-step :
    (parent : List String) (key : String) (path : List String)
    → (parent ++ (key ∷ [])) ++ path ≡ parent ++ (key ∷ path)
append-step [] key path = refl
append-step (p ∷ ps) key path = ap (λ l. p ∷ l) (append-step ps key path)

placed-prefixed :
    (namespace : Option String) (parent : List String) (key : String)
    (ps : List (List String × Bool))
    → placed namespace (parent ++ (key ∷ [])) ps ≡ placed namespace parent (prefixed key ps)
unfolding placed prefixed
placed-prefixed namespace parent key [] = refl
placed-prefixed namespace parent key ((path, m) ∷ ps) =
    rw (append-step parent key path, placed-prefixed namespace parent key ps) refl

generate_claims_lem :
    (attrs : Attributes) (namespace : Option String) (parent : List String)
    → briefs (generate_claims attrs namespace parent) ≡ placed namespace parent (demands attrs)
unfolding generate_claims briefs brief placed demands
generate_claims_lem no_attributes namespace parent = refl
generate_claims_lem (attributes (attribute key m d s children) rest) namespace parent =
    let current = parent ++ (key ∷ []) in
    let split =
      briefs-append (generate_claims children namespace current)
        (generate_claims rest namespace parent) in
    let below = generate_claims_lem children namespace current in
    let later = generate_claims_lem rest namespace parent in
    let joined = placed-append namespace parent (prefixed key (demands children)) (demands rest) in
    rw
      (
        split,
        below,
        later,
        joined,
        is_marked-mark m,
        placed-prefixed namespace parent key (demands children),
      )
      refl

placed-none : (ps : List (List String × Bool)) → placed none [] ps ≡ ps
unfolding placed with_namespace
placed-none [] = refl
placed-none ((path, m) ∷ ps) = ap (λ l. (path, m) ∷ l) (placed-none ps)

placed-some :
    (name : String) (ps : List (List String × Bool)) → placed (some name) [] ps ≡ under name ps
unfolding placed with_namespace under prefixed
placed-some name [] = ground arith
placed-some name ((path, m) ∷ ps) = let ih = placed-some name ps in ground arith

namespace_claims_lem : (ns : List Namespace) → briefs (namespace_claims ns) ≡ namespace_demands ns
unfolding namespace_claims namespace_demands briefs
namespace_claims_lem [] = refl
namespace_claims_lem (n ∷ ns) =
    let here =
      generate_claims_lem n.attrs (some n.name) [] ∙ placed-some n.name (demands n.attrs) in
    rw
      (
        briefs-append (generate_claims n.attrs (some n.name) []) (namespace_claims ns),
        here,
        namespace_claims_lem ns,
      )
      refl

-- The claims in the metadata of a template are its attributes at every depth, in order, each with its
-- path, below the namespace of an mdoc that has a name, and with its mark as mandatory.
pub build_claims_from_template-demands :
    (row : TemplateRow) → briefs (build_claims_from_template row) ≡ row_demands row
unfolding build_claims_from_template row_demands
build_claims_from_template-demands row =
    let flat =
      generate_claims_lem row.template.attrs none [] ∙ placed-none (demands row.template.attrs) in
    let many = namespace_claims_lem row.template.namespaces in ground arith
