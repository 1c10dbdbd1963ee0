-- ===== src/Guards/Swagger.antt =====
-- apps/api-gateway/src/authz/guards/ecosystem-swagger.filter.ts: the filter of the published
-- interface.
use ngotag_platform.Guards.{includes, is_empty, is_enabled}
use ngotag_platform.Common.{
  ◌≡◌, refl, sym, ◌⊎◌, Bool, true, not, ◌&&◌, Option, none, some, List, [], ◌∷◌, ◌++◌, String,
  arith, Bool-cases, inl, inr, if◌then◌else◌,
}

-- `document.paths`: for each path its operations, each with its `tags`.
pub record Operation : Type 0 where
  pub method : String
  pub tags : List String

pub record PathItem : Type 0 where
  pub path : String
  pub operations : List Operation

kept_operations : List Operation → List Operation
kept_operations [] = []
kept_operations (o ∷ os) =
    let rest = kept_operations os in if includes o.tags "ecosystem" then rest else o ∷ rest

kept_paths : List PathItem → List PathItem
kept_paths [] = []
kept_paths (p ∷ ps) =
    let rest = kept_paths ps in
    if is_empty (kept_operations p.operations)
    then rest
    else record p { operations = kept_operations p.operations } ∷ rest

-- `filterDocument`; none where the document has no paths.
pub filter_document : Option Bool → Option (List PathItem) → Option (List PathItem)
filter_document config none = none
filter_document config (some paths) = some (if is_enabled config then paths else kept_paths paths)

-- The operations of a document, each with its path, in order.
abbrev at_path : String → List Operation → List (String × Operation)
at_path path [] = []
at_path path (o ∷ os) = (path, o) ∷ at_path path os

abbrev routes : List PathItem → List (String × Operation)
routes [] = []
routes (p ∷ ps) = at_path p.path p.operations ++ routes ps

abbrev untagged : List (String × Operation) → List (String × Operation)
untagged [] = []
untagged (r ∷ rs) =
    let rest = untagged rs in if includes r.1.tags "ecosystem" then rest else r ∷ rest

abbrev all_used : List PathItem → Bool
all_used [] = true
all_used (p ∷ ps) = not (is_empty p.operations) && all_used ps

untagged-append :
    (xs ys : List (String × Operation)) → untagged (xs ++ ys) ≡ untagged xs ++ untagged ys
untagged-append [] ys = refl
untagged-append (x ∷ xs) ys =
    let ih = untagged-append xs ys in
    elim (Bool-cases (includes x.1.tags "ecosystem")) [
      | inl e ↦ rw (e) ih
      | inr e ↦ rw (e, ih) refl
    ]

at_path-kept :
    (path : String) (os : List Operation)
    → at_path path (kept_operations os) ≡ untagged (at_path path os)
unfolding kept_operations
at_path-kept path [] = refl
at_path-kept path (o ∷ os) =
    let ih = at_path-kept path os in
    elim (Bool-cases (includes o.tags "ecosystem")) [ inl e ↦ rw (e) ih | inr e ↦ rw (e, ih) refl ]

no_operations : (path : String) (os : List Operation) → is_empty os ≡ true → at_path path os ≡ []
no_operations path [] e = refl
no_operations path (o ∷ os) e = absurd (ground arith)

kept_paths_lem :
    (ps : List PathItem)
    → (routes (kept_paths ps) ≡ untagged (routes ps)) × (all_used (kept_paths ps) ≡ true)
unfolding kept_paths
kept_paths_lem [] = (refl, refl)
kept_paths_lem (p ∷ ps) =
    let (same, used) = kept_paths_lem ps in
    let here = at_path-kept p.path p.operations in
    let both = untagged-append (at_path p.path p.operations) (routes ps) in
    elim (Bool-cases (is_empty (kept_operations p.operations))) [
      | inl e ↦
          let gone = no_operations p.path (kept_operations p.operations) e in
          rw (e, both, sym here, gone) (same, used)
      | inr e ↦ rw (e, both, sym here, same, used) (refl, rw (e) refl)
    ]

-- With the ecosystem feature off or not configured, the published interface is left with exactly the
-- operations that are not tagged `ecosystem`, in their order, and with no path that has none. With it
-- on, the interface is unchanged.
filter_document_lem :
    (config : Option Bool) (paths : List PathItem)
    → (shown : List PathItem) × (filter_document config (some paths) ≡ some shown)
      × (routes shown ≡ (if is_enabled config then routes paths else untagged (routes paths)))
      × ((shown ≡ paths) ⊎ (all_used shown ≡ true))
unfolding filter_document
filter_document_lem config paths =
    let (same, used) = kept_paths_lem paths in
    elim (Bool-cases (is_enabled config)) [
      | inl e ↦ rw (e) (paths, refl, refl, inl refl)
      | inr e ↦ rw (e) (kept_paths paths, refl, same, inr used)
    ]
