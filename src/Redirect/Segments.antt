-- ===== src/Redirect/Segments.antt =====
-- apps/verification/src/response-code/redirect-uri.util.ts: a match compares whole path segments.
use ngotag_platform.Redirect.{
  Text, slash, Url, text_eq, is_empty, without_end_slashes, starts_with, matches_path,
  matches_allowlist_entry, allowed_protocol, some_entry, is_target_allowed, is_redirect_uri_allowed,
}
use ngotag_platform.Common.{
  ℕ, ◌≡◌, ◌⊎◌, refl, sym, ap, ◌∙◌, Bool, true, Option, none, some, List, [], ◌∷◌, ◌++◌, arith, ◌==◌,
  Bool-cases, inl, inr, if◌then◌else◌,
}

-- The parts of a path between its slashes.
abbrev on_first : ℕ → List Text → List Text
on_first c [] = (c ∷ []) ∷ []
on_first c (s ∷ ss) = (c ∷ s) ∷ ss

pub segments : Text → List Text
segments [] = [] ∷ []
segments (c ∷ cs) = let rest = segments cs in if c == slash then [] ∷ rest else on_first c rest

text_eq_sound : (xs ys : Text) → text_eq xs ys ≡ true → xs ≡ ys
unfolding text_eq
text_eq_sound [] [] h = refl
text_eq_sound [] (y ∷ ys) h = cc
text_eq_sound (x ∷ xs) [] h = cc
text_eq_sound (x ∷ xs) (y ∷ ys) h =
    let a : x ≡ y = ground arith in
    let b : text_eq xs ys ≡ true = ground arith in rw (a, text_eq_sound xs ys b) refl

starts_with_rest : (text p : Text) → starts_with text p ≡ true → (r : Text) × (text ≡ p ++ r)
unfolding starts_with
starts_with_rest text [] h = (text, refl)
starts_with_rest [] (p ∷ ps) h = absurd (ground arith)
starts_with_rest (c ∷ cs) (p ∷ ps) h =
    let a : c ≡ p = ground arith in
    let b : starts_with cs ps ≡ true = ground arith in
    let (r, e) = starts_with_rest cs ps b in (r, rw (a, e) refl)

first_segment : (cs : Text) → (s : Text) × (ss : List Text) × (segments cs ≡ s ∷ ss)
unfolding segments
first_segment [] = ([], [], refl)
first_segment (c ∷ cs) = elim (Bool-cases (c == slash)) [
  | inl e ↦ ([], segments cs, rw (e) refl)
  | inr e ↦ let (s, ss, k) = first_segment cs in (c ∷ s, ss, rw (e, k) refl)
]

segments-append : (a r : Text) → segments (a ++ slash ∷ r) ≡ segments a ++ segments r
unfolding segments
segments-append [] r = refl
segments-append (c ∷ cs) r = elim (Bool-cases (c == slash)) [
  | inl e ↦ rw (e, segments-append cs r) refl
  | inr e ↦ let (s, ss, k) = first_segment cs in rw (e, segments-append cs r, k) refl
]

append_assoc : (xs : Text) (y : ℕ) (ys : Text) → (xs ++ y ∷ []) ++ ys ≡ xs ++ y ∷ ys
append_assoc [] y ys = refl
append_assoc (x ∷ xs) y ys = rw (append_assoc xs y ys) refl

-- The path is the other one, whole segments included, or lies below it.
abbrev IsBelow : Text → Text → Type 0
IsBelow target allowed =
    (allowed ≡ []) ⊎ ((rest : List Text) × (segments target ≡ segments allowed ++ rest))

abbrev pub Among : Text → List Text → Type 0
Among t [] = ⊥
Among t (x ∷ xs) = (t ≡ x) ⊎ Among t xs

no_more : (xs : List Text) → xs ++ [] ≡ xs
no_more [] = refl
no_more (x ∷ xs) = rw (no_more xs) refl

empty_text : (t : Text) → is_empty t ≡ true → t ≡ []
empty_text [] h = refl
empty_text (x ∷ xs) h = cc

matches_path-IsBelow : (t a : Text) → matches_path t a ≡ true → IsBelow t a
unfolding matches_path
matches_path-IsBelow t a h = elim (Bool-cases (is_empty a)) [
  | inl e ↦ inl (empty_text a e)
  | inr e ↦ elim (Bool-cases (text_eq t a)) [
    | inl k ↦ inr ([], ap segments (text_eq_sound t a k) ∙ sym (no_more (segments a)))
    | inr k ↦
        let (r, q) = starts_with_rest t (a ++ slash ∷ []) (ground arith) in
        inr (segments r, ap segments (q ∙ append_assoc a slash r) ∙ segments-append a r)
  ]
]

-- What an entry of the list permits.
pub record IsPermitted (parse : Text → Option Url) (target : Url) (entries : List Text)
    : Type 0 where
  pub entry : Text
  pub allowed : Url
  pub listed : Among entry entries
  pub parsed : parse entry ≡ some allowed
  pub same_origin : target.origin ≡ allowed.origin
  pub below : IsBelow (without_end_slashes target.pathname) (without_end_slashes allowed.pathname)

matches_allowlist_entry-IsPermitted :
    (parse : Text → Option Url) (target : Url) (entry : Text) (rest : List Text) (o : Option Url)
    → parse entry ≡ o
    → matches_allowlist_entry target o ≡ true
    → IsPermitted parse target (entry ∷ rest)
unfolding matches_allowlist_entry
matches_allowlist_entry-IsPermitted parse target entry rest none e h = absurd (ground arith)
matches_allowlist_entry-IsPermitted parse target entry rest (some allowed) e h = record {
  entry = entry;
  allowed = allowed;
  listed = inl refl;
  parsed = e;
  same_origin = text_eq_sound target.origin allowed.origin (ground arith);
  below =
      matches_path-IsBelow (without_end_slashes target.pathname)
        (without_end_slashes allowed.pathname) (ground arith);
}

some_entry-IsPermitted :
    (parse : Text → Option Url) (target : Url) (entries : List Text)
    → some_entry parse target entries ≡ true
    → IsPermitted parse target entries
unfolding some_entry
some_entry-IsPermitted parse target [] h = absurd (ground arith)
some_entry-IsPermitted parse target (x ∷ xs) h =
    elim (Bool-cases (matches_allowlist_entry target (parse x))) [
      | inl e ↦ matches_allowlist_entry-IsPermitted parse target x xs (parse x) refl e
      | inr e ↦
          let p = some_entry-IsPermitted parse target xs (ground arith) in
          record {
            entry = p.entry;
            allowed = p.allowed;
            listed = inr p.listed;
            parsed = p.parsed;
            same_origin = p.same_origin;
            below = p.below;
          }
    ]

is_target_allowed-IsPermitted :
    (parse : Text → Option Url) (o : Option Url) (entries : List Text) (allow_http : Bool)
    → is_target_allowed parse o entries allow_http ≡ true
    → (target : Url) × (o ≡ some target)
      × (allowed_protocol allow_http target.protocol ≡ true)
      × IsPermitted parse target entries
unfolding is_target_allowed
is_target_allowed-IsPermitted parse none entries allow_http h = absurd (ground arith)
is_target_allowed-IsPermitted parse (some target) entries allow_http h =
    (target, refl, ground arith, some_entry-IsPermitted parse target entries (ground arith))

-- A redirect URI that is allowed parses, has the scheme `https`, or `http` where that is allowed, and
-- an entry of the list parses to the same origin and to a path that is empty or whose segments, end
-- slashes aside, are the first of the URI's.
pub is_redirect_uri_allowed-IsPermitted :
    (parse : Text → Option Url) (uri : Text) (entries : List Text) (allow_http : Bool)
    → is_redirect_uri_allowed parse uri entries allow_http ≡ true
    → (target : Url) × (parse uri ≡ some target)
      × (allowed_protocol allow_http target.protocol ≡ true)
      × IsPermitted parse target entries
unfolding is_redirect_uri_allowed
is_redirect_uri_allowed-IsPermitted parse uri entries allow_http h =
    is_target_allowed-IsPermitted parse (parse uri) entries allow_http h
