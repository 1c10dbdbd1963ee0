-- ===== src/Redirect.antt =====
-- apps/verification/src/response-code/redirect-uri.util.ts: where a verifier may send a wallet back
-- to. A text is the list of its character codes; the parser of `URL` is an argument.
pub mod Segments
mod Tests
use ngotag_platform.Common.{
  ℕ, ◌≡◌, Bool, true, false, not, ◌&&◌, ◌||◌, Option, none, some, List, [], ◌∷◌, ◌++◌, ◌==◌,
  if◌then◌else◌,
}

abbrev pub Text : Type 0
Text = List ℕ

abbrev pub slash : ℕ
slash = 47

pub data Protocol : Type 0 where
  https http other_protocol : Protocol

pub record Url : Type 0 where
  pub protocol : Protocol
  pub origin : Text
  pub pathname : Text

pub text_eq : Text → Text → Bool
text_eq [] [] = true
text_eq [] (y ∷ ys) = false
text_eq (x ∷ xs) [] = false
text_eq (x ∷ xs) (y ∷ ys) = x == y && text_eq xs ys

abbrev pub is_empty : Text → Bool
is_empty [] = true
is_empty (x ∷ xs) = false

-- `replace(/\/+$/, '')`
pub without_end_slashes : Text → Text
without_end_slashes [] = []
without_end_slashes (c ∷ cs) =
    let rest = without_end_slashes cs in if c == slash && is_empty rest then [] else c ∷ rest

pub starts_with : Text → Text → Bool
starts_with text [] = true
starts_with [] (p ∷ ps) = false
starts_with (c ∷ cs) (p ∷ ps) = c == p && starts_with cs ps

pub matches_path : Text → Text → Bool
matches_path target allowed =
    is_empty allowed || text_eq target allowed || starts_with target (allowed ++ slash ∷ [])

-- `matchesAllowlistEntry`, with the entry parsed; none where the parser throws.
pub matches_allowlist_entry : Url → Option Url → Bool
matches_allowlist_entry target none = false
matches_allowlist_entry target (some allowed) =
    text_eq target.origin allowed.origin
    && matches_path (without_end_slashes target.pathname) (without_end_slashes allowed.pathname)

pub allowed_protocol : Bool → Protocol → Bool
allowed_protocol allow_http https = true
allowed_protocol allow_http http = allow_http
allowed_protocol allow_http other_protocol = false

pub some_entry : (Text → Option Url) → Url → List Text → Bool
some_entry parse target [] = false
some_entry parse target (entry ∷ entries) =
    matches_allowlist_entry target (parse entry) || some_entry parse target entries

pub is_target_allowed : (Text → Option Url) → Option Url → List Text → Bool → Bool
is_target_allowed parse none entries allow_http = false
is_target_allowed parse (some target) entries allow_http =
    allowed_protocol allow_http target.protocol && some_entry parse target entries

pub is_redirect_uri_allowed : (Text → Option Url) → Text → List Text → Bool → Bool
is_redirect_uri_allowed parse uri entries allow_http =
    is_target_allowed parse (parse uri) entries allow_http
