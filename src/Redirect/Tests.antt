-- ===== src/Redirect/Tests.antt =====
-- apps/verification/src/response-code/redirect-uri.util.ts at a concrete list.
use ngotag_platform.Common.{◌≡◌, refl, true, false, Option, none, some, List, [], ◌∷◌}
use ngotag_platform.Redirect.{
  Text, https, Url, text_eq, without_end_slashes, starts_with, matches_path,
  matches_allowlist_entry, allowed_protocol, some_entry, is_target_allowed, is_redirect_uri_allowed,
}
use ngotag_platform.Redirect.Segments.{IsPermitted, is_redirect_uri_allowed-IsPermitted}

-- A parser for one host: what follows is the path.
abbrev parse : Text → Option Url
parse [] = none
parse (c ∷ cs) = some (record { protocol = https; origin = c ∷ []; pathname = cs })

-- "h/ab/c" under "h/ab/", and the look-alike "h/abc", which is refused.
abbrev inside : Text
inside = b'h' ∷ b'/' ∷ b'a' ∷ b'b' ∷ b'/' ∷ b'c' ∷ []

abbrev look_alike : Text
look_alike = b'h' ∷ b'/' ∷ b'a' ∷ b'b' ∷ b'c' ∷ []

abbrev entries : List Text
entries = (b'h' ∷ b'/' ∷ b'a' ∷ b'b' ∷ b'/' ∷ []) ∷ []

computed : Unit {0}
unfolding text_eq without_end_slashes starts_with matches_path matches_allowlist_entry some_entry
    is_target_allowed is_redirect_uri_allowed allowed_protocol
computed = tt

inside_allowed : is_redirect_uri_allowed parse inside entries false ≡ true
unfolding computed
inside_allowed = refl

look_alike_refused : is_redirect_uri_allowed parse look_alike entries false ≡ false
unfolding computed
look_alike_refused = refl

is_redirect_uri_allowed-IsPermitted_example :
    (target : Url) × (parse inside ≡ some target)
    × (allowed_protocol false target.protocol ≡ true)
    × IsPermitted parse target entries
is_redirect_uri_allowed-IsPermitted_example =
    is_redirect_uri_allowed-IsPermitted parse inside entries false inside_allowed
