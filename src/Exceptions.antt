-- ===== src/Exceptions.antt =====
-- libs/common/src/exception-normalisation.ts: the status and the message of whatever was thrown. A
-- candidate is a value of JSON or undefined; its numbers are natural, and no other number is a status.
-- `digits` is the test for decimal digits with the number that they name.
pub mod Message
mod Status
mod Tests
use Prim.Native.String.{◌++◌ as concat}
use ngotag_platform.Common.{
  ℕ, zero, suc, Bool, true, false, ◌&&◌, Option, none, some, List, [], ◌∷◌, String, str_eq, leb,
  if◌then◌else◌,
}
use ngotag_platform.Common.Json.{Value, null, boolean, number, str, list, object, lookup}

-- `MIN_HTTP_STATUS`, `MAX_HTTP_STATUS` and their comparison with a number
pub is_error_status : ℕ → Bool
is_error_status n = leb 400 n && leb n 599

-- `HttpStatus.INTERNAL_SERVER_ERROR`
abbrev pub internal_server_error : ℕ
internal_server_error = 500

pub accept_status : Option ℕ → ℕ → ℕ
accept_status none rest = rest
accept_status (some n) rest = if is_error_status n then n else rest

module _ (digits : String → Option ℕ) where
  pub numeric : Option Value → Option ℕ
  numeric (some (number n)) = some n
  numeric (some (str s)) = digits s
  numeric v = none

  -- `resolveHttpStatus`
  pub resolve_http_status : List (Option Value) → ℕ
  resolve_http_status [] = internal_server_error
  resolve_http_status (c ∷ cs) = let rest = resolve_http_status cs in accept_status (numeric c) rest

-- The body of the loop, where `nested` is the call one level deeper.
pub message_of : (List (Option Value) → Option String) → Option Value → Option String
message_of nested (some (str s)) = if str_eq s "" then none else some s
message_of nested (some (object fs)) = nested (lookup fs "message" ∷ lookup fs "error" ∷ [])
message_of nested (some (list vs)) = nested (none ∷ none ∷ [])
message_of nested v = none

pub or_rest : Option String → Option String → Option String
or_rest none rest = rest
or_rest (some s) rest = some s

pub first_message : (List (Option Value) → Option String) → List (Option Value) → Option String
first_message nested [] = none
first_message nested (c ∷ cs) =
    let rest = first_message nested cs in or_rest (message_of nested c) rest

-- `resolveMessageAtDepth`, the depth first
pub resolve_message_at_depth : ℕ → List (Option Value) → Option String
resolve_message_at_depth zero cs = none
resolve_message_at_depth (suc depth) cs = first_message (resolve_message_at_depth depth) cs

-- `resolveMessage` with `MAX_MESSAGE_DEPTH`
pub resolve_message : List (Option Value) → Option String
resolve_message cs = resolve_message_at_depth 3 cs

-- An exception is a new error with its text or the value that was thrown.
pub data Exception : Type 0 where
  new_error : String → Exception
  thrown : Value → Exception

-- `normaliseException`
normalise_exception : Option Value → Exception
normalise_exception none = new_error "Nullish rejection (undefined)"
normalise_exception (some null) = new_error "Nullish rejection (null)"
normalise_exception (some (boolean b)) = new_error "Non-object rejection (boolean)"
normalise_exception (some (number n)) = new_error "Non-object rejection (number)"
normalise_exception (some (str s)) = new_error "Non-object rejection (string)"
normalise_exception (some (list vs)) = thrown (list vs)
normalise_exception (some (object fs)) = thrown (object fs)
