-- ===== src/Exceptions/Tests.antt =====
-- Runs of libs/common/src/exception-normalisation.ts, and the hypotheses of its claims at concrete inputs.
use ngotag_platform.Common.{
  ℕ, ◌≡◌, refl, Option, some, none, List, [], ◌∷◌, String, str_eq, if◌then◌else◌,
}
use ngotag_platform.Common.Json.{Value, number, str, object, field, no_fields, lookup}
use ngotag_platform.Exceptions.{resolve_http_status, resolve_message}
use ngotag_platform.Exceptions.Message.{IsAnswer, resolve_message-IsAnswer}

abbrev digits : String → Option ℕ
digits s = if str_eq s "409" then some 409 else none

-- The code of a failed connection, a status of success and the digits of a conflict.
abbrev codes : List (Option Value)
codes = some (str "ECONNREFUSED") ∷ some (number 200) ∷ none ∷ some (str "409") ∷ []

conflict : resolve_http_status digits codes ≡ 409
unfolding resolve_http_status ngotag_platform.Exceptions.accept_status
    ngotag_platform.Exceptions.numeric ngotag_platform.Exceptions.is_error_status
conflict = refl

-- The shape of `CommonService.sendError`, one level down.
abbrev payloads : List (Option Value)
payloads =
    none
    ∷ some (object (field "message" (object (field "error" (str "no agent") no_fields)) no_fields))
    ∷ []

unwrapped : resolve_message payloads ≡ some "no agent"
unfolding resolve_message ngotag_platform.Exceptions.resolve_message_at_depth
    ngotag_platform.Exceptions.first_message ngotag_platform.Exceptions.message_of
    ngotag_platform.Exceptions.or_rest lookup
unwrapped = refl

resolve_message-IsAnswer_example : IsAnswer 3 payloads (resolve_message payloads)
resolve_message-IsAnswer_example = resolve_message-IsAnswer payloads
