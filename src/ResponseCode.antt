-- ===== src/ResponseCode.antt =====
-- apps/verification/src/response-code/proof-response-code.service.ts: single-use response codes for
-- same-device redirects, kept in Redis, with apps/verification/src/response-code/redirect-uri.util.ts
-- (`toTerminalResponseCodeStatus`) and `getProofCallbackResult` of
-- apps/verification/src/verification.service.ts.
pub mod Store
pub mod Keys
pub mod Interleaving
pub mod SingleUse
pub mod Verdict
pub mod Sequential
pub mod MapStore
mod Tests
use ngotag_platform.Common.{
  ℕ, zero, suc, ◌+◌, ◌≡◌, ◌↔◌, Bool, true, false, not, ◌&&◌, ◌||◌, Option, none, some, String,
  str_eq, leb, ltb, if◌then◌else◌, is_some,
}
use Store.{Key, token_key, thread_index_key, Redis}

pub data ResponseCodeStatus : Type 0 where
  pending completed failed expired : ResponseCodeStatus

pub record ResponseCodeResult : Type 0 where
  pub state : String
  pub presentation_id : Option String

pub record ResponseCodeSession : Type 0 where
  pub org_id : String
  pub thread_id : String
  pub redirect_uri : String
  pub status : ResponseCodeStatus
  pub result : Option ResponseCodeResult
  pub created_at : String

abbrev pub is_pending : ResponseCodeStatus → Bool
is_pending pending = true
is_pending _ = false

-- `Number(value)`: a whole number that is not negative, or anything else.
pub data Parsed : Type 0 where
  whole : ℕ → Parsed
  other : Parsed

abbrev max_ttl_seconds : ℕ
max_ttl_seconds = 3600

resolve_ttl_seconds : Parsed → ℕ → ℕ
resolve_ttl_seconds other fallback = fallback
resolve_ttl_seconds (whole n) fallback = if ltb 0 n && leb n max_ttl_seconds then n else fallback

-- The verdicts that an agent's webhook may carry.
to_terminal_response_code_status : String → Bool → Option ResponseCodeStatus
to_terminal_response_code_status state is_verified =
    if str_eq state "done"
    then some (if is_verified then completed else failed)
    else if str_eq state "declined" || str_eq state "abandoned"
    then some failed
    else none

-- The texts that are stored: `JSON.stringify` of a session, or a token; and the two lifetimes from
-- the environment.
pub record Codec : Type 1 where
  pub Raw : Type 0
  pub raw_eq : Raw → Raw → Bool
  pub is_empty : Raw → Bool
  pub stringify : ResponseCodeSession → Raw
  pub parse : Raw → ResponseCodeSession
  pub token_text : String → Raw
  pub text_token : Raw → String
  pub pending_ttl : ℕ
  pub result_ttl : ℕ
  pub raw_eq_iff : (a b : Raw) → (raw_eq a b ≡ true) ↔ (a ≡ b)
  pub stringify_nonempty : (s : ResponseCodeSession) → is_empty (stringify s) ≡ false
  pub is_empty-token_text : (token : String) → is_empty (token_text token) ≡ str_eq token ""
  pub parse-stringify : (s : ResponseCodeSession) → parse (stringify s) ≡ s
  pub text_token-token_text : (token : String) → text_token (token_text token) ≡ token

-- The session that `markTerminalByThreadId` writes.
abbrev pub terminal :
    ResponseCodeSession → ResponseCodeStatus → ResponseCodeResult → ResponseCodeSession
terminal session status result = record session { status = status; result = some result }

pub data CallbackResult : Type 0 where
  expired_code pending_code : CallbackResult
  verdict : ResponseCodeStatus → String → Option ResponseCodeResult → CallbackResult

abbrev pub verdict_of : ResponseCodeSession → CallbackResult
verdict_of s = verdict s.status s.thread_id s.result

module _ (codec : Codec) (redis : Redis codec.Raw) where
  open redis use {Db, get, set_ex, expire, del}
  open codec use {
    Raw, raw_eq, is_empty, stringify, parse, token_text, text_token, pending_ttl, result_ttl,
  }

  pub create_session : Db → ℕ → String → ResponseCodeSession → Db
  create_session d now token session =
      let with_token = set_ex d now (token_key token) (stringify session) pending_ttl in
      set_ex with_token now (thread_index_key session.thread_id) (token_text token) pending_ttl

  pub get_session : Db → ℕ → String → Option ResponseCodeSession
  get_session d now token = elim (get d now (token_key token)) [
    | none ↦ none
    | some raw ↦ if is_empty raw then none else some (parse raw)
  ]

  -- MARK_TERMINAL_SCRIPT, which Redis runs as one step.
  pub mark_terminal_script : Db → ℕ → Key → Key → Raw → Raw → Db × ℕ
  mark_terminal_script d now token_k index_k raw updated = elim (get d now token_k) [
    | none ↦ (d, 0)
    | some held ↦
        if raw_eq held raw
        then (expire (set_ex d now token_k updated result_ttl) now index_k result_ttl, 1)
        else (d, 0)
  ]

  -- Its second read: the raw value, if the session is still pending.
  pub read_pending : Db → ℕ → String → Option Raw
  read_pending d now token = elim (get d now (token_key token)) [
    | none ↦ none
    | some raw ↦
        if is_empty raw then none else if is_pending (parse raw).status then some raw else none
  ]

  -- Its last step, from what it read.
  pub mark_read : Db → ℕ → String → String → Raw → ResponseCodeStatus → ResponseCodeResult → Db × ℕ
  mark_read d now token thread raw status result =
      mark_terminal_script d now (token_key token) (thread_index_key thread) raw
        (stringify (terminal (parse raw) status result))

  -- The whole call where no other client acts between its steps.
  pub mark_terminal_by_thread_id : Db → ℕ → String → ResponseCodeStatus → ResponseCodeResult → Db
  mark_terminal_by_thread_id d now thread status result =
      elim (get d now (thread_index_key thread)) [
        | none ↦ d
        | some text ↦ if is_empty text then d else elim (read_pending d now (text_token text)) [
          | none ↦ d
          | some raw ↦ (mark_read d now (text_token text) thread raw status result).0
        ]
      ]

  pub consume : Db → ℕ → String → String → Db × Bool
  consume d now token thread =
      let (d', deleted) = del d now (token_key token) in
      ((del d' now (thread_index_key thread)).0, deleted)

  -- `getProofCallbackResult` where no other client acts between its steps.
  pub get_proof_callback_result : Db → ℕ → String → Db × CallbackResult
  get_proof_callback_result d now code =
      if str_eq code "" then (d, expired_code) else elim (get_session d now code) [
        | none ↦ (d, expired_code)
        | some session ↦
            if is_pending session.status
            then (d, pending_code)
            else let (d', consumed) = consume d now code session.thread_id in
              (d', if consumed then verdict_of session else expired_code)
      ]
