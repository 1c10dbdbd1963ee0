-- ===== src/ResponseCode/Keys.antt =====
-- What the service's commands do to the session keys.
use ngotag_platform.Common.{
  ℕ, ◌+◌, ◌≤◌, ◌≡◌, ◌∙◌, ◌⊎◌, inl, inr, some, none, String, str_eq, ltb, if◌then◌else◌,
  Option-cases, Bool-cases, is_some,
}
use ngotag_platform.ResponseCode.{
  ResponseCodeStatus, ResponseCodeResult, ResponseCodeSession, Codec, create_session, terminal,
  mark_terminal_script, mark_read, consume,
}
use ngotag_platform.ResponseCode.Store.{token_key, thread_index_key, Redis}

module _ (codec : Codec) (redis : Redis codec.Raw) where
  open redis use {Db, get, get-set_ex, get-expire, get-del, del_count}
  open codec use {Raw, raw_eq, raw_eq_iff, token_text, stringify, parse, pending_ttl, result_ttl}

  pub get-create_session :
      (d : Db) (now t : ℕ) (token u : String) (session : ResponseCodeSession)
      → now ≤ t
      → get (create_session codec redis d now token session) t (token_key u) ≡ (
          if str_eq token u
          then if ltb t (now + pending_ttl) then some (stringify session) else none
          else get d t (token_key u))
  unfolding create_session
  get-create_session d now t token u session le =
      get-set_ex _ now t (thread_index_key session.thread_id) (token_key u) (token_text token)
        pending_ttl le
      ∙ get-set_ex d now t (token_key token) (token_key u) (stringify session) pending_ttl le

  -- The value that the script writes.
  pub marked : Raw → ResponseCodeStatus → ResponseCodeResult → Raw
  marked raw status result = stringify (terminal (parse raw) status result)

  -- The script finds another value and does nothing, or it replaces the value that was read.
  pub get-mark_read :
      (d : Db) (now : ℕ) (token thread : String) (raw : Raw) (status : ResponseCodeStatus)
      (result : ResponseCodeResult)
      → ((mark_read codec redis d now token thread raw status result).0 ≡ d)
        ⊎ ((get d now (token_key token) ≡ some raw)
            × ((t : ℕ) (u : String)
                → now ≤ t
                → get (mark_read codec redis d now token thread raw status result).0 t (token_key u)
                  ≡ (if str_eq token u
                      then if ltb t (now + result_ttl)
                        then some (marked raw status result)
                        else none
                      else get d t (token_key u))))
  unfolding mark_read mark_terminal_script marked
  get-mark_read d now token thread raw status result =
      elim (Option-cases (get d now (token_key token))) [
        | inl absent ↦ inl (rw (absent, mark_terminal_script))
        | inr (held, found) ↦ elim (Bool-cases (raw_eq held raw)) [
          | inr other ↦ inl (rw (found, mark_terminal_script, other))
          | inl same ↦
              let e : held ≡ raw = (raw_eq_iff held raw).0 same in
              inr (
                rw (← e) found,
                λ t u le.
                    rw (found, mark_terminal_script, same)
                      (get-expire _ now t (thread_index_key thread) (token_key u) result_ttl le
                        ∙ get-set_ex d now t (token_key token) (token_key u)
                            (marked raw status result) result_ttl le),
              )
        ]
      ]

  pub get-consume :
      (d : Db) (now t : ℕ) (token thread u : String)
      → now ≤ t
      → get (consume codec redis d now token thread).0 t (token_key u)
        ≡ (if str_eq token u then none else get d t (token_key u))
  unfolding consume
  get-consume d now t token thread u le =
      get-del _ now t (thread_index_key thread) (token_key u) le
      ∙ get-del d now t (token_key token) (token_key u) le

  pub consume_count :
      (d : Db) (now : ℕ) (token thread : String)
      → (consume codec redis d now token thread).1 ≡ is_some (get d now (token_key token))
  unfolding consume
  consume_count d now token thread = del_count d now (token_key token)
