-- ===== src/ResponseCode/Sequential.antt =====
-- The calls of one client, one after another.
use ngotag_platform.Common.{
  ℕ, ◌+◌, ◌≤◌, ◌<◌, ◌≡◌, ◌≢◌, ◌∙◌, refl, ap, arith, true, false, some, none, String, str_eq, eq_iff,
  ltb, lt→ltb, Bool-cases, inl, inr,
}
use ngotag_platform.ResponseCode.{
  ResponseCodeSession, ResponseCodeStatus, ResponseCodeResult, is_pending, Codec, consume, terminal,
  create_session, get_session, read_pending, mark_read, mark_terminal_script,
  mark_terminal_by_thread_id, get_proof_callback_result, expired_code, verdict, verdict_of,
}
use ngotag_platform.ResponseCode.Store.{token_key, thread_index_key, Redis}
use ngotag_platform.ResponseCode.Keys.{get-consume, get-create_session, consume_count}

module _ (codec : Codec) (redis : Redis codec.Raw) where
  open redis use {Db, get, get-set_ex, get-expire}
  open codec use {
    Raw, raw_eq, raw_eq_iff, token_text, text_token, text_token-token_text, is_empty, stringify,
    parse, parse-stringify, pending_ttl, result_ttl,
  }

  get_session_gone :
      (d : Db) (now : ℕ) (token : String)
      → get d now (token_key token) ≡ none
      → get_proof_callback_result codec redis d now token ≡ (d, expired_code)
  unfolding get_proof_callback_result get_session
  get_session_gone d now token e = elim (Bool-cases (str_eq token "")) [
    | inl empty ↦ rw empty
    | inr named ↦ rw (named, e)
  ]

  -- After a consumption every later callback with the code finds it expired.
  consumed_gone :
      (d : Db) (now t : ℕ) (token thread : String)
      → now ≤ t
      → get_proof_callback_result codec redis (consume codec redis d now token thread).0 t token
        ≡ ((consume codec redis d now token thread).0, expired_code)
  consumed_gone d now t token thread le =
      get_session_gone _ t token
        (get-consume codec redis d now t token thread token le ∙ ground (arith, eq_iff token token))

  callback_verdict :
      (d : Db) (now : ℕ) (token : String) (s : ResponseCodeSession)
      → token ≢ ""
      → is_pending s.status ≡ false
      → get d now (token_key token) ≡ some (stringify s)
      → get_proof_callback_result codec redis d now token
        ≡ ((consume codec redis d now token s.thread_id).0, verdict_of s)
  unfolding get_proof_callback_result get_session
  callback_verdict d now token s named p e =
      let named' : str_eq token "" ≡ false = ground (arith, eq_iff token "") in
      let held : (consume codec redis d now token s.thread_id).1 ≡ true =
        consume_count codec redis d now token s.thread_id ∙ rw e in
      rw (named', e, codec.stringify_nonempty s, parse-stringify s, p, held) refl

  read_pending_found :
      (d : Db) (t : ℕ) (token : String) (s : ResponseCodeSession)
      → is_pending s.status ≡ true
      → get d t (token_key token) ≡ some (stringify s)
      → read_pending codec redis d t token ≡ some (stringify s)
  unfolding read_pending
  read_pending_found d t token s p e =
      rw (e, read_pending, codec.stringify_nonempty s, parse-stringify s, p) refl

  mark_found :
      (d : Db) (t : ℕ) (token : String) (s : ResponseCodeSession) (status : ResponseCodeStatus)
      (result : ResponseCodeResult)
      → token ≢ ""
      → is_pending s.status ≡ true
      → get d t (thread_index_key s.thread_id) ≡ some (token_text token)
      → get d t (token_key token) ≡ some (stringify s)
      → mark_terminal_by_thread_id codec redis d t s.thread_id status result
        ≡ (mark_read codec redis d t token s.thread_id (stringify s) status result).0
  unfolding mark_terminal_by_thread_id
  mark_found d t token s status result named p index e =
      let named' : is_empty (token_text token) ≡ false =
        codec.is_empty-token_text token ∙ ground (arith, eq_iff token "") in
      let back = text_token-token_text token in
      let pending : read_pending codec redis d t (text_token (token_text token))
          ≡ some (stringify s) =
        rw back (read_pending_found d t token s p e) in
      rw (index, mark_terminal_by_thread_id, named', pending)
        (ap
          (λ (x : String). (mark_read codec redis d t x s.thread_id (stringify s) status result).0)
          back)

  get-mark_found :
      (d : Db) (t later : ℕ) (token : String) (s : ResponseCodeSession)
      (status : ResponseCodeStatus) (result : ResponseCodeResult)
      → t ≤ later
      → later < t + result_ttl
      → get d t (token_key token) ≡ some (stringify s)
      → get
          (mark_read codec redis d t token s.thread_id (stringify s) status result).0
          later
          (token_key token)
        ≡ some (stringify (terminal s status result))
  unfolding mark_read mark_terminal_script
  get-mark_found d t later token s status result le lt e =
      let same : raw_eq (stringify s) (stringify s) ≡ true = (raw_eq_iff _ _).1 refl in
      let self : str_eq token token ≡ true = (eq_iff _ _).1 refl in
      let early : ltb later (t + result_ttl) ≡ true = lt→ltb _ _ lt in
      rw (e, mark_terminal_script, same, parse-stringify s)
        (get-expire _ t later (thread_index_key s.thread_id) (token_key token) result_ttl le
          ∙ get-set_ex d t later (token_key token) (token_key token)
              (stringify (terminal s status result)) result_ttl le
          ∙ rw (self, early) refl)

  module _ (d : Db) (t0 t1 : ℕ) (token : String) (s : ResponseCodeSession) (le : t0 ≤ t1)
      (lt : t1 < t0 + pending_ttl) where
    get_created_session :
        get (create_session codec redis d t0 token s) t1 (token_key token) ≡ some (stringify s)
    get_created_session =
        get-create_session codec redis d t0 t1 token token s le
        ∙ rw ((eq_iff token token).1 refl, lt→ltb _ _ lt) refl

    get_created_index :
        get (create_session codec redis d t0 token s) t1 (thread_index_key s.thread_id)
        ≡ some (token_text token)
    unfolding create_session
    get_created_index =
        get-set_ex _ t0 t1 (thread_index_key s.thread_id) (thread_index_key s.thread_id)
          (token_text token) pending_ttl le
        ∙ rw ((eq_iff s.thread_id s.thread_id).1 refl, lt→ltb _ _ lt) refl

  -- A session that is created, marked within the pending lifetime by the webhook of its thread, and
  -- asked for within the result lifetime after that, with no other client at work, answers the
  -- callback with the webhook's verdict, and every later callback with `expired`.
  pub callback_delivers :
      (d : Db) (t0 t1 t2 t3 : ℕ) (token : String) (s : ResponseCodeSession)
      (status : ResponseCodeStatus) (result : ResponseCodeResult)
      → token ≢ ""
      → is_pending s.status ≡ true
      → is_pending status ≡ false
      → t0 ≤ t1
      → t1 < t0 + pending_ttl
      → t1 ≤ t2
      → t2 < t1 + result_ttl
      → t2 ≤ t3
      → (e : Db) × (get_proof_callback_result codec redis
            (mark_terminal_by_thread_id codec redis
              (create_session codec redis d t0 token s)
              t1
              s.thread_id
              status
              result)
            t2
            token
          ≡ (e, verdict status s.thread_id (some result)))
        × (get_proof_callback_result codec redis e t3 token ≡ (e, expired_code))
  callback_delivers d t0 t1 t2 t3 token s status result named p q le lt le2 lt2 le3 =
      let d1 = create_session codec redis d t0 token s in
      let stored = get_created_session d t0 t1 token s le lt in
      let index = get_created_index d t0 t1 token s le lt in
      let marked = mark_found d1 t1 token s status result named p index stored in
      let d2 = (mark_read codec redis d1 t1 token s.thread_id (stringify s) status result).0 in
      let read = get-mark_found d1 t1 t2 token s status result le2 lt2 stored in
      (
        (consume codec redis d2 t2 token s.thread_id).0,
        rw marked (callback_verdict d2 t2 token (terminal s status result) named q read),
        consumed_gone d2 t2 t3 token s.thread_id le3,
      )
