-- ===== src/ResponseCode/Interleaving.antt =====
-- Concurrent clients of the store. A call of the service is a sequence of atomic commands, and the
-- commands of any number of calls interleave, with time passing between them. What a call has read
-- stays in `seen`, so that a later command of the same call, or of any other, may rest on a read
-- that is out of date.
use ngotag_platform.Common.{ℕ, ◌+◌, ◌≡◌, ◌⊎◌, true, false, List, [], ◌∷◌, some, none, String}
use ngotag_platform.ResponseCode.{
  ResponseCodeStatus, ResponseCodeResult, ResponseCodeSession, is_pending, Codec, create_session,
  mark_read, consume,
}
use ngotag_platform.ResponseCode.Store.{token_key, Redis}

abbrev pub Among : {A : Type 0} → A → List A → Type 0
Among a [] = ⊥
Among a (x ∷ xs) = (x ≡ a) ⊎ Among a xs

module _ (codec : Codec) (redis : Redis codec.Raw) where
  open redis use {Db, get}
  open codec use {Raw, parse}

  pub record System : Type 0 where
    pub db : Db
    pub now : ℕ
    -- The tokens that were generated.
    pub used : List String
    -- The reads of session keys: the token and the raw value.
    pub seen : List (String × Raw)
    -- The verdicts that callers received, with the token.
    pub delivered : List (String × ResponseCodeSession)

  pub data Step (s : System) : System → Type 0 where
    -- `createSession`, with a random token that is new.
    create :
        (token : String) (session : ResponseCodeSession)
        → ¬ Among token s.used
        → is_pending session.status ≡ true
        → Step s (record s {
          db = create_session codec redis s.db s.now token session;
          used = token ∷ s.used;
        })
    -- The read of a session key, in `getSession` or in `markTerminalByThreadId`.
    read :
        (token : String) (raw : Raw)
        → get s.db s.now (token_key token) ≡ some raw
        → Step s (record s { seen = (token, raw) ∷ s.seen })
    -- The script of `markTerminalByThreadId`, after a read of a pending session.
    mark :
        (token thread : String) (raw : Raw) (status : ResponseCodeStatus)
        (result : ResponseCodeResult)
        → Among (token, raw) s.seen
        → is_pending (parse raw).status ≡ true
        → is_pending status ≡ false
        → Step s
            (record s { db = (mark_read codec redis s.db s.now token thread raw status result).0 })
    -- The transaction of `consume`, after a read of a session that is not pending: the caller
    -- receives what it read if the transaction deleted the key.
    deliver :
        (token : String) (raw : Raw)
        → Among (token, raw) s.seen
        → is_pending (parse raw).status ≡ false
        → (consume codec redis s.db s.now token (parse raw).thread_id).1 ≡ true
        → Step s (record s {
          db = (consume codec redis s.db s.now token (parse raw).thread_id).0;
          delivered = (token, parse raw) ∷ s.delivered;
        })
    late :
        (token : String) (raw : Raw)
        → Among (token, raw) s.seen
        → is_pending (parse raw).status ≡ false
        → (consume codec redis s.db s.now token (parse raw).thread_id).1 ≡ false
        → Step s (record s { db = (consume codec redis s.db s.now token (parse raw).thread_id).0 })
    tick : (n : ℕ) → Step s (record s { now = s.now + n })

  pub data Reach (s : System) : System → Type 0 where
    here : Reach s s
    next : {t u : System} → Reach s t → Step t u → Reach s u

  -- Nothing has happened: no token, and no session in the store.
  pub record IsInitial (s : System) : Type 0 where
    pub no_tokens : s.used ≡ []
    pub no_reads : s.seen ≡ []
    pub no_verdicts : s.delivered ≡ []
    pub empty : (token : String) (t : ℕ) → get s.db t (token_key token) ≡ none
