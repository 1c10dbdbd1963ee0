-- ===== src/ResponseCode/SingleUse.antt =====
-- A response code gives its verdict to one caller at most.
use ngotag_platform.Common.{
  ℕ, ◌+◌, ◌≤◌, ◌≡◌, ◌∙◌, ◌⊎◌, inl, inr, sym, ap, arith, true, false, List, [], ◌∷◌, some, none,
  String, str_eq, eq_iff, Option, Bool-cases, is_some,
}
use ngotag_platform.ResponseCode.{
  ResponseCodeSession, ResponseCodeStatus, ResponseCodeResult, Codec, consume, mark_read,
  create_session,
}
use ngotag_platform.ResponseCode.Store.{token_key, Redis}
use ngotag_platform.ResponseCode.Keys.{
  get-create_session, get-mark_read, get-consume, consume_count,
}
use ngotag_platform.ResponseCode.Interleaving.{
  Among, System, Step, create, read, mark, deliver, late, tick, Reach, here, next, IsInitial,
}

-- No entry carries the token.
abbrev IsUndelivered : String → List (String × ResponseCodeSession) → Type 0
IsUndelivered token ds = (s : ResponseCodeSession) → ¬ Among (token, s) ds

-- No two entries carry one token.
abbrev pub HasDistinctTokens : List (String × ResponseCodeSession) → Type 0
HasDistinctTokens [] = Unit
HasDistinctTokens ((token, s) ∷ ds) = IsUndelivered token ds × HasDistinctTokens ds

module _ (codec : Codec) (redis : Redis codec.Raw) where
  open redis use {Db, get}
  open codec use {Raw}

  -- The key of the token is absent from now on.
  abbrev IsGone : System codec redis → String → Type 0
  IsGone s token = (t : ℕ) → s.now ≤ t → get s.db t (token_key token) ≡ none

  pub record IsSingle (s : System codec redis) : Type 0 where
    pub unknown : (token : String) → Among token s.used ⊎ IsGone s token
    pub gone :
        (token : String) (session : ResponseCodeSession)
        → Among (token, session) s.delivered
        → Among token s.used × IsGone s token
    pub distinct : HasDistinctTokens s.delivered

  pub absent-ne-some : (o : Option Raw) (v : Raw) → o ≡ none → o ≡ some v → ⊥
  absent-ne-some o v e f = cc

  mark_keeps_gone :
      (s : System codec redis) (token thread u : String) (raw : Raw) (d : Db)
      → (d ≡ s.db)
        ⊎ ((get s.db s.now (token_key token) ≡ some raw)
            × ((t : ℕ)
                → s.now ≤ t
                → (str_eq token u ≡ false)
                → get d t (token_key u) ≡ get s.db t (token_key u)))
      → IsGone s u
      → (t : ℕ) → s.now ≤ t
      → get d t (token_key u) ≡ none
  mark_keeps_gone s token thread u raw d (inl same) g t le = rw same (g t le)
  mark_keeps_gone s token thread u raw d (inr (found, after)) g t le =
      elim (Bool-cases (str_eq token u)) [
        | inr other ↦ after t le other ∙ g t le
        | inl same ↦
            let e : token ≡ u = (eq_iff token u).0 same in
            absurd (absent-ne-some _ raw (g s.now (omega arith)) (rw e at found))
      ]

  mark_cases :
      (s : System codec redis) (token thread u : String) (raw : Raw) (status : ResponseCodeStatus)
      (result : ResponseCodeResult)
      → IsGone s u
      → (t : ℕ) → s.now ≤ t
      → get (mark_read codec redis s.db s.now token thread raw status result).0 t (token_key u)
        ≡ none
  mark_cases s token thread u raw status result g =
      mark_keeps_gone s token thread u raw _
        (elim (get-mark_read codec redis s.db s.now token thread raw status result) [
          | inl same ↦ inl same
          | inr (found, after) ↦ inr (found, λ t le other. after t u le ∙ rw other)
        ])
        g

  consume_keeps_gone :
      (s : System codec redis) (token thread u : String)
      → IsGone s u
      → (t : ℕ) → s.now ≤ t
      → get (consume codec redis s.db s.now token thread).0 t (token_key u) ≡ none
  consume_keeps_gone s token thread u g t le =
      get-consume codec redis s.db s.now t token thread u le ∙ ground (arith, g t le)

  consume_makes_gone :
      (s : System codec redis) (token thread : String) (t : ℕ)
      → s.now ≤ t
      → get (consume codec redis s.db s.now token thread).0 t (token_key token) ≡ none
  consume_makes_gone s token thread t le =
      get-consume codec redis s.db s.now t token thread token le
      ∙ ground (arith, eq_iff token token)

  create_keeps_gone :
      (s : System codec redis) (token u : String) (session : ResponseCodeSession)
      → str_eq token u ≡ false
      → IsGone s u
      → (t : ℕ) → s.now ≤ t
      → get (create_session codec redis s.db s.now token session) t (token_key u) ≡ none
  create_keeps_gone s token u session other g t le =
      get-create_session codec redis s.db s.now t token u session le ∙ (rw other (g t le))

  create_unknown :
      (s : System codec redis) (token u : String) (session : ResponseCodeSession)
      → Among u s.used ⊎ IsGone s u
      → ((token ≡ u) ⊎ Among u s.used)
        ⊎ ((t : ℕ)
            → s.now ≤ t
            → get (create_session codec redis s.db s.now token session) t (token_key u) ≡ none)
  create_unknown s token u session (inl a) = inl (inr a)
  create_unknown s token u session (inr g) = elim (Bool-cases (str_eq token u)) [
    | inl same ↦ inl (inl ((eq_iff token u).0 same))
    | inr other ↦ inr (create_keeps_gone s token u session other g)
  ]

  pub other_of_new :
      (s : System codec redis) (token u : String)
      → ¬ Among token s.used
      → Among u s.used
      → str_eq token u ≡ false
  other_of_new s token u new a = elim (Bool-cases (str_eq token u)) [
    | inr other ↦ other
    | inl same ↦ let e : token ≡ u = (eq_iff token u).0 same in absurd (new (rw e a))
  ]

  -- A deletion that counts was of a token in use that had no verdict yet.
  not_gone :
      (s : System codec redis) (token thread : String)
      → (consume codec redis s.db s.now token thread).1 ≡ true
      → IsGone s token
      → ⊥
  not_gone s token thread c g =
      clash
        (sym c ∙ consume_count codec redis s.db s.now token thread ∙ absent (g s.now (omega arith)))
    where
      absent :
          get s.db s.now (token_key token) ≡ none
          → is_some (get s.db s.now (token_key token)) ≡ false
      absent e = rw e

      clash : true ≡ false → ⊥
      clash h = cc

  deliver_unknown :
      (s : System codec redis) (token thread : String)
      → (consume codec redis s.db s.now token thread).1 ≡ true
      → Among token s.used ⊎ IsGone s token
      → Among token s.used
  deliver_unknown s token thread c (inl a) = a
  deliver_unknown s token thread c (inr g) = absurd (not_gone s token thread c g)

  unknown_after_consume :
      (s : System codec redis) (token thread u : String)
      → Among u s.used ⊎ IsGone s u
      → Among u s.used
        ⊎ ((t : ℕ)
            → s.now ≤ t
            → get (consume codec redis s.db s.now token thread).0 t (token_key u) ≡ none)
  unknown_after_consume s token thread u (inl a) = inl a
  unknown_after_consume s token thread u (inr g) = inr (consume_keeps_gone s token thread u g)

  deliver_gone :
      (s : System codec redis) (token thread u : String) (p d : ResponseCodeSession)
      → IsSingle s
      → (consume codec redis s.db s.now token thread).1 ≡ true
      → (Path (String × ResponseCodeSession) (token, p) (u, d)) ⊎ Among (u, d) s.delivered
      → Among u s.used
        × ((t : ℕ)
            → s.now ≤ t
            → get (consume codec redis s.db s.now token thread).0 t (token_key u) ≡ none)
  deliver_gone s token thread u p d v c (inl e) =
      let same : token ≡ u = ap (λ (x : String × ResponseCodeSession). x.0) e in
      rw (← same)
        (deliver_unknown s token thread c (v.unknown token), consume_makes_gone s token thread)
  deliver_gone s token thread u p d v c (inr b) =
      ((v.gone u d b).0, consume_keeps_gone s token thread u (v.gone u d b).1)

  Step-IsSingle : {s t : System codec redis} → Step codec redis s t → IsSingle s → IsSingle t
  Step-IsSingle {s} (create token session new pending) v = record {
    unknown = λ u. create_unknown s token u session (v.unknown u);
    gone = λ u d b.
        let (a, g) = v.gone u d b in
        (inr a, create_keeps_gone s token u session (other_of_new s token u new a) g);
    distinct = v.distinct;
  }
  Step-IsSingle (read token raw e) v = record {
    unknown = v.unknown;
    gone = v.gone;
    distinct = v.distinct;
  }
  Step-IsSingle {s} (mark token thread raw status result a p q) v = record {
    unknown = λ u. unknown u (v.unknown u);
    gone =
        λ u d b. ((v.gone u d b).0, mark_cases s token thread u raw status result (v.gone u d b).1);
    distinct = v.distinct;
  }
    where
      unknown :
          (u : String)
          → Among u s.used ⊎ IsGone s u
          → Among u s.used
            ⊎ ((t : ℕ)
                → s.now ≤ t
                → get
                    (mark_read codec redis s.db s.now token thread raw status result).0
                    t
                    (token_key u)
                  ≡ none)
      unknown u (inl b) = inl b
      unknown u (inr g) = inr (mark_cases s token thread u raw status result g)
  Step-IsSingle {s} (deliver token raw a p c) v = record {
    unknown = λ u. unknown_after_consume s token _ u (v.unknown u);
    gone = λ u d b. deliver_gone s token _ u _ d v c b;
    distinct = (λ d b. not_gone s token _ c (v.gone token d b).1, v.distinct);
  }
  Step-IsSingle {s} (late token raw a p c) v = record {
    unknown = λ u. unknown_after_consume s token _ u (v.unknown u);
    gone = λ u d b. ((v.gone u d b).0, consume_keeps_gone s token _ u (v.gone u d b).1);
    distinct = v.distinct;
  }
  Step-IsSingle {s} (tick n) v = record {
    unknown = λ u. unknown u (v.unknown u);
    gone = λ u d b. ((v.gone u d b).0, λ t le. (v.gone u d b).1 t (omega arith));
    distinct = v.distinct;
  }
    where
      unknown :
          (u : String)
          → Among u s.used ⊎ IsGone s u
          → Among u s.used ⊎ ((t : ℕ) → s.now + n ≤ t → get s.db t (token_key u) ≡ none)
      unknown u (inl b) = inl b
      unknown u (inr g) = inr (λ t le. g t (omega arith))

  IsInitial-IsSingle : (s : System codec redis) → IsInitial codec redis s → IsSingle s
  IsInitial-IsSingle s i = record {
    unknown = λ u. inr (λ t le. i.empty u t);
    gone = λ u d b. absurd (none_delivered u d b);
    distinct = rw i.no_verdicts tt;
  }
    where
      none_delivered : (u : String) (d : ResponseCodeSession) → Among (u, d) s.delivered → ⊥
      none_delivered u d b = rw i.no_verdicts at b

  pub Reach-IsSingle :
      {s t : System codec redis} → IsInitial codec redis s → Reach codec redis s t → IsSingle t
  Reach-IsSingle {s} i here = IsInitial-IsSingle s i
  Reach-IsSingle i (next r st) = Step-IsSingle st (Reach-IsSingle i r)

  -- From an empty store, whatever the interleaving of the clients' commands with one another and
  -- with the passing of time, no two callers receive the verdict of one response code; and once a
  -- verdict is delivered the session of its code is absent for good, also where a concurrent
  -- `markTerminalByThreadId` read it before.
  pub single_use :
      (s t : System codec redis)
      → IsInitial codec redis s
      → Reach codec redis s t
      → HasDistinctTokens t.delivered
        × ((token : String) (session : ResponseCodeSession)
            → Among (token, session) t.delivered
            → (later : ℕ) → t.now ≤ later
            → get t.db later (token_key token) ≡ none)
  single_use s t i r = let v = Reach-IsSingle i r in (v.distinct, λ token d b. (v.gone token d b).1)
