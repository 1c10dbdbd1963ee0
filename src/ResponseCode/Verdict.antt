-- ===== src/ResponseCode/Verdict.antt =====
-- The first verdict of a response code stands.
use ngotag_platform.Common.{
  ℕ, ◌≤◌, ◌≡◌, ◌∙◌, ◌⊎◌, inl, inr, sym, ap, arith, true, false, some, String, str_eq, eq_iff,
  Bool-cases,
}
use ngotag_platform.ResponseCode.{
  ResponseCodeSession, ResponseCodeStatus, ResponseCodeResult, is_pending, Codec, consume,
  mark_read, create_session,
}
use ngotag_platform.ResponseCode.Store.{token_key, Redis}
use ngotag_platform.ResponseCode.Keys.{get-create_session, get-mark_read, get-consume}
use ngotag_platform.ResponseCode.Interleaving.{
  Among, System, Step, create, read, mark, deliver, late, tick, Reach, here, next, IsInitial,
}
use ngotag_platform.ResponseCode.SingleUse.{IsSingle, Reach-IsSingle, other_of_new, absent-ne-some}

module _ (codec : Codec) (redis : Redis codec.Raw) where
  open redis use {Db, get, get_stable}
  open codec use {Raw, parse}

  -- From now on the key of the token is absent, or holds `raw`.
  abbrev pub IsPinned : System codec redis → String → Raw → Type 0
  IsPinned s token raw =
      (t : ℕ) (v : Raw) → s.now ≤ t → get s.db t (token_key token) ≡ some v → v ≡ raw

  -- A read of the token's session that is no longer pending.
  abbrev SeenTerminal : System codec redis → String → Raw → Type 0
  SeenTerminal s token raw = Among (token, raw) s.seen × (is_pending (parse raw).status ≡ false)

  record IsFinal (s : System codec redis) : Type 0 where
    pub seen_used : (token : String) (raw : Raw) → Among (token, raw) s.seen → Among token s.used
    pub pinned : (token : String) (raw : Raw) → SeenTerminal s token raw → IsPinned s token raw
    pub agree :
        (token : String) (raw raw' : Raw)
        → SeenTerminal s token raw
        → SeenTerminal s token raw'
        → raw ≡ raw'

  -- The store after a command that leaves the key of `u` as it was, deletes it, or is refused.
  abbrev Keeps : System codec redis → Db → String → Type 0
  Keeps s d u =
      (t : ℕ) (v : Raw)
      → s.now ≤ t
      → get d t (token_key u) ≡ some v
      → get s.db t (token_key u) ≡ some v

  consume-Keeps :
      (s : System codec redis) (token thread u : String)
      → Keeps s (consume codec redis s.db s.now token thread).0 u
  consume-Keeps s token thread u t v le e =
      let after = get-consume codec redis s.db s.now t token thread u le in ground arith

  create-Keeps :
      (s : System codec redis) (token u : String) (session : ResponseCodeSession)
      → str_eq token u ≡ false
      → Keeps s (create_session codec redis s.db s.now token session) u
  create-Keeps s token u session other t v le e =
      let after = get-create_session codec redis s.db s.now t token u session le in ground arith

  -- The script, run on a read of a pending session, does not touch a token whose terminal session
  -- was read.
  mark-Keeps :
      (s : System codec redis) (token thread u : String) (raw final : Raw)
      (status : ResponseCodeStatus) (result : ResponseCodeResult)
      → is_pending (parse raw).status ≡ true
      → is_pending (parse final).status ≡ false
      → IsPinned s u final
      → Keeps s (mark_read codec redis s.db s.now token thread raw status result).0 u
  mark-Keeps s token thread u raw final status result p q pin =
      elim (get-mark_read codec redis s.db s.now token thread raw status result) [
        | inl same ↦ λ t v le e. rw same at e
        | inr (found, after) ↦ λ t v le e. elim (Bool-cases (str_eq token u)) [
          | inr other ↦ let a = after t u le in ground arith
          | inl same ↦
              let eq : token ≡ u = (eq_iff token u).0 same in
              let one : raw ≡ final = pin s.now raw (omega arith) (rw eq at found) in
              absurd (clash (sym p ∙ ap (λ r. is_pending (parse r).status) one ∙ q))
        ]
      ]
    where
      clash : true ≡ false → ⊥
      clash h = cc

  pinned_after :
      (s : System codec redis) (d : Db) (u : String) (final : Raw)
      → Keeps s d u
      → IsPinned s u final
      → (t : ℕ) (v : Raw) → s.now ≤ t
      → get d t (token_key u) ≡ some v
      → v ≡ final
  pinned_after s d u final keeps pin t v le e = pin t v le (keeps t v le e)

  used_of_read :
      (s : System codec redis) (token : String) (raw : Raw)
      → IsSingle codec redis s
      → get s.db s.now (token_key token) ≡ some raw
      → Among token s.used
  used_of_read s token raw w e = elim (w.unknown token) [
    | inl a ↦ a
    | inr g ↦ absurd (absent-ne-some codec redis _ raw (g s.now (omega arith)) e)
  ]

  Step-IsFinal :
      {s t : System codec redis}
      → Step codec redis s t
      → IsSingle codec redis s
      → IsFinal s
      → IsFinal t
  Step-IsFinal {s} (create token session new pending) w v = record {
    seen_used = λ u raw a. inr (v.seen_used u raw a);
    pinned = λ u raw a.
        pinned_after s _ u raw
          (create-Keeps s token u session
            (other_of_new codec redis s token u new (v.seen_used u raw a.0)))
          (v.pinned u raw a);
    agree = v.agree;
  }
  Step-IsFinal {s} (read token raw e) w v = record {
    seen_used = seen_used;
    pinned = λ u final a. pinned u final a.0 a.1;
    agree = λ u r r' a b. agree u r r' a.0 a.1 b.0 b.1;
  }
    where
      seen_used :
          (u : String) (final : Raw)
          → (Path (String × Raw) (token, raw) (u, final)) ⊎ Among (u, final) s.seen
          → Among u s.used
      seen_used u final (inl same) =
          rw (← ap (λ (x : String × Raw). x.0) same) (used_of_read s token raw w e)
      seen_used u final (inr a) = v.seen_used u final a

      pinned :
          (u : String) (final : Raw)
          → (Path (String × Raw) (token, raw) (u, final)) ⊎ Among (u, final) s.seen
          → is_pending (parse final).status ≡ false
          → (t : ℕ) (x : Raw) → s.now ≤ t
          → get s.db t (token_key u) ≡ some x
          → x ≡ final
      pinned u final (inr a) q t x le f = v.pinned u final (a, q) t x le f
      pinned u final (inl same) q t x le f =
          let now : get s.db s.now (token_key u) ≡ some x =
            get_stable s.db s.now t (token_key u) x le f in
          let e1 : token ≡ u = ap (λ (x : String × Raw). x.0) same in
          let e2 : raw ≡ final = ap (λ (x : String × Raw). x.1) same in ground arith

      read_again :
          (u : String) (r r' : Raw)
          → Path (String × Raw) (token, raw) (u, r)
          → SeenTerminal s u r'
          → r ≡ r'
      read_again u r r' same b =
          let e1 : token ≡ u = ap (λ (x : String × Raw). x.0) same in
          let e2 : raw ≡ r = ap (λ (x : String × Raw). x.1) same in
          v.pinned u r' b s.now r (omega arith) (rw (← e1, ← e2) e)

      agree :
          (u : String) (r r' : Raw)
          → (Path (String × Raw) (token, raw) (u, r)) ⊎ Among (u, r) s.seen
          → is_pending (parse r).status ≡ false
          → (Path (String × Raw) (token, raw) (u, r')) ⊎ Among (u, r') s.seen
          → is_pending (parse r').status ≡ false
          → r ≡ r'
      agree u r r' (inl same) q (inl same') q' =
          sym (ap (λ (x : String × Raw). x.1) same) ∙ ap (λ (x : String × Raw). x.1) same'
      agree u r r' (inl same) q (inr b) q' = read_again u r r' same (b, q')
      agree u r r' (inr a) q (inl same') q' = sym (read_again u r' r same' (a, q))
      agree u r r' (inr a) q (inr b) q' = v.agree u r r' (a, q) (b, q')
  Step-IsFinal {s} (mark token thread raw status result a p q) w v = record {
    seen_used = v.seen_used;
    pinned = λ u final b.
        pinned_after s _ u final
          (mark-Keeps s token thread u raw final status result p b.1 (v.pinned u final b))
          (v.pinned u final b);
    agree = v.agree;
  }
  Step-IsFinal {s} (deliver token raw a p c) w v = record {
    seen_used = v.seen_used;
    pinned = λ u final b. pinned_after s _ u final (consume-Keeps s token _ u) (v.pinned u final b);
    agree = v.agree;
  }
  Step-IsFinal {s} (late token raw a p c) w v = record {
    seen_used = v.seen_used;
    pinned = λ u final b. pinned_after s _ u final (consume-Keeps s token _ u) (v.pinned u final b);
    agree = v.agree;
  }
  Step-IsFinal {s} (tick n) w v = record {
    seen_used = v.seen_used;
    pinned = λ u final b t x le. v.pinned u final b t x (omega arith);
    agree = v.agree;
  }

  IsInitial-IsFinal : (s : System codec redis) → IsInitial codec redis s → IsFinal s
  IsInitial-IsFinal s i = record {
    seen_used = λ u raw a. absurd (no_read u raw a);
    pinned = λ u raw a. absurd (no_read u raw a.0);
    agree = λ u r r' a b. absurd (no_read u r a.0);
  }
    where
      no_read : (u : String) (raw : Raw) → Among (u, raw) s.seen → ⊥
      no_read u raw a = rw i.no_reads at a

  Reach-IsFinal :
      {s t : System codec redis} → IsInitial codec redis s → Reach codec redis s t → IsFinal t
  Reach-IsFinal {s} i here = IsInitial-IsFinal s i
  Reach-IsFinal i (next r st) = Step-IsFinal st (Reach-IsSingle codec redis i r) (Reach-IsFinal i r)

  -- From an empty store and whatever the interleaving, all reads of one response code that find a
  -- session that is no longer pending find the same one, and from then on its key holds that
  -- session or is absent: no later webhook changes or revives a verdict.
  pub verdict_stands :
      (s t : System codec redis) (token : String) (raw raw' : Raw)
      → IsInitial codec redis s
      → Reach codec redis s t
      → SeenTerminal t token raw
      → SeenTerminal t token raw'
      → (raw ≡ raw') × IsPinned t token raw
  verdict_stands s t token raw raw' i r a b =
      let v = Reach-IsFinal i r in (v.agree token raw raw' a b, v.pinned token raw a)
