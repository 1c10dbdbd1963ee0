-- ===== src/ResponseCode/Tests.antt =====
-- The theorems over a store of keys, at concrete sessions.
use mathlib.Core.Logic.{ite, if_pos, if_neg}
use ngotag_platform.Common.{
  ℕ, ◌≤◌, ◌≡◌, ◌↔◌, inl, refl, arith, Bool, true, false, [], ◌∷◌, Option, none, some, String,
  str_eq, eq_iff,
}
use ngotag_platform.ResponseCode.{
  pending, completed, ResponseCodeResult, ResponseCodeSession, Codec, create_session,
  mark_terminal_by_thread_id, get_proof_callback_result, verdict, expired_code, consume, mark_read,
  mark_terminal_script,
}
use ngotag_platform.ResponseCode.Store.{token_key}
use ngotag_platform.ResponseCode.MapStore.{map_store}
use ngotag_platform.ResponseCode.Interleaving.{
  Among, System, create, read, mark, deliver, Reach, here, next, IsInitial,
}
use ngotag_platform.ResponseCode.SingleUse.{HasDistinctTokens, single_use}
use ngotag_platform.ResponseCode.Verdict.{IsPinned, verdict_stands}
use ngotag_platform.ResponseCode.Sequential.{callback_delivers}

-- Texts as the values that they encode.
data Text : Type 0 where
  json : ResponseCodeSession → Text
  plain : String → Text

opt_eq : Option String → Option String → Bool
opt_eq none none = true
opt_eq (some a) (some b) = str_eq a b
opt_eq _ _ = false

String-discrete : Discrete String
String-discrete a b = go (str_eq a b) refl
  where
    go : (t : Bool) → str_eq a b ≡ t → Dec (a ≡ b)
    go true e = yes ((eq_iff a b).0 e)
    go false e = no (λ h. clash e ((eq_iff a b).1 h))
      where
        clash : str_eq a b ≡ false → str_eq a b ≡ true → ⊥
        clash p q = cc

Text-discrete : Discrete Text
Text-discrete = hlevel String-discrete

text_eq : Text → Text → Bool
text_eq a b = ite (Text-discrete a b) true false

text_eq_iff : (a b : Text) → (text_eq a b ≡ true) ↔ (a ≡ b)
unfolding text_eq
text_eq_iff a b = elim (Text-discrete a b) [
  | yes p ↦ (λ _. p, λ _. if_pos (Text-discrete a b) p true false)
  | no p ↦
      (λ e. absurd (clash (rw (if_neg (Text-discrete a b) p true false) at e)), λ e. absurd (p e))
]
  where
    clash : false ≡ true → ⊥
    clash h = cc

abbrev waiting : ResponseCodeSession
waiting = record {
  org_id = "org";
  thread_id = "th";
  redirect_uri = "https://a.b/c";
  status = pending;
  result = none;
  created_at = "2024";
}

abbrev outcome : ResponseCodeResult
outcome = record { state = "done"; presentation_id = some "p1" }

abbrev parse_text : Text → ResponseCodeSession
parse_text (json s) = s
parse_text (plain t) = waiting

abbrev token_of : Text → String
token_of (json s) = ""
token_of (plain t) = t

abbrev empty_text : Text → Bool
empty_text (json s) = false
empty_text (plain t) = str_eq t ""

abbrev texts : Codec
texts = record {
  Raw = Text;
  raw_eq = text_eq;
  is_empty = empty_text;
  stringify = json;
  parse = parse_text;
  token_text = plain;
  text_token = token_of;
  pending_ttl = 600;
  result_ttl = 60;
  raw_eq_iff = text_eq_iff;
  stringify_nonempty = λ s. refl;
  is_empty-token_text = λ t. refl;
  parse-stringify = λ s. refl;
  text_token-token_text = λ t. refl;
}

abbrev start : System texts map_store
start = record { db = λ k. none; now = 0; used = []; seen = []; delivered = [] }

start-IsInitial : IsInitial texts map_store start
start-IsInitial = record {
  no_tokens = refl;
  no_reads = refl;
  no_verdicts = refl;
  empty = λ token t. refl;
}

abbrev s1 : System texts map_store
s1 = record start {
  db = create_session texts map_store start.db 0 "tok" waiting;
  used = "tok" ∷ [];
}

abbrev s2 : System texts map_store
s2 = record s1 { seen = ("tok", json waiting) ∷ [] }

abbrev finished : ResponseCodeSession
finished = record waiting { status = completed; result = some outcome }

abbrev s3 : System texts map_store
s3 = record s2 {
  db = (mark_read texts map_store s2.db 0 "tok" "th" (json waiting) completed outcome).0;
}

abbrev s4 : System texts map_store
s4 = record s3 { seen = ("tok", json finished) ∷ s3.seen }

abbrev s5 : System texts map_store
s5 = record s4 {
  db = (consume texts map_store s4.db 0 "tok" "th").0;
  delivered = ("tok", finished) ∷ [];
}

runs : Unit {0}
unfolding create_session mark_read mark_terminal_script consume text_eq Text-discrete
    String-discrete
runs = tt

Reach-s4 : Reach texts map_store start s4
unfolding runs
Reach-s4 =
    next
      (next (next (next here (create "tok" waiting (λ a. a) refl)) (read "tok" (json waiting) refl))
        (mark "tok" "th" (json waiting) completed outcome (inl refl) refl refl))
      (read "tok" (json finished) refl)

Reach-s5 : Reach texts map_store start s5
unfolding runs
Reach-s5 = next Reach-s4 (deliver "tok" (json finished) (inl refl) refl refl)

single_use_example :
    HasDistinctTokens s5.delivered
    × ((token : String) (session : ResponseCodeSession)
        → Among (token, session) s5.delivered
        → (later : ℕ) → s5.now ≤ later
        → map_store.get s5.db later (token_key token) ≡ none)
single_use_example = single_use texts map_store start s5 start-IsInitial Reach-s5

verdict_stands_example :
    (json finished ≡ json finished) × IsPinned texts map_store s5 "tok" (json finished)
verdict_stands_example =
    verdict_stands texts map_store start s5 "tok" (json finished) (json finished) start-IsInitial
      Reach-s5 (inl refl, refl) (inl refl, refl)

callback_delivers_example :
    (e : map_store.Db) × (get_proof_callback_result texts map_store
        (mark_terminal_by_thread_id texts map_store
          (create_session texts map_store start.db 0 "tok" waiting)
          30
          "th"
          completed
          outcome)
        60
        "tok"
      ≡ (e, verdict completed "th" (some outcome)))
    × (get_proof_callback_result texts map_store e 61 "tok" ≡ (e, expired_code))
callback_delivers_example =
    callback_delivers texts map_store start.db 0 30 60 61 "tok" waiting completed outcome (λ e. cc)
      refl refl (omega arith) (omega arith) (omega arith) (omega arith) (omega arith)
