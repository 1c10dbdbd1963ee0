-- ===== src/Exceptions/Message.antt =====
-- libs/common/src/exception-normalisation.ts, `resolveMessage`: which texts it can find.
use ngotag_platform.Exceptions.{
  message_of, or_rest, first_message, resolve_message_at_depth, resolve_message,
}
use ngotag_platform.Common.{
  Bool, ℕ, zero, suc, ◌≡◌, refl, false, true, Option, none, some, List, [], ◌∷◌, String, str_eq,
  arith, Bool-cases, inl, inr,
}
use ngotag_platform.Common.Json.{Value, null, boolean, number, str, list, object, lookup, Fields}

-- A text that is not empty stands among the candidates, or below the members `message` and `error` of
-- one of them, fewer levels down than the number.
data Yields : ℕ → List (Option Value) → String → Type 0 where
  text :
      {depth : ℕ} {cs : List (Option Value)} {s : String}
      → str_eq s "" ≡ false
      → Yields (suc depth) (some (str s) ∷ cs) s
  inside :
      {depth : ℕ} {cs : List (Option Value)} {fs : Fields} {s : String}
      → Yields depth (lookup fs "message" ∷ lookup fs "error" ∷ []) s
      → Yields (suc depth) (some (object fs) ∷ cs) s
  further :
      {depth : ℕ} {c : Option Value} {cs : List (Option Value)} {s : String}
      → Yields (suc depth) cs s
      → Yields (suc depth) (c ∷ cs) s

pub IsAnswer : ℕ → List (Option Value) → Option String → Type 0
IsAnswer depth cs none = (s : String) → ¬ Yields depth cs s
IsAnswer depth cs (some s) = Yields depth cs s

no_candidates : (depth : ℕ) (s : String) → ¬ Yields depth [] s
no_candidates depth s y = elim y [ ]

no_members : (depth : ℕ) (s : String) → ¬ Yields depth (none ∷ none ∷ []) s
no_members depth s (further (further y)) = no_candidates depth s y

none_below_undefined :
    (depth : ℕ) (o : Option String) → IsAnswer depth (none ∷ none ∷ []) o → o ≡ none
unfolding IsAnswer
none_below_undefined depth none a = refl
none_below_undefined depth (some s) a = absurd (no_members depth s a)

-- What holds no text and has no members.
is_bare : Option Value → Bool
is_bare (some (str s)) = str_eq s ""
is_bare (some (object fs)) = false
is_bare v = true

after_bare :
    {depth : ℕ} (c : Option Value) (cs : List (Option Value)) (s : String)
    → is_bare c ≡ true
    → Yields (suc depth) (c ∷ cs) s
    → Yields (suc depth) cs s
unfolding is_bare
after_bare c cs s h (text e) = absurd (ground arith)
after_bare c cs s h (inside y) = absurd (ground arith)
after_bare c cs s h (further y) = y

skip_bare :
    (depth : ℕ) (c : Option Value) (cs : List (Option Value)) (o : Option String)
    → is_bare c ≡ true
    → IsAnswer (suc depth) cs o
    → IsAnswer (suc depth) (c ∷ cs) o
unfolding IsAnswer
skip_bare depth c cs none h rest = λ s y. rest s (after_bare c cs s h y)
skip_bare depth c cs (some s) h rest = further rest

either_member :
    (depth : ℕ) (fs : Fields) (cs : List (Option Value)) (below rest : Option String)
    → IsAnswer depth (lookup fs "message" ∷ lookup fs "error" ∷ []) below
    → IsAnswer (suc depth) cs rest
    → IsAnswer (suc depth) (some (object fs) ∷ cs) (or_rest below rest)
unfolding IsAnswer or_rest
either_member depth fs cs (some s) rest b r = inside b
either_member depth fs cs none (some s) b r = further r
either_member depth fs cs none none b r = λ s y. elim y [ inside z ↦ b s z | further z ↦ r s z ]

module _ (depth : ℕ) (nested : List (Option Value) → Option String)
    (deeper : (cs : List (Option Value)) → IsAnswer depth cs (nested cs)) where
  after_text :
      (s : String) (cs : List (Option Value)) (rest : Option String)
      → IsAnswer (suc depth) cs rest
      → IsAnswer (suc depth) (some (str s) ∷ cs) (or_rest (message_of nested (some (str s))) rest)
  unfolding message_of or_rest is_bare IsAnswer
  after_text s cs rest r = elim (Bool-cases (str_eq s "")) [
    | inl e ↦ rw (e) (skip_bare depth (some (str s)) cs rest e r)
    | inr e ↦ let found : Yields (suc depth) (some (str s) ∷ cs) s = text e in rw (e) found
  ]

  after_one :
      (c : Option Value) (cs : List (Option Value)) (rest : Option String)
      → IsAnswer (suc depth) cs rest
      → IsAnswer (suc depth) (c ∷ cs) (or_rest (message_of nested c) rest)
  unfolding message_of or_rest is_bare
  after_one none cs rest r = skip_bare depth none cs rest refl r
  after_one (some null) cs rest r = skip_bare depth (some null) cs rest refl r
  after_one (some (boolean b)) cs rest r = skip_bare depth (some (boolean b)) cs rest refl r
  after_one (some (number n)) cs rest r = skip_bare depth (some (number n)) cs rest refl r
  after_one (some (str s)) cs rest r = after_text s cs rest r
  after_one (some (list vs)) cs rest r =
      let e = none_below_undefined depth (nested (none ∷ none ∷ [])) (deeper (none ∷ none ∷ [])) in
      rw (e) (skip_bare depth (some (list vs)) cs rest refl r)
  after_one (some (object fs)) cs rest r =
      let members = lookup fs "message" ∷ lookup fs "error" ∷ [] in
      either_member depth fs cs (nested members) rest (deeper members) r

  first_message-IsAnswer :
      (cs : List (Option Value)) → IsAnswer (suc depth) cs (first_message nested cs)
  unfolding first_message IsAnswer
  first_message-IsAnswer [] = no_candidates (suc depth)
  first_message-IsAnswer (c ∷ cs) =
      after_one c cs (first_message nested cs) (first_message-IsAnswer cs)

no_depth : (cs : List (Option Value)) (s : String) → ¬ Yields zero cs s
no_depth cs s y = elim y [ ]

resolve_message_at_depth-IsAnswer :
    (depth : ℕ) (cs : List (Option Value)) → IsAnswer depth cs (resolve_message_at_depth depth cs)
unfolding resolve_message_at_depth IsAnswer
resolve_message_at_depth-IsAnswer zero cs = no_depth cs
resolve_message_at_depth-IsAnswer (suc depth) cs =
    first_message-IsAnswer depth (resolve_message_at_depth depth)
      (resolve_message_at_depth-IsAnswer depth) cs

-- The message of an exception is a text that is not empty and stands among the candidates or at most two
-- levels below them; there is none only where there is no such text.
pub resolve_message-IsAnswer : (cs : List (Option Value)) → IsAnswer 3 cs (resolve_message cs)
unfolding resolve_message
resolve_message-IsAnswer cs = resolve_message_at_depth-IsAnswer 3 cs
