-- ===== src/Exceptions/Status.antt =====
-- libs/common/src/exception-normalisation.ts, `resolveHttpStatus`: the status is one of an error.
use ngotag_platform.Exceptions.{
  is_error_status, internal_server_error, accept_status, numeric, resolve_http_status,
}
use ngotag_platform.Common.{
  arith, ℕ, ◌≡◌, refl, ◌≤◌, true, false, Option, none, some, List, [], ◌∷◌, String, ◌⊎◌, inl, inr,
  Bool-cases,
}
use ngotag_platform.Common.Json.{Value}

IsErrorStatus : ℕ → Type 0
IsErrorStatus n = (400 ≤ n) × (n ≤ 599)

is_error_status-true : (n : ℕ) → is_error_status n ≡ true → IsErrorStatus n
unfolding is_error_status IsErrorStatus
is_error_status-true n h = (ground arith, ground arith)

is_error_status-false : (n : ℕ) → is_error_status n ≡ false → ¬ IsErrorStatus n
unfolding is_error_status IsErrorStatus
is_error_status-false n h (low, high) = ground arith

module _ (digits : String → Option ℕ) where
  -- One of the candidates is the number, or its digits.
  data Offers : List (Option Value) → ℕ → Type 0 where
    here :
        {c : Option Value} {cs : List (Option Value)} {n : ℕ}
        → numeric digits c ≡ some n
        → Offers (c ∷ cs) n
    further :
        {c : Option Value} {cs : List (Option Value)} {n : ℕ} → Offers cs n → Offers (c ∷ cs) n

  IsResolved : List (Option Value) → ℕ → Type 0
  IsResolved cs r =
      (IsErrorStatus r × Offers cs r)
      ⊎ ((r ≡ internal_server_error) × ((n : ℕ) → Offers cs n → ¬ IsErrorStatus n))

  skip_one :
      (c : Option Value) (cs : List (Option Value)) (r : ℕ)
      → ((n : ℕ) → numeric digits c ≡ some n → ¬ IsErrorStatus n)
      → IsResolved cs r
      → IsResolved (c ∷ cs) r
  unfolding IsResolved
  skip_one c cs r unfit (inl (e, o)) = inl (e, further o)
  skip_one c cs r unfit (inr (e, none_so_far)) =
      inr (e, λ n o. elim o [ here h ↦ unfit n h | further p ↦ none_so_far n p ])

  refused :
      (o : Option ℕ) (n m : ℕ)
      → o ≡ some n
      → is_error_status n ≡ false
      → o ≡ some m
      → ¬ IsErrorStatus m
  refused o n m e f g = let same : m ≡ n = cc in rw (same) (is_error_status-false n f)

  accepted :
      (c : Option Value) (cs : List (Option Value)) (n : ℕ)
      → numeric digits c ≡ some n
      → IsErrorStatus n
      → IsResolved (c ∷ cs) n
  unfolding IsResolved
  accepted c cs n e s = inl (s, here e)

  no_status : (n : ℕ) → Offers [] n → ¬ IsErrorStatus n
  no_status n o = elim o [ ]

  accept_one :
      (c : Option Value) (cs : List (Option Value)) (o : Option ℕ) (r : ℕ)
      → numeric digits c ≡ o
      → IsResolved cs r
      → IsResolved (c ∷ cs) (accept_status o r)
  unfolding accept_status
  accept_one c cs none r e h = skip_one c cs r (λ n f. absurd (cc)) h
  accept_one c cs (some n) r e h = elim (Bool-cases (is_error_status n)) [
    | inl t ↦ rw (t) (accepted c cs n e (is_error_status-true n t))
    | inr f ↦ rw (f) (skip_one c cs r (λ m g. refused (numeric digits c) n m e f g) h)
  ]

  -- The status of an exception is a number from 400 to 599 that a candidate offers, or 500 where no
  -- candidate offers one.
  resolve_http_status-IsResolved :
      (cs : List (Option Value)) → IsResolved cs (resolve_http_status digits cs)
  unfolding resolve_http_status IsResolved
  resolve_http_status-IsResolved [] = inr (refl, no_status)
  resolve_http_status-IsResolved (c ∷ cs) =
      accept_one c cs (numeric digits c) (resolve_http_status digits cs) refl
        (resolve_http_status-IsResolved cs)
