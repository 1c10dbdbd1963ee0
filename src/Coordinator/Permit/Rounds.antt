-- ===== src/Coordinator/Permit/Rounds.antt =====
-- apps/issuance/src/issuance-work.coordinator.ts: the rounds of a wait for a slot, the rest of the `try`
-- and the release, each by itself.
use ngotag_platform.Common.{
  ℕ, zero, suc, ◌+◌, ◌*◌, ◌≤◌, ◌≡◌, refl, sym, ap, ◌∙◌, Bool, true, false, ◌&&◌, not, List, [], ◌∷◌,
  arith, leb, ◌==◌, if◌then◌else◌,
}
use ngotag_platform.Coordinator.Permit.{
  Grant, Activation, confirmed, refused, broken, unanswered, store_failed, release_failed,
  is_release_failed, activated_then, pause_after, Step, Ending, Env, min_of, max_of, wait_delay,
  waited_then, round, acquire, admit, admitted, release_permit, retry_at, IsClock, is_orderly,
  dispatches, ends_released, is_done, is_finished, granted, full, mismatched, tried, activated,
  waited, dispatched, released, done, wait_exceeded, inconsistent, expired, unfinished, acquired_at,
}

wait_delay-least : (e : Env) (deadline k retry : ℕ) → 1 ≤ retry → 1 ≤ wait_delay e deadline k retry
unfolding wait_delay min_of max_of
wait_delay-least e deadline k retry h = ground arith

wait_delay-most : (e : Env) (deadline k retry : ℕ) → wait_delay e deadline k retry ≤ retry
unfolding wait_delay min_of
wait_delay-most e deadline k retry = ground arith

next_retry-least : (retry : ℕ) → 1 ≤ retry → 1 ≤ min_of 50 (retry * 2)
unfolding min_of
next_retry-least retry h = ground arith

next_retry-most : (retry : ℕ) → min_of 50 (retry * 2) ≤ 50
unfolding min_of
next_retry-most retry = ground arith

-- How the loop ends.
abbrev pub is_waited : Ending → Bool
is_waited wait_exceeded = true
is_waited inconsistent = true
is_waited store_failed = true
is_waited (acquired_at k) = true
is_waited end = false

round-ends :
    (b : Bool) (g : Grant) (k delay : ℕ) (rest : List Step × Ending)
    → (b ≡ false → g ≡ full → is_waited rest.1 ≡ true)
    → is_waited (round b g k delay rest).1 ≡ true
unfolding round waited_then
round-ends true g k delay rest h = refl
round-ends false granted k delay rest h = refl
round-ends false mismatched k delay rest h = refl
round-ends false unanswered k delay rest h = refl
round-ends false full k delay rest h = h refl refl

round-orderly :
    (deadline : ℕ) (b : Bool) (g : Grant) (k delay : ℕ) (rest : List Step × Ending)
    → 1 ≤ delay
    → delay ≤ 50
    → (is_orderly deadline rest.0 && (dispatches rest.0 == 0)) ≡ true
    → (is_orderly deadline (round b g k delay rest).0
        && (dispatches (round b g k delay rest).0 == 0))
      ≡ true
unfolding round waited_then is_orderly dispatches
round-orderly deadline true g k delay rest l m h = refl
round-orderly deadline false granted k delay rest l m h = refl
round-orderly deadline false mismatched k delay rest l m h = refl
round-orderly deadline false unanswered k delay rest l m h = refl
round-orderly deadline false full k delay rest l m h = ground arith

pub last_one : (x : Step) (ys : List Step) → ends_released ys ≡ true → ends_released (x ∷ ys) ≡ true
unfolding ends_released
last_one x [] h = absurd (ground arith)
last_one tried (y ∷ ys) h = h
last_one activated (y ∷ ys) h = h
last_one (waited n) (y ∷ ys) h = h
last_one (dispatched t) (y ∷ ys) h = h
last_one (released b) (y ∷ ys) h = h

module _ (e : Env) (deadline : ℕ) where
  retry_at-least : (k : ℕ) → 1 ≤ retry_at k
  unfolding retry_at
  retry_at-least zero = omega arith
  retry_at-least (suc k) = next_retry-least (retry_at k) (retry_at-least k)

  retry_at-next : (k : ℕ) → retry_at (k + 1) ≡ min_of 50 (retry_at k * 2)
  unfolding retry_at
  retry_at-next k = let same : k + 1 ≡ suc k = omega arith in ap retry_at same

  -- Each round takes time, so that the loop ends.
  pub acquire-ends :
      (n k : ℕ)
      → IsClock e deadline
      → deadline ≤ e.now (k * 2) + n
      → is_waited (acquire e deadline (suc n) k (retry_at k)).1 ≡ true
  unfolding acquire
  acquire-ends zero k c f =
      round-ends (leb deadline (e.now (k * 2))) (e.grant k) k (wait_delay e deadline k (retry_at k))
        _ (λ b g. absurd (ground arith))
  acquire-ends (suc n) k c f =
      round-ends (leb deadline (e.now (k * 2))) (e.grant k) k (wait_delay e deadline k (retry_at k))
        _
        (λ b g.
          let least = wait_delay-least e deadline k (retry_at k) (retry_at-least k) in
          let first = c.ordered (k * 2) in
          let second = c.timed k g in
          let index : (k + 1) * 2 ≡ k * 2 + 2 = omega arith in
          let later : deadline ≤ e.now ((k + 1) * 2) + n = rw (index) (omega arith) in
          ap (λ r. is_waited (acquire e deadline (suc n) (k + 1) r).1) (sym (retry_at-next k))
          ∙ acquire-ends n (k + 1) c later)

  pub acquire-orderly :
      (n k retry : ℕ)
      → 1 ≤ retry
      → retry ≤ 50
      → (is_orderly deadline (acquire e deadline n k retry).0
          && (dispatches (acquire e deadline n k retry).0 == 0))
        ≡ true
  unfolding acquire
  acquire-orderly zero k retry r m = unfold is_orderly dispatches in refl
  acquire-orderly (suc n) k retry r m =
      round-orderly deadline (leb deadline (e.now (k * 2))) (e.grant k) k
        (wait_delay e deadline k retry) _ (wait_delay-least e deadline k retry r)
        (omega (arith, wait_delay-most e deadline k retry))
        (acquire-orderly n (k + 1) (min_of 50 (retry * 2)) (next_retry-least retry r)
          (next_retry-most retry))

  activated-orderly :
      (k : ℕ) (a : Activation)
      → (is_orderly deadline (activated_then e deadline k a).0
          && is_finished (activated_then e deadline k a).1
          && not (is_release_failed (activated_then e deadline k a).1)
          && (dispatches (activated_then e deadline k a).0
              == (if is_done (activated_then e deadline k a).1 then 1 else 0)))
        ≡ true
  unfolding activated_then is_orderly dispatches
  activated-orderly k broken = refl
  activated-orderly k refused = refl
  activated-orderly k confirmed = ground arith

  admit-orderly :
      (k : ℕ)
      → (is_orderly deadline (admit e deadline k).0
          && is_finished (admit e deadline k).1
          && not (is_release_failed (admit e deadline k).1)
          && (dispatches (admit e deadline k).0
              == (if is_done (admit e deadline k).1 then 1 else 0)))
        ≡ true
  unfolding admit is_orderly dispatches
  admit-orderly k = let after = activated-orderly k e.activation in ground arith

  pub admitted-orderly :
      (end : Ending)
      → is_waited end ≡ true
      → (is_orderly deadline (admitted e deadline end).0
          && is_finished (admitted e deadline end).1
          && not (is_release_failed (admitted e deadline end).1)
          && (dispatches (admitted e deadline end).0
              == (if is_done (admitted e deadline end).1 then 1 else 0)))
        ≡ true
  unfolding admitted is_orderly dispatches
  admitted-orderly (acquired_at k) h = admit-orderly k
  admitted-orderly wait_exceeded h = refl
  admitted-orderly inconsistent h = refl
  admitted-orderly store_failed h = refl
  admitted-orderly release_failed h = absurd (ground arith)
  admitted-orderly done h = absurd (ground arith)
  admitted-orderly expired h = absurd (ground arith)
  admitted-orderly unfinished h = absurd (ground arith)

  pub release-orderly :
      (is_orderly deadline (release_permit e 3 0).0
        && (dispatches (release_permit e 3 0).0 == 0)
        && ends_released (release_permit e 3 0).0)
      ≡ true
  unfolding release_permit pause_after is_orderly dispatches ends_released
  release-orderly = ground arith

  pub release-thrown :
      (release_permit e 3 0).1 ≡ (e.release_fails 0 && e.release_fails 1 && e.release_fails 2)
  unfolding release_permit
  release-thrown = ground arith
