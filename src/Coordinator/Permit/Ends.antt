-- ===== src/Coordinator/Permit/Ends.antt =====
-- apps/issuance/src/issuance-work.coordinator.ts: every wait for a slot comes to an end.
use ngotag_platform.Common.{
  ℕ, suc, ◌+◌, ◌-◌, ◌≡◌, refl, ◌∙◌, Bool, true, false, ◌&&◌, ◌||◌, not, List, [], ◌∷◌, ◌++◌, arith,
  leb, ◌==◌, if◌then◌else◌,
}
use ngotag_platform.Coordinator.Permit.{
  release_failed, is_release_failed, Step, Ending, Env, acquire, admitted, release_permit,
  completed, after_acquire, acquire_and_run, retry_at, IsClock, is_orderly, dispatches,
  ends_released, is_done, is_finished, tried, activated, waited, dispatched, released,
}
use ngotag_platform.Coordinator.Permit.Rounds.{
  last_one, acquire-ends, acquire-orderly, admitted-orderly, release-orderly, release-thrown,
  is_waited,
}

is_orderly-append :
    (deadline : ℕ) (xs ys : List Step)
    → is_orderly deadline (xs ++ ys) ≡ (is_orderly deadline xs && is_orderly deadline ys)
unfolding is_orderly
is_orderly-append deadline [] ys = refl
is_orderly-append deadline (waited n ∷ xs) ys =
    let ih = is_orderly-append deadline xs ys in ground arith
is_orderly-append deadline (dispatched t ∷ xs) ys =
    let ih = is_orderly-append deadline xs ys in ground arith
is_orderly-append deadline (tried ∷ xs) ys = is_orderly-append deadline xs ys
is_orderly-append deadline (activated ∷ xs) ys = is_orderly-append deadline xs ys
is_orderly-append deadline (released b ∷ xs) ys = is_orderly-append deadline xs ys

dispatches-append : (xs ys : List Step) → dispatches (xs ++ ys) ≡ dispatches xs + dispatches ys
unfolding dispatches
dispatches-append [] ys = omega arith
dispatches-append (waited n ∷ xs) ys = dispatches-append xs ys
dispatches-append (dispatched t ∷ xs) ys = let ih = dispatches-append xs ys in omega arith
dispatches-append (tried ∷ xs) ys = dispatches-append xs ys
dispatches-append (activated ∷ xs) ys = dispatches-append xs ys
dispatches-append (released b ∷ xs) ys = dispatches-append xs ys

ends_released-append :
    (xs ys : List Step) → ends_released ys ≡ true → ends_released (xs ++ ys) ≡ true
unfolding ends_released
ends_released-append [] ys h = h
ends_released-append (x ∷ xs) ys h = last_one x (xs ++ ys) (ends_released-append xs ys h)

-- The dispatches of a run: one where the ending is the operation's, at most one where that of the last
-- RELEASE replaces it, and else none.
is_counted : ℕ → Ending → Bool
is_counted n end = (is_release_failed end && leb n 1) || (n == (if is_done end then 1 else 0))

-- A run that comes to an end: it waits for short times only, dispatches as its ending says, always
-- before the deadline, and attempts to release last.
pub is_sound_run : ℕ → List Step × Ending → Bool
is_sound_run deadline (steps, end) =
    is_orderly deadline steps
    && is_finished end
    && is_counted (dispatches steps) end
    && ends_released steps

replaced :
    (n : ℕ) (end : Ending) (thrown : Bool)
    → (is_finished end && not (is_release_failed end) && (n == (if is_done end then 1 else 0)))
      ≡ true
    → (is_finished (if thrown then release_failed else end)
        && is_counted n (if thrown then release_failed else end))
      ≡ true
unfolding is_counted
replaced n end true h = ground arith
replaced n end false h = ground arith

replaced_if :
    (end : Ending) (thrown : Bool)
    → is_release_failed end ≡ false
    → is_release_failed (if thrown then release_failed else end) ≡ thrown
replaced_if end true h = refl
replaced_if end false h = h

completed_sound :
    (e : Env) (deadline : ℕ) (before steps : List Step) (end : Ending)
    → (is_orderly deadline before && (dispatches before == 0)) ≡ true
    → (is_orderly deadline steps
        && is_finished end
        && not (is_release_failed end)
        && (dispatches steps == (if is_done end then 1 else 0)))
      ≡ true
    → is_sound_run deadline (completed e before (steps, end)) ≡ true
unfolding completed is_sound_run
completed_sound e deadline before steps end b m =
    let after = release_permit e 3 0 in
    let r = release-orderly e deadline in
    let first = is_orderly-append deadline before (steps ++ after.0) in
    let second = is_orderly-append deadline steps after.0 in
    let count = dispatches-append before (steps ++ after.0) in
    let more = dispatches-append steps after.0 in
    let last : ends_released after.0 ≡ true = ground arith in
    let ends =
      ends_released-append before (steps ++ after.0) (ends_released-append steps after.0 last) in
    let same : dispatches before + (dispatches steps + dispatches after.0) ≡ dispatches steps =
      ground arith in
    let kept = replaced (dispatches steps) end after.1 (ground arith) in
    rw (first, second, count, more, ends, same) (ground arith)

completed_thrown :
    (e : Env) (deadline : ℕ) (before : List Step) (p : List Step × Ending)
    → is_release_failed p.1 ≡ false
    → is_release_failed (completed e before p).1
      ≡ (e.release_fails 0 && e.release_fails 1 && e.release_fails 2)
unfolding completed
completed_thrown e deadline before (steps, end) h =
    replaced_if end (release_permit e 3 0).1 h ∙ release-thrown e deadline

sound_after :
    (e : Env) (deadline : ℕ) (p : List Step × Ending)
    → (is_orderly deadline p.0 && (dispatches p.0 == 0)) ≡ true
    → is_waited p.1 ≡ true
    → (is_sound_run deadline (after_acquire e deadline p) ≡ true)
      × (is_release_failed (after_acquire e deadline p).1
          ≡ (e.release_fails 0 && e.release_fails 1 && e.release_fails 2))
unfolding after_acquire
sound_after e deadline (before, end) b w =
    let a = admitted-orderly e deadline end w in
    (
      completed_sound e deadline before (admitted e deadline end).0 (admitted e deadline end).1 b a,
      completed_thrown e deadline before (admitted e deadline end) (ground arith),
    )

-- If time passes and no timer fires early, then with one round for each millisecond until the deadline,
-- and one more, an operation's wait for a slot comes to an end, whatever the store answers and whichever
-- of its calls throw: the pauses in between are of 1 to 50 milliseconds; the operation is dispatched
-- once if the ending is its own, never if the wait fails, and only before the deadline; attempts to
-- release the slot come last, and an error of them ends the call exactly if all three throw.
pub acquire_and_run_ends :
    (e : Env) (deadline : ℕ)
    → IsClock e deadline
    → (is_sound_run deadline (acquire_and_run e deadline (suc (deadline - e.now 0))) ≡ true)
      × (is_release_failed (acquire_and_run e deadline (suc (deadline - e.now 0))).1
          ≡ (e.release_fails 0 && e.release_fails 1 && e.release_fails 2))
unfolding acquire_and_run
acquire_and_run_ends e deadline c =
    sound_after e deadline (acquire e deadline (suc (deadline - e.now 0)) 0 1)
      (acquire-orderly e deadline (suc (deadline - e.now 0)) 0 1 (omega arith) (omega arith))
      (unfold retry_at in acquire-ends e deadline (deadline - e.now 0) 0 c (omega arith))
