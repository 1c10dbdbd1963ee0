-- ===== src/Coordinator/Permit.antt =====
-- apps/issuance/src/issuance-work.coordinator.ts, `acquireAndRun` and `releasePermit`: how one operation
-- waits for a slot, runs in it and gives it back. The clock is read in the order of the code: `now n` is
-- its n-th reading. A run that has no fuel left is unfinished.
mod Rounds
pub mod Ends
mod Tests
use ngotag_platform.Common.{
  ℕ, zero, suc, ◌+◌, ◌-◌, ◌*◌, ◌≤◌, ◌<◌, ◌≡◌, ◌≢◌, refl, sym, ap, ◌∙◌, Bool, true, false, not, ◌&&◌,
  ◌||◌, List, [], ◌∷◌, ◌++◌, arith, leb, ltb, ◌==◌, Bool-cases, inl, inr, if◌then◌else◌,
}

-- What the script ACQUIRE answers: 1, 0 or -1; or its call throws.
pub data Grant : Type 0 where
  granted full mismatched unanswered : Grant

-- What ACTIVATE answers: 1, or not; or its call throws.
pub data Activation : Type 0 where
  confirmed refused broken : Activation

-- The operation is dispatched at the last reading before it.
pub data Step : Type 0 where
  tried activated : Step
  waited : ℕ → Step
  dispatched : ℕ → Step
  released : Bool → Step

-- How the call ends: `done` is the operation's own ending, its result or what it throws, the others
-- are errors; `store_failed` is that of ACQUIRE or ACTIVATE, `release_failed` that of the last RELEASE.
pub data Ending : Type 0 where
  done wait_exceeded inconsistent expired store_failed release_failed unfinished : Ending
  acquired_at : ℕ → Ending

-- `grant n` is what comes of the n-th ACQUIRE, `activation` what comes of ACTIVATE, and
-- `release_fails n` whether the n-th RELEASE throws.
pub record Env : Type 0 where
  pub now : ℕ → ℕ
  pub grant : ℕ → Grant
  pub activation : Activation
  pub release_fails : ℕ → Bool

pub min_of : ℕ → ℕ → ℕ
min_of a b = if leb a b then a else b

pub max_of : ℕ → ℕ → ℕ
max_of a b = if leb a b then b else a

pub wait_delay : Env → ℕ → ℕ → ℕ → ℕ
wait_delay e deadline k retry = min_of retry (max_of 1 (deadline - e.now (k * 2 + 1)))

pub waited_then : ℕ → List Step × Ending → List Step × Ending
waited_then delay (steps, end) = (tried ∷ waited delay ∷ steps, end)

-- One round: whether the wait is exceeded, and otherwise the answer of ACQUIRE.
pub round : Bool → Grant → ℕ → ℕ → List Step × Ending → List Step × Ending
round true g k delay rest = ([], wait_exceeded)
round false mismatched k delay rest = (tried ∷ [], inconsistent)
round false unanswered k delay rest = (tried ∷ [], store_failed)
round false granted k delay rest = (tried ∷ [], acquired_at k)
round false full k delay rest = waited_then delay rest

-- The loop, from its k-th round on.
unfoldable pub acquire : Env → ℕ → ℕ → ℕ → ℕ → List Step × Ending
acquire e deadline zero k retry = ([], unfinished)
acquire e deadline (suc fuel) k retry =
    let rest = acquire e deadline fuel (k + 1) (min_of 50 (retry * 2)) in
    round (leb deadline (e.now (k * 2))) (e.grant k) k (wait_delay e deadline k retry) rest

-- The rest of the `try`: both checks of the clock, and ACTIVATE between them.
pub activated_then : Env → ℕ → ℕ → Activation → List Step × Ending
activated_then e deadline k broken = (activated ∷ [], store_failed)
activated_then e deadline k refused = (activated ∷ [], expired)
activated_then e deadline k confirmed =
    if leb deadline (e.now (k * 2 + 2))
    then (activated ∷ [], wait_exceeded)
    else (activated ∷ dispatched (e.now (k * 2 + 2)) ∷ [], done)

pub admit : Env → ℕ → ℕ → List Step × Ending
admit e deadline k =
    if leb deadline (e.now (k * 2 + 1))
    then ([], wait_exceeded)
    else activated_then e deadline k e.activation

pub admitted : Env → ℕ → Ending → List Step × Ending
admitted e deadline (acquired_at k) = admit e deadline k
admitted e deadline end = ([], end)

-- The pause after the n-th attempt to release fails, where another one follows.
pub pause_after : ℕ → ℕ → List Step
pause_after zero n = []
pause_after (suc left) n = waited (25 * (n + 1)) ∷ []

-- The attempts to release, and whether the last of them throws.
pub release_permit : Env → ℕ → ℕ → List Step × Bool
release_permit e zero n = ([], true)
release_permit e (suc left) n =
    let rest = release_permit e left (n + 1) in
    if e.release_fails n
    then (released false ∷ (pause_after left n ++ rest.0), rest.1)
    else (released true ∷ [], false)

-- The `finally`: an error of it replaces the ending.
pub completed : Env → List Step → List Step × Ending → List Step × Ending
completed e before (steps, end) =
    let release = release_permit e 3 0 in
    (before ++ (steps ++ release.0), if release.1 then release_failed else end)

pub after_acquire : Env → ℕ → List Step × Ending → List Step × Ending
after_acquire e deadline (steps, end) = completed e steps (admitted e deadline end)

pub acquire_and_run : Env → ℕ → ℕ → List Step × Ending
acquire_and_run e deadline fuel = after_acquire e deadline (acquire e deadline fuel 0 1)

-- `retryDelay` in the k-th round.
pub retry_at : ℕ → ℕ
retry_at zero = 1
retry_at (suc k) = min_of 50 (retry_at k * 2)

-- Time passes: a reading is no earlier than the one before, and a timer does not fire early.
pub record IsClock (e : Env) (deadline : ℕ) : Type 0 where
  pub ordered : (n : ℕ) → e.now n ≤ e.now (n + 1)
  pub timed :
      (k : ℕ)
      → e.grant k ≡ full
      → e.now (k * 2 + 1) + wait_delay e deadline k (retry_at k) ≤ e.now (k * 2 + 2)

-- Of a run that is orderly each wait is of 1 to 50 milliseconds, and each dispatch before the deadline.
pub is_orderly : ℕ → List Step → Bool
is_orderly deadline [] = true
is_orderly deadline (waited n ∷ steps) = leb 1 n && leb n 50 && is_orderly deadline steps
is_orderly deadline (dispatched t ∷ steps) = ltb t deadline && is_orderly deadline steps
is_orderly deadline (s ∷ steps) = is_orderly deadline steps

pub dispatches : List Step → ℕ
dispatches [] = 0
dispatches (dispatched t ∷ steps) = dispatches steps + 1
dispatches (s ∷ steps) = dispatches steps

-- Whether the steps end with an attempt to release.
pub ends_released : List Step → Bool
ends_released [] = false
ends_released (released b ∷ []) = true
ends_released (s ∷ []) = false
ends_released (s ∷ t ∷ steps) = ends_released (t ∷ steps)

abbrev pub is_done : Ending → Bool
is_done done = true
is_done end = false

abbrev pub is_release_failed : Ending → Bool
is_release_failed release_failed = true
is_release_failed end = false

abbrev pub is_finished : Ending → Bool
is_finished unfinished = false
is_finished (acquired_at k) = false
is_finished end = true
