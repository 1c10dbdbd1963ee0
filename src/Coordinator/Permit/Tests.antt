-- ===== src/Coordinator/Permit/Tests.antt =====
-- One wait for a slot: the first round finds none free.
use ngotag_platform.Coordinator.Permit.{
  Grant, confirmed, is_release_failed, granted, full, Env, IsClock, wait_delay, retry_at, min_of,
  acquire_and_run,
}
use ngotag_platform.Coordinator.Permit.Ends.{is_sound_run, acquire_and_run_ends}
use ngotag_platform.Common.{ℕ, zero, suc, ◌&&◌, ◌-◌, ◌*◌, ◌≤◌, ◌≡◌, true, false, arith}

grants : ℕ → Grant
grants zero = full
grants (suc k) = granted

abbrev waiting : Env
waiting = record {
  now = λ n. n * 60;
  grant = grants;
  activation = confirmed;
  release_fails = λ n. false;
}

full_once : (k : ℕ) → grants k ≡ full → k ≡ 0
unfolding grants
full_once zero h = omega arith
full_once (suc k) h = absurd (ground arith)

delay_short : (k : ℕ) → k ≡ 0 → wait_delay waiting 1000 k (retry_at k) ≤ 60
unfolding wait_delay retry_at min_of
delay_short zero h = ground arith
delay_short (suc k) h = absurd (omega arith)

waiting-IsClock : IsClock waiting 1000
waiting-IsClock = record {
  ordered = λ n. omega arith;
  timed = λ k full_here. let short = delay_short k (full_once k full_here) in omega arith;
}

acquire_and_run_ends_example :
    (is_sound_run 1000 (acquire_and_run waiting 1000 (suc (1000 - waiting.now 0))) ≡ true)
    × (is_release_failed (acquire_and_run waiting 1000 (suc (1000 - waiting.now 0))).1
        ≡ (waiting.release_fails 0 && waiting.release_fails 1 && waiting.release_fails 2))
acquire_and_run_ends_example = acquire_and_run_ends waiting 1000 waiting-IsClock
