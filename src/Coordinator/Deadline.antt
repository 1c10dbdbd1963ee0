-- ===== src/Coordinator/Deadline.antt =====
-- libs/context/src/issuanceDeadline.ts and `positiveIntegerSetting` of
-- apps/issuance/src/issuance-work.coordinator.ts: the numbers that are given from outside.
use ngotag_platform.Coordinator.{
  Given, absent, malformed, integer, max_safe_integer, issuance_admission_ms, issuance_deadline,
  positive_integer_setting,
}
use ngotag_platform.Common.{ℕ, ◌+◌, ◌≡◌, ◌≤◌, ◌<◌, some, none, arith, ltb, if◌then◌else◌}

bounded :
    (now deadline : ℕ) (given : Given)
    → issuance_deadline given now ≡ some deadline
    → (now < deadline) × (deadline ≤ now + issuance_admission_ms)
unfolding issuance_deadline
bounded now deadline absent e = ground arith
bounded now deadline malformed e = absurd (ground arith)
bounded now deadline (integer n) e = ground arith

-- A deadline that is accepted lies after the present and at most the admission time ahead. Handed
-- on, it is accepted unchanged as long as it has not passed, and refused from then on.
pub issuance_deadline_stable :
    (given : Given) (now later deadline : ℕ)
    → issuance_deadline given now ≡ some deadline
    → now ≤ later
    → deadline ≤ max_safe_integer
    → (now < deadline)
      × (deadline ≤ now + issuance_admission_ms)
      × (issuance_deadline (integer deadline) later
          ≡ (if ltb later deadline then some deadline else none))
unfolding issuance_deadline
issuance_deadline_stable given now later deadline e le safe =
    let (after, within) = bounded now deadline given e in (after, within, ground arith)

-- A setting that is accepted is between 1 and the maximum, where the fallback is.
setting_bounded :
    (given : Given) (fallback maximum value : ℕ)
    → positive_integer_setting given fallback maximum ≡ some value
    → 1 ≤ fallback
    → fallback ≤ maximum
    → (1 ≤ value) × (value ≤ maximum)
unfolding positive_integer_setting
setting_bounded absent fallback maximum value e lo hi = ground arith
setting_bounded malformed fallback maximum value e lo hi = absurd (ground arith)
setting_bounded (integer n) fallback maximum value e lo hi = ground arith
