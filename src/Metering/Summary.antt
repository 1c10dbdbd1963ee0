-- ===== src/Metering/Summary.antt =====
-- apps/marketplace/src/marketplace.service.ts, `getUsageSummary`: what is shown of the submission.
use ngotag_platform.Metering.{
  Dimension, dimension_eq, UsageStatus, pending, submitted, accepted, duplicate, failed, expired,
}
use ngotag_platform.Common.{
  ℕ, ◌+◌, ◌≡◌, ap, Bool, true, false, not, ◌&&◌, List, [], ◌∷◌, arith, if◌then◌else◌,
}
use ngotag_platform.Metering.Billing.{dimension_eq_sound}

pub record MeteringTotal : Type 0 where
  pub dimension : Dimension
  pub status : UsageStatus
  pub quantity : ℕ

pub record Counters : Type 0 where
  pub pending_by : Dimension → ℕ
  pub accepted_by : Dimension → ℕ

raised : (Dimension → ℕ) → Dimension → ℕ → Dimension → ℕ
raised f d q x = if dimension_eq d x then f d + q else f x

count_total : Counters → UsageStatus → Dimension → ℕ → Counters
count_total c pending d q = record c { pending_by = raised c.pending_by d q }
count_total c failed d q = record c { pending_by = raised c.pending_by d q }
count_total c accepted d q = record c { accepted_by = raised c.accepted_by d q }
count_total c duplicate d q = record c { accepted_by = raised c.accepted_by d q }
count_total c expired d q = c
count_total c submitted d q = c

-- The loop over the totals.
pub count_totals : Counters → List MeteringTotal → Counters
count_totals c [] = c
count_totals c (t ∷ ts) = count_totals (count_total c t.status t.dimension t.quantity) ts

abbrev is_hidden : UsageStatus → Bool
is_hidden expired = true
is_hidden submitted = true
is_hidden _ = false

pub reported : Dimension → List MeteringTotal → ℕ
reported d [] = 0
reported d (t ∷ ts) = (if dimension_eq t.dimension d then t.quantity else 0) + reported d ts

pub hidden : Dimension → List MeteringTotal → ℕ
hidden d [] = 0
hidden d (t ∷ ts) =
    (if dimension_eq t.dimension d && is_hidden t.status then t.quantity else 0) + hidden d ts

abbrev pub shown : Counters → Dimension → ℕ
shown c d = c.pending_by d + c.accepted_by d

count_total_lem :
    (c : Counters) (s : UsageStatus) (x : Dimension) (q : ℕ) (d : Dimension)
    → shown (count_total c s x q) d
      ≡ shown c d + (if dimension_eq x d && not (is_hidden s) then q else 0)
unfolding count_total raised
count_total_lem c pending x q d =
    let here = (λ (k : dimension_eq x d ≡ true). ap c.pending_by (dimension_eq_sound x d k)) in
    ground arith
count_total_lem c failed x q d =
    let here = (λ (k : dimension_eq x d ≡ true). ap c.pending_by (dimension_eq_sound x d k)) in
    ground arith
count_total_lem c accepted x q d =
    let here = (λ (k : dimension_eq x d ≡ true). ap c.accepted_by (dimension_eq_sound x d k)) in
    ground arith
count_total_lem c duplicate x q d =
    let here = (λ (k : dimension_eq x d ≡ true). ap c.accepted_by (dimension_eq_sound x d k)) in
    ground arith
count_total_lem c expired x q d = ground arith
count_total_lem c submitted x q d = ground arith

count_totals_lem :
    (c : Counters) (ts : List MeteringTotal) (d : Dimension)
    → shown (count_totals c ts) d + hidden d ts ≡ shown c d + reported d ts
unfolding count_totals hidden reported
count_totals_lem c [] d = omega arith
count_totals_lem c (t ∷ ts) d =
    let ih = count_totals_lem (count_total c t.status t.dimension t.quantity) ts d in
    let here = count_total_lem c t.status t.dimension t.quantity d in ground arith

-- For each dimension, what the summary shows as waiting and as accepted, with what has
-- expired or is being submitted, is all that was ever reported of it.
count_totals-shown :
    (ts : List MeteringTotal) (d : Dimension)
    → shown (count_totals (record { pending_by = λ x. 0; accepted_by = λ x. 0 }) ts) d + hidden d ts
      ≡ reported d ts
count_totals-shown ts d =
    let all = count_totals_lem (record { pending_by = λ x. 0; accepted_by = λ x. 0 }) ts d in
    omega arith
