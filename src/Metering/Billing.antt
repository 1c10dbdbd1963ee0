-- ===== src/Metering/Billing.antt =====
-- apps/marketplace/src/services/metering.service.ts: how much is billed.
use ngotag_platform.Metering.{
  Dimension, dimension_eq, dimension_by_event_type, BillableEvent, Plan, included_usage, hour_of,
  Overage, add_overage, Running, added, lesser, greater, count_in, count_event, count_events,
  aggregate_subscription_usage, setup_fee, issuance_txn, verification_txn, schema_create,
}
use ngotag_platform.Common.{
  ℕ, ◌+◌, ◌-◌, ◌≡◌, refl, ap, Bool, true, false, Option, none, some, List, [], ◌∷◌, arith,
  if◌then◌else◌, String,
}

-- The usage of one dimension in the events, and what is billed of it.
abbrev counts_for : Dimension → Option Dimension → Bool
counts_for d none = false
counts_for d (some x) = dimension_eq x d

pub used : Dimension → List BillableEvent → ℕ
used d [] = 0
used d (e ∷ es) =
    (if counts_for d (dimension_by_event_type e.event_type) then e.quantity else 0) + used d es

pub billed : Dimension → List Overage → ℕ
billed d [] = 0
billed d (o ∷ os) = (if dimension_eq o.dimension d then o.quantity else 0) + billed d os

pub dimension_eq_sound : (a b : Dimension) → dimension_eq a b ≡ true → a ≡ b
dimension_eq_sound setup_fee setup_fee h = refl
dimension_eq_sound issuance_txn issuance_txn h = refl
dimension_eq_sound verification_txn verification_txn h = refl
dimension_eq_sound schema_create schema_create h = refl
dimension_eq_sound _ _ h = absurd (ground arith)

billed-add_overage :
    (d : Dimension) (os : List Overage) (x : Dimension) (hour q : ℕ) (id : String)
    → billed d (add_overage os x hour q id) ≡ billed d os + (if dimension_eq x d then q else 0)
unfolding billed add_overage
billed-add_overage d [] x hour q id = omega arith
billed-add_overage d (o ∷ os) x hour q id =
    let ih = billed-add_overage d os x hour q id in
    let same = (λ (h : dimension_eq o.dimension x ≡ true).
      ap (λ y. dimension_eq y d) (dimension_eq_sound o.dimension x h)) in
    ground arith

nothing_billed : (d : Dimension) (n : ℕ) → billed d [] ≡ 0 - n
unfolding billed
nothing_billed d n = omega arith

-- What is billed so far is what goes beyond the plan so far.
abbrev IsExact : (Dimension → ℕ) → Running → Type 0
IsExact included r = (d : Dimension) → billed d r.overages ≡ r.totals d - included d

count_in-IsExact :
    (included : Dimension → ℕ) (r : Running) (x : Dimension) (e : BillableEvent)
    → IsExact included r
    → IsExact included (count_in r (included x) x e)
unfolding count_in added
count_in-IsExact included r x e h d =
    let here = h d in
    let more =
      billed-add_overage d r.overages x (hour_of e.occurred_at)
        (lesser e.quantity (r.totals x + e.quantity - greater (r.totals x) (included x))) e.id in
    let same = (λ (k : dimension_eq x d ≡ true). ap r.totals (dimension_eq_sound x d k)) in
    let limit = (λ (k : dimension_eq x d ≡ true). ap included (dimension_eq_sound x d k)) in
    ground arith

known-IsExact :
    (plan : Option Plan) (r : Running) (e : BillableEvent) (x : Option Dimension)
    → IsExact (included_usage plan) r
    → dimension_by_event_type e.event_type ≡ x
    → IsExact (included_usage plan) (count_event plan r e)
unfolding count_event
known-IsExact plan r e none h k d = rw (k, count_event) (h d)
known-IsExact plan r e (some x) h k d =
    rw (k, count_event) (count_in-IsExact (included_usage plan) r x e h d)

totals_known :
    (plan : Option Plan) (r : Running) (e : BillableEvent) (d : Dimension) (x : Option Dimension)
    → dimension_by_event_type e.event_type ≡ x
    → (count_event plan r e).totals d ≡ r.totals d + (if counts_for d x then e.quantity else 0)
unfolding count_event count_in added
totals_known plan r e d none k = rw (k, count_event) (omega arith)
totals_known plan r e d (some x) k =
    let same = (λ (k : dimension_eq x d ≡ true). ap r.totals (dimension_eq_sound x d k)) in
    rw (k, count_event) (ground arith)

count_events_lem :
    (plan : Option Plan) (r : Running) (es : List BillableEvent) (d : Dimension)
    → IsExact (included_usage plan) r
    → billed d (count_events plan r es).overages ≡ r.totals d + used d es - included_usage plan d
unfolding count_events used
count_events_lem plan r [] d h = let here = h d in omega arith
count_events_lem plan r (e ∷ es) d h =
    let ih =
      count_events_lem plan (count_event plan r e) es d
        (known-IsExact plan r e (dimension_by_event_type e.event_type) h refl) in
    let more = totals_known plan r e d (dimension_by_event_type e.event_type) refl in omega arith

-- The quantities that the aggregation of a term's events reports for a dimension, over all hours,
-- add up to the usage of that dimension beyond what the plan includes, and to nothing where the usage
-- stays within the plan, whatever the events, their order and their times.
pub aggregate_subscription_usage-billed :
    (plan : Option Plan) (es : List BillableEvent) (d : Dimension)
    → billed d (aggregate_subscription_usage plan es) ≡ used d es - included_usage plan d
unfolding aggregate_subscription_usage
aggregate_subscription_usage-billed plan es d =
    let all =
      count_events_lem plan (record { totals = λ d. 0; overages = [] }) es d
        (λ x. nothing_billed x (included_usage plan x)) in
    omega arith
