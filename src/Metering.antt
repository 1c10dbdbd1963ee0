-- ===== src/Metering.antt =====
-- apps/marketplace/src/services/metering.service.ts and entitlement.service.ts, with
-- `getUsageSummary` of apps/marketplace/src/marketplace.service.ts: what the usage beyond a plan is,
-- how it is submitted to the marketplace, and what an organisation may do. Times are milliseconds
-- since 1970. The rows that a query returns are arguments.
pub mod Billing
pub mod Submission
pub mod Summary
mod Tests
use ngotag_platform.Common.{
  ℕ, zero, suc, ◌+◌, ◌-◌, ◌*◌, ◌/◌, ◌≡◌, Bool, true, false, not, ◌&&◌, ◌||◌, Option, none, some,
  List, [], ◌∷◌, ◌++◌, String, str_eq, leb, ltb, ◌==◌, if◌then◌else◌, length, take, drop,
}

pub data Dimension : Type 0 where
  setup_fee issuance_txn verification_txn schema_create : Dimension

abbrev pub dimension_eq : Dimension → Dimension → Bool
dimension_eq setup_fee setup_fee = true
dimension_eq issuance_txn issuance_txn = true
dimension_eq verification_txn verification_txn = true
dimension_eq schema_create schema_create = true
dimension_eq _ _ = false

pub dimension_by_event_type : String → Option Dimension
dimension_by_event_type t =
    if str_eq t "organization_setup_completed"
    then some setup_fee
    else if str_eq t "issuance_completed"
    then some issuance_txn
    else if str_eq t "verification_completed"
    then some verification_txn
    else if str_eq t "schema_created"
    then some schema_create
    else none

pub record BillableEvent : Type 0 where
  pub id : String
  pub event_type : String
  pub quantity : ℕ
  pub occurred_at : ℕ

pub record Plan : Type 0 where
  pub included_issuance_transactions : ℕ
  pub included_verification_transactions : ℕ
  pub included_schemas : ℕ

pub included_usage : Option Plan → Dimension → ℕ
included_usage none d = 0
included_usage (some p) setup_fee = 0
included_usage (some p) issuance_txn = p.included_issuance_transactions
included_usage (some p) verification_txn = p.included_verification_transactions
included_usage (some p) schema_create = p.included_schemas

abbrev pub hour_of : ℕ → ℕ
hour_of t = t / 3600000 * 3600000

pub record Overage : Type 0 where
  pub dimension : Dimension
  pub hour : ℕ
  pub quantity : ℕ
  pub source_event_ids : List String

-- `hourlyOverage[key]`, created or added to; the entries stay in the order of their creation.
pub add_overage : List Overage → Dimension → ℕ → ℕ → String → List Overage
add_overage [] d hour q id =
    record { dimension = d; hour = hour; quantity = q; source_event_ids = id ∷ [] } ∷ []
add_overage (o ∷ os) d hour q id =
    let rest = add_overage os d hour q id in
    if dimension_eq o.dimension d && o.hour == hour
    then record o { quantity = o.quantity + q; source_event_ids = o.source_event_ids ++ (id ∷ []) }
      ∷ os
    else o ∷ rest

pub record Running : Type 0 where
  pub totals : Dimension → ℕ
  pub overages : List Overage

abbrev pub lesser : ℕ → ℕ → ℕ
lesser a b = if leb a b then a else b

abbrev pub greater : ℕ → ℕ → ℕ
greater a b = if leb a b then b else a

pub added : (Dimension → ℕ) → Dimension → ℕ → Dimension → ℕ
added totals d q x = if dimension_eq d x then totals d + q else totals x

pub count_in : Running → (included : ℕ) → Dimension → BillableEvent → Running
count_in r included d e =
    let previous = r.totals d in
    if leb (previous + e.quantity) included
    then record { totals = added r.totals d e.quantity; overages = r.overages }
    else record {
      totals = added r.totals d e.quantity;
      overages =
          add_overage r.overages d (hour_of e.occurred_at)
            (lesser e.quantity (previous + e.quantity - greater previous included)) e.id;
    }

pub count_event : Option Plan → Running → BillableEvent → Running
count_event plan r e = elim (dimension_by_event_type e.event_type) [
  | none ↦ r
  | some d ↦ count_in r (included_usage plan d) d e
]

pub count_events : Option Plan → Running → List BillableEvent → Running
count_events plan r [] = r
count_events plan r (e ∷ es) = count_events plan (count_event plan r e) es

-- `aggregateSubscriptionUsage` for a subscription with an organisation; one without has none: the usage
-- events to be created or updated.
pub aggregate_subscription_usage : Option Plan → List BillableEvent → List Overage
aggregate_subscription_usage plan es =
    (count_events plan (record { totals = λ d. 0; overages = [] }) es).overages

pub data UsageStatus : Type 0 where
  pending submitted accepted duplicate failed expired : UsageStatus

pub record UsageEvent : Type 0 where
  pub id : String
  pub usage_start_time : ℕ
  pub quantity : ℕ

pub record StatusUpdate : Type 0 where
  pub id : String
  pub status : UsageStatus

abbrev day_ms : ℕ
day_ms = 24 * 60 * 60 * 1000

pub is_eligible : ℕ → UsageEvent → Bool
is_eligible now e = leb (now - e.usage_start_time) day_ms

-- Both filters read the clock for each event: `now n` is its n-th reading.
pub eligible_events : (ℕ → ℕ) → ℕ → List UsageEvent → List UsageEvent
eligible_events now n [] = []
eligible_events now n (e ∷ es) =
    let rest = eligible_events now (n + 1) es in if is_eligible (now n) e then e ∷ rest else rest

pub expired_events : (ℕ → ℕ) → ℕ → List UsageEvent → List UsageEvent
expired_events now n [] = []
expired_events now n (e ∷ es) =
    let rest = expired_events now (n + 1) es in if is_eligible (now n) e then rest else e ∷ rest

pub expired_updates : List UsageEvent → List StatusUpdate
expired_updates [] = []
expired_updates (e ∷ es) = record { id = e.id; status = expired } ∷ expired_updates es

local_status : Option String → UsageStatus
local_status none = failed
local_status (some s) =
    if str_eq s "Accepted" then accepted else if str_eq s "Duplicate" then duplicate else failed

-- `result[i] ?? null` for each event of a batch.
pub batch_updates : List UsageEvent → List (Option String) → List StatusUpdate
batch_updates [] results = []
batch_updates (e ∷ es) [] = record { id = e.id; status = local_status none } ∷ batch_updates es []
batch_updates (e ∷ es) (r ∷ rs) =
    record { id = e.id; status = local_status r } ∷ batch_updates es rs

abbrev max_batch_size : ℕ
max_batch_size = 25

-- The answer to a batch, none where the request throws, and the updates whose call throws.
pub record Calls : Type 0 where
  pub submit : List UsageEvent → Option (List (Option String))
  pub throws : StatusUpdate → Bool

-- The updates that took effect, and whether an error then ended the run.
pub record Progress : Type 0 where
  pub updates : List StatusUpdate
  pub thrown : Bool

-- First the one, then, where it threw nothing, the other.
pub followed : Progress → Progress → Progress
followed a b =
    if a.thrown then a else record { updates = a.updates ++ b.updates; thrown = b.thrown }

pub update_all : Calls → List StatusUpdate → Progress
update_all c [] = record { updates = []; thrown = false }
update_all c (u ∷ us) =
    let rest = update_all c us in
    if c.throws u
    then record { updates = []; thrown = true }
    else record { updates = u ∷ rest.updates; thrown = rest.thrown }

pub batch_answered : Calls → List UsageEvent → Option (List (Option String)) → Progress
batch_answered c batch none = record { updates = []; thrown = true }
batch_answered c batch (some results) = update_all c (batch_updates batch results)

-- The batches, one after the other.
pub submit_batches : Calls → ℕ → List UsageEvent → Progress
submit_batches c zero es = record { updates = []; thrown = false }
submit_batches c (suc rounds) es =
    let rest = submit_batches c rounds (drop max_batch_size es) in
    let batch = take max_batch_size es in
    if length es == 0
    then record { updates = []; thrown = false }
    else followed (batch_answered c batch (c.submit batch)) rest

-- On the events that are listed as pending or failed.
pub submit_pending_usage : Calls → (ℕ → ℕ) → List UsageEvent → Progress
submit_pending_usage c now events =
    let eligible = eligible_events now 0 events in
    followed (update_all c (expired_updates (expired_events now (length events) events)))
      (submit_batches c (length eligible) eligible)
