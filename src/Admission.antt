-- ===== src/Admission.antt =====
-- apps/issuance/src/issuance-admission.queue.ts: the queue that bounds how many operations run at
-- once in one process. A time is a reading of `performance.now`, counted in the clock's unit. The
-- number `id` stands for the identity of a waiter, the promise that its call returned.
pub mod Bounds
pub mod Order
mod Tests
use ngotag_platform.Common.{
  ℕ, ◌+◌, ◌-◌, Bool, true, false, ◌||◌, List, [], ◌∷◌, ◌++◌, leb, ltb, ◌==◌, if◌then◌else◌, length,
}

pub record Waiter : Type 0 where
  pub id : ℕ
  pub deadline : ℕ

pub record Queue : Type 0 where
  pub active : ℕ
  pub pending : List Waiter

pub data Outcome : Type 0 where
  admitted timed_out queue_full waiting : Outcome

pub record Settled : Type 0 where
  pub id : ℕ
  pub outcome : Outcome

abbrev pub settle : Waiter → Outcome → Settled
settle w o = record { id = w.id; outcome = o }

-- What a call leaves: the queue, and the promises that it settled.
pub record Turn : Type 0 where
  pub queue : Queue
  pub settled : List Settled

-- `acquire`; a waiter that is told to wait is settled later.
pub acquire : ℕ → ℕ → Queue → ℕ → Waiter → Turn
acquire capacity max_pending q now w =
    if leb w.deadline now
    then record { queue = q; settled = settle w timed_out ∷ [] }
    else if ltb q.active capacity
    then record { queue = record q { active = q.active + 1 }; settled = settle w admitted ∷ [] }
    else if leb max_pending (length q.pending)
    then record { queue = q; settled = settle w queue_full ∷ [] }
    else record { queue = record q { pending = q.pending ++ (w ∷ []) }; settled = [] }

pub is_pending : List Waiter → ℕ → Bool
is_pending [] id = false
is_pending (w ∷ ws) id = w.id == id || is_pending ws id

-- `this.pending.delete(waiter)`
pub delete_waiter : List Waiter → ℕ → List Waiter
delete_waiter [] id = []
delete_waiter (w ∷ ws) id = let rest = delete_waiter ws id in if w.id == id then ws else w ∷ rest

-- The callback of a waiter's timer.
pub timer : Queue → ℕ → Turn
timer q id =
    if is_pending q.pending id
    then record {
      queue = record q { pending = delete_waiter q.pending id };
      settled = record { id = id; outcome = timed_out } ∷ [];
    }
    else record { queue = q; settled = [] }

-- The loop of `release` over the waiters, with one reading of the clock for all of them.
pub release_loop : ℕ → ℕ → List Waiter → Turn
release_loop active now [] = record {
  queue = record { active = active - 1; pending = [] };
  settled = [];
}
release_loop active now (w ∷ ws) =
    let rest = release_loop active now ws in
    if leb w.deadline now
    then record rest { settled = settle w timed_out ∷ rest.settled }
    else record {
      queue = record { active = active; pending = ws };
      settled = settle w admitted ∷ [];
    }

pub release : Queue → ℕ → Turn
unfolding release_loop
release q now = release_loop q.active now q.pending

-- `run`: the operations between their `acquire` and the `release` of their `finally`.
pub record System : Type 0 where
  pub queue : Queue
  pub running : List ℕ

pub data Event : Type 0 where
  arrives : Waiter → Event
  fires : ℕ → Event
  finishes : ℕ → Event

abbrev is_admitted : Outcome → Bool
is_admitted admitted = true
is_admitted _ = false

pub admitted_ids : List Settled → List ℕ
admitted_ids [] = []
admitted_ids (s ∷ ss) =
    let rest = admitted_ids ss in if is_admitted s.outcome then s.id ∷ rest else rest

pub is_running : List ℕ → ℕ → Bool
is_running [] id = false
is_running (x ∷ xs) id = x == id || is_running xs id

pub stop : List ℕ → ℕ → List ℕ
stop [] id = []
stop (x ∷ xs) id = let rest = stop xs id in if x == id then xs else x ∷ rest

abbrev pub after : Turn → List ℕ → System
after t running = record { queue = t.queue; running = admitted_ids t.settled ++ running }

-- An operation finishes, by its result or its error, only while it runs.
pub run_event : ℕ → ℕ → System → ℕ → Event → System
run_event capacity max_pending s now (arrives w) =
    after (acquire capacity max_pending s.queue now w) s.running
run_event capacity max_pending s now (fires id) = after (timer s.queue id) s.running
run_event capacity max_pending s now (finishes id) =
    if is_running s.running id then after (release s.queue now) (stop s.running id) else s

pub record Moment : Type 0 where
  pub now : ℕ
  pub event : Event

pub run_events : ℕ → ℕ → System → List Moment → System
run_events capacity max_pending s [] = s
run_events capacity max_pending s (m ∷ ms) =
    run_events capacity max_pending (run_event capacity max_pending s m.now m.event) ms

abbrev pub idle : System
idle = record { queue = record { active = 0; pending = [] }; running = [] }
