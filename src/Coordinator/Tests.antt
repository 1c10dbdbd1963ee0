-- ===== src/Coordinator/Tests.antt =====
-- apps/issuance/src/issuance-work.coordinator.ts and libs/context/src/issuanceDeadline.ts at concrete
-- inputs.
use ngotag_platform.Common.{
  ℕ, ◌+◌, ◌≡◌, ◌≤◌, ◌<◌, ◌⊎◌, refl, true, false, Option, some, none, List, [], ◌∷◌, ◌++◌, String,
  str_eq, arith, ltb, leb, length, if◌then◌else◌,
}
use ngotag_platform.Coordinator.Store.{capacity, limit, one}
use ngotag_platform.Coordinator.{
  granted, acquire, activate, release, Call, acquires, activates, run_calls, run_call, sweep,
  del_if_bare, reserve, is_reserved_after, fresh_set, kept_at, complete_kept, complete, release_row,
  returned, threw, Attempt, guarded_row, guarded_rows, has_conflict, integer, issuance_deadline,
  issuance_admission_ms, positive_integer_setting,
}
use ngotag_platform.Coordinator.Slots.{Hold, slots_bounded}
use ngotag_platform.Coordinator.Completion.{within_weeks, announced, announced_once}
use ngotag_platform.Coordinator.Rows.{never_ran, uncertain_row_stays}
use ngotag_platform.Coordinator.Deadline.{issuance_deadline_stable}
use ngotag_platform.Coordinator.MapHash.{map_hash, list_members, function_locks, Table}

abbrev empty : Table
empty = ([], refl)

-- Two slots; the reservation of "a" runs out, "b" is active, "c" takes the slot of "a", "d" gets none.
abbrev calls : List Call
calls =
    acquires 0 2 "a" 30
    ∷ acquires 1 2 "b" 30
    ∷ activates 2 "b"
    ∷ acquires 40 2 "c" 30
    ∷ acquires 41 2 "d" 30
    ∷ []

computed : Unit {0}
unfolding run_calls run_call acquire sweep del_if_bare reserve activate is_reserved_after release
    complete release_row guarded_row guarded_rows issuance_deadline positive_integer_setting
    fresh_set kept_at complete_kept
computed = tt

abbrev holders : List String
holders = "b" ∷ "c" ∷ []

calls_hold : Hold map_hash (run_calls map_hash empty calls) holders
unfolding computed
calls_hold = (refl, (refl, tt))

slots_bounded_example :
    (holders ≡ [])
    ⊎ ((c : ℕ) × (map_hash.hget (run_calls map_hash empty calls) capacity ≡ some (limit c))
        × (length holders ≤ c))
slots_bounded_example =
    slots_bounded map_hash empty calls holders refl
      (omega arith, (omega arith, (tt, (omega arith, (omega arith, tt))))) ((refl, tt), (tt, tt))
      calls_hold

slot_granted : (acquire map_hash empty 5 2 "a" 30).1 ≡ granted
unfolding computed
slot_granted = refl

abbrev same_text : String → String
same_text x = x

abbrev ended : List (ℕ × String)
ended = (10, "r1") ∷ (20, "r2") ∷ (30, "r1") ∷ (40, "r3") ∷ (50, "r2") ∷ []

ended_once : (announced list_members same_text (fresh_set list_members same_text) ended 3).1 ≡ 1
unfolding computed announced
ended_once = refl

ended_soon : within_weeks 0 ended ≡ true
unfolding within_weeks
ended_soon = refl

announced_once_example :
    (announced list_members same_text (fresh_set list_members same_text) ended 3).1
    ≡ one (
        leb 3 (
          list_members.scard
            (announced list_members same_text
              (fresh_set list_members same_text)
              ended
              3).0.members))
announced_once_example = announced_once list_members same_text 0 ended 3 (omega arith) ended_soon

-- The set is gone more than a week after the batch is complete, and its rows count anew.
abbrev late : List (ℕ × String)
late = (10, "r1") ∷ (20, "r2") ∷ (700000, "r1") ∷ (700001, "r2") ∷ []

announced_again : (announced list_members same_text (fresh_set list_members same_text) late 2).1 ≡ 2
unfolding computed announced
announced_again = refl

abbrev unlocked : String → Option String
unlocked key = none

abbrev lost : Attempt
lost = record { key = "k"; id = "w1"; dispatched = true; ending = threw }

abbrev repeated : List Attempt
repeated =
    record { key = "k"; id = "w2"; dispatched = true; ending = returned true }
    ∷ record { key = "j"; id = "w3"; dispatched = true; ending = returned true }
    ∷ []

uncertain_row_stays_example :
    (never_ran function_locks "k"
        (guarded_rows function_locks (guarded_row function_locks unlocked lost).0 repeated).1
      ≡ true)
    × (has_conflict function_locks
          (guarded_rows function_locks (guarded_row function_locks unlocked lost).0 repeated).0
          (("i" ∷ []) ++ "k" ∷ "j" ∷ [])
        ≡ true)
uncertain_row_stays_example =
    uncertain_row_stays function_locks unlocked lost repeated ("i" ∷ []) ("j" ∷ []) refl refl refl

abbrev undelivered : Attempt
undelivered = record { key = "k"; id = "w1"; dispatched = false; ending = threw }

keys_differ : str_eq "k" "j" ≡ false
keys_differ = refl

given_accepted : issuance_deadline (integer 90000) 50000 ≡ some 60000
unfolding computed
given_accepted = refl

issuance_deadline_stable_example :
    (50000 < 60000)
    × (60000 ≤ 50000 + issuance_admission_ms)
    × (issuance_deadline (integer 60000) 55000 ≡ (if ltb 55000 60000 then some 60000 else none))
issuance_deadline_stable_example =
    issuance_deadline_stable (integer 90000) 50000 55000 60000 given_accepted (omega arith)
      (omega arith)

setting_accepted : positive_integer_setting (integer 16) 8 128 ≡ some 16
unfolding computed
setting_accepted = refl
