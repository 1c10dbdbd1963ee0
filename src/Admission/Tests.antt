-- ===== src/Admission/Tests.antt =====
-- apps/issuance/src/issuance-admission.queue.ts at concrete inputs.
use ngotag_platform.Common.{ℕ, ◌≡◌, refl, List, [], ◌∷◌, ◌++◌, ◌-◌, arith}
use ngotag_platform.Admission.{
  Waiter, admitted, settle, release, arrives, fires, finishes, Moment, run_events, idle, acquire,
  timer, release_loop, run_event, admitted_ids, is_pending, delete_waiter, is_running, stop,
}
use ngotag_platform.Admission.Bounds.{IsBounded, run_events-IsBounded}
use ngotag_platform.Admission.Order.{refused, release_fifo}

-- Two permits and five callers, two of whom give up.
abbrev history : List Moment
history =
    record { now = 0; event = arrives (record { id = 1; deadline = 50 }) }
    ∷ record { now = 1; event = arrives (record { id = 2; deadline = 50 }) }
    ∷ record { now = 2; event = arrives (record { id = 3; deadline = 10 }) }
    ∷ record { now = 3; event = arrives (record { id = 4; deadline = 12 }) }
    ∷ record { now = 4; event = arrives (record { id = 5; deadline = 50 }) }
    ∷ record { now = 10; event = fires 3 }
    ∷ record { now = 20; event = finishes 1 }
    ∷ []

history_ends :
    run_events 2 3 idle history
    ≡ record { queue = record { active = 2; pending = [] }; running = 5 ∷ 2 ∷ [] }
unfolding run_events run_event acquire timer release release_loop admitted_ids is_pending
    delete_waiter is_running stop
history_ends = refl

run_events-IsBounded_example : IsBounded 2 3 (run_events 2 3 idle history)
run_events-IsBounded_example = run_events-IsBounded 2 3 history

abbrev waiter : ℕ → ℕ → Waiter
waiter id deadline = record { id = id; deadline = deadline }

release_fifo_example :
    (release
        (record { active = 2; pending = (waiter 4 12 ∷ []) ++ waiter 5 50 ∷ waiter 6 60 ∷ [] })
        20
      ≡ record {
        queue = record { active = 2; pending = waiter 6 60 ∷ [] };
        settled = refused (waiter 4 12 ∷ []) ++ settle (waiter 5 50) admitted ∷ [];
      })
    × (release (record { active = 2; pending = waiter 4 12 ∷ [] }) 20 ≡ record {
      queue = record { active = 2 - 1; pending = [] };
      settled = refused (waiter 4 12 ∷ []);
    })
release_fifo_example =
    release_fifo 2 20 (waiter 4 12 ∷ []) (waiter 5 50) (waiter 6 60 ∷ []) (omega arith, tt)
      (omega arith)
