-- ===== src/Admission/Order.antt =====
-- apps/issuance/src/issuance-admission.queue.ts: who is served when an operation finishes.
use ngotag_platform.Common.{ℕ, ◌-◌, ◌≡◌, ◌≤◌, ◌<◌, refl, List, [], ◌∷◌, ◌++◌, arith, le→leb}
use ngotag_platform.Admission.{Waiter, admitted, timed_out, Settled, settle, release_loop, release}

-- Every one of the waiters is past its deadline.
abbrev AreLate : ℕ → List Waiter → Type 0
AreLate now [] = Unit
AreLate now (w ∷ ws) = (w.deadline ≤ now) × AreLate now ws

abbrev pub refused : List Waiter → List Settled
refused [] = []
refused (w ∷ ws) = settle w timed_out ∷ refused ws

release_loop-found :
    (active now : ℕ) (late : List Waiter) (w : Waiter) (rest : List Waiter)
    → AreLate now late
    → now < w.deadline
    → release_loop active now (late ++ w ∷ rest) ≡ record {
      queue = record { active = active; pending = rest };
      settled = refused late ++ settle w admitted ∷ [];
    }
unfolding release_loop
release_loop-found active now [] w rest h lt = ground arith
release_loop-found active now (l ∷ late) w rest h lt =
    let ih = release_loop-found active now late w rest h.1 lt in
    let e = le→leb l.deadline now h.0 in rw (e, ih) refl

release_loop-none :
    (active now : ℕ) (late : List Waiter)
    → AreLate now late
    → release_loop active now late
      ≡ record { queue = record { active = active - 1; pending = [] }; settled = refused late }
unfolding release_loop
release_loop-none active now [] h = refl
release_loop-none active now (l ∷ late) h =
    let ih = release_loop-none active now late h.1 in
    let e = le→leb l.deadline now h.0 in rw (e, ih) refl

-- A release refuses the waiters that are late, in the order of their arrival, up to the first that
-- is not. It hands the permit to that one and leaves the later ones waiting. Where all are late it
-- gives the permit back and leaves none waiting.
pub release_fifo :
    (active now : ℕ) (late : List Waiter) (w : Waiter) (rest : List Waiter)
    → AreLate now late
    → now < w.deadline
    → (release (record { active = active; pending = late ++ w ∷ rest }) now ≡ record {
      queue = record { active = active; pending = rest };
      settled = refused late ++ settle w admitted ∷ [];
    })
      × (release (record { active = active; pending = late }) now
          ≡ record { queue = record { active = active - 1; pending = [] }; settled = refused late })
unfolding release
release_fifo active now late w rest h lt =
    (release_loop-found active now late w rest h lt, release_loop-none active now late h)
