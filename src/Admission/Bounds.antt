-- ===== src/Admission/Bounds.antt =====
-- apps/issuance/src/issuance-admission.queue.ts: how many operations run.
use ngotag_platform.Common.{
  ℕ, suc, Bool-cases, inl, inr, ◌⊎◌, ◌+◌, ◌≡◌, ◌≤◌, ◌<◌, refl, true, List, [], ◌∷◌, arith, leb,
  length, length-append,
}
use ngotag_platform.Admission.{
  Waiter, Turn, acquire, delete_waiter, timer, release_loop, release, System, Event, arrives, fires,
  finishes, admitted_ids, is_running, stop, after, run_event, Moment, run_events, idle,
}

-- What holds of the queue and the operations that run at every moment.
record IsSteady (capacity max_pending : ℕ) (s : System) : Type 0 where
  counted : length s.running ≡ s.queue.active
  at_most : s.queue.active ≤ capacity
  busy : 0 < length s.queue.pending → s.queue.active ≡ capacity
  waits : length s.queue.pending ≤ max_pending

length-delete_waiter : (ws : List Waiter) (id : ℕ) → length (delete_waiter ws id) ≤ length ws
unfolding delete_waiter
length-delete_waiter [] id = omega arith
length-delete_waiter (w ∷ ws) id = ground (arith, length-delete_waiter ws id)

length-stop :
    (xs : List ℕ) (id : ℕ) → is_running xs id ≡ true → suc (length (stop xs id)) ≡ length xs
unfolding is_running stop
length-stop [] id h = absurd (ground arith)
length-stop (x ∷ xs) id h = ground (arith, length-stop xs id)

-- A release either keeps the count and starts one operation, or lowers the count and starts none.
record IsHanded (active : ℕ) (ws : List Waiter) (t : Turn) : Type 0 where
  permits : length (admitted_ids t.settled) + active ≡ t.queue.active + 1
  lowered : t.queue.active ≤ active
  kept : 0 < length t.queue.pending → t.queue.active ≡ active
  shorter : length t.queue.pending ≤ length ws

release_loop-IsHanded :
    (active now : ℕ) (ws : List Waiter)
    → 0 < active
    → IsHanded active ws (release_loop active now ws)
unfolding release_loop admitted_ids
release_loop-IsHanded active now [] h = record {
  permits = omega arith;
  lowered = omega arith;
  kept = λ k. omega arith;
  shorter = omega arith;
}
release_loop-IsHanded active now (w ∷ ws) h = elim (Bool-cases (leb w.deadline now)) [
  | inl late ↦
      let rest = release_loop-IsHanded active now ws h in
      record {
        permits = ground (arith, rest.permits);
        lowered = ground (arith, rest.lowered);
        kept = ground (arith, rest.kept);
        shorter = ground (arith, rest.shorter);
      }
  | inr early ↦ record {
    permits = ground arith;
    lowered = ground arith;
    kept = ground arith;
    shorter = ground arith;
  }
]

acquire-IsSteady :
    (capacity max_pending : ℕ) (s : System) (now : ℕ) (w : Waiter)
    → IsSteady capacity max_pending s
    → IsSteady capacity max_pending (after (acquire capacity max_pending s.queue now w) s.running)
unfolding acquire admitted_ids
acquire-IsSteady capacity max_pending s now w b =
    let counted = b.counted in
    let at_most = b.at_most in
    let busy = b.busy in
    let waits = b.waits in
    let longer = length-append s.queue.pending (w ∷ []) in
    record {
      counted = ground arith;
      at_most = ground arith;
      busy = ground arith;
      waits = ground arith;
    }

timer-IsSteady :
    (capacity max_pending : ℕ) (s : System) (id : ℕ)
    → IsSteady capacity max_pending s
    → IsSteady capacity max_pending (after (timer s.queue id) s.running)
unfolding timer admitted_ids
timer-IsSteady capacity max_pending s id b =
    let counted = b.counted in
    let at_most = b.at_most in
    let busy = b.busy in
    let waits = b.waits in
    let shorter = length-delete_waiter s.queue.pending id in
    record {
      counted = ground arith;
      at_most = ground arith;
      busy = ground arith;
      waits = ground arith;
    }

release-IsSteady :
    (capacity max_pending : ℕ) (s : System) (now id : ℕ)
    → IsSteady capacity max_pending s
    → is_running s.running id ≡ true
    → IsSteady capacity max_pending (after (release s.queue now) (stop s.running id))
unfolding release
release-IsSteady capacity max_pending s now id b h =
    let counted = b.counted in
    let at_most = b.at_most in
    let busy = b.busy in
    let waits = b.waits in
    let one = length-stop s.running id h in
    let t = release_loop-IsHanded s.queue.active now s.queue.pending (omega arith) in
    let more =
      length-append (admitted_ids (release_loop s.queue.active now s.queue.pending).settled)
        (stop s.running id) in
    let permits = t.permits in
    let lowered = t.lowered in
    let kept = t.kept in
    let shorter = t.shorter in
    record {
      counted = omega arith;
      at_most = omega arith;
      busy = λ k. ground arith;
      waits = omega arith;
    }

run_event-IsSteady :
    (capacity max_pending : ℕ) (s : System) (now : ℕ) (e : Event)
    → IsSteady capacity max_pending s
    → IsSteady capacity max_pending (run_event capacity max_pending s now e)
unfolding run_event
run_event-IsSteady capacity max_pending s now (arrives w) b =
    acquire-IsSteady capacity max_pending s now w b
run_event-IsSteady capacity max_pending s now (fires id) b =
    timer-IsSteady capacity max_pending s id b
run_event-IsSteady capacity max_pending s now (finishes id) b =
    elim (Bool-cases (is_running s.running id)) [
      | inl h ↦ rw (h) (release-IsSteady capacity max_pending s now id b h)
      | inr h ↦ rw (h) b
    ]

run_events-IsSteady :
    (capacity max_pending : ℕ) (s : System) (ms : List Moment)
    → IsSteady capacity max_pending s
    → IsSteady capacity max_pending (run_events capacity max_pending s ms)
unfolding run_events
run_events-IsSteady capacity max_pending s [] b = b
run_events-IsSteady capacity max_pending s (m ∷ ms) b =
    run_events-IsSteady capacity max_pending (run_event capacity max_pending s m.now m.event) ms
      (run_event-IsSteady capacity max_pending s m.now m.event b)

no_waiter :
    (capacity active : ℕ) (ws : List Waiter)
    → (0 < length ws → active ≡ capacity)
    → (ws ≡ []) ⊎ (active ≡ capacity)
no_waiter capacity active [] h = inl refl
no_waiter capacity active (w ∷ ws) h = inr (h (omega arith))

pub record IsBounded (capacity max_pending : ℕ) (s : System) : Type 0 where
  pub counted : length s.running ≡ s.queue.active
  pub at_most : length s.running ≤ capacity
  pub busy : (s.queue.pending ≡ []) ⊎ (length s.running ≡ capacity)
  pub waits : length s.queue.pending ≤ max_pending

IsSteady-IsBounded :
    (capacity max_pending : ℕ) (s : System)
    → IsSteady capacity max_pending s
    → IsBounded capacity max_pending s
IsSteady-IsBounded capacity max_pending s b =
    let counted = b.counted in
    let at_most = b.at_most in
    record {
      counted = counted;
      at_most = omega arith;
      busy =
          no_waiter capacity (length s.running) s.queue.pending
            (λ h. let busy = b.busy h in omega arith);
      waits = b.waits;
    }

-- Whatever arrives, times out and finishes, from an idle queue on and at any times: the operations
-- that run are as many as the queue counts as active, they are never more than the capacity, no
-- operation waits while a permit is free, and no more than the configured number wait.
pub run_events-IsBounded :
    (capacity max_pending : ℕ) (ms : List Moment)
    → IsBounded capacity max_pending (run_events capacity max_pending idle ms)
run_events-IsBounded capacity max_pending ms =
    IsSteady-IsBounded capacity max_pending (run_events capacity max_pending idle ms) (
      run_events-IsSteady capacity max_pending idle ms (record {
        counted = refl;
        at_most = omega arith;
        busy = λ h. omega arith;
        waits = omega arith;
      }))
