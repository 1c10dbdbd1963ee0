-- ===== src/Metering/Submission.antt =====
-- apps/marketplace/src/services/metering.service.ts: the submission of usage events.
use ngotag_platform.Metering.{
  UsageStatus, expired, UsageEvent, StatusUpdate, is_eligible, eligible_events, expired_events,
  expired_updates, local_status, batch_updates, Calls, Progress, followed, update_all,
  batch_answered, submit_batches, submit_pending_usage,
}
use ngotag_platform.Common.{
  append_assoc, append_nil, ℕ, zero, suc, ◌+◌, ◌≡◌, ◌≤◌, refl, sym, ap, ◌∙◌, ◌⊎◌, Bool, true, false,
  not, Option, none, some, List, [], ◌∷◌, ◌++◌, String, arith, ltb, ◌==◌, length, take, drop,
  Bool-cases, inl, inr, length-drop, take-append-drop, if◌then◌else◌,
}

-- An update as the event's id and whether it says that the event came too late.
abbrev is_expired : UsageStatus → Bool
is_expired expired = true
is_expired s = false

abbrev marks : List StatusUpdate → List (String × Bool)
marks [] = []
marks (u ∷ us) = (u.id, is_expired u.status) ∷ marks us

-- Of the events those that started more than a day before their reading of the clock.
abbrev is_overdue : ℕ → UsageEvent → Bool
is_overdue now e = ltb (e.usage_start_time + 86400000) now

abbrev pub late_marks : (ℕ → ℕ) → ℕ → List UsageEvent → List (String × Bool)
late_marks now n [] = []
late_marks now n (e ∷ es) =
    let rest = late_marks now (n + 1) es in
    if is_overdue (now n) e then (e.id, true) ∷ rest else rest

abbrev pub timely_marks : (ℕ → ℕ) → ℕ → List UsageEvent → List (String × Bool)
timely_marks now n [] = []
timely_marks now n (e ∷ es) =
    let rest = timely_marks now (n + 1) es in
    if is_overdue (now n) e then rest else (e.id, false) ∷ rest

abbrev unexpired : List UsageEvent → List (String × Bool)
unexpired [] = []
unexpired (e ∷ es) = (e.id, false) ∷ unexpired es

is_eligible_lem : (now : ℕ) (e : UsageEvent) → is_eligible now e ≡ not (is_overdue now e)
unfolding is_eligible
is_eligible_lem now e = ground arith

marks-append : (us vs : List StatusUpdate) → marks (us ++ vs) ≡ marks us ++ marks vs
marks-append [] vs = refl
marks-append (u ∷ us) vs = rw (marks-append us vs) refl

unexpired-append : (xs ys : List UsageEvent) → unexpired (xs ++ ys) ≡ unexpired xs ++ unexpired ys
unexpired-append [] ys = refl
unexpired-append (x ∷ xs) ys = rw (unexpired-append xs ys) refl

expired_marks :
    (now : ℕ → ℕ) (n : ℕ) (es : List UsageEvent)
    → marks (expired_updates (expired_events now n es)) ≡ late_marks now n es
unfolding expired_events expired_updates
expired_marks now n [] = refl
expired_marks now n (e ∷ es) =
    let ih = expired_marks now (n + 1) es in
    let same = is_eligible_lem (now n) e in
    elim (Bool-cases (is_overdue (now n) e)) [
      | inl h ↦ rw (same, h, ih) refl
      | inr h ↦ rw (same, h, ih) refl
    ]

eligible_marks :
    (now : ℕ → ℕ) (n : ℕ) (es : List UsageEvent)
    → unexpired (eligible_events now n es) ≡ timely_marks now n es
unfolding eligible_events
eligible_marks now n [] = refl
eligible_marks now n (e ∷ es) =
    let ih = eligible_marks now (n + 1) es in
    let same = is_eligible_lem (now n) e in
    elim (Bool-cases (is_overdue (now n) e)) [
      | inl h ↦ rw (same, h, ih) refl
      | inr h ↦ rw (same, h, ih) refl
    ]

answer_timely : (r : Option String) → is_expired (local_status r) ≡ false
unfolding local_status
answer_timely none = refl
answer_timely (some s) = ground arith

batch_marks :
    (es : List UsageEvent) (rs : List (Option String)) → marks (batch_updates es rs) ≡ unexpired es
unfolding batch_updates
batch_marks [] rs = refl
batch_marks (e ∷ es) [] = rw (batch_marks es [], answer_timely none) refl
batch_marks (e ∷ es) (r ∷ rs) = rw (batch_marks es rs, answer_timely r) refl

-- The marks that a run makes are a first part of those expected, and all of them if nothing is thrown.
pub record Follows (s : Progress) (expected : List (String × Bool)) : Type 0 where
  pub left : List (String × Bool)
  pub whole : marks s.updates ++ left ≡ expected
  pub ended : (s.thrown ≡ true) ⊎ (left ≡ [])

Follows-followed :
    (a b : Progress) (xs ys : List (String × Bool))
    → Follows a xs
    → Follows b ys
    → Follows (followed a b) (xs ++ ys)
unfolding followed
Follows-followed a b xs ys f g = elim (Bool-cases a.thrown) [
  | inl e ↦ record {
    left = f.left ++ ys;
    whole = rw (e) (sym (append_assoc (marks a.updates) f.left ys) ∙ ap (λ l. l ++ ys) f.whole);
    ended = inl (rw (e) refl);
  }
  | inr e ↦ elim f.ended [
    | inl t ↦ absurd (ground arith)
    | inr none_left ↦
        let all : marks a.updates ≡ xs =
          sym (append_nil (marks a.updates))
          ∙ ap (λ l. marks a.updates ++ l) (sym none_left)
          ∙ f.whole in
        record {
          left = g.left;
          whole =
              rw (e, marks-append a.updates b.updates, all)
                (append_assoc xs (marks b.updates) g.left ∙ ap (λ l. xs ++ l) g.whole);
          ended = rw (e) g.ended;
        }
  ]
]

Follows-update_all : (c : Calls) (us : List StatusUpdate) → Follows (update_all c us) (marks us)
unfolding update_all
Follows-update_all c [] = record { left = []; whole = refl; ended = inr refl }
Follows-update_all c (u ∷ us) =
    let ih = Follows-update_all c us in
    elim (Bool-cases (c.throws u)) [
      | inl e ↦ record { left = marks (u ∷ us); whole = rw (e) refl; ended = inl (rw (e) refl) }
      | inr e ↦ record {
        left = ih.left;
        whole = rw (e) (ap (λ l. (u.id, is_expired u.status) ∷ l) ih.whole);
        ended = rw (e) ih.ended;
      }
    ]

Follows-batch_answered :
    (c : Calls) (batch : List UsageEvent) (r : Option (List (Option String)))
    → Follows (batch_answered c batch r) (unexpired batch)
unfolding batch_answered
Follows-batch_answered c batch none = record {
  left = unexpired batch;
  whole = refl;
  ended = inl refl;
}
Follows-batch_answered c batch (some rs) =
    rw (← batch_marks batch rs) (Follows-update_all c (batch_updates batch rs))

length_cons : (n : ℕ) → (suc n == 0) ≡ false
length_cons n = ground arith

Follows-submit_batches :
    (c : Calls) (rounds : ℕ) (es : List UsageEvent)
    → length es ≤ rounds
    → Follows (submit_batches c rounds es) (unexpired es)
unfolding submit_batches
Follows-submit_batches c zero [] le = record { left = []; whole = refl; ended = inr refl }
Follows-submit_batches c zero (e ∷ es) le = absurd (omega arith)
Follows-submit_batches c (suc rounds) [] le = record { left = []; whole = refl; ended = inr refl }
Follows-submit_batches c (suc rounds) (e ∷ es) le =
    let batch = take 25 (e ∷ es) in
    let others = drop 25 (e ∷ es) in
    let shorter = length-drop 25 (e ∷ es) in
    let split : unexpired batch ++ unexpired others ≡ unexpired (e ∷ es) =
      sym (unexpired-append batch others) ∙ ap unexpired (take-append-drop 25 (e ∷ es)) in
    rw (length_cons (length es), ← split)
      (Follows-followed (batch_answered c batch (c.submit batch)) (submit_batches c rounds others)
        (unexpired batch) (unexpired others) (Follows-batch_answered c batch (c.submit batch))
        (Follows-submit_batches c rounds others (omega arith)))

-- A run of the submission marks as expired the listed events that are more than a day old when the
-- second filter reads the clock, in order, and then gives each of those that are not so old when the
-- first filter reads it another status, in order, whatever the marketplace answers; an error ends the
-- run there, and a run without one leaves none of them out.
pub submit_pending_usage-updated :
    (c : Calls) (now : ℕ → ℕ) (events : List UsageEvent)
    → Follows
        (submit_pending_usage c now events)
        (late_marks now (length events) events ++ timely_marks now 0 events)
unfolding submit_pending_usage
submit_pending_usage-updated c now events =
    let eligible = eligible_events now 0 events in
    let expiring = expired_updates (expired_events now (length events) events) in
    rw (← expired_marks now (length events) events, ← eligible_marks now 0 events)
      (Follows-followed (update_all c expiring) (submit_batches c (length eligible) eligible)
        (marks expiring) (unexpired eligible) (Follows-update_all c expiring)
        (Follows-submit_batches c (length eligible) eligible (omega arith)))
