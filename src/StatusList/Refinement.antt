-- ===== src/StatusList/Refinement.antt =====
-- The contract of `RandomBitmapIndexAllocator` as an abstract machine, whose state is only which
-- indexes are used: any sequence of its operations, with the answers that they may have.
use ngotag_platform.Common.{
  ℕ, ◌+◌, ◌≤◌, ◌<◌, ◌≡◌, refl, Bool, true, false, not, ◌&&◌, ◌||◌, List, [], ◌∷◌, arith, ◌==◌, leb,
  Bool-cases, inl, inr,
}
use ngotag_platform.StatusList.{
  Allocator, Error, no_indexes_left, invalid_index, Result, ok, err, is_set, allocate, release,
}
use ngotag_platform.StatusList.Invariant.{IsValid, allocated_count-le, full-IsExhausted}
use ngotag_platform.StatusList.Allocation.{allocate-IsClaim, allocate-err_iff}
use ngotag_platform.StatusList.Release.{release-IsRelease}
use ngotag_platform.StatusList.Scan.{IsRandomInt}

pub data Request : Type 0 where
  take : Request
  give_back : ℕ → Request

pub data Answer : Type 0 where
  given : ℕ → Answer
  returned : Answer
  refused : Error → Answer

-- The sequence on the code's allocator; a call that throws leaves it as it is. `draws n` is the random
-- source of the `n`-th request.
after_take : Allocator → Result (ℕ × Allocator) → Allocator × Answer
after_take a (ok (i, b)) = (b, given i)
after_take a (err e) = (a, refused e)

after_release : Allocator → Result Allocator → Allocator × Answer
after_release a (ok b) = (b, returned)
after_release a (err e) = (a, refused e)

serve : (ℕ → ℕ → ℕ) → Allocator → Request → Allocator × Answer
unfolding after_take after_release
serve draw a take = after_take a (allocate draw a)
serve draw a (give_back i) = after_release a (release a i)

pub run : (ℕ → ℕ → ℕ → ℕ) → ℕ → Allocator → List Request → List Answer
run draws n a [] = []
run draws n a (r ∷ rs) = let (b, answer) = serve (draws n) a r in answer ∷ run draws (n + 1) b rs

-- One step of the abstract machine: what may be answered, and which indexes are used afterwards.
pub data Move (capacity : ℕ) (used : ℕ → Bool) : Request → Answer → (ℕ → Bool) → Type 0 where
  gives :
      {i : ℕ} {more : ℕ → Bool}
      → i < capacity
      → used i ≡ false
      → ((j : ℕ) → more j ≡ (i == j || used j))
      → Move capacity used take (given i) more
  exhausted :
      ((i : ℕ) → i < capacity → used i ≡ true)
      → Move capacity used take (refused no_indexes_left) used
  returns :
      {i : ℕ} {less : ℕ → Bool}
      → i < capacity
      → ((j : ℕ) → less j ≡ (not (i == j) && used j))
      → Move capacity used (give_back i) returned less
  unknown : {i : ℕ} → capacity ≤ i → Move capacity used (give_back i) (refused invalid_index) used

pub data Admits (capacity : ℕ) : (ℕ → Bool) → List Request → List Answer → Type 0 where
  nothing : {used : ℕ → Bool} → Admits capacity used [] []
  then_more :
      {used after : ℕ → Bool} {r : Request} {rs : List Request} {answer : Answer}
      {answers : List Answer}
      → Move capacity used r answer after
      → Admits capacity after rs answers
      → Admits capacity used (r ∷ rs) (answer ∷ answers)

-- What the step of the code owes the step of the machine.
record IsStep (a : Allocator) (r : Request) (s : Allocator × Answer) : Type 0 where
  move : Move a.capacity (is_set a.bitmap) r s.1 (is_set s.0.bitmap)
  same_capacity : s.0.capacity ≡ a.capacity
  valid : IsValid s.0

take-IsStep :
    (draw : ℕ → ℕ → ℕ) (a : Allocator)
    → IsRandomInt draw
    → IsValid a
    → IsStep a take (serve draw a take)
unfolding serve after_take
take-IsStep draw a r v = elim (Bool-cases (a.allocated_count == a.capacity)) [
  | inl e ↦
      let all = full-IsExhausted a v (ground arith) in
      let full = (allocate-err_iff draw a r v).1 all in
      rw (full) (record { move = exhausted all; same_capacity = refl; valid = v })
  | inr e ↦
      let (i, b, ok_b, claim) =
        allocate-IsClaim draw a r v (ground (arith, allocated_count-le a v)) in
      rw (ok_b) (record {
        move = gives claim.free.0 claim.free.1 claim.bits;
        same_capacity = claim.same_capacity;
        valid = claim.valid;
      })
]

release_refuses : (a : Allocator) (i : ℕ) → a.capacity ≤ i → release a i ≡ err invalid_index
unfolding release
release_refuses a i h = ground arith

release-IsStep :
    (a : Allocator) (i : ℕ)
    → IsValid a
    → (draw : ℕ → ℕ → ℕ) → IsStep a (give_back i) (serve draw a (give_back i))
unfolding serve after_release
release-IsStep a i v draw = elim (Bool-cases (leb a.capacity i)) [
  | inl e ↦
      let out : a.capacity ≤ i = ground arith in
      rw (release_refuses a i out) (record { move = unknown out; same_capacity = refl; valid = v })
  | inr e ↦
      let inside : i < a.capacity = ground arith in
      let (b, ok_b, done) = release-IsRelease a i v inside in
      rw (ok_b) (record {
        move = returns inside done.bits;
        same_capacity = done.same_capacity;
        valid = done.valid;
      })
]

serve-IsStep :
    (draw : ℕ → ℕ → ℕ) (a : Allocator) (r : Request)
    → IsRandomInt draw
    → IsValid a
    → IsStep a r (serve draw a r)
serve-IsStep draw a take random v = take-IsStep draw a random v
serve-IsStep draw a (give_back i) random v = release-IsStep a i v draw

-- Whatever is asked of a valid allocator, in any order and with any random draws, the abstract machine
-- that starts with the same used indexes admits the answers: a free index is given, or all are used;
-- a release frees its index alone, or the index is outside the list.
pub run-Admits :
    (draws : ℕ → ℕ → ℕ → ℕ) (n : ℕ) (a : Allocator) (rs : List Request)
    → ((k : ℕ) → IsRandomInt (draws k))
    → IsValid a
    → Admits a.capacity (is_set a.bitmap) rs (run draws n a rs)
unfolding run
run-Admits draws n a [] random v = nothing
run-Admits draws n a (r ∷ rs) random v =
    let step = serve-IsStep (draws n) a r (random n) v in
    let b = (serve (draws n) a r).0 in
    let later = run-Admits draws (n + 1) b rs random step.valid in
    then_more step.move (rw (step.same_capacity) at later)
