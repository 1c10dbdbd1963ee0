-- ===== src/StatusList/Allocation.antt =====
-- What `allocate` finds: a free index whenever there is one.
use ngotag_platform.Common.{
  ℕ, ◌+◌, ◌/◌, ◌≡◌, ◌<◌, ◌∙◌, ◌↔◌, ◌≢◌, refl, sym, true, Option, none, some, arith, ◌==◌, ◌||◌, inl,
  inr, Bool-cases, length,
}
use ngotag_platform.StatusList.{
  Allocator, ok, err, Error, no_indexes_left, is_set, find_free, claim, claim_found, allocate,
}
use ngotag_platform.StatusList.Bitmap.{is_set-set_index}
use ngotag_platform.StatusList.Invariant.{
  IsValid, claim-IsValid, allocated_count-full, allocated_count-le, full-IsExhausted,
}
use ngotag_platform.StatusList.Scan.{IsRandomInt, IsFree, Searches, find_free-Searches}

-- A free index is left, or every index is set, by the count alone.
abbrev IsExhausted : Allocator → Type 0
IsExhausted a = (i : ℕ) → i < a.capacity → is_set a.bitmap i ≡ true

-- What a successful allocation does: the index was free, and it alone becomes set.
pub record IsClaim (a : Allocator) (i : ℕ) (b : Allocator) : Type 0 where
  pub free : IsFree a i
  pub same_capacity : b.capacity ≡ a.capacity
  pub one_more : b.allocated_count ≡ a.allocated_count + 1
  pub bits : (j : ℕ) → is_set b.bitmap j ≡ (i == j || is_set a.bitmap j)
  pub valid : IsValid b

claim-IsClaim : (a : Allocator) (i : ℕ) → IsValid a → IsFree a i → IsClaim a i (claim a i)
unfolding claim
claim-IsClaim a i v free =
    let inside : i / 8 < length a.bitmap = omega (arith, v.sized, free.0) in
    record {
      free = free;
      same_capacity = refl;
      one_more = refl;
      bits = is_set-set_index a.bitmap i v.bytes inside;
      valid = unfold claim in claim-IsValid a i v free.0 free.1;
    }

claim_found-IsClaim :
    (a : Allocator) (o : Option ℕ)
    → IsValid a
    → a.allocated_count < a.capacity
    → Searches a o
    → (i : ℕ) × (b : Allocator) × (claim_found a o ≡ ok (i, b)) × IsClaim a i b
unfolding claim_found
claim_found-IsClaim a none v lt all = absurd (omega (arith, allocated_count-full a v all))
claim_found-IsClaim a (some i) v lt free = (i, claim a i, refl, claim-IsClaim a i v free)

full_throws :
    (draw : ℕ → ℕ → ℕ) (a : Allocator)
    → a.allocated_count ≡ a.capacity
    → allocate draw a ≡ err no_indexes_left
unfolding allocate
full_throws draw a e = ground arith

ok-ne-err : {A : Type 0} (a : A) (e : Error) → err e ≡ ok a → ⊥
ok-ne-err a e h = cc

-- On a valid allocator whose count is below its capacity `allocate` succeeds, whatever the random
-- draws: it returns an index below the capacity that was free, sets that bit and no other, adds one
-- to the count, and leaves the allocator valid.
pub allocate-IsClaim :
    (draw : ℕ → ℕ → ℕ) (a : Allocator)
    → IsRandomInt draw
    → IsValid a
    → a.allocated_count < a.capacity
    → (i : ℕ) × (b : Allocator) × (allocate draw a ≡ ok (i, b)) × IsClaim a i b
unfolding allocate
allocate-IsClaim draw a r v lt =
    let (i, b, e, c) =
      claim_found-IsClaim a (find_free draw a) v lt (find_free-Searches draw a r v (omega arith)) in
    (i, b, ground arith, c)

-- On a valid allocator `allocate` throws 'No indexes left' exactly when every index below the
-- capacity is set, whatever the random draws.
pub allocate-err_iff :
    (draw : ℕ → ℕ → ℕ) (a : Allocator)
    → IsRandomInt draw
    → IsValid a
    → (allocate draw a ≡ err no_indexes_left) ↔ IsExhausted a
allocate-err_iff draw a r v = (to, from)
  where
    to : allocate draw a ≡ err no_indexes_left → IsExhausted a
    to e = elim (Bool-cases (a.allocated_count == a.capacity)) [
      | inl full ↦ full-IsExhausted a v (ground arith)
      | inr more ↦
          let (i, b, e', c) =
            allocate-IsClaim draw a r v (ground (arith, allocated_count-le a v)) in
          absurd (ok-ne-err (i, b) no_indexes_left (sym e ∙ e'))
    ]

    from : IsExhausted a → allocate draw a ≡ err no_indexes_left
    from all = full_throws draw a (allocated_count-full a v all)

claim_found-eq-ok :
    (a : Allocator) (o : Option ℕ) (i : ℕ) (b : Allocator)
    → claim_found a o ≡ ok (i, b)
    → (o ≡ some i) × (b ≡ claim a i)
unfolding claim_found
claim_found-eq-ok a none i b e = cc
claim_found-eq-ok a (some j) i b e = (ground arith, ground arith)

pub allocate-eq-ok :
    (draw : ℕ → ℕ → ℕ) (a : Allocator) (i : ℕ) (b : Allocator)
    → IsRandomInt draw
    → IsValid a
    → allocate draw a ≡ ok (i, b)
    → IsFree a i × (b ≡ claim a i)
unfolding allocate
allocate-eq-ok draw a i b r v e =
    let (more, found) = below in
    let (at_i, same) = claim_found-eq-ok a (find_free draw a) i b found in
    (rw at_i at (find_free-Searches draw a r v (omega (arith, allocated_count-le a v))), same)
  where
    below : (a.allocated_count ≢ a.capacity) × (claim_found a (find_free draw a) ≡ ok (i, b))
    below = ground arith
