-- ===== src/StatusList/Release.antt =====
-- What `release` and `isIndexAllocated` do.
use ngotag_platform.Common.{
  ℕ, List, some, ◌+◌, ◌-◌, ◌/◌, ◌≡◌, ◌<◌, ◌≤◌, refl, false, not, ◌&&◌, arith, ◌==◌, Bool-cases, inl,
  inr, length, true,
}
use ngotag_platform.StatusList.{
  Allocator, ok, err, invalid_index, is_set, clear_index, claim, allocate, release,
  is_index_allocated, create,
}
use ngotag_platform.StatusList.Bits.{one}
use ngotag_platform.StatusList.Bitmap.{
  is_set-set_index, is_set-clear_index, total-clear_index, clear_index-set_index,
}
use ngotag_platform.StatusList.Invariant.{IsValid, release-IsValid}
use ngotag_platform.StatusList.Allocation.{allocate-eq-ok}
use ngotag_platform.StatusList.Scan.{IsRandomInt, IsFree}

-- What a release inside the capacity does: the index, and it alone, becomes free.
pub record IsRelease (a : Allocator) (i : ℕ) (b : Allocator) : Type 0 where
  pub same_capacity : b.capacity ≡ a.capacity
  pub bits : (j : ℕ) → is_set b.bitmap j ≡ (not (i == j) && is_set a.bitmap j)
  pub count : b.allocated_count + one (is_set a.bitmap i) ≡ a.allocated_count
  pub valid : IsValid b

release_in_range :
    (a : Allocator) (i : ℕ)
    → IsValid a
    → i < a.capacity
    → (b : Allocator) × (release a i ≡ ok b)
      × ((j : ℕ) → is_set b.bitmap j ≡ (not (i == j) && is_set a.bitmap j))
      × (b.allocated_count + one (is_set a.bitmap i) ≡ a.allocated_count)
      × (b.capacity ≡ a.capacity)
unfolding release
release_in_range a i v lt = elim (Bool-cases (is_set a.bitmap i)) [
  | inl used ↦
      let inside : i / 8 < length a.bitmap = omega (arith, v.sized) in
      (
        record a { bitmap = clear_index a.bitmap i; allocated_count = a.allocated_count - 1 },
        ground arith,
        is_set-clear_index a.bitmap i v.bytes inside,
        ground (arith, total-clear_index a.bitmap i v.bytes inside, v.counted),
        refl,
      )
  | inr free ↦ (a, ground arith, λ j. unchanged j free, ground arith, refl)
]
  where
    unchanged :
        (j : ℕ)
        → is_set a.bitmap i ≡ false
        → is_set a.bitmap j ≡ (not (i == j) && is_set a.bitmap j)
    unchanged j free = elim (Bool-cases (i == j)) [
      | inl same ↦ let e : i ≡ j = ground arith in rw (same, ← e) free
      | inr other ↦ rw other
    ]

-- On a valid allocator, releasing an index below the capacity succeeds: that bit is clear
-- afterwards and no other bit changes, the count falls by one exactly if the index was allocated,
-- and the allocator stays valid.
pub release-IsRelease :
    (a : Allocator) (i : ℕ)
    → IsValid a
    → i < a.capacity
    → (b : Allocator) × (release a i ≡ ok b) × IsRelease a i b
release-IsRelease a i v lt =
    let (b, e, bits, count, capacity) = release_in_range a i v lt in
    (
      b,
      e,
      record {
        same_capacity = capacity;
        bits = bits;
        count = count;
        valid = release-IsValid a i v e;
      },
    )

is_index_allocated-claim :
    (a : Allocator) (i : ℕ) → IsValid a → IsFree a i → is_index_allocated (claim a i) i ≡ ok true
unfolding is_index_allocated claim
is_index_allocated-claim a i v free =
    let inside : i / 8 < length a.bitmap = omega (arith, v.sized, free.0) in
    ground (arith, is_set-set_index a.bitmap i v.bytes inside i)

release-claim : (a : Allocator) (i : ℕ) → IsValid a → IsFree a i → release (claim a i) i ≡ ok a
unfolding release claim
release-claim a i v free =
    let inside : i / 8 < length a.bitmap = omega (arith, v.sized, free.0) in
    ground (
      arith,
      is_set-set_index a.bitmap i v.bytes inside i,
      clear_index-set_index a.bitmap i v.bytes inside free.1,
    )

-- On a valid allocator, releasing the index that `allocate` has just returned gives back the
-- allocator from before, byte for byte, and until then `isIndexAllocated` answers true for it.
pub release-allocate :
    (draw : ℕ → ℕ → ℕ) (a : Allocator) (i : ℕ) (b : Allocator)
    → IsRandomInt draw
    → IsValid a
    → allocate draw a ≡ ok (i, b)
    → (release b i ≡ ok a) × (is_index_allocated b i ≡ ok true)
release-allocate draw a i b r v e =
    let (free, same) = allocate-eq-ok draw a i b r v e in
    rw same (release-claim a i v free, is_index_allocated-claim a i v free)

pub release-create_out_of_range :
    (n i : ℕ) (bitmap : List ℕ) → n ≤ i → release (create n (some bitmap)) i ≡ err invalid_index
unfolding release create
release-create_out_of_range n i bitmap out = ground arith
