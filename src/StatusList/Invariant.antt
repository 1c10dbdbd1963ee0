-- ===== src/StatusList/Invariant.antt =====
-- The invariant of the allocator, and the operations that keep it.
use ngotag_platform.Common.{
  ℕ, ◌+◌, ◌-◌, ◌*◌, ◌/◌, ◌≡◌, ◌<◌, ◌≤◌, ◌∙◌, refl, sym, true, false, List, [], ◌∷◌, none, some,
  arith, ◌==◌, leb, inl, inr, Bool-cases, length, length-replicate, replicate,
}
use ngotag_platform.StatusList.{
  Allocator, ok, err, invalid_index, is_set, clear_index, count_bytes, create, claim, release,
}
use ngotag_platform.StatusList.Bits.{popcount-zero}
use ngotag_platform.StatusList.Bitmap.{
  IsBytes, total, total-replicate_zero, is_set-set_index, is_set-clear_index, set_index-IsBytes,
  clear_index-IsBytes, total-set_index, total-clear_index, length-set_index, length-clear_index,
  replicate-IsBytes, is_set-replicate,
}
use ngotag_platform.StatusList.Count.{
  count_below-full, count_below-all, count_below-le, count_below, total-count_below,
  count_below-clean,
}

pub record IsValid (a : Allocator) : Type 0 where
  pub bytes : IsBytes a.bitmap
  pub sized : length a.bitmap ≡ (a.capacity + 7) / 8
  pub clean : (i : ℕ) → a.capacity ≤ i → is_set a.bitmap i ≡ false
  pub counted : a.allocated_count ≡ total a.bitmap

count_bytes-total : (n : ℕ) (xs : List ℕ) → count_bytes n xs ≡ n + total xs
unfolding count_bytes total
count_bytes-total n [] = omega arith
count_bytes-total n (x ∷ xs) = elim (Bool-cases (x == 0)) [
  | inl z ↦
      let e : x ≡ 0 = ground arith in rw e (omega (arith, popcount-zero, count_bytes-total n xs))
  | inr p ↦ rw p (omega (arith, count_bytes-total (n + _) xs))
]

pub create-IsValid : (capacity : ℕ) → IsValid (create capacity none)
unfolding create
create-IsValid capacity = record {
  bytes = replicate-IsBytes _;
  sized = length-replicate ((capacity + 7) / 8) 0;
  clean = λ i h. is_set-replicate _ i;
  counted = count_bytes-total 0 (replicate ((capacity + 7) / 8) 0) ∙ zero_add (total _);
}
  where
    zero_add : (n : ℕ) → 0 + n ≡ n
    zero_add n = omega arith

pub create-valid : (a : Allocator) → IsValid a → create a.capacity (some a.bitmap) ≡ a
unfolding create
create-valid a v =
    let e : count_bytes 0 a.bitmap ≡ a.allocated_count =
      omega (arith, v.counted, count_bytes-total 0 a.bitmap) in
    rw e refl

pub claim-IsValid :
    (a : Allocator) (i : ℕ)
    → IsValid a
    → i < a.capacity
    → is_set a.bitmap i ≡ false
    → IsValid (claim a i)
unfolding claim
claim-IsValid a i v lt free =
    let inside : i / 8 < length a.bitmap = omega (arith, v.sized) in
    record {
      bytes = set_index-IsBytes a.bitmap i v.bytes inside;
      sized = length-set_index a.bitmap i ∙ v.sized;
      clean = λ j h. ground (arith, is_set-set_index a.bitmap i v.bytes inside j, v.clean j h);
      counted = ground (arith, total-set_index a.bitmap i v.bytes inside, v.counted);
    }

pub release-IsValid :
    (a : Allocator) (i : ℕ) {b : Allocator} → IsValid a → release a i ≡ ok b → IsValid b
unfolding release
release-IsValid a i {b} v e = elim (Bool-cases (leb a.capacity i)) [
  | inl out ↦ absurd (impossible (rw (out, release) at e))
  | inr in_range ↦ elim (Bool-cases (is_set a.bitmap i)) [
    | inr free ↦ let e' : a ≡ b = ground arith in rw (← e') v
    | inl used ↦
        let inside : i / 8 < length a.bitmap = ground (arith, v.sized) in
        let same : freed ≡ b = ground arith in
        rw (← same) (record {
          bytes = clear_index-IsBytes a.bitmap i v.bytes inside;
          sized = length-clear_index a.bitmap i ∙ v.sized;
          clean =
              λ j h. ground (arith, is_set-clear_index a.bitmap i v.bytes inside j, v.clean j h);
          counted = ground (arith, total-clear_index a.bitmap i v.bytes inside, v.counted);
        })
  ]
]
  where
    impossible : err invalid_index ≡ ok b → ⊥
    impossible h = cc

    freed : Allocator
    freed = record a { bitmap = clear_index a.bitmap i; allocated_count = a.allocated_count - 1 }

count-eq-count_below :
    (a : Allocator) → IsValid a → a.allocated_count ≡ count_below a.bitmap a.capacity
count-eq-count_below a v = omega (
  arith,
  v.counted,
  v.sized,
  total-count_below a.bitmap (8 * length a.bitmap) v.bytes refl,
  count_below-clean a.bitmap a.capacity (8 * length a.bitmap) (omega (arith, v.sized)) v.clean,
)

-- Full exactly when every index is set.
pub allocated_count-full :
    (a : Allocator)
    → IsValid a
    → ((i : ℕ) → i < a.capacity → is_set a.bitmap i ≡ true)
    → a.allocated_count ≡ a.capacity
allocated_count-full a v all = count-eq-count_below a v ∙ count_below-all a.bitmap a.capacity all

pub allocated_count-le : (a : Allocator) → IsValid a → a.allocated_count ≤ a.capacity
allocated_count-le a v = omega (arith, count-eq-count_below a v, count_below-le a.bitmap a.capacity)

pub full-IsExhausted :
    (a : Allocator)
    → IsValid a
    → a.allocated_count ≡ a.capacity
    → (i : ℕ) → i < a.capacity
    → is_set a.bitmap i ≡ true
full-IsExhausted a v e = count_below-full a.bitmap a.capacity (sym (count-eq-count_below a v) ∙ e)

-- The allocator that a new list starts from.
pub empty-IsValid :
    (capacity : ℕ)
    → IsValid (record {
      bitmap = replicate ((capacity + 7) / 8) 0;
      capacity = capacity;
      allocated_count = 0;
    })
empty-IsValid capacity = record {
  bytes = replicate-IsBytes _;
  sized = length-replicate ((capacity + 7) / 8) 0;
  clean = λ i h. is_set-replicate _ i;
  counted = sym (total-replicate_zero ((capacity + 7) / 8));
}
