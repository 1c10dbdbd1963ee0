-- ===== src/StatusList/Bitmap.antt =====
-- Reading the bitmap after a write.
use mathlib.Core.Logic.{inl, inr}
use ngotag_platform.Common.{
  ℕ, zero, suc, ◌+◌, ◌/◌, ◌%◌, ◌≡◌, ◌<◌, refl, false, not, ◌&&◌, ◌||◌, List, [], ◌∷◌, arith, ◌==◌,
  if◌then◌else◌, Bool-cases, get_or, set, length, length-set, replicate,
}
use ngotag_platform.StatusList.{popcount, with_bit, without_bit, is_set, set_index, clear_index}
use ngotag_platform.StatusList.Bits.{
  one, has_bit-with_bit, has_bit-without_bit, with_bit-lt, without_bit-lt, has_bit-zero,
  popcount-with_bit, popcount-without_bit, popcount-zero, without_bit-with_bit,
}

abbrev pub IsBytes : List ℕ → Type 0
IsBytes [] = Unit
IsBytes (x ∷ xs) = (x < 256) × IsBytes xs

get_or-IsBytes : (xs : List ℕ) (k : ℕ) → IsBytes xs → get_or xs k 0 < 256
get_or-IsBytes [] k h = omega arith
get_or-IsBytes (x ∷ xs) zero h = h.0
get_or-IsBytes (x ∷ xs) (suc k) h = get_or-IsBytes xs k h.1

set-IsBytes : (xs : List ℕ) (k v : ℕ) → IsBytes xs → v < 256 → IsBytes (set xs k v)
set-IsBytes [] k v h hv = tt
set-IsBytes (x ∷ xs) zero v h hv = (hv, h.1)
set-IsBytes (x ∷ xs) (suc k) v h hv = (h.0, set-IsBytes xs k v h.1 hv)

get_or-set :
    (xs : List ℕ) (k j v : ℕ)
    → k < length xs
    → get_or (set xs k v) j 0 ≡ (if k == j then v else get_or xs j 0)
get_or-set [] k j v h = elim h [ ]
get_or-set (x ∷ xs) zero zero v h = refl
get_or-set (x ∷ xs) zero (suc j) v h = ground arith
get_or-set (x ∷ xs) (suc k) zero v h = ground arith
get_or-set (x ∷ xs) (suc k) (suc j) v h = ground (arith, get_or-set xs k j v)

-- How many bits are set, over all bytes.
unfoldable pub total : List ℕ → ℕ
total [] = 0
total (x ∷ xs) = popcount x + total xs

total-set :
    (xs : List ℕ) (k v : ℕ)
    → k < length xs
    → total (set xs k v) + popcount (get_or xs k 0) ≡ total xs + popcount v
unfolding total
total-set [] k v h = elim h [ ]
total-set (x ∷ xs) zero v h = omega arith
total-set (x ∷ xs) (suc k) v h = omega (arith, total-set xs k v)

pub total-replicate_zero : (n : ℕ) → total (replicate n 0) ≡ 0
unfolding total
total-replicate_zero zero = refl
total-replicate_zero (suc n) = omega (arith, popcount-zero, total-replicate_zero n)

module _ (xs : List ℕ) (i : ℕ) (bytes : IsBytes xs) (inside : i / 8 < length xs) where
  pub is_set-set_index : (j : ℕ) → is_set (set_index xs i) j ≡ (i == j || is_set xs j)
  unfolding is_set set_index
  is_set-set_index j = elim (Bool-cases (i / 8 == j / 8)) [
    | inl same ↦ ground (
      arith,
      get_or-set xs (i / 8) (j / 8) (with_bit (get_or xs (i / 8) 0) (i % 8)) inside,
      has_bit-with_bit (get_or xs (i / 8) 0) (i % 8) (j % 8) (get_or-IsBytes xs (i / 8) bytes),
    )
    | inr other ↦
        ground
          (arith, get_or-set xs (i / 8) (j / 8) (with_bit (get_or xs (i / 8) 0) (i % 8)) inside)
  ]

  pub is_set-clear_index : (j : ℕ) → is_set (clear_index xs i) j ≡ (not (i == j) && is_set xs j)
  unfolding is_set clear_index
  is_set-clear_index j = elim (Bool-cases (i / 8 == j / 8)) [
    | inl same ↦ ground (
      arith,
      get_or-set xs (i / 8) (j / 8) (without_bit (get_or xs (i / 8) 0) (i % 8)) inside,
      has_bit-without_bit (get_or xs (i / 8) 0) (i % 8) (j % 8) (get_or-IsBytes xs (i / 8) bytes),
    )
    | inr other ↦
        ground
          (arith, get_or-set xs (i / 8) (j / 8) (without_bit (get_or xs (i / 8) 0) (i % 8)) inside)
  ]

  pub set_index-IsBytes : IsBytes (set_index xs i)
  unfolding set_index
  set_index-IsBytes =
      set-IsBytes xs _ _ bytes (with_bit-lt _ _ (get_or-IsBytes xs (i / 8) bytes) (omega arith))

  pub clear_index-IsBytes : IsBytes (clear_index xs i)
  unfolding clear_index
  clear_index-IsBytes =
      set-IsBytes xs _ _ bytes (without_bit-lt _ _ (get_or-IsBytes xs (i / 8) bytes) (omega arith))

  pub total-set_index : total (set_index xs i) ≡ total xs + one (not (is_set xs i))
  unfolding set_index is_set
  total-set_index =
      let byte = get_or xs (i / 8) 0 in
      let p = popcount-with_bit byte (i % 8) (get_or-IsBytes xs (i / 8) bytes) (omega arith) in
      omega (arith, p, total-set xs (i / 8) (with_bit byte (i % 8)) inside)

  pub total-clear_index : total (clear_index xs i) + one (is_set xs i) ≡ total xs
  unfolding clear_index is_set
  total-clear_index =
      let byte = get_or xs (i / 8) 0 in
      let p = popcount-without_bit byte (i % 8) (get_or-IsBytes xs (i / 8) bytes) (omega arith) in
      omega (arith, p, total-set xs (i / 8) (without_bit byte (i % 8)) inside)

pub length-set_index : (xs : List ℕ) (i : ℕ) → length (set_index xs i) ≡ length xs
unfolding set_index
length-set_index xs i = length-set xs (i / 8) _

pub length-clear_index : (xs : List ℕ) (i : ℕ) → length (clear_index xs i) ≡ length xs
unfolding clear_index
length-clear_index xs i = length-set xs (i / 8) _

pub replicate-IsBytes : (n : ℕ) → IsBytes (replicate n 0)
replicate-IsBytes zero = tt
replicate-IsBytes (suc n) = (omega arith, replicate-IsBytes n)

get_or-replicate : (n k : ℕ) → get_or {A = ℕ} (replicate n 0) k 0 ≡ 0
get_or-replicate zero k = refl
get_or-replicate (suc n) zero = refl
get_or-replicate (suc n) (suc k) = get_or-replicate n k

pub is_set-replicate : (n i : ℕ) → is_set (replicate n 0) i ≡ false
unfolding is_set
is_set-replicate n i = rw (get_or-replicate n (i / 8)) (has_bit-zero (i % 8) (omega arith))

set-set : (xs : List ℕ) (k v w : ℕ) → set (set xs k v) k w ≡ set xs k w
set-set [] k v w = refl
set-set (x ∷ xs) zero v w = refl
set-set (x ∷ xs) (suc k) v w = rw (set-set xs k v w)

set-get_or : (xs : List ℕ) (k : ℕ) → set xs k (get_or xs k 0) ≡ xs
set-get_or [] k = refl
set-get_or (x ∷ xs) zero = refl
set-get_or (x ∷ xs) (suc k) = rw (set-get_or xs k)

-- Clearing an index that was free before it was set gives the bitmap back.
pub clear_index-set_index :
    (xs : List ℕ) (i : ℕ)
    → IsBytes xs
    → i / 8 < length xs
    → is_set xs i ≡ false
    → clear_index (set_index xs i) i ≡ xs
unfolding clear_index set_index is_set
clear_index-set_index xs i bytes inside free =
    let k = i / 8 in
    let byte = get_or xs k 0 in
    let new = with_bit byte (i % 8) in
    let read : get_or (set xs k new) k 0 ≡ new = ground (arith, get_or-set xs k k new inside) in
    let back : without_bit new (i % 8) ≡ byte =
      without_bit-with_bit byte (i % 8) (get_or-IsBytes xs k bytes) (omega arith) free in
    rw (read, back, set-set xs k new byte) (set-get_or xs k)
