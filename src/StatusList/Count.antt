-- ===== src/StatusList/Count.antt =====
-- The number of set bits, as the number of indices that are set.
use ngotag_platform.Common.{
  ℕ, zero, suc, ◌+◌, ◌*◌, ◌/◌, ◌%◌, ◌≡◌, ◌<◌, ◌≤◌, refl, true, false, List, [], ◌∷◌, arith, ◌==◌,
  length, inl, inr, Bool-cases,
}
use ngotag_platform.StatusList.{has_bit, is_set}
use ngotag_platform.StatusList.Bits.{one, bit_sum, popcount-bit_sum}
use ngotag_platform.StatusList.Bitmap.{IsBytes, total}

-- How many indices below `n` are set.
pub count_below : List ℕ → ℕ → ℕ
count_below xs zero = 0
count_below xs (suc n) = count_below xs n + one (is_set xs n)

is_set-cons_head : (x : ℕ) (xs : List ℕ) (i : ℕ) → i < 8 → is_set (x ∷ xs) i ≡ has_bit x i
unfolding is_set
is_set-cons_head x xs i h =
    let q : i / 8 ≡ 0 = omega arith in let r : i % 8 ≡ i = omega arith in rw (q, r)

is_set-cons_tail : (x : ℕ) (xs : List ℕ) (i : ℕ) → is_set (x ∷ xs) (i + 8) ≡ is_set xs i
unfolding is_set
is_set-cons_tail x xs i =
    let q : (i + 8) / 8 ≡ suc (i / 8) = omega arith in
    let r : (i + 8) % 8 ≡ i % 8 = omega arith in rw (q, r)

count_below-head : (x : ℕ) (xs : List ℕ) (n : ℕ) → n ≤ 8 → count_below (x ∷ xs) n ≡ bit_sum x n
unfolding count_below
count_below-head x xs zero h = refl
count_below-head x xs (suc n) h =
    rw (is_set-cons_head x xs n h) (omega (arith, count_below-head x xs n (omega arith)))

count_below-tail :
    (x : ℕ) (xs : List ℕ) (n m : ℕ)
    → n + 8 ≡ m
    → count_below (x ∷ xs) m ≡ bit_sum x 8 + count_below xs n
unfolding count_below
count_below-tail x xs zero m e =
    let e' : m ≡ 8 = omega arith in rw e' (omega (arith, count_below-head x xs 8 (omega arith)))
count_below-tail x xs (suc n) zero e = absurd (omega arith)
count_below-tail x xs (suc n) (suc m) e =
    let e' : m ≡ n + 8 = omega arith in
    let s : is_set (x ∷ xs) m ≡ is_set xs n = rw e' (is_set-cons_tail x xs n) in
    rw s (omega (arith, count_below-tail x xs n m (omega arith)))

-- The sum of the bytes' counts is the number of indices that are set.
pub total-count_below :
    (xs : List ℕ) (n : ℕ) → IsBytes xs → n ≡ 8 * length xs → total xs ≡ count_below xs n
unfolding total count_below
total-count_below [] n b e = let e' : n ≡ 0 = omega arith in rw e'
total-count_below (x ∷ xs) n b e = omega (
  arith,
  count_below-tail x xs (8 * length xs) n (omega arith),
  popcount-bit_sum x b.0,
  total-count_below xs (8 * length xs) b.1 refl,
)

pub count_below-all :
    (xs : List ℕ) (n : ℕ) → ((i : ℕ) → i < n → is_set xs i ≡ true) → count_below xs n ≡ n
unfolding count_below
count_below-all xs zero h = refl
count_below-all xs (suc n) h =
    let here = h n (omega arith) in
    rw here (omega (arith, count_below-all xs n (λ i lt. h i (omega arith))))

pub count_below-clean :
    (xs : List ℕ) (n m : ℕ)
    → n ≤ m
    → ((i : ℕ) → n ≤ i → is_set xs i ≡ false)
    → count_below xs m ≡ count_below xs n
unfolding count_below
count_below-clean xs n zero le h = let e : n ≡ 0 = omega arith in rw e
count_below-clean xs n (suc m) le h =
    ground (arith, h m, (λ (p : n ≤ m). count_below-clean xs n m p h))

pub count_below-le : (xs : List ℕ) (n : ℕ) → count_below xs n ≤ n
unfolding count_below
count_below-le xs zero = omega arith
count_below-le xs (suc n) = ground (arith, count_below-le xs n)

pub count_below-full :
    (xs : List ℕ) (n : ℕ) → count_below xs n ≡ n → (i : ℕ) → i < n → is_set xs i ≡ true
unfolding count_below
count_below-full xs zero e i lt = absurd (omega arith)
count_below-full xs (suc n) e i lt = elim (Bool-cases (i == n)) [
  | inl here ↦ let same : i ≡ n = ground arith in rw same (ground (arith, count_below-le xs n))
  | inr below ↦ count_below-full xs n (ground (arith, count_below-le xs n)) i (ground arith)
]
