-- ===== src/StatusList/Bits.antt =====
-- The bits of one byte: a fact of a byte and two of its bits holds because it is computed for each of
-- the 256 bytes and 8 positions.
use ngotag_platform.Common.{
  ℕ, zero, suc, ◌+◌, ◌≡◌, ◌<◌, refl, Bool, true, false, not, ◌&&◌, ◌||◌, arith, ◌==◌, ltb,
  if◌then◌else◌,
}
use ngotag_platform.StatusList.{popcount, has_bit, with_bit, without_bit}

-- The test holds of every number less than the bound, the largest last.
every : (ℕ → Bool) → ℕ → Bool
every test zero = true
every test (suc bound) = every test bound && test bound

every-below : (test : ℕ → Bool) (bound k : ℕ) → every test bound ≡ true → k < bound → test k ≡ true
unfolding every
every-below test zero k all below = absurd (omega arith)
every-below test (suc bound) k all below = ground (arith, every-below test bound k)

same : Bool → Bool → Bool
same false b = not b
same true b = b

same_sound : (a b : Bool) → same a b ≡ true → a ≡ b
unfolding same
same_sound a b h = ground arith

-- A check of a property of two bits of a byte, over all of them.
module _ (p : ℕ → ℕ → ℕ → Bool) where
  check_two_bits : Bool
  check_two_bits = every (λ x. every (λ b. every (p x b) 8) 8) 256

  check_two_bits_sound :
      check_two_bits ≡ true → (x b c : ℕ) → x < 256 → b < 8 → c < 8 → p x b c ≡ true
  unfolding check_two_bits
  check_two_bits_sound h x b c hx hb hc =
      every-below _ 8 c (every-below _ 8 b (every-below _ 256 x h hx) hb) hc

abbrev pub one : Bool → ℕ
one b = if b then 1 else 0

abbrev pub bit_sum : ℕ → ℕ → ℕ
bit_sum x zero = 0
bit_sum x (suc n) = bit_sum x n + one (has_bit x n)

tables : Unit {0}
unfolding check_two_bits every same has_bit with_bit without_bit popcount
tables = tt

set_table : check_two_bits (λ x b c. same (has_bit (with_bit x b) c) (b == c || has_bit x c)) ≡ true
unfolding tables
set_table = refl

clear_table :
    check_two_bits (λ x b c. same (has_bit (without_bit x b) c) (not (b == c) && has_bit x c))
    ≡ true
unfolding tables
clear_table = refl

range_table : check_two_bits (λ x b c. ltb (with_bit x b) 256 && ltb (without_bit x b) 256) ≡ true
unfolding tables
range_table = refl

count_table :
    check_two_bits (λ x b c.
      popcount (with_bit x b) == popcount x + one (not (has_bit x b))
      && popcount (without_bit x b) + one (has_bit x b) == popcount x)
    ≡ true
unfolding tables
count_table = refl

sum_table : every (λ x. popcount x == bit_sum x 8) 256 ≡ true
unfolding tables
sum_table = refl

full_table : every (has_bit 255) 8 ≡ true
unfolding tables
full_table = refl

zero_table : every (λ b. not (has_bit 0 b)) 8 ≡ true
unfolding tables
zero_table = refl

module _ (x b c : ℕ) (hx : x < 256) (hb : b < 8) (hc : c < 8) where
  pub has_bit-with_bit : has_bit (with_bit x b) c ≡ (b == c || has_bit x c)
  has_bit-with_bit = same_sound _ _ (check_two_bits_sound _ set_table x b c hx hb hc)

  pub has_bit-without_bit : has_bit (without_bit x b) c ≡ (not (b == c) && has_bit x c)
  has_bit-without_bit = same_sound _ _ (check_two_bits_sound _ clear_table x b c hx hb hc)

module _ (x b : ℕ) (hx : x < 256) (hb : b < 8) where
  pub with_bit-lt : with_bit x b < 256
  with_bit-lt = let h = check_two_bits_sound _ range_table x b 0 hx hb (omega arith) in ground arith

  pub without_bit-lt : without_bit x b < 256
  without_bit-lt =
      let h = check_two_bits_sound _ range_table x b 0 hx hb (omega arith) in ground arith

  pub popcount-with_bit : popcount (with_bit x b) ≡ popcount x + one (not (has_bit x b))
  popcount-with_bit =
      let h = check_two_bits_sound _ count_table x b 0 hx hb (omega arith) in ground arith

  pub popcount-without_bit : popcount (without_bit x b) + one (has_bit x b) ≡ popcount x
  popcount-without_bit =
      let h = check_two_bits_sound _ count_table x b 0 hx hb (omega arith) in ground arith

pub popcount-bit_sum : (x : ℕ) → x < 256 → popcount x ≡ bit_sum x 8
popcount-bit_sum x hx = let h = every-below _ 256 x sum_table hx in ground arith

pub has_bit-full : (b : ℕ) → b < 8 → has_bit 255 b ≡ true
has_bit-full b h = every-below _ 8 b full_table h

pub has_bit-zero : (b : ℕ) → b < 8 → has_bit 0 b ≡ false
has_bit-zero b hb = let h = every-below _ 8 b zero_table hb in ground arith

pub popcount-zero : popcount 0 ≡ 0
unfolding popcount
popcount-zero = refl

restore_table : check_two_bits (λ x b c. has_bit x b || without_bit (with_bit x b) b == x) ≡ true
unfolding tables
restore_table = refl

pub without_bit-with_bit :
    (x b : ℕ) → x < 256 → b < 8 → has_bit x b ≡ false → without_bit (with_bit x b) b ≡ x
without_bit-with_bit x b hx hb free =
    let h = check_two_bits_sound _ restore_table x b 0 hx hb (omega arith) in ground arith
