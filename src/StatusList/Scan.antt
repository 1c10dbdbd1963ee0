-- ===== src/StatusList/Scan.antt =====
-- The random attempts and the scan: what they find is free, and they miss no free index.
use native.Mathlib.Nat.{mod-eq_of_lt, add-mod_right}
use ngotag_platform.Common.{
  ℕ, zero, suc, ◌+◌, ◌-◌, ◌*◌, ◌/◌, ◌%◌, ◌≡◌, ◌<◌, ◌≤◌, ◌∙◌, ◌⊎◌, refl, sym, true, false, Option,
  none, some, arith, ◌==◌, leb, if◌then◌else◌, inl, inr, Bool-cases, length, get_or, or_else,
}
use ngotag_platform.StatusList.{
  Allocator, is_set, attempt, scan_bits, scan_bytes, find_free, max_random_attempts,
}
use ngotag_platform.StatusList.Bits.{has_bit-full}
use ngotag_platform.StatusList.Invariant.{IsValid}

-- `randomInt(max)` of Node's `crypto`: an integer in [0, max).
abbrev pub IsRandomInt : (ℕ → ℕ → ℕ) → Type 0
IsRandomInt draw = (i n : ℕ) → 0 < n → draw i n < n

abbrev pub IsFree : Allocator → ℕ → Type 0
IsFree a i = (i < a.capacity) × (is_set a.bitmap i ≡ false)

attempt-IsFree :
    (draw : ℕ → ℕ → ℕ) (a : Allocator) (rounds i found : ℕ)
    → IsRandomInt draw
    → 0 < a.capacity
    → attempt draw a rounds i ≡ some found
    → IsFree a found
unfolding attempt
attempt-IsFree draw a zero i found r pos e = cc
attempt-IsFree draw a (suc rounds) i found r pos e =
    ground (arith, attempt-IsFree draw a rounds (i + 1) found r pos, r i a.capacity pos)

scan_bits-IsFree :
    (a : Allocator) (byte rounds bit found : ℕ)
    → scan_bits a byte rounds bit ≡ some found
    → IsFree a found
unfolding scan_bits
scan_bits-IsFree a byte zero bit found e = cc
scan_bits-IsFree a byte (suc rounds) bit found e =
    ground (arith, scan_bits-IsFree a byte rounds (bit + 1) found)

or_else-cases : (o p : Option ℕ) {n : ℕ} → or_else o p ≡ some n → (o ≡ some n) ⊎ (p ≡ some n)
or_else-cases none p e = inr e
or_else-cases (some m) p e = inl e

or_else-none : (o p : Option ℕ) → or_else o p ≡ none → (o ≡ none) × (p ≡ none)
or_else-none none p e = (refl, e)
or_else-none (some m) p e = cc

scan_bytes-IsFree :
    (a : Allocator) (start rounds i found : ℕ)
    → scan_bytes a start rounds i ≡ some found
    → IsFree a found
unfolding scan_bytes
scan_bytes-IsFree a start zero i found e = cc
scan_bytes-IsFree a start (suc rounds) i found e = ground (
  arith,
  scan_bytes-IsFree a start rounds (i + 1) found,
  scan_bits-IsFree a ((start + i) % length a.bitmap) 8 0 found,
  or_else-cases (scan_bits a ((start + i) % length a.bitmap) 8 0)
      (scan_bytes a start rounds (i + 1)) {n = found},
)

-- The scan of a byte passes no free index over.
scan_bits_complete :
    (a : Allocator) (byte rounds bit j : ℕ)
    → scan_bits a byte rounds bit ≡ none
    → bit ≤ j
    → j < bit + rounds
    → byte * 8 + j < a.capacity
    → is_set a.bitmap (byte * 8 + j) ≡ true
unfolding scan_bits
scan_bits_complete a byte zero bit j e le lt c = absurd (omega arith)
scan_bits_complete a byte (suc rounds) bit j e le lt c = elim (Bool-cases (bit == j)) [
  | inl here ↦ let same : bit ≡ j = ground arith in rw (← same) (ground arith)
  | inr later ↦
      scan_bits_complete a byte rounds (bit + 1) j (ground arith) (ground arith) (omega arith) c
]

-- All the indices of a byte that lie below the capacity are set.
abbrev IsFull : Allocator → ℕ → Type 0
IsFull a byte = (i : ℕ) → i / 8 ≡ byte → i < a.capacity → is_set a.bitmap i ≡ true

IsFull-scan_bits : (a : Allocator) (byte : ℕ) → scan_bits a byte 8 0 ≡ none → IsFull a byte
IsFull-scan_bits a byte e i same lt =
    let whole : byte * 8 + i % 8 ≡ i = omega arith in
    rw (← whole) (scan_bits_complete a byte 8 0 (i % 8) e (omega arith) (omega arith) (omega arith))

IsFull-ones : (a : Allocator) (byte : ℕ) → (get_or a.bitmap byte 0 == 255) ≡ true → IsFull a byte
unfolding is_set
IsFull-ones a byte e i same lt =
    let value : get_or a.bitmap byte 0 ≡ 255 = ground arith in
    rw (same, value) (has_bit-full (i % 8) (omega arith))

scan_bytes_complete :
    (a : Allocator) (start rounds i k : ℕ)
    → scan_bytes a start rounds i ≡ none
    → i ≤ k
    → k < i + rounds
    → IsFull a ((start + k) % length a.bitmap)
unfolding scan_bytes
scan_bytes_complete a start zero i k e le lt = absurd (omega arith)
scan_bytes_complete a start (suc rounds) i k e le lt = elim (Bool-cases (i == k)) [
  | inl here ↦
      let same : i ≡ k = ground arith in
      rw (← same) (elim (Bool-cases (get_or a.bitmap ((start + i) % length a.bitmap) 0 == 255)) [
        | inl ones ↦ IsFull-ones a _ ones
        | inr other ↦ IsFull-scan_bits a _ (or_else-none _ _ (rw other at e)).0
      ])
  | inr later ↦
      scan_bytes_complete a start rounds (i + 1) k
        (elim (Bool-cases (get_or a.bitmap ((start + i) % length a.bitmap) 0 == 255)) [
          | inl ones ↦ rw ones at e
          | inr other ↦ (or_else-none _ _ (rw other at e)).1
        ])
        (ground arith) (omega arith)
]

-- The offset at which the scan from `start` reaches the byte `b`.
offset : ℕ → ℕ → ℕ → ℕ
offset start b n = if leb start b then b - start else b + n - start

offset-lt : (start b n : ℕ) → start < n → b < n → offset start b n < n
unfolding offset
offset-lt start b n hs hb = ground arith

offset_lem : (start b n : ℕ) → start < n → b < n → (start + offset start b n) % n ≡ b
unfolding offset
offset_lem start b n hs hb = elim (Bool-cases (leb start b)) [
  | inl le ↦ let e : start + (b - start) ≡ b = ground arith in rw (le, e) (mod-eq_of_lt hb)
  | inr gt ↦
      let e : start + (b + n - start) ≡ b + n = ground arith in
      rw (gt, e) (add-mod_right b n ∙ mod-eq_of_lt hb)
]

scan_bytes-none :
    (a : Allocator) (start : ℕ)
    → IsValid a
    → start < length a.bitmap
    → scan_bytes a start (length a.bitmap) 0 ≡ none
    → (i : ℕ) → i < a.capacity
    → is_set a.bitmap i ≡ true
scan_bytes-none a start v hs e i lt =
    let n = length a.bitmap in
    let hb : i / 8 < n = omega (arith, v.sized) in
    let k = offset start (i / 8) n in
    scan_bytes_complete a start n 0 k e (omega arith)
      (omega (arith, offset-lt start (i / 8) n hs hb)) i (sym (offset_lem start (i / 8) n hs hb)) lt

-- The search fails only where every index is set, and finds a free one otherwise.
abbrev pub Searches : Allocator → Option ℕ → Type 0
Searches a none = (i : ℕ) → i < a.capacity → is_set a.bitmap i ≡ true
Searches a (some found) = IsFree a found

abbrev scan : (ℕ → ℕ → ℕ) → Allocator → Option ℕ
scan draw a = scan_bytes a (draw max_random_attempts (length a.bitmap)) (length a.bitmap) 0

pub find_free-Searches :
    (draw : ℕ → ℕ → ℕ) (a : Allocator)
    → IsRandomInt draw
    → IsValid a
    → 0 < a.capacity
    → Searches a (find_free draw a)
unfolding find_free
find_free-Searches draw a r v pos = go (find_free draw a) refl
  where
    go : (o : Option ℕ) → find_free draw a ≡ o → Searches a o
    go none e =
        scan_bytes-none a (draw max_random_attempts (length a.bitmap)) v
          (r max_random_attempts (length a.bitmap) (omega (arith, v.sized)))
          (or_else-none (attempt draw a max_random_attempts 0) (scan draw a) e).1
    go (some found) e =
        elim (or_else-cases (attempt draw a max_random_attempts 0) (scan draw a) e) [
          | inl random ↦ attempt-IsFree draw a max_random_attempts 0 found r pos random
          | inr scanned ↦
              scan_bytes-IsFree a (draw max_random_attempts (length a.bitmap)) (length a.bitmap) 0
                found scanned
        ]
