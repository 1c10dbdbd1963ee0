-- ===== src/StatusList.antt =====
-- apps/oid4vc-issuance/src/status-list-allocator.service.ts, the class
-- `RandomBitmapIndexAllocator`: an index allocator over a `Uint8Array`, whose bytes are numbers
-- below 256. The integers that the code shifts are database integers, below 2 ^ 31, so that
-- `index >> 3` and `index & 7` are the quotient and the remainder by 8.
use Prim.Native.Nat.{bit_and, bit_or}
use ngotag_platform.Common.{
  ℕ, zero, suc, ◌+◌, ◌-◌, ◌*◌, ◌/◌, ◌%◌, ◌^◌, Bool, not, ◌&&◌, List, [], ◌∷◌, Option, none, some,
  ◌==◌, ltb, leb, if◌then◌else◌, get_or, set, length, replicate, or_else,
}
pub mod Bits
pub mod Bitmap
pub mod Count
pub mod Invariant
pub mod Scan
pub mod Allocation
pub mod Release
pub mod Refinement
mod Tests

-- `byte.toString(2).split('1').length - 1`: how often the digit 1 stands in the binary text.
binary : ℕ → ℕ → List ℕ
binary zero n = []
binary (suc fuel) n = let more = binary fuel (n / 2) in if n == 0 then [] else (b'0' + n % 2) ∷ more

ones : List ℕ → ℕ
ones [] = 0
ones (d ∷ ds) = (if d == b'1' then 1 else 0) + ones ds

pub popcount : ℕ → ℕ
unfolding binary ones
popcount byte = ones (binary byte byte)

-- The tests and writes of one bit of a byte.
unfoldable pub has_bit : ℕ → ℕ → Bool
has_bit byte bit = not (bit_and byte (2 ^ bit) == 0)

unfoldable pub with_bit : ℕ → ℕ → ℕ
with_bit byte bit = bit_or byte (2 ^ bit)

-- A byte keeps the low eight bits of `~(1 << bit)`.
pub without_bit : ℕ → ℕ → ℕ
without_bit byte bit = bit_and byte (255 - 2 ^ bit)

-- A read past the end is `undefined`, which `&` takes for 0; a write there is dropped.
unfoldable pub is_set : List ℕ → ℕ → Bool
is_set bitmap index = has_bit (get_or bitmap (index / 8) 0) (index % 8)

unfoldable pub set_index : List ℕ → ℕ → List ℕ
set_index bitmap index = set bitmap (index / 8) (with_bit (get_or bitmap (index / 8) 0) (index % 8))

pub clear_index : List ℕ → ℕ → List ℕ
clear_index bitmap index =
    set bitmap (index / 8) (without_bit (get_or bitmap (index / 8) 0) (index % 8))

pub record Allocator : Type 0 where
  pub bitmap : List ℕ
  pub capacity : ℕ
  pub allocated_count : ℕ

pub data Error : Type 0 where
  no_indexes_left invalid_index ids_required retry_list_full create_failed : Error

pub data Result {ℓ} (A : Type ℓ) : Type ℓ where
  ok : A → Result A
  err : Error → Result A

-- The constructor's loop over the bytes.
unfoldable pub count_bytes : ℕ → List ℕ → ℕ
count_bytes count [] = count
count_bytes count (byte ∷ bytes) =
    count_bytes (if byte == 0 then count else count + popcount byte) bytes

abbrev empty_bitmap : ℕ → List ℕ
empty_bitmap capacity = replicate ((capacity + 7) / 8) 0

initial_bitmap : ℕ → Option (List ℕ) → List ℕ
initial_bitmap capacity none = empty_bitmap capacity
initial_bitmap capacity (some existing) = existing

unfoldable pub create : ℕ → Option (List ℕ) → Allocator
unfolding initial_bitmap
create capacity existing = record {
  bitmap = initial_bitmap capacity existing;
  capacity = capacity;
  allocated_count = count_bytes 0 (initial_bitmap capacity existing);
}

-- The random attempts: `draw i n` is the `i`-th call of `randomInt`, with the bound `n`.
unfoldable pub attempt : (ℕ → ℕ → ℕ) → Allocator → ℕ → ℕ → Option ℕ
attempt draw a zero i = none
attempt draw a (suc rounds) i =
    let rest = attempt draw a rounds (i + 1) in
    if not (is_set a.bitmap (draw i a.capacity)) then some (draw i a.capacity) else rest

-- The inner loop of the scan, over the bits of one byte.
pub scan_bits : Allocator → ℕ → ℕ → ℕ → Option ℕ
scan_bits a byte zero bit = none
scan_bits a byte (suc rounds) bit =
    let rest = scan_bits a byte rounds (bit + 1) in
    if ltb (byte * 8 + bit) a.capacity && not (is_set a.bitmap (byte * 8 + bit))
    then some (byte * 8 + bit)
    else rest

-- The outer loop, over all bytes from a random one on.
pub scan_bytes : Allocator → ℕ → ℕ → ℕ → Option ℕ
scan_bytes a start zero i = none
scan_bytes a start (suc rounds) i =
    let rest = scan_bytes a start rounds (i + 1) in
    let byte = (start + i) % length a.bitmap in
    let here = or_else (scan_bits a byte 8 0) rest in
    if get_or a.bitmap byte 0 == 255 then rest else here

unfoldable pub claim : Allocator → ℕ → Allocator
claim a index = record a {
  bitmap = set_index a.bitmap index;
  allocated_count = a.allocated_count + 1;
}

abbrev max_random_attempts : ℕ
max_random_attempts = 32

unfoldable pub find_free : (ℕ → ℕ → ℕ) → Allocator → Option ℕ
find_free draw a =
    or_else (attempt draw a max_random_attempts 0)
      (scan_bytes a (draw max_random_attempts (length a.bitmap)) (length a.bitmap) 0)

claim_found : Allocator → Option ℕ → Result (ℕ × Allocator)
claim_found a none = err no_indexes_left
claim_found a (some index) = ok (index, claim a index)

unfoldable pub allocate : (ℕ → ℕ → ℕ) → Allocator → Result (ℕ × Allocator)
unfolding claim_found
allocate draw a =
    if a.allocated_count == a.capacity
    then err no_indexes_left
    else claim_found a (find_free draw a)

pub is_index_allocated : Allocator → ℕ → Result Bool
is_index_allocated a index =
    if leb a.capacity index then err invalid_index else ok (is_set a.bitmap index)

pub release : Allocator → ℕ → Result Allocator
release a index =
    if leb a.capacity index
    then err invalid_index
    else if is_set a.bitmap index
    then ok
        (record a { bitmap = clear_index a.bitmap index; allocated_count = a.allocated_count - 1 })
    else ok a
