-- ===== src/StatusList/Tests.antt =====
-- Runs of the allocator, and the theorems at concrete inputs.
use native.Mathlib.Nat.{mod-lt}
use ngotag_platform.Common.{ℕ, ◌+◌, ◌*◌, ◌%◌, ◌≡◌, refl, true, [], ◌∷◌, none}
use ngotag_platform.StatusList.{
  Allocator, ok, err, invalid_index, create, allocate, release, count_bytes, find_free, attempt,
  scan_bytes, scan_bits, claim, set_index, has_bit, with_bit, is_index_allocated, is_set,
}
use ngotag_platform.StatusList.Invariant.{IsValid, create-IsValid}
use ngotag_platform.StatusList.Release.{release-allocate}
use ngotag_platform.StatusList.Scan.{IsRandomInt}
use ngotag_platform.StatusList.Refinement.{take, give_back, run, Admits, run-Admits}

abbrev draws : ℕ → ℕ → ℕ
draws i n = (i * 3 + 5) % n

draws-IsRandomInt : IsRandomInt draws
draws-IsRandomInt i n pos = mod-lt (i * 3 + 5) pos

twelve : Allocator
twelve = create 12 none

runs : Unit {0}
unfolding twelve create count_bytes allocate find_free attempt scan_bytes scan_bits claim set_index
    has_bit with_bit release is_index_allocated is_set
runs = tt

first_index :
    allocate draws twelve
    ≡ ok (5, record { bitmap = 32 ∷ 0 ∷ []; capacity = 12; allocated_count = 1 })
unfolding runs
first_index = refl

-- Where every random attempt fails the scan finds the last free index.
abbrev nearly_full : Allocator
nearly_full = record { bitmap = 255 ∷ 11 ∷ []; capacity = 12; allocated_count = 11 }

last_index :
    allocate (λ i n. 0) nearly_full
    ≡ ok (10, record { bitmap = 255 ∷ 15 ∷ []; capacity = 12; allocated_count = 12 })
unfolding runs
last_index = refl

out_of_range : release nearly_full 12 ≡ err invalid_index
unfolding runs
out_of_range = refl

twelve-IsValid : IsValid twelve
unfolding twelve
twelve-IsValid = create-IsValid 12

release-allocate_example :
    (release (record { bitmap = 32 ∷ 0 ∷ []; capacity = 12; allocated_count = 1 }) 5 ≡ ok twelve)
    × (is_index_allocated (record { bitmap = 32 ∷ 0 ∷ []; capacity = 12; allocated_count = 1 }) 5
        ≡ ok true)
release-allocate_example =
    release-allocate draws twelve 5
      (record { bitmap = 32 ∷ 0 ∷ []; capacity = 12; allocated_count = 1 }) draws-IsRandomInt
      twelve-IsValid first_index

run-Admits_example :
    Admits 12
      (is_set twelve.bitmap)
      (take ∷ give_back 3 ∷ give_back 99 ∷ [])
      (run (λ k. draws) 0 twelve (take ∷ give_back 3 ∷ give_back 99 ∷ []))
unfolding runs
run-Admits_example =
    run-Admits (λ k. draws) 0 twelve (take ∷ give_back 3 ∷ give_back 99 ∷ [])
      (λ k. draws-IsRandomInt) twelve-IsValid
