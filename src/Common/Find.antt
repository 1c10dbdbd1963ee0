-- ===== src/Common/Find.antt =====
-- The methods of arrays and tables that the components share: `some`, `every`, `filter`, `findFirst`, and
-- an update of the row that was found.
use Prim.Native.String.{String}
use text.Mathlib.Text.{◌==◌ as str_eq}
use mathlib.Core.Path.{◌≡◌, refl}
use mathlib.Core.Bool.{Bool, true, false, ◌&&◌, ◌||◌}
use mathlib.Core.List.{List, [], ◌∷◌}
use mathlib.Core.Option.{Option, none, some}
use native.Mathlib.Omega.{arith}
use ngotag_platform.Common.Tests.{if◌then◌else◌}

-- `includes`
unfoldable pub among : List String → String → Bool
among [] x = false
among (y ∷ ys) x = str_eq y x || among ys x

module _ {ℓ} {A : Type ℓ} where
  unfoldable pub any : (A → Bool) → List A → Bool
  any p [] = false
  any p (x ∷ xs) = p x || any p xs

  unfoldable pub all : (A → Bool) → List A → Bool
  all p [] = true
  all p (x ∷ xs) = p x && all p xs

  unfoldable pub keep : (A → Bool) → List A → List A
  keep p [] = []
  keep p (x ∷ xs) = let rest = keep p xs in if p x then x ∷ rest else rest

  unfoldable pub find_first : (A → Bool) → List A → Option A
  find_first p [] = none
  find_first p (x ∷ xs) = let rest = find_first p xs in if p x then some x else rest

  unfoldable pub update_first : (A → Bool) → (A → A) → List A → List A
  update_first p f [] = []
  update_first p f (x ∷ xs) = let rest = update_first p f xs in if p x then f x ∷ xs else x ∷ rest

  pub any-update_first :
      (q p : A → Bool) (f : A → A) (i : A) (xs : List A)
      → find_first p xs ≡ some i
      → (q i ≡ true → q (f i) ≡ true)
      → any q xs ≡ true
      → any q (update_first p f xs) ≡ true
  unfolding any find_first update_first
  any-update_first q p f i [] e h a = a
  any-update_first q p f i (x ∷ xs) e h a = ground (arith, any-update_first q p f i xs)

  pub all-update_first :
      (q p : A → Bool) (f : A → A) (i : A) (xs : List A)
      → find_first p xs ≡ some i
      → q (f i) ≡ true
      → all q xs ≡ true
      → all q (update_first p f xs) ≡ true
  unfolding all find_first update_first
  all-update_first q p f i [] e h a = refl
  all-update_first q p f i (x ∷ xs) e h a = ground (arith, all-update_first q p f i xs)

  pub find_first-holds :
      (p : A → Bool) (i : A) (xs : List A) → find_first p xs ≡ some i → p i ≡ true
  unfolding find_first
  find_first-holds p i [] e = ground arith
  find_first-holds p i (x ∷ xs) e = ground (arith, find_first-holds p i xs)

  pub all-find_first :
      (q p : A → Bool) (i : A) (xs : List A)
      → all q xs ≡ true
      → find_first p xs ≡ some i
      → q i ≡ true
  unfolding all find_first
  all-find_first q p i [] h e = ground arith
  all-find_first q p i (x ∷ xs) h e = ground (arith, all-find_first q p i xs)

  -- The row that was updated is there.
  pub any-updated :
      (q p : A → Bool) (f : A → A) (i : A) (xs : List A)
      → find_first p xs ≡ some i
      → q (f i) ≡ true
      → any q (update_first p f xs) ≡ true
  unfolding any find_first update_first
  any-updated q p f i [] e h = ground arith
  any-updated q p f i (x ∷ xs) e h = ground (arith, any-updated q p f i xs)

  pub any-keep :
      (q p : A → Bool) (xs : List A)
      → ((x : A) → q x ≡ true → p x ≡ true)
      → any q xs ≡ true
      → any q (keep p xs) ≡ true
  unfolding any keep
  any-keep q p [] h a = a
  any-keep q p (x ∷ xs) h a = ground (arith, h x, any-keep q p xs h)

  pub all-keep :
      (q r p : A → Bool) (xs : List A)
      → ((x : A) → p x ≡ true → q x ≡ true → r x ≡ true)
      → all q xs ≡ true
      → all r (keep p xs) ≡ true
  unfolding all keep
  all-keep q r p [] h a = refl
  all-keep q r p (x ∷ xs) h a = ground (arith, h x, all-keep q r p xs h)

  pub all_mono :
      (q r : A → Bool) (xs : List A)
      → ((x : A) → q x ≡ true → r x ≡ true)
      → all q xs ≡ true
      → all r xs ≡ true
  unfolding all
  all_mono q r [] h a = refl
  all_mono q r (x ∷ xs) h a = ground (arith, h x, all_mono q r xs h)

  pub find_first-none : (p : A → Bool) (xs : List A) → any p xs ≡ false → find_first p xs ≡ none
  unfolding any find_first
  find_first-none p [] h = refl
  find_first-none p (x ∷ xs) h = ground (arith, find_first-none p xs)
