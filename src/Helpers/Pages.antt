-- ===== src/Helpers/Pages.antt =====
-- libs/common/src/common.utils.ts, `paginator`: the pages make up the list.
use native.Mathlib.Nat.{mod-lt, mod-add-div', suc-mul}
use ngotag_platform.Helpers.{or_default, total_pages, page_of, paginator}
use ngotag_platform.Common.{
  ℕ, zero, suc, ◌+◌, ◌-◌, ◌*◌, ◌≤◌, ◌≡◌, refl, sym, ap, ◌∙◌, false, List, [], ◌∷◌, ◌++◌, arith,
  ◌==◌, length, take, drop,
}

mul_next : (k m : ℕ) → (k + 1) * m ≡ k * m + m
mul_next k m = let e : k + 1 ≡ suc k = omega arith in rw (e) (suc-mul k m)

enough_pages : (count per_page : ℕ) → 1 ≤ per_page → count ≤ total_pages count per_page * per_page
unfolding total_pages
enough_pages count per_page h =
    let split = mod-add-div' (count + (per_page - 1)) per_page in
    let bound = mod-lt (count + (per_page - 1)) h in omega arith

module _ {ℓ} {A : Type ℓ} where
  -- The data of `rounds` pages, from a page on.
  pub pages_from : List A → ℕ → ℕ → ℕ → List A
  pages_from items per_page zero page = []
  pages_from items per_page (suc rounds) page =
      (paginator items page per_page).data_items ++ pages_from items per_page rounds (page + 1)

  abbrev none_left : List A
  none_left = []

  take-nil : (n : ℕ) → take n none_left ≡ []
  take-nil zero = refl
  take-nil (suc n) = refl

  drop-nil : (n : ℕ) → drop n none_left ≡ []
  drop-nil zero = refl
  drop-nil (suc n) = refl

  take-drop_add : (n m : ℕ) (xs : List A) → take n xs ++ take m (drop n xs) ≡ take (n + m) xs
  take-drop_add zero m xs = let e : zero + m ≡ m = omega arith in rw (e) refl
  take-drop_add (suc n) m [] = take-nil m ∙ sym (take-nil (suc n + m))
  take-drop_add (suc n) m (x ∷ xs) =
      let e : suc n + m ≡ suc (n + m) = omega arith in
      rw (e) (ap (λ l. x ∷ l) (take-drop_add n m xs))

  drop-drop : (n m : ℕ) (xs : List A) → drop m (drop n xs) ≡ drop (n + m) xs
  drop-drop zero m xs = let e : zero + m ≡ m = omega arith in rw (e) refl
  drop-drop (suc n) m [] = drop-nil m ∙ sym (drop-nil (suc n + m))
  drop-drop (suc n) m (x ∷ xs) =
      let e : suc n + m ≡ suc (n + m) = omega arith in rw (e) (drop-drop n m xs)

  take-all : (n : ℕ) (xs : List A) → length xs ≤ n → take n xs ≡ xs
  take-all zero [] h = refl
  take-all zero (x ∷ xs) h = absurd (omega arith)
  take-all (suc n) [] h = refl
  take-all (suc n) (x ∷ xs) h = ap (λ l. x ∷ l) (take-all n xs (omega arith))

  page_data :
      (items : List A) (per_page k : ℕ)
      → 1 ≤ per_page
      → (paginator items (k + 1) per_page).data_items ≡ take per_page (drop (k * per_page) items)
  unfolding paginator page_of or_default
  page_data items per_page k h =
      let one : ((k + 1) == 0) ≡ false = ground arith in
      let two : (per_page == 0) ≡ false = ground arith in
      let three : k + 1 - 1 ≡ k = omega arith in rw (one, two, three) refl

  pages_from_lem :
      (items : List A) (per_page rounds k : ℕ)
      → 1 ≤ per_page
      → pages_from items per_page rounds (k + 1)
        ≡ take (rounds * per_page) (drop (k * per_page) items)
  unfolding pages_from
  pages_from_lem items per_page zero k h =
      let e : zero * per_page ≡ zero = omega arith in rw (e) refl
  pages_from_lem items per_page (suc rounds) k h =
      let rest = pages_from_lem items per_page rounds (k + 1) h in
      let here = page_data items per_page k h in
      let index : (k + 1) * per_page ≡ k * per_page + per_page = mul_next k per_page in
      let count : suc rounds * per_page ≡ per_page + rounds * per_page =
        suc-mul rounds per_page ∙ omega arith in
      rw (here, rest, count, index, ← drop-drop (k * per_page) per_page items)
        (take-drop_add per_page (rounds * per_page) (drop (k * per_page) items))

  -- With at least one item to a page, the data of the pages from the first to `totalPages`, one after the
  -- other, are the list.
  pub paginator-pages :
      (items : List A) (per_page : ℕ)
      → 1 ≤ per_page
      → pages_from items per_page (total_pages (length items) per_page) 1 ≡ items
  paginator-pages items per_page h =
      let pages = pages_from_lem items per_page (total_pages (length items) per_page) 0 h in
      let enough = enough_pages (length items) per_page h in
      let start : 0 * per_page ≡ 0 = omega arith in
      (rw (pages, start) refl)
      ∙ take-all (total_pages (length items) per_page * per_page) items enough
