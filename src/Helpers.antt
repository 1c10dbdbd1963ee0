-- ===== src/Helpers.antt =====
-- libs/common/src/common.utils.ts: the pages of a list, and the ledger that a DID names. Numbers of pages
-- are natural; a DID is the list of its segments between the colons, and `includes` is the method of
-- texts.
pub mod Pages
mod Tests
use Prim.Native.String.{◌++◌ as concat}
use ngotag_platform.Common.{
  ℕ, zero, suc, ◌+◌, ◌-◌, ◌*◌, ◌/◌, Bool, true, false, ◌&&◌, ◌||◌, Option, none, some, List, [],
  ◌∷◌, String, str_eq, ◌==◌, ltb, length, take, drop, get_elem?, if◌then◌else◌,
}

pub record Page {ℓ} (A : Type ℓ) : Type ℓ where
  pub page : ℕ
  pub page_size : ℕ
  pub previous_page : Option ℕ
  pub next_page : Option ℕ
  pub total_items : ℕ
  pub last_page : ℕ
  pub data_items : List A

-- `Number(n) || d`
pub or_default : ℕ → ℕ → ℕ
or_default n d = if n == 0 then d else n

pub total_pages : ℕ → ℕ → ℕ
total_pages count per_page = (count + (per_page - 1)) / per_page

pub page_of {ℓ} : {A : Type ℓ} → List A → ℕ → ℕ → Page A
page_of items page per_page = record {
  page = page;
  page_size = per_page;
  previous_page = if ltb 1 page then some (page - 1) else none;
  next_page = if ltb page (total_pages (length items) per_page) then some (page + 1) else none;
  total_items = length items;
  last_page = total_pages (length items) per_page;
  data_items = take per_page (drop ((page - 1) * per_page) items);
}

-- `paginator`
pub paginator {ℓ} : {A : Type ℓ} → List A → ℕ → ℕ → Page A
paginator items current_page items_per_page =
    page_of items (or_default current_page 1) (or_default items_per_page 10)

-- A segment that is absent is read as undefined.
pub join_two : Option String → Option String → String
join_two a b = concat (text_of a) (concat ":" (text_of b))
  where
    text_of : Option String → String
    text_of none = "undefined"
    text_of (some s) = s

module _ (includes : String → String → Bool) where
  pub some_includes : List String → String → Bool
  some_includes [] t = false
  some_includes (s ∷ ss) t = includes s t || some_includes ss t

  -- `networkNamespace`
  pub network_namespace : List String → Option String
  network_namespace segments =
      if some_includes segments "polygon" || some_includes segments "ethr"
      then (if some_includes segments "testnet" || some_includes segments "sepolia"
          then some (join_two (get_elem? segments 1) (get_elem? segments 2))
          else some (join_two (get_elem? segments 1) (some "mainnet")))
      else get_elem? segments 1

  indy_namespace : List String → Option String
  indy_namespace segments =
      if ltb 4 (length segments)
      then some (join_two (get_elem? segments 2) (get_elem? segments 3))
      else none

  by_method : List String → Option String → Option String
  by_method segments none = none
  by_method segments (some m) =
      if str_eq m "polygon" || str_eq m "ethr"
      then network_namespace segments
      else if str_eq m "indy"
      then indy_namespace segments
      else none

  is_did : Option String → Bool
  is_did none = false
  is_did (some s) = str_eq s "did"

  -- `didLedgerNamespace`
  pub did_ledger_namespace : List String → Option String
  did_ledger_namespace segments =
      if is_did (get_elem? segments 0) && ltb 2 (length segments)
      then by_method segments (get_elem? segments 1)
      else none
