-- ===== src/StatusService/Stored.antt =====
-- The table's invariant, and how each call of the service changes the rows.
use mathlib.Core.Option
use ngotag_platform.Common.{
  ℕ, ◌≡◌, ◌∙◌, refl, sym, arith, Bool, false, Option, none, some, String, str_eq, eq_iff,
  if◌then◌else◌, Bool-cases, inl, inr,
}
use ngotag_platform.StatusList.{Allocator, is_set}
use ngotag_platform.StatusList.Invariant.{IsValid}
use ngotag_platform.StatusService.Table.{Row, Change, deactivate, change, change_if, Prisma}

abbrev pub as_allocator : Row → Allocator
as_allocator r = record {
  bitmap = r.bitmap;
  capacity = r.list_size;
  allocated_count = r.allocated_count;
}

module _ (p : Prisma) where
  open p use {Db, find_unique, update_id, update_list, Keys}

  -- Each stored list is a valid allocator.
  pub record IsSound (d : Db) : Type 0 where
    pub keys : Keys d
    pub rows : (l : String) (r : Row) → find_unique d l ≡ some r → IsValid (as_allocator r)

  abbrev row_taken : Option Row → ℕ → Bool
  row_taken none i = false
  row_taken (some r) i = is_set r.bitmap i

  -- The index `i` of the list `l` is allocated.
  unfoldable pub taken : Db → String → ℕ → Bool
  taken d l i = row_taken (find_unique d l) i

  pub taken-found :
      (d : Db) (r : Row) (i : ℕ)
      → find_unique d r.list_id ≡ some r
      → taken d r.list_id i ≡ is_set r.bitmap i
  unfolding taken
  taken-found d r i e = rw e

  pub find_unique-update_row :
      (d : Db) (l m : String) (r : Row) (c : Change)
      → Keys d
      → find_unique d l ≡ some r
      → find_unique (update_id d r.id c) m
        ≡ (if str_eq l m then some (change c r) else find_unique d m)
  find_unique-update_row d l m r c k e =
      p.find_unique-update_id d r.id m c ∙ go (find_unique d m) refl
    where
      go :
          (o : Option Row)
          → find_unique d m ≡ o
          → Option.map (λ s. change_if (str_eq s.id r.id) c s) o
            ≡ (if str_eq l m then some (change c r) else o)
      go none f = ground (arith, eq_iff l m)
      go (some s) f =
          ground (
            arith,
            eq_iff l m,
            eq_iff s.id r.id,
            λ (h : r.id ≡ s.id). p.ids_unique d l m r s k e f h,
          )

  find_unique-update_list_row :
      (d : Db) (l m : String) (r : Row) (c : Change)
      → find_unique d l ≡ some r
      → find_unique (update_list d l c) m
        ≡ (if str_eq l m then some (change c r) else find_unique d m)
  find_unique-update_list_row d l m r c e =
      p.find_unique-update_list d l m c ∙ go (find_unique d m) refl
    where
      go :
          (o : Option Row)
          → find_unique d m ≡ o
          → Option.map (λ s. change_if (str_eq s.list_id l) c s) o
            ≡ (if str_eq l m then some (change c r) else o)
      go none f = ground (arith, eq_iff l m)
      go (some s) f = ground (arith, eq_iff l m, eq_iff s.list_id l, p.find_unique_key d m s f)

  -- The table `e` is `d` with the change made to the row `r` of the list `l`, and to no other.
  pub record IsUpdate (d : Db) (l : String) (r : Row) (c : Change) (e : Db) : Type 0 where
    pub keys : Keys e
    pub found : find_unique d l ≡ some r
    pub after :
        (m : String) → find_unique e m ≡ (if str_eq l m then some (change c r) else find_unique d m)

  pub update_id-IsUpdate :
      (d : Db) (l : String) (r : Row) (c : Change)
      → Keys d
      → find_unique d l ≡ some r
      → IsUpdate d l r c (update_id d r.id c)
  update_id-IsUpdate d l r c k e = record {
    keys = p.update_id-Keys d r.id c k;
    found = e;
    after = λ m. find_unique-update_row d l m r c k e;
  }

  pub update_list-IsUpdate :
      (d : Db) (l : String) (r : Row) (c : Change)
      → Keys d
      → find_unique d l ≡ some r
      → IsUpdate d l r c (update_list d l c)
  update_list-IsUpdate d l r c k e = record {
    keys = p.update_list-Keys d l c k;
    found = e;
    after = λ m. find_unique-update_list_row d l m r c e;
  }

  module _ {d e : Db} {l : String} {r : Row} {c : Change} (u : IsUpdate d l r c e) where
    pub update-IsSound : IsSound d → IsValid (as_allocator (change c r)) → IsSound e
    update-IsSound s v = record {
      keys = u.keys;
      rows = λ m q f. valid_row m q (sym (u.after m) ∙ f);
    }
      where
        valid_row :
            (m : String) (q : Row)
            → (if str_eq l m then some (change c r) else find_unique d m) ≡ some q
            → IsValid (as_allocator q)
        valid_row m q f = elim (Bool-cases (str_eq l m)) [
          | inl same ↦ let h : change c r ≡ q = ground arith in rw (← h) v
          | inr other ↦ s.rows m q (rw other at f)
        ]

    pub taken-update :
        (m : String) (i : ℕ)
        → taken e m i ≡ (if str_eq l m then is_set (change c r).bitmap i else taken d m i)
    unfolding taken
    taken-update m i = rw (u.after m) (ground arith)

  -- Deactivating a list changes no bit.
  pub taken-deactivate :
      {d e : Db} {l : String} {r : Row}
      → IsUpdate d l r deactivate e
      → (m : String) (i : ℕ) → taken e m i ≡ taken d m i
  taken-deactivate {l} u m i =
      taken-update u m i ∙ unfold taken in ground (arith, eq_iff l m, u.found)
