-- ===== src/StatusService/Tests.antt =====
-- Runs of the service over a table of rows, and the theorems at concrete inputs.
use native.Mathlib.Nat.{mod-lt}
use ngotag_platform.Common.{
  ℕ, ◌+◌, ◌%◌, ◌≡◌, ◌≢◌, refl, true, false, List, [], ◌∷◌, none, some, arith, String, str_eq,
  eq_iff, length, Bool-cases, inl, inr,
}
use ngotag_platform.StatusList
use ngotag_platform.StatusList.{
  ok, count_bytes, find_free, attempt, claim, set_index, has_bit, with_bit, is_set,
}
use ngotag_platform.StatusList.Invariant.{empty-IsValid}
use ngotag_platform.StatusService.{Fresh, allocate, chosen_size, allocator_of}
use ngotag_platform.StatusService.Table.{Row}
use ngotag_platform.StatusService.ListTable.{list_table, find_list, first, insert, has_key}
use ngotag_platform.StatusService.Stored.{IsSound}
use ngotag_platform.StatusService.Choice.{IsFresh}
use ngotag_platform.StatusService.Allocation.{IsAllocation, allocate-IsAllocation}
use ngotag_platform.StatusService.History.{Request, AreReady, IsDistinct, issued, issued-IsDistinct}

abbrev draws : ℕ → ℕ → ℕ
draws i n = (i + 2) % n

abbrev values : String → String → Fresh
values id list = record { draw = draws; id = id; list_id = list }

abbrev no_rows : List Row
no_rows = []

no_rows-IsSound : IsSound list_table no_rows
unfolding find_list
no_rows-IsSound = record { keys = tt; rows = λ l r e. absurd (clash r e) }
  where
    clash : (r : Row) → none ≡ some r → ⊥
    clash r e = cc

no_rows-IsFresh : IsFresh list_table no_rows (values "a1" "l1")
unfolding find_list
no_rows-IsFresh = record {
  random = λ i n pos. mod-lt (i + 2) pos;
  new_list = refl;
  new_id = λ l s e. absurd (clash s e);
}
  where
    clash : (r : Row) → none ≡ some r → ⊥
    clash r e = cc

allocate-IsAllocation_example :
    (g : List Row) × (l : String) × (i : ℕ) × (allocate list_table
        (values "a1" "l1")
        no_rows
        "org"
        "did:web:x"
        (some 16)
      ≡ ok (g, l, i))
    × IsAllocation list_table no_rows "org" "did:web:x" g l i
allocate-IsAllocation_example =
    allocate-IsAllocation list_table (values "a1" "l1") no_rows "org" "did:web:x" (some 16)
      no_rows-IsSound no_rows-IsFresh (λ e. cc) (λ e. cc)

abbrev one_row : Row
one_row = record {
  id = "a1";
  org_id = "org";
  issuer_did = "did:web:x";
  list_id = "l1";
  list_size = 16;
  allocated_count = 0;
  bitmap = 0 ∷ 0 ∷ [];
  is_active = true;
}

one_row-IsSound : IsSound list_table (one_row ∷ [])
unfolding find_list
one_row-IsSound = record {
  keys = (tt, tt);
  rows =
      λ l r e. let h : one_row ≡ r = ground (arith, eq_iff "l1" l) in rw (← h) (empty-IsValid 16);
}

abbrev ask : String → String → Request
ask id list = record { fresh = values id list; org = "org"; issuer = "did:web:x"; size = some 16 }

abbrev two_requests : List Request
two_requests = ask "a1" "l1" ∷ ask "a2" "l2" ∷ []

abbrev after_one : Row
after_one = record one_row { allocated_count = 1; bitmap = 4 ∷ 0 ∷ [] }

first_allocation :
    allocate list_table (values "a1" "l1") no_rows "org" "did:web:x" (some 16)
    ≡ ok (after_one ∷ [], "l1", 2)
unfolding allocate first insert has_key chosen_size allocator_of StatusList.create count_bytes
    StatusList.allocate find_free attempt claim set_index has_bit with_bit is_set
first_allocation = refl

after_one-new_id : (m : String) (s : Row) → find_list (after_one ∷ []) m ≡ some s → s.id ≢ "a2"
unfolding find_list
after_one-new_id m s f = elim (Bool-cases (str_eq "l1" m)) [
  | inl same ↦
      let h : after_one ≡ s = ground (arith, eq_iff "l1" m) in
      rw (← h) (λ g. apart ((eq_iff "a1" "a2").1 g))
  | inr other ↦ absurd (clash s (rw other at f))
]
  where
    clash : (r : Row) → none ≡ some r → ⊥
    clash r e = cc

    apart : false ≡ true → ⊥
    apart h = cc

two_requests-AreReady : AreReady list_table no_rows two_requests
unfolding find_list
two_requests-AreReady = (
  no_rows-IsFresh,
  (λ e. cc),
  (λ e. cc),
  λ e l i done.
      let h : after_one ∷ [] ≡ e = ground (arith, first_allocation) in
      rw (← h) (
        record {
          random = λ i n pos. mod-lt (i + 2) pos;
          new_list = refl;
          new_id = after_one-new_id;
        },
        (λ g. cc),
        (λ g. cc),
        λ g m j k. tt,
      ),
)

issued-IsDistinct_example :
    IsDistinct (issued list_table no_rows two_requests)
    × (length (issued list_table no_rows two_requests) ≡ 2)
issued-IsDistinct_example =
    issued-IsDistinct list_table no_rows two_requests no_rows-IsSound two_requests-AreReady
