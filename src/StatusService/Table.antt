-- ===== src/StatusService/Table.antt =====
-- The table `status_list_allocation` (libs/prisma-service/prisma/schema.prisma) and what the
-- service relies on of Prisma's calls inside one transaction.
use mathlib.Core.Option
use ngotag_platform.Common.{
  ℕ, ◌≡◌, ◌≢◌, Bool, true, false, List, Option, none, some, String, str_eq, if◌then◌else◌,
}

pub record Row : Type 0 where
  pub id : String
  pub org_id : String
  pub issuer_did : String
  pub list_id : String
  pub list_size : ℕ
  pub allocated_count : ℕ
  pub bitmap : List ℕ
  pub is_active : Bool

-- The `data` of the two kinds of update.
pub data Change : Type 0 where
  deactivate : Change
  store : List ℕ → ℕ → Change

abbrev pub change : Change → Row → Row
change deactivate r = record r { is_active = false }
change (store bitmap count) r = record r { bitmap = bitmap; allocated_count = count }

abbrev pub change_if : Bool → Change → Row → Row
change_if b c r = if b then change c r else r

-- `Keys db` says that the unique columns `id` and `listId` are unique in the table. `create`
-- fails on a key that is taken.
pub record Prisma : Type 1 where
  pub Db : Type 0
  pub find_first : Db → String → String → Option Row
  pub find_unique : Db → String → Option Row
  pub update_id : Db → String → Change → Db
  pub update_list : Db → String → Change → Db
  pub create : Db → Row → Option Db
  pub Keys : Db → Type 0
  pub find_unique_key : (d : Db) (l : String) (r : Row) → find_unique d l ≡ some r → r.list_id ≡ l
  pub find_first_sound :
      (d : Db) (o s : String) (r : Row)
      → Keys d
      → find_first d o s ≡ some r
      → (find_unique d r.list_id ≡ some r)
        × (r.org_id ≡ o)
        × (r.issuer_did ≡ s)
        × (r.is_active ≡ true)
  pub find_first_complete :
      (d : Db) (o s l : String) (r : Row)
      → find_first d o s ≡ none
      → find_unique d l ≡ some r
      → r.org_id ≡ o
      → r.issuer_did ≡ s
      → r.is_active ≡ false
  pub ids_unique :
      (d : Db) (l m : String) (r s : Row)
      → Keys d
      → find_unique d l ≡ some r
      → find_unique d m ≡ some s
      → r.id ≡ s.id
      → l ≡ m
  pub find_unique-update_id :
      (d : Db) (i l : String) (c : Change)
      → find_unique (update_id d i c) l
        ≡ Option.map (λ r. change_if (str_eq r.id i) c r) (find_unique d l)
  pub find_unique-update_list :
      (d : Db) (m l : String) (c : Change)
      → find_unique (update_list d m c) l
        ≡ Option.map (λ r. change_if (str_eq r.list_id m) c r) (find_unique d l)
  pub find_unique-create :
      (d e : Db) (r : Row) (l : String)
      → create d r ≡ some e
      → find_unique e l ≡ (if str_eq r.list_id l then some r else find_unique d l)
  pub create_fresh :
      (d : Db) (r : Row)
      → find_unique d r.list_id ≡ none
      → ((l : String) (s : Row) → find_unique d l ≡ some s → s.id ≢ r.id)
      → Keys d
      → (e : Db) × (create d r ≡ some e)
  pub update_id-Keys : (d : Db) (i : String) (c : Change) → Keys d → Keys (update_id d i c)
  pub update_list-Keys : (d : Db) (m : String) (c : Change) → Keys d → Keys (update_list d m c)
  pub create-Keys : (d e : Db) (r : Row) → Keys d → create d r ≡ some e → Keys e
