-- ===== src/StatusService.antt =====
-- apps/oid4vc-issuance/src/status-list-allocator.service.ts, `StatusListAllocatorService`: the
-- allocation and the release of a status list index inside a database transaction. An error thrown
-- inside the transaction rolls it back, so a failed call returns no table.
pub mod Table
pub mod Stored
pub mod Choice
pub mod Allocation
pub mod History
pub mod Freeing
mod Tests
pub mod ListTable
use ngotag_platform.Common.{
  ℕ, ◌+◌, ◌/◌, Bool, true, ◌||◌, Option, none, some, String, str_eq, leb, ◌==◌, if◌then◌else◌,
  replicate,
}
use ngotag_platform.StatusList
use ngotag_platform.StatusList.{
  Allocator, Error, Result, ok, err, no_indexes_left, ids_required, retry_list_full, create_failed,
}
use Table.{Row, deactivate, store, Prisma}

-- CommonConstants.DEFAULT_STATUS_LIST_SIZE
abbrev default_list_size : ℕ
default_list_size = 131072

-- `listSize || defaultListSize`
pub chosen_size : Option ℕ → ℕ
chosen_size none = default_list_size
chosen_size (some n) = if n == 0 then default_list_size else n

-- What the runtime gives a call: the draws of `randomInt`, the generated primary key, `randomUUID`.
pub record Fresh : Type 0 where
  pub draw : ℕ → ℕ → ℕ
  pub id : String
  pub list_id : String

abbrev pub new_row : Fresh → String → String → Option ℕ → Row
new_row f org issuer size = record {
  id = f.id;
  org_id = org;
  issuer_did = issuer;
  list_id = f.list_id;
  list_size = chosen_size size;
  allocated_count = 0;
  bitmap = replicate ((chosen_size size + 7) / 8) 0;
  is_active = true;
}

pub allocator_of : Row → Allocator
allocator_of r = StatusList.create r.list_size (some r.bitmap)

module _ (p : Prisma) where
  open p use {Db, find_first, find_unique, update_id, update_list, create}

  created : Row → Option Db → Result (Db × Row)
  created r none = err create_failed
  created r (some d) = ok (d, r)

  -- The list to allocate from: the active one, or a new one when there is none or it is full.
  pub choose : Fresh → Db → String → String → Option ℕ → Option Row → Result (Db × Row)
  unfolding created
  choose f d org issuer size none =
      created (new_row f org issuer size) (create d (new_row f org issuer size))
  choose f d org issuer size (some r) =
      if leb r.list_size r.allocated_count
      then created (new_row f org issuer size)
          (create (update_id d r.id deactivate) (new_row f org issuer size))
      else ok (d, r)

  pub stored : Db → Row → Result (ℕ × Allocator) → Result (Db × String × ℕ)
  stored d r (ok (index, a)) =
      ok (update_id d r.id (store a.bitmap a.allocated_count), r.list_id, index)
  stored d r (err no_indexes_left) = err retry_list_full
  stored d r (err e) = err e

  pub allocate_in : Fresh → Result (Db × Row) → Result (Db × String × ℕ)
  unfolding stored
  allocate_in f (err e) = err e
  allocate_in f (ok (d, r)) = stored d r (StatusList.allocate f.draw (allocator_of r))

  pub allocate : Fresh → Db → String → String → Option ℕ → Result (Db × String × ℕ)
  unfolding choose allocate_in
  allocate f d org issuer size =
      if str_eq org "" || str_eq issuer ""
      then err ids_required
      else allocate_in f (choose f d org issuer size (find_first d org issuer))

  release_row : Db → String → Option (Result Allocator) → Result Db
  release_row d list none = ok d
  release_row d list (some (err e)) = err e
  release_row d list (some (ok a)) = ok (update_list d list (store a.bitmap a.allocated_count))

  released : ℕ → Option Row → Option (Result Allocator)
  released index none = none
  released index (some r) = some (StatusList.release (allocator_of r) index)

  pub release : Db → String → ℕ → Result Db
  unfolding release_row released
  release d list index = release_row d list (released index (find_unique d list))
