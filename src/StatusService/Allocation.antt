-- ===== src/StatusService/Allocation.antt =====
-- What an allocation of the service returns and what it changes.
use ngotag_platform.Common.{
  ℕ, ◌≡◌, ◌≢◌, ◌<◌, ◌∙◌, refl, sym, arith, true, false, Option, some, String, str_eq, eq_iff, ◌==◌,
  ◌||◌, ◌&&◌,
}
use ngotag_platform.StatusList.{ok}
use ngotag_platform.StatusList.Invariant.{IsValid, create-valid}
use ngotag_platform.StatusList.Allocation.{allocate-IsClaim}
use ngotag_platform.StatusService.{Fresh, allocator_of, allocate_in, allocate}
use ngotag_platform.StatusService.Table.{Row, Prisma, store, change}
use ngotag_platform.StatusService.Stored.{
  as_allocator, IsSound, taken, update_id-IsUpdate, update-IsSound, taken-update, taken-found,
}
use ngotag_platform.StatusService.Choice.{IsFresh, IsChoice, choose-IsChoice}

pub allocator_of-valid : (r : Row) → IsValid (as_allocator r) → allocator_of r ≡ as_allocator r
unfolding allocator_of
allocator_of-valid r v = create-valid (as_allocator r) v

module _ (p : Prisma) where
  open p use {Db, find_first, find_unique, update_id}

  -- The effect of an allocation that returns the index `i` of the list `l`.
  pub record IsAllocation (d : Db) (org did : String) (e : Db) (l : String) (i : ℕ) : Type 0 where
    pub sound : IsSound p e
    pub was_free : taken p d l i ≡ false
    pub bits : (m : String) (j : ℕ) → taken p e m j ≡ ((str_eq l m && i == j) || taken p d m j)
    pub row : Row
    pub listed : find_unique e l ≡ some row
    pub in_range : i < row.list_size
    pub owner : row.org_id ≡ org
    pub issuer : row.issuer_did ≡ did
    pub active : row.is_active ≡ true

  module _ (f : Fresh) (org issuer : String) where
    stored-IsAllocation :
        (d e : Db) (r : Row)
        → IsFresh p d f
        → IsChoice p d org issuer e r
        → (g : Db) × (i : ℕ) × (allocate_in p f (ok (e, r)) ≡ ok (g, r.list_id, i))
          × IsAllocation d org issuer g r.list_id i
    unfolding allocate_in
    stored-IsAllocation d e r fresh c =
        let v = c.sound.rows r.list_id r c.found in
        let (i, b, done, claim) = allocate-IsClaim f.draw (as_allocator r) fresh.random v c.room in
        let g = update_id e r.id (store b.bitmap b.allocated_count) in
        let new = store b.bitmap b.allocated_count in
        let u = update_id-IsUpdate p e r.list_id r new c.sound.keys c.found in
        (
          g,
          i,
          rw (allocator_of-valid r v, done) refl,
          record {
            sound = update-IsSound p u c.sound (rw (← claim.same_capacity) claim.valid);
            was_free = sym (c.same_bits r.list_id i) ∙ taken-found p e r i c.found ∙ claim.free.1;
            bits = λ m j.
                taken-update p u m j
                ∙ ground (
                  arith,
                  eq_iff r.list_id m,
                  claim.bits j,
                  c.same_bits m j,
                  taken-found p e r j c.found,
                );
            row = change new r;
            listed = u.after r.list_id ∙ ground (arith, eq_iff r.list_id r.list_id);
            in_range = claim.free.0;
            owner = c.owner;
            issuer = c.issuer;
            active = c.active;
          },
        )

  -- On a table in which every stored list is valid, with draws in range and generated keys that are
  -- not in the table, an allocation for a nonempty organisation and issuer DID succeeds. It returns
  -- a list of that organisation and issuer, active, and an index below its size that was free
  -- before, in whatever list; afterwards exactly that bit is set in addition, in all the lists of
  -- the table, and every stored list is valid again.
  pub allocate-IsAllocation :
      (f : Fresh) (d : Db) (org issuer : String) (size : Option ℕ)
      → IsSound p d
      → IsFresh p d f
      → org ≢ ""
      → issuer ≢ ""
      → (g : Db) × (l : String) × (i : ℕ) × (allocate p f d org issuer size ≡ ok (g, l, i))
        × IsAllocation d org issuer g l i
  unfolding allocate
  allocate-IsAllocation f d org issuer size s fresh named known =
      let (e, r, chosen, c) =
        choose-IsChoice p f org issuer size d (find_first d org issuer) s fresh refl in
      let (g, i, done, a) = stored-IsAllocation f org issuer d e r fresh c in
      let passed : (str_eq org "" || str_eq issuer "") ≡ false =
        ground (arith, eq_iff org "", eq_iff issuer "") in
      (g, r.list_id, i, rw (passed, chosen) done, a)
