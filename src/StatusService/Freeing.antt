-- ===== src/StatusService/Freeing.antt =====
-- What a release of the service does.
use ngotag_platform.Common.{
  ℕ, ◌≡◌, ◌<◌, ◌≤◌, ◌∙◌, refl, arith, true, not, ◌&&◌, ◌==◌, String, eq_iff, str_eq, none, some,
}
use ngotag_platform.StatusList
use ngotag_platform.StatusList.{Result, ok, err, invalid_index, is_set}
use ngotag_platform.StatusList.Release.{release-IsRelease, release-create_out_of_range}
use ngotag_platform.StatusService.{release, allocator_of}
use ngotag_platform.StatusService.Table.{Prisma, Row, store}
use ngotag_platform.StatusService.Stored.{
  IsSound, taken, as_allocator, update_list-IsUpdate, update-IsSound, taken-update,
}
use ngotag_platform.StatusService.Allocation.{allocator_of-valid}

module _ (p : Prisma) where
  open p use {Db, find_unique, update_list}

  -- On a table of valid lists, releasing an index below the size of a list that exists succeeds:
  -- exactly that bit becomes clear, in all the lists of the table, which stay valid.
  release_found :
      (d : Db) (l : String) (i : ℕ) (r : Row)
      → IsSound p d
      → find_unique d l ≡ some r
      → i < r.list_size
      → (e : Db) × (release p d l i ≡ ok e)
        × IsSound p e
        × ((m : String) (j : ℕ) → taken p e m j ≡ (not (str_eq l m && i == j) && taken p d m j))
  unfolding release
  release_found d l i r s e lt =
      let v = s.rows l r e in
      let (a, done, freed) = release-IsRelease (as_allocator r) i v lt in
      let new = store a.bitmap a.allocated_count in
      let u = update_list-IsUpdate p d l r new s.keys e in
      let whole : (m : String) → str_eq l m ≡ true → find_unique d m ≡ some r =
        λ m same. let h : l ≡ m = (eq_iff l m).0 same in rw (← h) e in
      (
        update_list d l new,
        rw (e, allocator_of-valid r v, done) refl,
        update-IsSound p u s (rw (← freed.same_capacity) freed.valid),
        λ m j. taken-update p u m j ∙ unfold taken in ground (arith, freed.bits j, whole m),
      )

  -- Releasing an index of a list that does not exist changes nothing, and one that is not below
  -- the size of its list is an error.
  release_refused :
      (d : Db) (l : String) (i : ℕ)
      → (find_unique d l ≡ none → release p d l i ≡ ok d)
        × ((r : Row)
            → find_unique d l ≡ some r
            → r.list_size ≤ i
            → release p d l i ≡ err invalid_index)
  unfolding release
  release_refused d l i = (λ e. rw e refl, λ r e out. rw (e, refuse r out) refl)
    where
      refuse :
          (r : Row) → r.list_size ≤ i → StatusList.release (allocator_of r) i ≡ err invalid_index
      refuse r out = unfold allocator_of in release-create_out_of_range r.list_size i r.bitmap out
