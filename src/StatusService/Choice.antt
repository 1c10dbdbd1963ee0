-- ===== src/StatusService/Choice.antt =====
-- The list that an allocation works on: active, of the right owner, valid and not full.
use ngotag_platform.Common.{
  ℕ, ◌+◌, ◌/◌, ◌≡◌, ◌≢◌, ◌<◌, ◌∙◌, refl, arith, true, Option, none, some, String, str_eq, eq_iff,
  leb, if◌then◌else◌, Bool-cases, inl, inr,
}
use ngotag_platform.StatusList.{ok}
use ngotag_platform.StatusList.Bitmap.{is_set-replicate}
use ngotag_platform.StatusList.Invariant.{IsValid, empty-IsValid}
use ngotag_platform.StatusList.Scan.{IsRandomInt}
use ngotag_platform.StatusService.{Fresh, chosen_size, new_row, choose}
use ngotag_platform.StatusService.Table.{Row, deactivate, Prisma}
use ngotag_platform.StatusService.Stored.{
  as_allocator, IsSound, taken, update_id-IsUpdate, update-IsSound, taken-deactivate,
  find_unique-update_row,
}

chosen_size-pos : (size : Option ℕ) → 0 < chosen_size size
unfolding chosen_size
chosen_size-pos none = omega arith
chosen_size-pos (some n) = ground arith

new_row-IsValid :
    (f : Fresh) (org issuer : String) (size : Option ℕ)
    → IsValid (as_allocator (new_row f org issuer size))
new_row-IsValid f org issuer size = empty-IsValid (chosen_size size)

module _ (p : Prisma) where
  open p use {Db, find_first, find_unique, update_id, create, Keys}

  -- What the generated values of a call have to satisfy: the draws are in range, and neither the
  -- key nor the list's UUID is in the table.
  pub record IsFresh (d : Db) (f : Fresh) : Type 0 where
    pub random : IsRandomInt f.draw
    pub new_list : find_unique d f.list_id ≡ none
    pub new_id : (l : String) (s : Row) → find_unique d l ≡ some s → s.id ≢ f.id

  -- The chosen list and the table, which differs from `d` in no bit.
  pub record IsChoice (d : Db) (org did : String) (e : Db) (r : Row) : Type 0 where
    pub sound : IsSound p e
    pub found : find_unique e r.list_id ≡ some r
    pub owner : r.org_id ≡ org
    pub issuer : r.issuer_did ≡ did
    pub active : r.is_active ≡ true
    pub room : r.allocated_count < r.list_size
    pub same_bits : (l : String) (i : ℕ) → taken p e l i ≡ taken p d l i

  module _ (f : Fresh) (org issuer : String) (size : Option ℕ) where
    create-IsChoice :
        (d e : Db)
        → IsSound p d
        → find_unique d f.list_id ≡ none
        → create d (new_row f org issuer size) ≡ some e
        → IsChoice d org issuer e (new_row f org issuer size)
    create-IsChoice d e s free c = record {
      sound = record { keys = p.create-Keys d e row s.keys c; rows = λ l q g. valid_row l q g };
      found = after f.list_id ∙ ground (arith, eq_iff f.list_id f.list_id);
      owner = refl;
      issuer = refl;
      active = refl;
      room = chosen_size-pos size;
      same_bits = same;
    }
      where
        row : Row
        row = new_row f org issuer size

        after :
            (l : String)
            → find_unique e l ≡ (if str_eq f.list_id l then some row else find_unique d l)
        after l = p.find_unique-create d e row l c

        valid_row : (l : String) (q : Row) → find_unique e l ≡ some q → IsValid (as_allocator q)
        valid_row l q g = elim (Bool-cases (str_eq f.list_id l)) [
          | inl same ↦
              let h : row ≡ q = ground (arith, after l) in
              rw (← h) (new_row-IsValid f org issuer size)
          | inr other ↦ s.rows l q (ground (arith, after l))
        ]

        same : (l : String) (i : ℕ) → taken p e l i ≡ taken p d l i
        same l i =
            unfold taken in
            rw (after l) (
              ground
                (arith, eq_iff f.list_id l, free, is_set-replicate ((chosen_size size + 7) / 8) i))

    -- After the full list `r` is deactivated the generated values are still new.
    deactivate-new_list :
        (d : Db) (l : String) (r : Row)
        → Keys d
        → find_unique d l ≡ some r
        → find_unique d f.list_id ≡ none
        → find_unique (update_id d r.id deactivate) f.list_id ≡ none
    deactivate-new_list d l r k e free =
        find_unique-update_row p d l f.list_id r deactivate k e
        ∙ ground (arith, eq_iff l f.list_id, e, free)

    deactivate-new_id :
        (d : Db) (l : String) (r : Row)
        → Keys d
        → find_unique d l ≡ some r
        → ((m : String) (s : Row) → find_unique d m ≡ some s → s.id ≢ f.id)
        → (m : String) (s : Row) → find_unique (update_id d r.id deactivate) m ≡ some s
        → s.id ≢ f.id
    deactivate-new_id d l r k e new m s g = elim (Bool-cases (str_eq l m)) [
      | inl same ↦
          let h : r.id ≡ s.id = ground (arith, find_unique-update_row p d l m r deactivate k e) in
          rw (← h) (new l r e)
      | inr other ↦ new m s (ground (arith, find_unique-update_row p d l m r deactivate k e))
    ]

    pub choose-IsChoice :
        (d : Db) (o : Option Row)
        → IsSound p d
        → IsFresh d f
        → find_first d org issuer ≡ o
        → (e : Db) × (r : Row) × (choose p f d org issuer size o ≡ ok (e, r))
          × IsChoice d org issuer e r
    unfolding choose
    choose-IsChoice d none s fresh first =
        let row = new_row f org issuer size in
        let (e, c) = p.create_fresh d row fresh.new_list fresh.new_id s.keys in
        (e, row, rw c refl, create-IsChoice d e s fresh.new_list c)
    choose-IsChoice d (some r) s fresh first =
        elim (Bool-cases (leb r.list_size r.allocated_count)) [
          | inr room ↦
              let (found, owner, issuer, active) = p.find_first_sound d org issuer r s.keys first in
              (
                d,
                r,
                rw room refl,
                record {
                  sound = s;
                  found = found;
                  owner = owner;
                  issuer = issuer;
                  active = active;
                  room = ground arith;
                  same_bits = λ l i. refl;
                },
              )
          | inl full ↦
              let row = new_row f org issuer size in
              let (found, owner, issuer, active) = p.find_first_sound d org issuer r s.keys first in
              let d' = update_id d r.id deactivate in
              let u = update_id-IsUpdate p d r.list_id r deactivate s.keys found in
              let s' = update-IsSound p u s (s.rows r.list_id r found) in
              let free = deactivate-new_list d r.list_id r s.keys found fresh.new_list in
              let new = deactivate-new_id d r.list_id r s.keys found fresh.new_id in
              let (e, c) = p.create_fresh d' row free new s'.keys in
              let choice = create-IsChoice d' e s' free c in
              (
                e,
                row,
                rw (full, c) refl,
                record {
                  sound = choice.sound;
                  found = choice.found;
                  owner = refl;
                  issuer = refl;
                  active = refl;
                  room = choice.room;
                  same_bits = λ l i. choice.same_bits l i ∙ taken-deactivate p u l i;
                },
              )
        ]
