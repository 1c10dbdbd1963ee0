-- ===== src/StatusService/History.antt =====
-- Sequences of allocations, one committed transaction after another.
use ngotag_platform.Common.{
  ℕ, ◌≡◌, ◌≢◌, ◌∙◌, refl, sym, ap, arith, true, false, Option, List, [], ◌∷◌, String, eq_iff,
  length,
}
use ngotag_platform.StatusList.{Result, ok, err}
use ngotag_platform.StatusService.{Fresh, allocate}
use ngotag_platform.StatusService.Table.{Prisma}
use ngotag_platform.StatusService.Stored.{IsSound, taken}
use ngotag_platform.StatusService.Choice.{IsFresh}
use ngotag_platform.StatusService.Allocation.{allocate-IsAllocation}

pub record Request : Type 0 where
  pub fresh : Fresh
  pub org : String
  pub issuer : String
  pub size : Option ℕ

-- The pair differs from each of a list.
abbrev IsNew : String × ℕ → List (String × ℕ) → Type 0
IsNew x [] = Unit
IsNew x (y ∷ ys) = (x ≢ y) × IsNew x ys

abbrev pub IsDistinct : List (String × ℕ) → Type 0
IsDistinct [] = Unit
IsDistinct (x ∷ xs) = IsNew x xs × IsDistinct xs

module _ (p : Prisma) where
  open p use {Db}

  then_issue : (Db → List (String × ℕ)) → Result (Db × String × ℕ) → List (String × ℕ)
  then_issue rest (err e) = []
  then_issue rest (ok (d, l, i)) = (l, i) ∷ rest d

  -- The pairs that a sequence of allocations returns, up to the first that fails.
  pub issued : Db → List Request → List (String × ℕ)
  unfolding then_issue
  issued d [] = []
  issued d (r ∷ rs) = then_issue (λ e. issued e rs) (allocate p r.fresh d r.org r.issuer r.size)

  -- Each request names an organisation and an issuer, and its generated values are new to the table
  -- that it meets.
  abbrev pub AreReady : Db → List Request → Type 0
  AreReady d [] = Unit
  AreReady d (r ∷ rs) =
      IsFresh p d r.fresh
      × (r.org ≢ "")
      × (r.issuer ≢ "")
      × ((e : Db) (l : String) (i : ℕ)
          → allocate p r.fresh d r.org r.issuer r.size ≡ ok (e, l, i)
          → AreReady e rs)

  pair-ne :
      (l m : String) (i j : ℕ) (d : Db)
      → taken p d l i ≡ true
      → taken p d m j ≡ false
      → Path (String × ℕ) (l, i) (m, j)
      → ⊥
  pair-ne l m i j d t f e =
      absurd (clash (sym t ∙ ap (λ (x : String × ℕ). taken p d x.0 x.1) e ∙ f))
    where
      clash : true ≡ false → ⊥
      clash h = cc

  -- What is allocated is not handed out again.
  issued-IsNew :
      (d : Db) (rs : List Request) (l : String) (i : ℕ)
      → IsSound p d
      → AreReady d rs
      → taken p d l i ≡ true
      → IsNew (l, i) (issued d rs)
  unfolding issued
  issued-IsNew d [] l i s ready t = tt
  issued-IsNew d (r ∷ rs) l i s ready t =
      let (e, m, j, done, a) =
        allocate-IsAllocation p r.fresh d r.org r.issuer r.size s ready.0 ready.1 ready.2 in
      rw done (
        pair-ne l m i j d t a.was_free,
        issued-IsNew e rs l i a.sound (ready.3 e m j done) (ground (arith, a.bits l i)),
      )

  -- However the requests are ordered and whatever the random draws, a sequence of allocations for
  -- nonempty organisations and issuers, each with new generated keys, over a table of valid lists
  -- serves every request, and no two of the pairs of list and index that it returns are equal.
  pub issued-IsDistinct :
      (d : Db) (rs : List Request)
      → IsSound p d
      → AreReady d rs
      → IsDistinct (issued d rs) × (length (issued d rs) ≡ length rs)
  unfolding issued
  issued-IsDistinct d [] s ready = (tt, refl)
  issued-IsDistinct d (r ∷ rs) s ready =
      let (e, l, i, done, a) =
        allocate-IsAllocation p r.fresh d r.org r.issuer r.size s ready.0 ready.1 ready.2 in
      let later = ready.3 e l i done in
      let (distinct, count) = issued-IsDistinct e rs a.sound later in
      rw done (
        (issued-IsNew e rs l i a.sound later (ground (arith, a.bits l i, eq_iff l l)), distinct),
        omega (arith, count),
      )
