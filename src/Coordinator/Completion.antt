-- ===== src/Coordinator/Completion.antt =====
-- apps/issuance/src/issuance-work.coordinator.ts: the announcement that a batch is complete.
use ngotag_platform.Coordinator.Store.{one, Members}
use ngotag_platform.Coordinator.{Kept, is_gone, week, fresh_set, kept_at, complete_kept, complete}
use ngotag_platform.Common.{
  ℕ, ◌+◌, ◌≡◌, ◌<◌, ◌≤◌, refl, Bool-cases, inl, inr, Bool, true, false, ◌&&◌, Option, none, some,
  List, [], ◌∷◌, String, arith, leb, ltb, if◌then◌else◌,
}

-- Each row ends less than a week after the one before it, the first less than a week after `last`.
unfoldable pub within_weeks : ℕ → List (ℕ × String) → Bool
within_weeks last [] = true
within_weeks last ((now, row) ∷ rows) = ltb now (last + week) && within_weeks now rows

module _ (redis : Members) (lower : String → String) where
  open redis use {S, scard, sadd}

  -- The rows of a batch in the order in which they end, each with its second, repeats included: the set
  -- at the end, and how often the batch was announced as complete.
  unfoldable pub announced : Kept S → List (ℕ × String) → ℕ → Kept S × ℕ
  announced k [] total = (k, 0)
  announced k ((now, row) ∷ rows) total =
      let (t, done) = complete redis lower now k (lower row) total in
      let rest = announced t rows total in (rest.0, one done + rest.1)

  -- A set that expires is one that is complete, and not before a week has passed.
  abbrev is_safe : ℕ → S → Option ℕ → ℕ → Bool
  is_safe last s none total = true
  is_safe last s (some t) total = leb total (scard s) && leb (last + week) t

  not_gone :
      (last now : ℕ) (s : S) (o : Option ℕ) (total : ℕ)
      → is_safe last s o total ≡ true
      → ltb now (last + week) ≡ true
      → is_gone o now ≡ false
  not_gone last now s none total h w = refl
  not_gone last now s (some t) total h w = ground arith

  still_kept :
      (last now : ℕ) (k : Kept S) (total : ℕ)
      → is_safe last k.members k.expires_at total ≡ true
      → ltb now (last + week) ≡ true
      → kept_at redis lower now k ≡ k
  unfolding kept_at
  still_kept last now k total h w = rw (not_gone last now k.members k.expires_at total h w) refl

  safe_after :
      (last now : ℕ) (s t : S) (o : Option ℕ) (total : ℕ)
      → is_safe last s o total ≡ true
      → scard s ≤ scard t
      → is_safe now t (if leb total (scard t) then some (now + week) else o) total ≡ true
  safe_after last now s t none total h m = elim (Bool-cases (leb total (scard t))) [
    | inl e ↦ rw (e) (ground arith)
    | inr e ↦ rw (e) refl
  ]
  safe_after last now s t (some x) total h m = elim (Bool-cases (leb total (scard t))) [
    | inl e ↦ rw (e) (ground arith)
    | inr e ↦ absurd (ground arith)
  ]

  announced_lem :
      (last : ℕ) (k : Kept S) (rows : List (ℕ × String)) (total : ℕ)
      → is_safe last k.members k.expires_at total ≡ true
      → within_weeks last rows ≡ true
      → (announced k rows total).1 + one (leb total (scard k.members))
        ≡ one (leb total (scard (announced k rows total).0.members))
  unfolding announced complete complete_kept within_weeks
  announced_lem last k [] total h w = ground arith
  announced_lem last k ((now, row) ∷ rows) total h w =
      let soon : ltb now (last + week) ≡ true = ground arith in
      let next : within_weeks now rows ≡ true = ground arith in
      let same = still_kept last now k total h soon in
      let more = redis.scard-sadd k.members (lower row) in
      let safe =
        safe_after last now k.members (sadd k.members (lower row)) k.expires_at total h
          (omega arith) in
      let ih =
        announced_lem now (complete_kept redis lower now k (lower row) total).0 rows total safe
          next in
      rw (same) (ground arith)

  -- From a set on that is not there, a batch of at least one row is announced as complete once if as many different rows
  -- ended as its total, and never otherwise, whatever the order and however often a row ends, if each
  -- row ends less than a week after the one before it.
  pub announced_once :
      (start : ℕ) (rows : List (ℕ × String)) (total : ℕ)
      → 0 < total
      → within_weeks start rows ≡ true
      → (announced (fresh_set redis lower) rows total).1
        ≡ one (leb total (scard (announced (fresh_set redis lower) rows total).0.members))
  unfolding fresh_set
  announced_once start rows total pos w =
      let h = announced_lem start (fresh_set redis lower) rows total refl w in
      let none_yet = redis.scard-empty in ground arith
