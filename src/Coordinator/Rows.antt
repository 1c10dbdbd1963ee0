-- ===== src/Coordinator/Rows.antt =====
-- apps/issuance/src/issuance-work.coordinator.ts: the guard against issuing a row twice.
use ngotag_platform.Coordinator.Store.{Locks}
use ngotag_platform.Coordinator.{
  Ending, Attempt, succeeded, release_row, guarded_row, guarded_rows, any_held, conflict_loop,
  has_conflict,
}
use ngotag_platform.Common.{
  ℕ, suc, zero, ◌≡◌, ◌≤◌, refl, sym, ap, ◌∙◌, Bool, true, false, not, ◌&&◌, ◌||◌, Option, none,
  some, List, [], ◌∷◌, ◌++◌, String, str_eq, eq_iff, arith, ◌==◌, length, take, drop, length-drop,
  take-append-drop, is_some,
}

length_cons : (n : ℕ) → (suc n == 0) ≡ false
length_cons n = ground arith

module _ (redis : Locks) where
  open redis use {L, get, set_nx, del}

  guarded_row-held :
      (l : L) (a : Attempt) (key id : String)
      → get l key ≡ some id
      → get (guarded_row redis l a).0 key ≡ some id
  unfolding guarded_row release_row
  guarded_row-held l a key id e =
      let done = redis.set_nx-done l a.key a.id in
      let here = redis.get-set_nx l a.key a.id key in
      let gone = redis.get-del (set_nx l a.key a.id).0 a.key key in
      let same = eq_iff a.key key in ground arith

  -- None of the answers for the key is an operation's.
  abbrev pub never_ran : String → List (String × Option Ending) → Bool
  never_ran key [] = true
  never_ran key ((k, o) ∷ rest) = (not (str_eq k key) || not (is_some o)) && never_ran key rest

  refused_row :
      (l : L) (a : Attempt) (key id : String)
      → get l key ≡ some id
      → (not (str_eq a.key key) || not (is_some (guarded_row redis l a).1)) ≡ true
  unfolding guarded_row
  refused_row l a key id e =
      let done = redis.set_nx-done l a.key a.id in let same = eq_iff a.key key in ground arith

  refused_rows :
      (l : L) (more : List Attempt) (key id : String)
      → get l key ≡ some id
      → (never_ran key (guarded_rows redis l more).1 ≡ true)
        × (get (guarded_rows redis l more).0 key ≡ some id)
  unfolding guarded_rows
  refused_rows l [] key id e = (refl, e)
  refused_rows l (a ∷ more) key id e =
      let ih = refused_rows (guarded_row redis l a).0 more key id (guarded_row-held l a key id e) in
      let here = refused_row l a key id e in (rw (here, ih.0) refl, ih.1)

  any_held-append :
      (l : L) (xs ys : List String)
      → any_held redis l (xs ++ ys) ≡ (any_held redis l xs || any_held redis l ys)
  unfolding any_held
  any_held-append l [] ys = refl
  any_held-append l (x ∷ xs) ys = let ih = any_held-append l xs ys in ground arith

  any_held-split :
      (n : ℕ) (l : L) (keys : List String)
      → (any_held redis l (take n keys) || any_held redis l (drop n keys)) ≡ any_held redis l keys
  any_held-split n l keys =
      sym (any_held-append l (take n keys) (drop n keys))
      ∙ ap (λ ks. any_held redis l ks) (take-append-drop n keys)

  conflict_loop_lem :
      (rounds : ℕ) (l : L) (keys : List String)
      → length keys ≤ rounds
      → conflict_loop redis rounds l keys ≡ any_held redis l keys
  unfolding conflict_loop any_held
  conflict_loop_lem zero l [] le = refl
  conflict_loop_lem zero l (k ∷ keys) le = absurd (omega arith)
  conflict_loop_lem (suc rounds) l [] le = refl
  conflict_loop_lem (suc rounds) l (k ∷ keys) le =
      let shorter = length-drop 2000 (k ∷ keys) in
      let ih = conflict_loop_lem rounds l (drop 2000 (k ∷ keys)) (omega arith) in
      let split = any_held-split 2000 l (k ∷ keys) in
      let nonempty = length_cons (length keys) in rw (nonempty, ih) split

  uncertain :
      (l : L) (a : Attempt)
      → get l a.key ≡ none
      → a.dispatched ≡ true
      → succeeded a.ending ≡ false
      → get (guarded_row redis l a).0 a.key ≡ some a.id
  unfolding guarded_row
  uncertain l a e d f =
      let done = redis.set_nx-done l a.key a.id in
      let here = redis.get-set_nx l a.key a.id a.key in
      let same = eq_iff a.key a.key in ground arith

  -- Where a row's operation dispatched an offer and did not succeed, no later attempt runs an operation
  -- for that row, whatever other attempts are made, and a retry of rows that include it is refused.
  pub uncertain_row_stays :
      (l : L) (a : Attempt) (later : List Attempt) (before after : List String)
      → get l a.key ≡ none
      → a.dispatched ≡ true
      → succeeded a.ending ≡ false
      → (never_ran a.key (guarded_rows redis (guarded_row redis l a).0 later).1 ≡ true)
        × (has_conflict redis
              (guarded_rows redis (guarded_row redis l a).0 later).0
              (before ++ a.key ∷ after)
            ≡ true)
  unfolding has_conflict any_held
  uncertain_row_stays l a later before after e d f =
      let (never, held) =
        refused_rows (guarded_row redis l a).0 later a.key a.id (uncertain l a e d f) in
      let end = (guarded_rows redis (guarded_row redis l a).0 later).0 in
      let keys = before ++ a.key ∷ after in
      let loop = conflict_loop_lem (length keys) end keys (omega arith) in
      let both = any_held-append end before (a.key ∷ after) in (never, ground arith)

  -- Any other attempt at a free row leaves the row free, and no attempt changes another row.
  settled_row_freed :
      (l : L) (a : Attempt) (other : String)
      → get l a.key ≡ none
      → (not a.dispatched || succeeded a.ending) ≡ true
      → str_eq a.key other ≡ false
      → (get (guarded_row redis l a).0 a.key ≡ none)
        × (get (guarded_row redis l a).0 other ≡ get l other)
        × ((guarded_row redis l a).1 ≡ some a.ending)
  unfolding guarded_row release_row
  settled_row_freed l a other e s ne =
      let done = redis.set_nx-done l a.key a.id in
      let here = redis.get-set_nx l a.key a.id a.key in
      let there = redis.get-set_nx l a.key a.id other in
      let gone = redis.get-del (set_nx l a.key a.id).0 a.key a.key in
      let kept = redis.get-del (set_nx l a.key a.id).0 a.key other in
      let same = eq_iff a.key a.key in
      let own = eq_iff a.id a.id in (ground arith, ground arith, ground arith)

  -- The check in rounds of 2000 keys refuses a retry exactly where one of the rows is held.
  has_conflict_lem :
      (l : L) (keys : List String) → has_conflict redis l keys ≡ any_held redis l keys
  unfolding has_conflict
  has_conflict_lem l keys = conflict_loop_lem (length keys) l keys (omega arith)
