-- ===== src/Coordinator/Slots.antt =====
-- apps/issuance/src/issuance-work.coordinator.ts: how many workers hold a slot at once.
use ngotag_platform.Coordinator.Store.{
  Field, capacity, owner, Value, limit, reserved, active, field_eq, All, Hash,
}
use ngotag_platform.Coordinator.{
  is_late, is_unlike, sweep, del_if_bare, reserve, acquire, activate, is_reserved_after, release,
  Call, acquires, activates, releases, run_call, run_calls,
}
use ngotag_platform.Common.{
  ℕ, ◌+◌, ◌≡◌, ◌≤◌, ◌<◌, ◌⊎◌, inl, inr, refl, ◌∙◌, true, false, ◌&&◌, Option, none, some, List, [],
  ◌∷◌, String, str_eq, arith, leb, ◌==◌, length, Bool-cases, is_some,
}

-- A worker's limit is a positive integer, as `positiveIntegerSetting` checks.
abbrev IsPositive : Call → Type 0
IsPositive (acquires ms count id reservation) = 0 < count
IsPositive _ = Unit

abbrev IsAbsent : String → List String → Type 0
IsAbsent id ids = All (λ x. str_eq id x ≡ false) ids

abbrev pub IsDistinct : List String → Type 0
IsDistinct [] = Unit
IsDistinct (x ∷ xs) = IsAbsent x xs × IsDistinct xs

module _ (redis : Hash) where
  open redis use {H, hget, hgetall, hlen, hset, hdel, del}

  -- The hash is empty, or its field `capacity` bounds its other fields.
  abbrev IsLimited : H → Type 0
  IsLimited h = (hlen h ≡ 0) ⊎ ((c : ℕ) × (hget h capacity ≡ some (limit c)) × (hlen h ≤ c + 1))

  sweep-limit :
      (ms : ℕ) (h : H) (es : List (Field × Value)) (c : ℕ)
      → All (λ e. (field_eq e.0 capacity && is_late ms e.1) ≡ false) es
      → hget h capacity ≡ some (limit c)
      → hget (sweep redis ms h es) capacity ≡ some (limit c)
  unfolding sweep
  sweep-limit ms h [] c ok e = e
  sweep-limit ms h ((f, v) ∷ es) c ok e = elim (Bool-cases (is_late ms v)) [
    | inl late ↦
        let same = redis.hget-hdel h f capacity in
        rw (late) (sweep-limit ms (hdel h f) es c ok.1 (let o = ok.0 in ground arith))
    | inr early ↦ rw (early) (sweep-limit ms h es c ok.1 e)
  ]

  sweep-hlen : (ms : ℕ) (h : H) (es : List (Field × Value)) → hlen (sweep redis ms h es) ≤ hlen h
  unfolding sweep
  sweep-hlen ms h [] = omega arith
  sweep-hlen ms h ((f, v) ∷ es) = elim (Bool-cases (is_late ms v)) [
    | inl late ↦
        let less = redis.hlen-hdel h f in
        let ih = sweep-hlen ms (hdel h f) es in rw (late) (omega arith)
    | inr early ↦ rw (early) (sweep-hlen ms h es)
  ]

  entry_kept :
      (ms : ℕ) (h : H) (c : ℕ) (f : Field) (v : Value)
      → hget h capacity ≡ some (limit c)
      → hget h f ≡ some v
      → (field_eq f capacity && is_late ms v) ≡ false
  entry_kept ms h c capacity (limit n) e g = refl
  entry_kept ms h c capacity (reserved n) e g = cc
  entry_kept ms h c capacity (active n) e g = refl
  entry_kept ms h c (owner x) v e g = refl

  entries_kept :
      (ms : ℕ) (h : H) (c : ℕ) (es : List (Field × Value))
      → hget h capacity ≡ some (limit c)
      → All (λ e. hget h e.0 ≡ some e.1) es
      → All (λ e. (field_eq e.0 capacity && is_late ms e.1) ≡ false) es
  entries_kept ms h c [] e all = tt
  entries_kept ms h c ((f, v) ∷ es) e all =
      (entry_kept ms h c f v e all.0, entries_kept ms h c es e all.1)

  sweep-IsLimited : (ms : ℕ) (h : H) → IsLimited h → IsLimited (sweep redis ms h (hgetall h))
  sweep-IsLimited ms h (inl e) = let less = sweep-hlen ms h (hgetall h) in inl (omega arith)
  sweep-IsLimited ms h (inr (c, e, le)) =
      let less = sweep-hlen ms h (hgetall h) in
      inr (
        c,
        sweep-limit ms h (hgetall h) c (entries_kept ms h c (hgetall h) e (redis.hget-hgetall h)) e,
        omega arith,
      )

  del_if_bare-IsLimited : (h : H) → IsLimited h → IsLimited (del_if_bare redis h)
  unfolding del_if_bare
  del_if_bare-IsLimited h l = elim (Bool-cases (hlen h == 1)) [
    | inl e ↦ rw (e) (inl (redis.hlen-del h))
    | inr e ↦ rw (e) l
  ]

  hdel-IsLimited : (h : H) (id : String) → IsLimited h → IsLimited (hdel h (owner id))
  hdel-IsLimited h id (inl e) = let less = redis.hlen-hdel h (owner id) in inl (omega arith)
  hdel-IsLimited h id (inr (c, e, le)) =
      let less = redis.hlen-hdel h (owner id) in
      inr (c, (redis.hget-hdel h (owner id) capacity) ∙ e, omega arith)

  grown :
      (h : H) (count : ℕ) (id : String) (until : ℕ)
      → 0 < count
      → IsLimited h
      → is_unlike count (hget h capacity) ≡ false
      → leb (count + 1) (hlen h) ≡ false
      → hlen (hset (hset h capacity (limit count)) (owner id) (reserved until)) ≤ count + 1
  grown h count id until pos (inl e) like room =
      let a = redis.hlen-hset h capacity (limit count) in
      let b = redis.hlen-hset (hset h capacity (limit count)) (owner id) (reserved until) in
      ground arith
  grown h count id until pos (inr (c, e, le)) like room =
      let a = redis.hlen-hset h capacity (limit count) in
      let b = redis.hlen-hset (hset h capacity (limit count)) (owner id) (reserved until) in
      ground arith

  reserve-IsLimited :
      (h : H) (count : ℕ) (id : String) (until : ℕ)
      → 0 < count
      → IsLimited h
      → IsLimited (reserve redis h count id until).0
  unfolding reserve
  reserve-IsLimited h count id until pos l = elim (Bool-cases (is_unlike count (hget h capacity))) [
    | inl unlike ↦ rw (unlike) l
    | inr like ↦ elim (Bool-cases (is_some (hget h (owner id)))) [
      | inl held ↦ rw (like, held) l
      | inr free ↦ elim (Bool-cases (leb (count + 1) (hlen h))) [
        | inl full ↦ rw (like, free, full) l
        | inr room ↦
            rw (like, free, room)
              (inr (
                count,
                (redis.hget-hset (hset h capacity (limit count)) (owner id) (reserved until)
                      capacity)
                    ∙ redis.hget-hset h capacity (limit count) capacity,
                grown h count id until pos l like room,
              ))
      ]
    ]
  ]

  held_if_reserved :
      (ms : ℕ) (o : Option Value) → is_reserved_after redis ms o ≡ true → is_some o ≡ true
  unfolding is_reserved_after
  held_if_reserved ms none e = e
  held_if_reserved ms (some v) e = refl

  hset-IsLimited :
      (h : H) (id : String) (v : Value)
      → is_some (hget h (owner id)) ≡ true
      → IsLimited h
      → IsLimited (hset h (owner id) v)
  hset-IsLimited h id v held (inl e) =
      let more = redis.hlen-hset h (owner id) v in inl (ground arith)
  hset-IsLimited h id v held (inr (c, e, le)) =
      let more = redis.hlen-hset h (owner id) v in
      inr (c, redis.hget-hset h (owner id) v capacity ∙ e, ground arith)

  activate-IsLimited :
      (h : H) (ms : ℕ) (id : String) → IsLimited h → IsLimited (activate redis h ms id).0
  unfolding activate
  activate-IsLimited h ms id l =
      elim (Bool-cases (is_reserved_after redis ms (hget h (owner id)))) [
        | inl e ↦
            rw (e) (hset-IsLimited h id (active ms) (held_if_reserved ms (hget h (owner id)) e) l)
        | inr e ↦ rw (e) l
      ]

  run_call-IsLimited :
      (h : H) (c : Call) → IsPositive c → IsLimited h → IsLimited (run_call redis h c)
  unfolding run_call acquire release
  run_call-IsLimited h (acquires ms count id reservation) pos l =
      reserve-IsLimited (del_if_bare redis (sweep redis ms h (hgetall h))) count id
        (ms + reservation) pos
        (del_if_bare-IsLimited (sweep redis ms h (hgetall h)) (sweep-IsLimited ms h l))
  run_call-IsLimited h (activates ms id) pos l = activate-IsLimited h ms id l
  run_call-IsLimited h (releases id) pos l =
      del_if_bare-IsLimited (hdel h (owner id)) (hdel-IsLimited h id l)

  run_calls-IsLimited :
      (h : H) (cs : List Call) → All IsPositive cs → IsLimited h → IsLimited (run_calls redis h cs)
  unfolding run_calls
  run_calls-IsLimited h [] pos l = l
  run_calls-IsLimited h (c ∷ cs) pos l =
      run_calls-IsLimited (run_call redis h c) cs pos.1 (run_call-IsLimited h c pos.0 l)

  -- The owners hold slots: each is a field of the hash.
  abbrev pub Hold : H → List String → Type 0
  Hold h ids = All (λ id. is_some (hget h (owner id)) ≡ true) ids

  without :
      (h : H) (id : String) (ids : List String)
      → Hold h ids
      → IsAbsent id ids
      → Hold (hdel h (owner id)) ids
  without h id [] held absent = tt
  without h id (x ∷ xs) held absent =
      let other = redis.hget-hdel h (owner id) (owner x) in
      (ground arith, without h id xs held.1 absent.1)

  holders_counted :
      (h : H) (ids : List String)
      → IsDistinct ids
      → Hold h ids
      → (c : ℕ) → hget h capacity ≡ some (limit c)
      → length ids + 1 ≤ hlen h
  holders_counted h [] d held c e = let less = redis.hlen-hdel h capacity in ground arith
  holders_counted h (x ∷ xs) d held c e =
      let less = redis.hlen-hdel h (owner x) in
      let ih =
        holders_counted (hdel h (owner x)) xs d.1 (without h x xs held.1 d.0) c
          ((redis.hget-hdel h (owner x) capacity) ∙ e) in
      let here = held.0 in ground arith

  at_most_limit :
      (h : H) (ids : List String)
      → IsLimited h
      → IsDistinct ids
      → Hold h ids
      → (ids ≡ []) ⊎ ((c : ℕ) × (hget h capacity ≡ some (limit c)) × (length ids ≤ c))
  at_most_limit h [] l d held = inl refl
  at_most_limit h (x ∷ xs) (inl e) d held =
      let less = redis.hlen-hdel h (owner x) in let here = held.0 in absurd (ground arith)
  at_most_limit h (x ∷ xs) (inr (c, e, le)) d held =
      let counted = holders_counted h (x ∷ xs) d held c e in inr (c, e, omega arith)

  -- After any sequence of calls of the workers, from an empty hash on, with any times and with
  -- positive limits that may differ: where different owners hold slots, reserved or active, the field
  -- `capacity` is a limit that they do not exceed.
  pub slots_bounded :
      (start : H) (calls : List Call) (ids : List String)
      → hlen start ≡ 0
      → All IsPositive calls
      → IsDistinct ids
      → Hold (run_calls redis start calls) ids
      → (ids ≡ [])
        ⊎ ((c : ℕ) × (hget (run_calls redis start calls) capacity ≡ some (limit c))
            × (length ids ≤ c))
  slots_bounded start calls ids empty pos d held =
      at_most_limit (run_calls redis start calls) ids
        (run_calls-IsLimited start calls pos (inl empty)) d held
