-- ===== src/Coordinator/Reservation.antt =====
-- apps/issuance/src/issuance-work.coordinator.ts: the life of one slot.
use ngotag_platform.Coordinator.Store.{Field, capacity, owner, Value, limit, reserved, Hash}
use ngotag_platform.Coordinator.{
  granted, is_late, is_reserved_after, sweep, del_if_bare, reserve, acquire, activate, release,
}
use ngotag_platform.Common.{
  ℕ, ◌+◌, ◌≡◌, none, some, List, [], ◌∷◌, String, eq_iff, arith, ltb, Bool-cases, inl, inr,
}

module _ (redis : Hash) where
  open redis use {H, hget, hgetall, hlen, hset, hdel, del}

  sweep-none :
      (ms : ℕ) (h : H) (es : List (Field × Value)) (f : Field)
      → hget h f ≡ none
      → hget (sweep redis ms h es) f ≡ none
  unfolding sweep
  sweep-none ms h [] f e = e
  sweep-none ms h ((g, v) ∷ es) f e = elim (Bool-cases (is_late ms v)) [
    | inl late ↦
        let same = redis.hget-hdel h g f in rw (late) (sweep-none ms (hdel h g) es f (ground arith))
    | inr early ↦ rw (early) (sweep-none ms h es f e)
  ]

  del_if_bare-none : (h : H) (f : Field) → hget h f ≡ none → hget (del_if_bare redis h) f ≡ none
  unfolding del_if_bare
  del_if_bare-none h f e = let gone = redis.hget-del h f in ground arith

  reserve-granted :
      (h : H) (count : ℕ) (id : String) (until : ℕ)
      → hget h (owner id) ≡ none
      → (reserve redis h count id until).1 ≡ granted
      → hget (reserve redis h count id until).0 (owner id) ≡ some (reserved until)
  unfolding reserve
  reserve-granted h count id until e r =
      let same =
        redis.hget-hset (hset h capacity (limit count)) (owner id) (reserved until) (owner id) in
      let own = eq_iff id id in ground arith

  reserved_activates :
      (h : H) (until ms : ℕ) (id : String)
      → hget h (owner id) ≡ some (reserved until)
      → (activate redis h ms id).1 ≡ ltb ms until
  unfolding activate is_reserved_after
  reserved_activates h until ms id e = ground arith

  released : (h : H) (id : String) → hget (release redis h id) (owner id) ≡ none
  unfolding release
  released h id =
      del_if_bare-none (hdel h (owner id)) (owner id) (
        let gone = redis.hget-hdel h (owner id) (owner id) in
        let own = eq_iff id id in ground arith)

  -- A new owner to whom ACQUIRE grants a slot activates it exactly while its reservation lasts, and
  -- holds no slot after RELEASE.
  slot_cycle :
      (h : H) (ms count : ℕ) (id : String) (reservation later : ℕ)
      → hget h (owner id) ≡ none
      → (acquire redis h ms count id reservation).1 ≡ granted
      → ((activate redis (acquire redis h ms count id reservation).0 later id).1
          ≡ ltb later (ms + reservation))
        × (hget
              (release redis
                (activate redis (acquire redis h ms count id reservation).0 later id).0
                id)
              (owner id)
            ≡ none)
  unfolding acquire
  slot_cycle h ms count id reservation later e r =
      let fresh =
        del_if_bare-none (sweep redis ms h (hgetall h)) (owner id)
          (sweep-none ms h (hgetall h) (owner id) e) in
      (
        reserved_activates (acquire redis h ms count id reservation).0 (ms + reservation) later id (
            reserve-granted (del_if_bare redis (sweep redis ms h (hgetall h))) count id
              (ms + reservation) fresh r),
        released (activate redis (acquire redis h ms count id reservation).0 later id).0 id,
      )
