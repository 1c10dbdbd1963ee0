-- ===== src/Coordinator.antt =====
-- apps/issuance/src/issuance-work.coordinator.ts: the limit on concurrent offers that all worker
-- processes share, the guard of a row of a bulk file, and the completion of a batch. Each script
-- runs as one step of Redis. With it `issuanceDeadline` of libs/context/src/issuanceDeadline.ts.
pub mod Store
pub mod Slots
pub mod Reservation
pub mod Permit
pub mod Completion
pub mod Rows
pub mod Deadline
pub mod MapHash
mod Tests
use Store.{Field, capacity, owner, Value, limit, reserved, active, Hash, Members, Locks}
use ngotag_platform.Common.{
  ℕ, suc, zero, ◌+◌, ◌≡◌, Bool, true, false, not, ◌&&◌, ◌||◌, Option, none, some, List, [], ◌∷◌,
  String, leb, ltb, ◌==◌, if◌then◌else◌, length, take, drop, str_eq, is_some,
}

pub data Reply : Type 0 where
  inconsistent occupied granted : Reply

abbrev pub is_late : ℕ → Value → Bool
is_late ms (reserved until) = leb until ms
is_late ms _ = false

abbrev pub is_unlike : ℕ → Option Value → Bool
is_unlike n (some (limit c)) = not (c == n)
is_unlike n _ = false

-- A call of a worker process, which Redis runs as one step.
pub data Call : Type 0 where
  acquires : ℕ → ℕ → String → ℕ → Call
  activates : ℕ → String → Call
  releases : String → Call

module _ (redis : Hash) where
  open redis use {H, hget, hgetall, hlen, hset, hdel, del}

  -- The loop of ACQUIRE over the entries.
  pub sweep : ℕ → H → List (Field × Value) → H
  sweep ms h [] = h
  sweep ms h ((f, v) ∷ es) = sweep ms (if is_late ms v then hdel h f else h) es

  pub del_if_bare : H → H
  del_if_bare h = if hlen h == 1 then del h else h

  pub reserve : H → ℕ → String → ℕ → H × Reply
  reserve h count id until =
      if is_unlike count (hget h capacity)
      then (h, inconsistent)
      else if is_some (hget h (owner id))
      then (h, granted)
      else if leb (count + 1) (hlen h)
      then (h, occupied)
      else (hset (hset h capacity (limit count)) (owner id) (reserved until), granted)

  -- ACQUIRE, at the time `ms` of the server.
  pub acquire : H → ℕ → ℕ → String → ℕ → H × Reply
  acquire h ms count id reservation =
      reserve (del_if_bare (sweep ms h (hgetall h))) count id (ms + reservation)

  pub is_reserved_after : ℕ → Option Value → Bool
  is_reserved_after ms (some (reserved until)) = ltb ms until
  is_reserved_after ms _ = false

  -- ACTIVATE
  pub activate : H → ℕ → String → H × Bool
  unfolding is_reserved_after
  activate h ms id =
      if is_reserved_after ms (hget h (owner id))
      then (hset h (owner id) (active ms), true)
      else (h, false)

  -- RELEASE
  pub release : H → String → H
  release h id = del_if_bare (hdel h (owner id))

  pub run_call : H → Call → H
  run_call h (acquires ms count id reservation) = (acquire h ms count id reservation).0
  run_call h (activates ms id) = (activate h ms id).0
  run_call h (releases id) = release h id

  pub run_calls : H → List Call → H
  run_calls h [] = h
  run_calls h (c ∷ cs) = run_calls (run_call h c) cs

-- The set of a batch's rows, and the second in which its key expires, if one was set. A key that has
-- expired is gone; a write to the set keeps the expiry of its key.
pub record Kept (S : Type 0) : Type 0 where
  pub members : S
  pub expires_at : Option ℕ

abbrev pub is_gone : Option ℕ → ℕ → Bool
is_gone none now = false
is_gone (some t) now = leb t now

abbrev pub week : ℕ
week = 604800

-- `lower` is `trim().toLowerCase()`.
module _ (redis : Members) (lower : String → String) where
  open redis use {S, empty, sismember, scard, sadd}

  pub fresh_set : Kept S
  fresh_set = record { members = empty; expires_at = none }

  pub kept_at : ℕ → Kept S → Kept S
  kept_at now k = if is_gone k.expires_at now then fresh_set else k

  -- COMPLETE on the set that is there.
  pub complete_kept : ℕ → Kept S → String → ℕ → Kept S × Bool
  complete_kept now k row total =
      let t = sadd k.members row in
      (
        record {
          members = t;
          expires_at = if leb total (scard t) then some (now + week) else k.expires_at;
        },
        not (sismember k.members row) && scard t == total,
      )

  pub complete : ℕ → Kept S → String → ℕ → Kept S × Bool
  complete now k row total = complete_kept now (kept_at now k) row total

  -- `completedRow` on the set of its batch; none where it throws.
  completed_row : ℕ → Kept S → String → String → ℕ → Option (Kept S × Bool)
  completed_row now k batch row total =
      if str_eq batch "" || str_eq row "" || total == 0
      then none
      else some (complete now k (lower row) total)

-- What a row's operation did: whether it dispatched an offer, and how it ended.
pub data Ending : Type 0 where
  returned : Bool → Ending
  threw : Ending

pub record Attempt : Type 0 where
  pub key : String
  pub id : String
  pub dispatched : Bool
  pub ending : Ending

abbrev pub succeeded : Ending → Bool
succeeded (returned b) = b
succeeded threw = false

module _ (redis : Locks) where
  open redis use {L, get, set_nx, del}

  -- RELEASE_ROW
  pub release_row : L → String → String → L
  release_row l key id = elim (get l key) [
    | none ↦ l
    | some held ↦ if str_eq held id then del l key else l
  ]

  -- `guardedRow`, at the key of the row; none where it refuses the row.
  pub guarded_row : L → Attempt → L × Option Ending
  guarded_row l a =
      let (l', acquired) = set_nx l a.key a.id in
      if not acquired then (l', none) else (
        (if succeeded a.ending || not a.dispatched then release_row l' a.key a.id else l'),
        some a.ending,
      )

  pub guarded_rows : L → List Attempt → L × List (String × Option Ending)
  guarded_rows l [] = (l, [])
  guarded_rows l (a ∷ more) =
      let first = guarded_row l a in
      let rest = guarded_rows first.0 more in (rest.0, (a.key, first.1) ∷ rest.1)

  pub any_held : L → List String → Bool
  any_held l [] = false
  any_held l (key ∷ keys) = is_some (get l key) || any_held l keys

  -- The loop of `assertRetryable`, in rounds of 2000 keys; true where it throws.
  pub conflict_loop : ℕ → L → List String → Bool
  conflict_loop zero l keys = false
  conflict_loop (suc rounds) l keys =
      let rest = conflict_loop rounds l (drop 2000 keys) in
      if length keys == 0 then false else any_held l (take 2000 keys) || rest

  pub has_conflict : L → List String → Bool
  has_conflict l keys = conflict_loop (length keys) l keys

-- A setting or a deadline as it is given: a text or number that reads as a positive integer, none, or
-- anything else, such as a fraction or a blank text.
pub data Given : Type 0 where
  absent malformed : Given
  integer : ℕ → Given

abbrev pub max_safe_integer : ℕ
max_safe_integer = 9007199254740991

abbrev pub issuance_admission_ms : ℕ
issuance_admission_ms = 10000

-- none where the code throws.
pub positive_integer_setting : Given → ℕ → ℕ → Option ℕ
positive_integer_setting absent fallback maximum = some fallback
positive_integer_setting malformed fallback maximum = none
positive_integer_setting (integer n) fallback maximum =
    if n == 0 || ltb max_safe_integer n || ltb maximum n then none else some n

pub issuance_deadline : Given → ℕ → Option ℕ
issuance_deadline absent now = some (now + issuance_admission_ms)
issuance_deadline malformed now = none
issuance_deadline (integer n) now =
    if ltb max_safe_integer n || leb n now
    then none
    else some (if ltb n (now + issuance_admission_ms) then n else now + issuance_admission_ms)
