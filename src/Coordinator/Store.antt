-- ===== src/Coordinator/Store.antt =====
-- Redis hashes and sets as apps/issuance/src/issuance-work.coordinator.ts uses them: parameters, with
-- the documented effect of each command as a law.
use ngotag_platform.Common.{
  ℕ, ◌+◌, ◌≡◌, Bool, true, false, not, ◌&&◌, ◌||◌, Option, none, some, List, [], ◌∷◌, String,
  str_eq, if◌then◌else◌, is_some,
}

-- A field of the hash `offer-capacity-v1`: the text `capacity`, or a random UUID, which is not.
pub data Field : Type 0 where
  capacity : Field
  owner : String → Field

abbrev pub field_eq : Field → Field → Bool
field_eq capacity capacity = true
field_eq capacity (owner x) = false
field_eq (owner x) capacity = false
field_eq (owner x) (owner y) = str_eq x y

-- Its values: a number, `r:` with the time a reservation ends, `active:` with the time it began.
pub data Value : Type 0 where
  limit : ℕ → Value
  reserved : ℕ → Value
  active : ℕ → Value

abbrev pub one : Bool → ℕ
one b = if b then 1 else 0

abbrev pub All {ℓ} : {A : Type ℓ} → (A → Type 0) → List A → Type 0
All P [] = Unit
All P (x ∷ xs) = P x × All P xs

pub record Hash : Type 1 where
  pub H : Type 0
  pub hget : H → Field → Option Value
  pub hgetall : H → List (Field × Value)
  pub hlen : H → ℕ
  pub hset : H → Field → Value → H
  pub hdel : H → Field → H
  pub del : H → H
  pub hget-hset :
      (h : H) (f : Field) (v : Value) (g : Field)
      → hget (hset h f v) g ≡ (if field_eq f g then some v else hget h g)
  pub hget-hdel :
      (h : H) (f g : Field) → hget (hdel h f) g ≡ (if field_eq f g then none else hget h g)
  pub hget-del : (h : H) (g : Field) → hget (del h) g ≡ none
  pub hlen-hset :
      (h : H) (f : Field) (v : Value) → hlen (hset h f v) ≡ hlen h + one (not (is_some (hget h f)))
  pub hlen-hdel : (h : H) (f : Field) → hlen (hdel h f) + one (is_some (hget h f)) ≡ hlen h
  pub hlen-del : (h : H) → hlen (del h) ≡ 0
  pub hget-hgetall : (h : H) → All (λ e. hget h e.0 ≡ some e.1) (hgetall h)

pub record Members : Type 1 where
  pub S : Type 0
  pub empty : S
  pub sismember : S → String → Bool
  pub scard : S → ℕ
  pub sadd : S → String → S
  pub scard-empty : scard empty ≡ 0
  pub sismember-sadd :
      (s : S) (x y : String) → sismember (sadd s x) y ≡ (str_eq x y || sismember s y)
  pub scard-sadd : (s : S) (x : String) → scard (sadd s x) ≡ scard s + one (not (sismember s x))

-- The locks of rows: a key of Redis that `SET key owner NX` writes.
pub record Locks : Type 1 where
  pub L : Type 0
  pub get : L → String → Option String
  pub set_nx : L → String → String → L × Bool
  pub del : L → String → L
  pub set_nx-done : (l : L) (key id : String) → (set_nx l key id).1 ≡ not (is_some (get l key))
  pub get-set_nx :
      (l : L) (key id other : String)
      → get (set_nx l key id).0 other
        ≡ (if str_eq key other && not (is_some (get l key)) then some id else get l other)
  pub get-del :
      (l : L) (key other : String)
      → get (del l key) other ≡ (if str_eq key other then none else get l other)
