-- ===== src/ResponseCode/Store.antt =====
-- What apps/verification/src/response-code/proof-response-code.service.ts relies on of Redis: each
-- command runs at a time `now`, alone, and a key that has expired reads as absent. A key is one of
-- two prefixes with a token or a thread id behind it; neither prefix is a prefix of the other.
use ngotag_platform.Common.{
  ℕ, ◌+◌, ◌≤◌, ◌≡◌, Bool, false, Option, none, some, String, str_eq, ltb, if◌then◌else◌, is_some,
}

pub data Key : Type 0 where
  token_key : String → Key
  thread_index_key : String → Key

abbrev pub key_eq : Key → Key → Bool
key_eq (token_key a) (token_key b) = str_eq a b
key_eq (thread_index_key a) (thread_index_key b) = str_eq a b
key_eq _ _ = false

-- `del` says whether it deleted the key; the times are in seconds.
-- `Raw` is the type of the texts that are stored as values.
pub record Redis (Raw : Type 0) : Type 1 where
  pub Db : Type 0
  pub get : Db → ℕ → Key → Option Raw
  pub set_ex : Db → ℕ → Key → Raw → ℕ → Db
  pub expire : Db → ℕ → Key → ℕ → Db
  pub del : Db → ℕ → Key → Db × Bool
  pub get_stable :
      (d : Db) (now t : ℕ) (k : Key) (v : Raw) → now ≤ t → get d t k ≡ some v → get d now k ≡ some v
  pub get-set_ex :
      (d : Db) (now t : ℕ) (k j : Key) (v : Raw) (ttl : ℕ)
      → now ≤ t
      → get (set_ex d now k v ttl) t j
        ≡ (if key_eq k j then if ltb t (now + ttl) then some v else none else get d t j)
  pub get-expire :
      (d : Db) (now t : ℕ) (k j : Key) (ttl : ℕ)
      → now ≤ t
      → get (expire d now k ttl) t j
        ≡ (if key_eq k j then if ltb t (now + ttl) then get d now j else none else get d t j)
  pub get-del :
      (d : Db) (now t : ℕ) (k j : Key)
      → now ≤ t
      → get (del d now k).0 t j ≡ (if key_eq k j then none else get d t j)
  pub del_count : (d : Db) (now : ℕ) (k : Key) → (del d now k).1 ≡ is_some (get d now k)
