-- ===== src/ResponseCode/MapStore.antt =====
-- A store that meets the hypotheses: each key with its value and the time at which it expires.
use ngotag_platform.Common.{
  ℕ, ◌+◌, ◌≤◌, ◌≡◌, refl, arith, Option, none, some, ltb, if◌then◌else◌, is_some,
}
use ngotag_platform.ResponseCode.Store.{Key, key_eq, Redis}

abbrev Held : Type 0 → Type 0
Held Raw = Key → Option (Raw × ℕ)

module _ {Raw : Type 0} where
  abbrev pub live : Option (Raw × ℕ) → ℕ → Option Raw
  live none now = none
  live (some (v, end)) now = if ltb now end then some v else none

  abbrev pub put : Held Raw → Key → Option (Raw × ℕ) → Held Raw
  put d k v j = if key_eq k j then v else d j

  abbrev pub until : Option Raw → ℕ → Option (Raw × ℕ)
  until none end = none
  until (some v) end = some (v, end)

  -- A new lifetime, of a key that has not expired.
  abbrev renewed : Option (Raw × ℕ) → ℕ → ℕ → Option (Raw × ℕ)
  renewed o now ttl = until (live o now) (now + ttl)

  abbrev replaced : Held Raw → ℕ → Key → ℕ → Held Raw
  replaced d now k ttl j = if key_eq k j then renewed (d j) now ttl else d j

  get-renewed :
      (o : Option (Raw × ℕ)) (now t ttl : ℕ)
      → live (renewed o now ttl) t ≡ (if ltb t (now + ttl) then live o now else none)
  get-renewed none now t ttl = ground arith
  get-renewed (some (v, end)) now t ttl = ground arith

  pub get_stable :
      (o : Option (Raw × ℕ)) (now t : ℕ) (v : Raw)
      → now ≤ t
      → live o t ≡ some v
      → live o now ≡ some v
  get_stable none now t v le e = cc
  get_stable (some (w, end)) now t v le e = ground arith

  pub get-put :
      (d : Held Raw) (now t : ℕ) (k j : Key) (v : Raw) (ttl : ℕ)
      → now ≤ t
      → live (put d k (some (v, now + ttl)) j) t
        ≡ (if key_eq k j then if ltb t (now + ttl) then some v else none else live (d j) t)
  get-put d now t k j v ttl le = ground arith

  pub get-replaced :
      (d : Held Raw) (now t : ℕ) (k j : Key) (ttl : ℕ)
      → now ≤ t
      → live (replaced d now k ttl j) t
        ≡ (if key_eq k j then if ltb t (now + ttl) then live (d j) now else none else live (d j) t)
  get-replaced d now t k j ttl le = ground (arith, get-renewed (d j) now t ttl)

  pub get-removed :
      (d : Held Raw) (now t : ℕ) (k j : Key)
      → now ≤ t
      → live (put d k none j) t ≡ (if key_eq k j then none else live (d j) t)
  get-removed d now t k j le = ground arith

  abbrev pub map_store : Redis Raw
  map_store = record {
    Db = Held Raw;
    get = λ d now k. live (d k) now;
    set_ex = λ d now k v ttl. put d k (some (v, now + ttl));
    expire = replaced;
    del = λ d now k. (put d k none, is_some (live (d k) now));
    get_stable = λ d now t k v. get_stable (d k) now t v;
    get-set_ex = get-put;
    get-expire = get-replaced;
    get-del = get-removed;
    del_count = λ d now k. refl;
  }
