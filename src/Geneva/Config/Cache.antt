-- ===== src/Geneva/Config/Cache.antt =====
-- Calls of `get_ingestion_info` in any interleaving: they share the cache, and others may run between
-- the look into the cache, the fetch and the double check.
use opentelemetry_rust_contr.Common.{
  ℕ, suc, ◌+◌, ◌<◌, ◌≤◌, List, [], ◌∷◌, ◌≡◌, refl, ap, Option, none, some, ltb, leb, All,
  Bool-cases, Option-cases, ◌⊎◌, inl, inr, arith,
}
use opentelemetry_rust_contr.Geneva.Config.{
  GenevaConfigClientError, get_ingestion_info, ConfigLibraries, CachedAuthData, Fetched,
  ConfigResult, okay, fail, five_minutes, read_cache, store, fetch_fresh,
}

-- The cache, the time, how many calls are fetching, and what calls have returned, the last first.
pub record System : Type 0 where
  pub cache : Option CachedAuthData
  pub now : ℕ
  pub fetching : ℕ
  pub returned : List CachedAuthData

pub data Step (libs : ConfigLibraries) (s : System) : System → Type 0 where
  tick : (later : ℕ) → s.now ≤ later → Step libs s (record s { now = later })
  hit :
      (d : CachedAuthData)
      → read_cache s.now s.cache ≡ some d
      → Step libs s (record s { returned = d ∷ s.returned })
  miss : read_cache s.now s.cache ≡ none → Step libs s (record s { fetching = suc s.fetching })
  failed : (n : ℕ) → s.fetching ≡ suc n → Step libs s (record s { fetching = n })
  commit :
      (n : ℕ) (answer : Fetched) (fresh : CachedAuthData)
      → s.fetching ≡ suc n
      → fetch_fresh libs answer ≡ okay fresh
      → Step libs s (record s {
        cache = some (store fresh s.cache).1;
        fetching = n;
        returned = (store fresh s.cache).0 ∷ s.returned;
      })

pub data Reach (libs : ConfigLibraries) (s : System) : System → Type 0 where
  here : Reach libs s s
  next : {t u : System} → Reach libs s t → Step libs t u → Reach libs s u

-- When the token of the cache expires; an empty cache is older than all.
unfoldable pub expiry_of : Option CachedAuthData → ℕ
expiry_of none = 0
expiry_of (some d) = d.token_expiry

store-newest :
    (fresh : CachedAuthData) (cache : Option CachedAuthData)
    → ((store fresh cache).0.token_expiry ≤ (store fresh cache).1.token_expiry)
      × (expiry_of cache ≤ (store fresh cache).1.token_expiry)
      × (fresh.token_expiry ≤ (store fresh cache).0.token_expiry)
unfolding store expiry_of
store-newest fresh none = (omega arith, omega arith, omega arith)
store-newest fresh (some existing) =
    elim (Bool-cases (leb fresh.token_expiry existing.token_expiry)) [
      | inl newer ↦ rw newer (ground arith)
      | inr older ↦ rw older (ground arith)
    ]

read_cache-fresh :
    (now : ℕ) (cache : Option CachedAuthData) (d : CachedAuthData)
    → read_cache now cache ≡ some d
    → (cache ≡ some d) × (now + five_minutes < d.token_expiry)
unfolding read_cache expiry_of
read_cache-fresh now none d h = cc
read_cache-fresh now (some c) d h = elim (Bool-cases (ltb (now + five_minutes) c.token_expiry)) [
  | inl fresh ↦
      let same : some c ≡ some d = ground arith in
      let same_expiry : c.token_expiry ≡ d.token_expiry = ap expiry_of same in (same, ground arith)
  | inr stale ↦ ground arith
]

-- All that was returned expires no later than the token of the cache.
abbrev pub IsNewest : System → Type 0
IsNewest s = All (λ (d : CachedAuthData). d.token_expiry ≤ expiry_of s.cache) s.returned

All-later :
    (a b : ℕ) (xs : List CachedAuthData)
    → a ≤ b
    → All (λ (d : CachedAuthData). d.token_expiry ≤ a) xs
    → All (λ (d : CachedAuthData). d.token_expiry ≤ b) xs
All-later a b [] le h = tt
All-later a b (x ∷ xs) le h = (omega arith, All-later a b xs le h.1)

Step-IsNewest :
    {libs : ConfigLibraries} {s t : System}
    → Step libs s t
    → IsNewest s
    → (expiry_of s.cache ≤ expiry_of t.cache) × IsNewest t
unfolding expiry_of
Step-IsNewest (tick later le) h = (omega arith, h)
Step-IsNewest {s = s} (hit d e) h =
    let (same, left) = read_cache-fresh s.now s.cache d e in
    let held : expiry_of s.cache ≡ d.token_expiry = ap expiry_of same in
    (omega arith, (omega arith, h))
Step-IsNewest (miss e) h = (omega arith, h)
Step-IsNewest (failed n e) h = (omega arith, h)
Step-IsNewest {s = s} (commit n answer fresh e f) h =
    let (a, b, c) = store-newest fresh s.cache in
    (b, (a, All-later (expiry_of s.cache) (store fresh s.cache).1.token_expiry s.returned b h))

-- However calls run between each other, the time at which the token of the cache expires never
-- goes back, and nothing that was returned since the start expires later than it: no call is given
-- an answer that is newer than the cache, and no newer token is replaced by an older one.
pub Reach-IsNewest :
    {libs : ConfigLibraries} {s t : System}
    → Reach libs s t
    → IsNewest s
    → (expiry_of s.cache ≤ expiry_of t.cache) × IsNewest t
Reach-IsNewest here h = (omega arith, h)
Reach-IsNewest (next r step) h =
    let (a, b) = Reach-IsNewest r h in let (c, d) = Step-IsNewest step b in (omega arith, d)

-- What one call comes to: a cached token that has more than five minutes left, and no change; a token
-- that is not older than the fetched one, which the cache then has, where the cached one had not so
-- long; or the error of the fetch, and no change.
pub data Served (libs : ConfigLibraries) (now : ℕ) (answer : Fetched)
    (cache : Option CachedAuthData)
    : ConfigResult CachedAuthData × Option CachedAuthData → Type 0 where
  from_cache :
      (d : CachedAuthData)
      → cache ≡ some d
      → now + five_minutes < d.token_expiry
      → Served libs now answer cache (okay d, cache)
  from_fetch :
      (fresh d : CachedAuthData)
      → expiry_of cache ≤ now + five_minutes
      → fetch_fresh libs answer ≡ okay fresh
      → fresh.token_expiry ≤ d.token_expiry
      → Served libs now answer cache (okay d, some d)
  not_fetched :
      (e : GenevaConfigClientError)
      → expiry_of cache ≤ now + five_minutes
      → fetch_fresh libs answer ≡ fail e
      → Served libs now answer cache (fail e, cache)

read_cache-stale :
    (now : ℕ) (cache : Option CachedAuthData)
    → read_cache now cache ≡ none
    → expiry_of cache ≤ now + five_minutes
unfolding read_cache expiry_of
read_cache-stale now none h = omega arith
read_cache-stale now (some d) h = ground arith

store-same :
    (fresh : CachedAuthData) (cache : Option CachedAuthData)
    → (store fresh cache).1 ≡ (store fresh cache).0
unfolding store
store-same fresh none = refl
store-same fresh (some existing) =
    elim (Bool-cases (leb fresh.token_expiry existing.token_expiry)) [
      | inl newer ↦ rw newer refl
      | inr older ↦ rw older refl
    ]

result-cases :
    {A : Type 0} (r : ConfigResult A)
    → ((e : GenevaConfigClientError) × (r ≡ fail e)) ⊎ ((a : A) × (r ≡ okay a))
result-cases (okay a) = inr (a, refl)
result-cases (fail e) = inl (e, refl)

-- A call returns a cached token that has more than five minutes left and leaves the cache as it
-- is; or, where the cache has no such token, it returns one that does not expire before the
-- fetched one, and the cache has it; or the error of the fetch, and leaves the cache as it is.
pub get_ingestion_info-Served :
    (libs : ConfigLibraries) (now : ℕ) (answer : Fetched) (cache : Option CachedAuthData)
    → Served libs now answer cache (get_ingestion_info libs now answer cache)
unfolding get_ingestion_info
get_ingestion_info-Served libs now answer cache = elim (Option-cases (read_cache now cache)) [
  | inr (d, e) ↦
      let (same, left) = read_cache-fresh now cache d e in
      rw (e, get_ingestion_info) (from_cache d same left)
  | inl e ↦
      let stale = read_cache-stale now cache e in
      elim (result-cases (fetch_fresh libs answer)) [
        | inl (err, f) ↦ rw (e, get_ingestion_info) (rw f (not_fetched err stale f))
        | inr (fresh, f) ↦
            rw (e, get_ingestion_info)
              (rw f (
                rw (store-same fresh cache)
                  (from_fetch fresh (store fresh cache).0 stale f (store-newest fresh cache).2)))
      ]
]
