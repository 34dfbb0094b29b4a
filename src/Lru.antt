-- ===== src/Lru.antt =====
-- The LRU caches: `ScenarioResultMemo` (backend/app/risk/scenario_memo.py),
-- `CurveConstructionCache` (backend/app/pricing/curve_cache.py) and the valuation cache in
-- `CachedPricingEngine` (backend/app/pricing/cache.py). Each critical section of the lock is one
-- step.
pub mod Recency
pub mod Bounded
pub mod Engine
mod Tests
use quantlineage.Prelude.{
  ℕ, suc, ◌+◌, String, Bool, true, false, Option, none, some, List, [], ◌∷◌, ◌++◌, ◌==◌, ltb,
  length, if◌then◌else◌,
}
use quantlineage.Prelude.Dict
use quantlineage.Prelude.Dict.{Dict}
use quantlineage.Prelude.Call.{Result, ok, err, value_error}

module _ {V : Type 0} where
  -- OrderedDict.move_to_end(key)
  unfoldable pub move_to_end : String → V → Dict V → Dict V
  move_to_end k v d = Dict.remove k d ++ (k, v) ∷ []

  -- while len(cache) > maxsize: cache.popitem(last=False)
  unfoldable pub evict : ℕ → Dict V → Dict V
  evict maxsize [] = []
  evict maxsize (e ∷ d) = if ltb maxsize (length (e ∷ d)) then evict maxsize d else e ∷ d

-- The fields of a cache object.
pub record Cache (V : Type 0) : Type 0 where
  pub maxsize : ℕ
  pub entries : Dict V
  pub hits : ℕ
  pub misses : ℕ

module _ {V : Type 0} where
  -- `__post_init__`
  unfoldable pub new_cache : ℕ → Result (Cache V)
  new_cache maxsize =
      if ltb maxsize 1
      then err value_error
      else ok (record { maxsize = maxsize; entries = []; hits = 0; misses = 0 })

  -- `get` of the memo and of the curve cache, and the first critical section of `value`.
  unfoldable pub get : String → Cache V → Option V × Cache V
  get k c = elim (Dict.get k c.entries) [
    | none ↦ (none, record c { misses = c.misses + 1 })
    | some v ↦ (some v, record c { entries = move_to_end k v c.entries; hits = c.hits + 1 })
  ]

  -- `put`, and the second critical section of `value`: the first writer of a key wins.
  unfoldable pub put : String → V → Cache V → V × Cache V
  put k v c = elim (Dict.get k c.entries) [
    | some existing ↦ (existing, record c { entries = move_to_end k existing c.entries })
    | none ↦ (v, record c { entries = evict c.maxsize (move_to_end k v (Dict.put k v c.entries)) })
  ]

  -- `clear` of the memo and of the curve cache; that of the valuation cache keeps the counts.
  unfoldable pub clear : Cache V → Cache V
  clear c = record c { entries = []; hits = 0; misses = 0 }

  unfoldable pub clear_entries : Cache V → Cache V
  clear_entries c = record c { entries = [] }

pub record CacheStats : Type 0 where
  pub hits : ℕ
  pub misses : ℕ
  pub size : ℕ

unfoldable pub stats : {V : Type 0} → Cache V → CacheStats
stats c = record { hits = c.hits; misses = c.misses; size = length c.entries }

-- `CacheStats.requests`
unfoldable pub requests : CacheStats → ℕ
requests s = s.hits + s.misses
