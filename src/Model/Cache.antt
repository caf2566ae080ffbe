-- ===== src/Model/Cache.antt =====
-- The user's quota behind Redis (model/cache.go). The Redis keys user_quota:<id> are the map
-- `user_quota_cache`; an entry may also run out, which a caller sees as a missing key. A Redis
-- command takes part in the faults to come as a statement does. DECRBY of a missing key counts
-- from 0.
use new_api_blues.Prelude.{
  ℕ, ℤ, pos, ◌-ℤ◌, Option, none, some, List, [], ◌∷◌, ◌==◌, if◌then◌else◌, leb_ℤ,
}
use new_api_blues.Model.Store.{
  M, ok, err, record_not_found, get, modify, return, throw, attempt, statement, ◌>>=◌, ◌>>◌,
}
use new_api_blues.Model.Quota.{Config, get_user_quota}

unfoldable pub cached : ℕ → List (ℕ × ℤ) → Option ℤ
cached id [] = none
cached id ((key, value) ∷ m) = if key == id then some value else cached id m

unfoldable pub put_cached : ℕ → ℤ → List (ℕ × ℤ) → List (ℕ × ℤ)
put_cached id value [] = (id, value) ∷ []
put_cached id value ((key, old) ∷ m) =
    if key == id then (key, value) ∷ m else (key, old) ∷ put_cached id value m

abbrev pub or_zero : Option ℤ → ℤ
or_zero none = pos 0
or_zero (some x) = x

unfoldable pub redis_get : ℕ → M ℤ
redis_get id = do
  statement
  w ← get
  elim (cached id w.user_quota_cache) [ none ↦ throw record_not_found | some x ↦ return x ]

unfoldable pub redis_set : ℕ → ℤ → M (Unit {0})
redis_set id value = do
  statement
  modify (λ w. record w { user_quota_cache = put_cached id value w.user_quota_cache })

unfoldable pub redis_decrease : ℕ → ℤ → M (Unit {0})
redis_decrease id value = do
  statement
  modify λ w. record w {
    user_quota_cache =
        put_cached id (or_zero (cached id w.user_quota_cache) -ℤ value) w.user_quota_cache;
  }

-- The error of the write to Redis is logged, and also returned: `err` is a named result.
unfoldable pub fetch_and_update_user_quota : ℕ → M ℤ
fetch_and_update_user_quota id = do quota ← get_user_quota id; redis_set id quota; return quota

module _ (config : Config) where
  -- A value of the cache always parses, since only decimals are written to it.
  unfoldable pub cache_get_user_quota : ℕ → M ℤ
  cache_get_user_quota id =
      if config.redis_enabled
      then (do
        answer ← attempt (redis_get id)
        elim answer [
          | err e ↦ fetch_and_update_user_quota id
          | ok quota ↦
              if leb_ℤ quota config.pre_consumed_quota
              then fetch_and_update_user_quota id
              else return quota
        ])
      else get_user_quota id

  unfoldable pub cache_update_user_quota : ℕ → M (Unit {0})
  cache_update_user_quota id =
      if config.redis_enabled
      then (do quota ← cache_get_user_quota id; redis_set id quota)
      else return tt

  unfoldable pub cache_decrease_user_quota : ℕ → ℤ → M (Unit {0})
  cache_decrease_user_quota id quota =
      if config.redis_enabled then redis_decrease id quota else return tt
