-- ===== src/Tests/Limits.antt =====
-- The theorems on rates, windows and channels at concrete inputs.
use mathlib.Core.List.{Perm}
use new_api_blues.Prelude.{
  ℕ, ◌-◌, ◌<◌, ◌≤◌, ℤ, pos, Bool, true, false, not, ◌||◌, String, some, List, [], ◌∷◌, ◌++◌, length,
  ◌≡◌, refl, arith, ltb, ltb_ℤ, eqb_ℤ, lookup, insert, AllPairs,
}
use new_api_blues.Common.RateLimit.{InMemoryRateLimiter}
use new_api_blues.Common.RateLimit.Window.{IsSpaced}
use new_api_blues.Common.RateLimit.Run.{grants, grants-IsSpaced}
use new_api_blues.Monitor.Metric.{consume_all, consume_all-window}
use new_api_blues.Model.Store.{Channel}
use new_api_blues.Model.Channels.{
  get_priority, init_channel_cache, enabled_channels, sort_by_priority, append_channels,
  append_groups, append_models, append_channel, empty_groups, sort_cache, sort_models, split_comma,
  ChannelCache,
}
use new_api_blues.Model.Channels.Query.{init_channel_cache-query, rank}
use new_api_blues.Model.Channels.Serving.{cached, serving_on}
use new_api_blues.Tests.Sorting.{insert_by, sort_by, sort_by-Perm, sort_by-AllPairs}
use new_api_blues.Model.Channels.Select.{random_satisfied_channel, random_satisfied_channel-found}
use new_api_blues.Tests.Data.{channel_one, ability_one, ability_two}

abbrev limiter : InMemoryRateLimiter
limiter = record { store = []; expiration_duration = pos 1200 }

abbrev arrivals : List (String × ℕ)
arrivals = ("a", 10) ∷ ("a", 12) ∷ ("b", 13) ∷ ("a", 14) ∷ ("a", 80) ∷ []

grants-IsSpaced_example :
    (ts : List ℤ) × (grants 2 (pos 60) "a" limiter arrivals ≡ some ts) × IsSpaced 2 (pos 60) ts
grants-IsSpaced_example =
    grants-IsSpaced 2 (pos 60) "a" limiter arrivals refl (omega arith)
      (omega arith, (omega arith, (omega arith, (omega arith, (omega arith, tt)))))

consume_all-window_example :
    (old : List Bool) × (old ++ consume_all (λ s n. ltb s 2) 3 [] (true ∷ false ∷ false ∷ true ∷ [])
      ≡ [] ++ true ∷ false ∷ false ∷ true ∷ [])
    × (length (consume_all (λ s n. ltb s 2) 3 [] (true ∷ false ∷ false ∷ true ∷ [])) ≤ 4)
consume_all-window_example =
    consume_all-window (λ s n. ltb s 2) 3 [] (true ∷ false ∷ false ∷ true ∷ []) (omega arith)

abbrev channel_two : Channel
channel_two = record channel_one {
  id = 2;
  models = "gpt-4";
  group = "vip";
  priority = some (pos 9);
}

abbrev built : ChannelCache
built =
    ("vip", ("gpt-4", channel_two ∷ channel_one ∷ []) ∷ ("gpt-4o", channel_one ∷ []) ∷ [])
    ∷ ("default", ("gpt-4", channel_one ∷ []) ∷ ("gpt-4o", channel_one ∷ []) ∷ [])
    ∷ []

cache_built :
    init_channel_cache sort_by (channel_one ∷ channel_two ∷ []) (ability_one ∷ ability_two ∷ [])
    ≡ some built
unfolding init_channel_cache append_channels append_groups append_models append_channel empty_groups
    sort_cache sort_models sort_by_priority sort_by insert_by split_comma enabled_channels lookup
    insert get_priority
cache_built = refl

init_channel_cache-query_example :
    Perm (cached "vip" "gpt-4" built) (serving_on "vip" "gpt-4" (channel_one ∷ channel_two ∷ []))
    × AllPairs (λ c d. ltb_ℤ (rank c) (rank d) ≡ false) (cached "vip" "gpt-4" built)
init_channel_cache-query_example =
    init_channel_cache-query "vip" "gpt-4" sort_by (λ less cs. sort_by-Perm less cs)
      (λ less cs o. sort_by-AllPairs less cs o) (channel_one ∷ channel_two ∷ [])
      (ability_one ∷ ability_two ∷ []) built cache_built

below_last : (n : ℕ) → 0 < n → n - 1 < n
below_last n h = omega arith

random_satisfied_channel-found_example :
    (d : Channel) × (random_satisfied_channel (λ n. n - 1) (channel_two ∷ channel_one ∷ []) false
      ≡ some d)
    × ((false
          || not (ltb_ℤ (pos 0) (get_priority channel_two))
          || eqb_ℤ (get_priority d) (get_priority channel_two))
        ≡ true)
random_satisfied_channel-found_example =
    random_satisfied_channel-found (λ n. n - 1) below_last channel_two (channel_one ∷ []) false
