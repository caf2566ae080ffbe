-- ===== src/Common/RateLimit.antt =====
-- The in-memory rate limiter (common/rate-limit.go) and the middleware that consults it
-- (middleware/rate-limit.go). A queue holds the times of the grants, oldest first; time is an
-- argument of each call. A read out of range is a panic: `none`.
pub mod Window
pub mod Run
use Prim.Native.String.{◌++◌ as text_append}
use new_api_blues.Prelude.{
  ℕ, ℤ, ◌-ℤ◌, String, Bool, true, false, Option, none, some, List, [], ◌∷◌, ◌++◌, length, drop,
  get_elem?, lookup, insert, ltb, leb_ℤ, ltb_ℤ, if◌then◌else◌, ◌==◌, sub64, ◌||◌,
}

pub record InMemoryRateLimiter : Type 0 where
  pub store : List (String × List ℤ)
  pub expiration_duration : ℤ  -- seconds

-- The branch for a key that has a queue: the answer and the new queue.
unfoldable pub request_known : List ℤ → ℕ → ℤ → ℤ → Option (Bool × List ℤ)
request_known queue max_request_num duration now =
    if ltb (length queue) max_request_num
    then some (true, queue ++ now ∷ [])
    else elim (get_elem? queue 0) [
      | none ↦ none
      | some oldest ↦
          if leb_ℤ duration (sub64 now oldest)
          then some (true, drop 1 queue ++ now ∷ [])
          else some (false, queue)
    ]

unfoldable pub request_queue : Option (List ℤ) → ℕ → ℤ → ℤ → Option (Bool × List ℤ)
request_queue (some queue) max_request_num duration now =
    request_known queue max_request_num duration now
request_queue none max_request_num duration now = some (true, now ∷ [])

abbrev pub put_queue : String → InMemoryRateLimiter → Bool × List ℤ → Bool × InMemoryRateLimiter
put_queue key l (granted, queue) = (granted, record l { store = insert key queue l.store })

unfoldable pub request :
    InMemoryRateLimiter → String → ℕ → ℤ → ℤ → Option (Bool × InMemoryRateLimiter)
request l key max_request_num duration now =
    elim (request_queue (lookup key l.store) max_request_num duration now) [
      | none ↦ none
      | some answer ↦ some (put_queue key l answer)
    ]

abbrev pub last_or : ℤ → List ℤ → ℤ
last_or d [] = d
last_or d (x ∷ xs) = last_or x xs

-- The test of the sweep, on one queue.
unfoldable pub is_expired : ℤ → ℤ → List ℤ → Bool
is_expired expiration now [] = true
is_expired expiration now (x ∷ xs) = ltb_ℤ expiration (sub64 now (last_or x xs))

unfoldable pub clear_store : ℤ → ℤ → List (String × List ℤ) → List (String × List ℤ)
clear_store expiration now [] = []
clear_store expiration now ((key, queue) ∷ m) =
    let rest = clear_store expiration now m in
    if is_expired expiration now queue then rest else (key, queue) ∷ rest

unfoldable pub clear_expired_items : ℤ → InMemoryRateLimiter → InMemoryRateLimiter
clear_expired_items now l = record l { store = clear_store l.expiration_duration now l.store }

pub data Outcome : Type 0 where
  passed : InMemoryRateLimiter → Outcome
  too_many_requests : InMemoryRateLimiter → Outcome
  panicked : Outcome

-- `rateLimitFactory` without Redis, then `memoryRateLimiter`.
unfoldable pub memory_rate_limiter :
    Bool → InMemoryRateLimiter → String → String → ℕ → ℤ → ℤ → Outcome
memory_rate_limiter debug_enabled l mark client_ip max_request_num duration now =
    if max_request_num == 0 || debug_enabled
    then passed l
    else elim (request l (text_append mark client_ip) max_request_num duration now) [
      | none ↦ panicked
      | some (granted, l') ↦ if granted then passed l' else too_many_requests l'
    ]
