-- ===== src/Relay/Text/Settled.antt =====
-- What a text request costs, on a database without faults and without Redis.
use new_api_blues.Prelude.{
  ℕ, ℤ, pos, false, [], ◌≡◌, refl, arith, ◌<◌, ltb_ℤ, sub64, mul64, Bool-cases, Option-cases, inl,
  inr, ◌⊎◌,
}
use new_api_blues.Model.Store.{World, Result, ok, err, Error, statement_ok, token_row, user_row}
use new_api_blues.Model.Quota.{
  Config, get_user_quota, get_token_by_id, quota_or_zero, pre_consume_token_quota,
}
use new_api_blues.Model.Cache.{cache_get_user_quota, cache_decrease_user_quota}
use new_api_blues.Model.Balance.Calls.{exec, decrease_token}
use new_api_blues.Model.Settle.Step.{exec_ok, decrease_token-faults}
use new_api_blues.Relay.Text.{
  Meta, RelayError, insufficient_user_quota, pre_consume_token_quota_failed, done, failed,
  charge_beforehand, pre_consume_quota,
}

Result-cases : {A : Type 0} (r : Result A) → ((a : A) × (r ≡ ok a)) ⊎ ((e : Error) × (r ≡ err e))
Result-cases (ok a) = inl (a, refl)
Result-cases (err e) = inr (e, refl)

-- A pre-consumption that fails, on a database without faults, changes nothing.
pre_consume_err :
    (config : Config) (id q : ℕ) (w : World) (e : Error)
    → w.faults ≡ []
    → (pre_consume_token_quota config id (pos q) w).0 ≡ err e
    → (pre_consume_token_quota config id (pos q) w).1 ≡ w
unfolding pre_consume_token_quota get_token_by_id get_user_quota exec
pre_consume_err config id q w e h failure = elim (Option-cases (token_row w id)) [
  | inl found ↦ ground (arith, statement_ok w h, found)
  | inr (t, found) ↦ ground (
    arith,
    statement_ok w h,
    found,
    (exec_ok config id q w h).3,
    (exec_ok config t.user_id q w h).1,
    (exec_ok config t.user_id q (exec config (decrease_token id (pos q)) w).1
        (decrease_token-faults config id (pos q) w h)).1,
  )
]

module _ (config : Config) (off : config.redis_enabled ≡ false) where
  abbrev pub Refused : Meta → ℕ → World → Type 0
  Refused meta q w =
      (e : RelayError) × (pre_consume_quota config meta (pos q) w ≡ (ok (failed e), w))

  abbrev pub Trusted : Meta → ℕ → World → Type 0
  Trusted meta q w = pre_consume_quota config meta (pos q) w ≡ (ok (done (pos 0)), w)

  abbrev pub Charged : Meta → ℕ → World → Type 0
  Charged meta q w =
      (0 < q)
      × ((pre_consume_token_quota config meta.token_id (pos q) w).0 ≡ ok tt)
      × (pre_consume_quota config meta (pos q) w
          ≡ (ok (done (pos q)), (pre_consume_token_quota config meta.token_id (pos q) w).1))

  -- Without Redis and without faults a request is refused at no cost, trusted at no cost, or
  -- charged by the pre-consumption of its quota.
  pub pre_consume_quota_cases :
      (meta : Meta) (q : ℕ) (w : World)
      → w.faults ≡ []
      → Refused meta q w ⊎ Trusted meta q w ⊎ Charged meta q w
  unfolding pre_consume_quota charge_beforehand cache_get_user_quota cache_decrease_user_quota
      get_user_quota
  pre_consume_quota_cases meta q w h =
      let available : ℤ = quota_or_zero (user_row w meta.user_id) in
      elim (Bool-cases (ltb_ℤ (sub64 available (pos q)) (pos 0))) [
        | inl poor ↦ inl (insufficient_user_quota, ground (arith, off, statement_ok w h, poor))
        | inr enough ↦ elim (Bool-cases (ltb_ℤ (mul64 (pos 100) (pos q)) available)) [
          | inl rich ↦ inr (inl (ground (arith, off, statement_ok w h, enough, rich)))
          | inr close ↦ elim (Bool-cases (ltb_ℤ (pos 0) (pos q))) [
            | inl some_quota ↦
                elim (Result-cases (pre_consume_token_quota config meta.token_id (pos q) w).0) [
                  | inl (u, good) ↦ inr (
                      inr (
                        ground arith,
                        good,
                        ground (arith, off, statement_ok w h, enough, close, some_quota, good),
                      ))
                  | inr (e, bad) ↦ inl (
                    pre_consume_token_quota_failed,
                    ground (
                      arith,
                      off,
                      statement_ok w h,
                      enough,
                      close,
                      some_quota,
                      bad,
                      pre_consume_err config meta.token_id q w e h bad,
                    ),
                  )
                ]
            | inr zero_quota ↦
                inr (inl (ground (arith, off, statement_ok w h, enough, close, zero_quota)))
          ]
        ]
      ]
