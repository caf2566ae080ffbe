-- ===== src/Relay/Text.antt =====
-- The life of a text request's quota: `preConsumeQuota` and `postConsumeQuota`
-- (relay/controller/helper.go), `RelayTextHelper` (relay/controller/text.go) and
-- `ReturnPreConsumedQuota` (relay/billing/billing.go). Prices are floats in the source: they are
-- the parameters `scale`, int64(float64(tokens) * ratio), and `price`,
-- int64(ceil((prompt + completion * completionRatio) * ratio)). A goroutine that settles quota is
-- run to its end where it is started. What the adaptor and the upstream do is an argument.
pub mod Settled
pub mod Outcomes
use new_api_blues.Prelude.{
  ℕ, ℤ, pos, Bool, true, false, not, ◌&&◌, String, Option, none, some, if◌then◌else◌, ltb_ℤ, leb_ℤ,
  eqb_ℤ, add64, sub64, mul64, neg64,
}
use new_api_blues.Model.Store.{
  M, Error, message, Result, ok, err, return, throw, attempt, ◌>>=◌, ◌>>◌,
}
use new_api_blues.Model.Quota.{Config}
use new_api_blues.Model.Quota
use new_api_blues.Model.Cache.{
  cache_get_user_quota, cache_update_user_quota, cache_decrease_user_quota,
}

-- The fields of `Meta` that settlement reads.
pub record Meta : Type 0 where
  pub token_id : ℕ
  pub user_id : ℕ
  pub channel_id : ℕ

pub record Usage : Type 0 where
  pub prompt_tokens : ℤ
  pub completion_tokens : ℤ

-- The price of a request: its floats, and whether ratio is 0.
pub record Price : Type 0 where
  pub scale : ℤ → ℤ
  pub price : ℤ → ℤ → ℤ
  pub ratio_is_zero : Bool

-- ErrorWithStatusCode, by its code.
pub data RelayError : Type 0 where
  get_user_quota_failed insufficient_user_quota decrease_user_quota_failed : RelayError
  pre_consume_token_quota_failed invalid_api_type convert_request_failed : RelayError
  do_request_failed bad_response response_error : RelayError

-- What the adaptor and the upstream do with the request.
pub data Upstream : Type 0 where
  no_adaptor not_converted not_sent error_status bad_answer : Upstream
  answered : Option Usage → Upstream

pub data Relayed (A : Type 0) : Type 0 where
  done : A → Relayed A
  failed : RelayError → Relayed A

unfoldable pub get_pre_consumed_quota : Config → Price → ℤ → ℤ → ℤ
get_pre_consumed_quota config p prompt_tokens max_tokens =
    let tokens = add64 config.pre_consumed_quota prompt_tokens in
    p.scale (if eqb_ℤ max_tokens (pos 0) then tokens else add64 tokens max_tokens)

module _ (config : Config) where
  -- The part of `preConsumeQuota` behind the two cache calls.
  unfoldable pub charge_beforehand : Meta → ℤ → ℤ → M (Relayed ℤ)
  charge_beforehand meta user_quota quota =
      if ltb_ℤ (mul64 (pos 100) quota) user_quota
      then return (done (pos 0))
      else if ltb_ℤ (pos 0) quota
      then (do
        r ← attempt (Quota.pre_consume_token_quota config meta.token_id quota)
        elim r [
          | err e ↦ return (failed pre_consume_token_quota_failed)
          | ok _ ↦ return (done quota)
        ])
      else return (done quota)

  unfoldable pub pre_consume_quota : Meta → ℤ → M (Relayed ℤ)
  pre_consume_quota meta quota = do
    answer ← attempt (cache_get_user_quota config meta.user_id)
    elim answer [
      | err e ↦ return (failed get_user_quota_failed)
      | ok user_quota ↦
          if ltb_ℤ (sub64 user_quota quota) (pos 0)
          then return (failed insufficient_user_quota)
          else (do
            r ← attempt (cache_decrease_user_quota config meta.user_id quota)
            elim r [
              | err e ↦ return (failed decrease_user_quota_failed)
              | ok _ ↦ charge_beforehand meta user_quota quota
            ])
    ]

  -- The quota of a finished request.
  unfoldable pub final_quota : Price → Usage → ℤ
  final_quota p usage =
      let quota = p.price usage.prompt_tokens usage.completion_tokens in
      let at_least_one = if not p.ratio_is_zero && leb_ℤ quota (pos 0) then pos 1 else quota in
      if eqb_ℤ (add64 usage.prompt_tokens usage.completion_tokens) (pos 0)
      then pos 0
      else at_least_one

  unfoldable pub post_consume_quota : Meta → Price → Option Usage → ℤ → M (Unit {0})
  post_consume_quota meta p none pre_consumed_quota = return tt
  post_consume_quota meta p (some usage) pre_consumed_quota = do
    let quota = final_quota p usage
    attempt (Quota.post_consume_token_quota config meta.token_id (sub64 quota pre_consumed_quota))
    attempt (cache_update_user_quota config meta.user_id)
    Quota.update_user_used_quota_and_request_count config meta.user_id quota
    Quota.update_channel_used_quota config meta.channel_id quota

  unfoldable pub return_pre_consumed_quota : ℤ → ℕ → M (Unit {0})
  return_pre_consumed_quota pre_consumed_quota token_id =
      if eqb_ℤ pre_consumed_quota (pos 0) then return tt else (do
        attempt (Quota.post_consume_token_quota config token_id (neg64 pre_consumed_quota))
        return tt)

  -- From the charged request to the answer.
  unfoldable pub finish : Meta → Price → ℤ → Upstream → M (Relayed (Unit {0}))
  finish meta p pre no_adaptor = return (failed invalid_api_type)
  finish meta p pre not_converted = return (failed convert_request_failed)
  finish meta p pre not_sent = return (failed do_request_failed)
  finish meta p pre error_status = do
    return_pre_consumed_quota pre meta.token_id
    return (failed bad_response)
  finish meta p pre bad_answer = do
    return_pre_consumed_quota pre meta.token_id
    return (failed response_error)
  finish meta p pre (answered usage) = do
    attempt (post_consume_quota meta p usage pre)
    return (done tt)

  unfoldable pub relay_text_helper : Meta → Price → ℤ → ℤ → Upstream → M (Relayed (Unit {0}))
  relay_text_helper meta p prompt_tokens max_tokens upstream = do
    charged ← pre_consume_quota meta (get_pre_consumed_quota config p prompt_tokens max_tokens)
    elim charged [ failed e ↦ return (failed e) | done pre ↦ finish meta p pre upstream ]
