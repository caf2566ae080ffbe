-- ===== src/Model/Quota.antt =====
-- The quota operations of model/token.go, model/user.go and model/channel.go: refused on a
-- negative amount, batched or written at once, and the two settlements of a request.
use new_api_blues.Prelude.{
  ℕ, ℤ, pos, Bool, not, ◌&&◌, Option, none, some, ◌==◌, if◌then◌else◌, ltb_ℤ, neg64,
}
use new_api_blues.Model.Store.{
  M, Token, User, message, record_not_found, get, return, throw, attempt, statement, token_row,
  user_row, ◌>>=◌, ◌>>◌,
}
use new_api_blues.Model.Batch.{
  add_new_record, user_quota, token_quota, used_quota, channel_used_quota, request_count,
}
use new_api_blues.Model.Rows

pub record Config : Type 0 where
  pub batch_update_enabled : Bool
  pub redis_enabled : Bool
  pub pre_consumed_quota : ℤ
  pub quota_remind_threshold : ℤ

unfoldable pub get_token_by_id : ℕ → M Token
get_token_by_id id = if id == 0 then throw (message "id is empty!") else do
  statement
  w ← get
  elim (token_row w id) [ none ↦ throw record_not_found | some t ↦ return t ]

-- `Find` into a scalar leaves 0 there when no row is found.
abbrev pub quota_or_zero : Option User → ℤ
quota_or_zero none = pos 0
quota_or_zero (some u) = u.quota

unfoldable pub get_user_quota : ℕ → M ℤ
get_user_quota id = do statement; w ← get; return (quota_or_zero (user_row w id))

module _ (config : Config) where
  unfoldable pub increase_user_quota : ℕ → ℤ → M (Unit {0})
  increase_user_quota id quota =
      if ltb_ℤ quota (pos 0)
      then throw (message "quota cannot be negative!")
      else if config.batch_update_enabled
      then add_new_record user_quota id quota
      else Rows.increase_user_quota id quota

  unfoldable pub decrease_user_quota : ℕ → ℤ → M (Unit {0})
  decrease_user_quota id quota =
      if ltb_ℤ quota (pos 0)
      then throw (message "quota cannot be negative!")
      else if config.batch_update_enabled
      then add_new_record user_quota id (neg64 quota)
      else Rows.decrease_user_quota id quota

  unfoldable pub increase_token_quota : ℕ → ℤ → M (Unit {0})
  increase_token_quota id quota =
      if ltb_ℤ quota (pos 0)
      then throw (message "quota cannot be negative!")
      else if config.batch_update_enabled
      then add_new_record token_quota id quota
      else Rows.increase_token_quota id quota

  unfoldable pub decrease_token_quota : ℕ → ℤ → M (Unit {0})
  decrease_token_quota id quota =
      if ltb_ℤ quota (pos 0)
      then throw (message "quota cannot be negative!")
      else if config.batch_update_enabled
      then add_new_record token_quota id (neg64 quota)
      else Rows.decrease_token_quota id quota

  -- The error of the direct update is logged in the row function.
  unfoldable pub update_user_used_quota_and_request_count : ℕ → ℤ → M (Unit {0})
  update_user_used_quota_and_request_count id quota =
      if config.batch_update_enabled
      then (do add_new_record used_quota id quota; add_new_record request_count id (pos 1))
      else (do attempt (Rows.update_user_used_quota_and_request_count id quota (pos 1)); return tt)

  unfoldable pub update_channel_used_quota : ℕ → ℤ → M (Unit {0})
  update_channel_used_quota id quota =
      if config.batch_update_enabled
      then add_new_record channel_used_quota id quota
      else do attempt (Rows.update_channel_used_quota id quota); return tt

  -- The reminder e-mail, sent by a goroutine, changes no quota and is left out.
  unfoldable pub pre_consume_token_quota : ℕ → ℤ → M (Unit {0})
  pre_consume_token_quota token_id quota =
      if ltb_ℤ quota (pos 0) then throw (message "quota cannot be negative!") else do
        token ← get_token_by_id token_id
        if not token.unlimited_quota && ltb_ℤ token.remain_quota quota
            then throw (message "Insufficient token quota")
            else do
              owner_quota ← get_user_quota token.user_id
              if ltb_ℤ owner_quota quota then throw (message "Insufficient user quota") else do
                if token.unlimited_quota then return tt else decrease_token_quota token_id quota
                decrease_user_quota token.user_id quota

  -- The error of the user's update is overwritten or dropped, as in the source.
  unfoldable pub post_consume_token_quota : ℕ → ℤ → M (Unit {0})
  post_consume_token_quota token_id quota = do
    token ← get_token_by_id token_id
    attempt (
        if ltb_ℤ (pos 0) quota
        then decrease_user_quota token.user_id quota
        else increase_user_quota token.user_id (neg64 quota))
    if token.unlimited_quota
        then return tt
        else if ltb_ℤ (pos 0) quota
        then decrease_token_quota token_id quota
        else increase_token_quota token_id (neg64 quota)
