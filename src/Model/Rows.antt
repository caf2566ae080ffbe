-- ===== src/Model/Rows.antt =====
-- The single UPDATE statements on quotas: the unexported functions of model/token.go,
-- model/user.go and model/channel.go. A column adds without wrapping: the database keeps
-- bigint columns exact or refuses.
use new_api_blues.Prelude.{ℕ, ℤ, ◌+ℤ◌, ◌-ℤ◌}
use new_api_blues.Model.Store.{M, get, ◌>>=◌, write_user, write_token, write_channel}

unfoldable pub increase_user_quota : ℕ → ℤ → M (Unit {0})
unfolding write_user
increase_user_quota id quota = write_user id (λ u. record u { quota = u.quota +ℤ quota })

unfoldable pub decrease_user_quota : ℕ → ℤ → M (Unit {0})
unfolding write_user
decrease_user_quota id quota = write_user id (λ u. record u { quota = u.quota -ℤ quota })

unfoldable pub increase_token_quota : ℕ → ℤ → M (Unit {0})
unfolding write_token
increase_token_quota id quota = do
  w ← get
  write_token id λ t. record t {
    remain_quota = t.remain_quota +ℤ quota;
    used_quota = t.used_quota -ℤ quota;
    accessed_time = w.now;
  }

unfoldable pub decrease_token_quota : ℕ → ℤ → M (Unit {0})
unfolding write_token
decrease_token_quota id quota = do
  w ← get
  write_token id λ t. record t {
    remain_quota = t.remain_quota -ℤ quota;
    used_quota = t.used_quota +ℤ quota;
    accessed_time = w.now;
  }

unfoldable pub update_user_used_quota_and_request_count : ℕ → ℤ → ℤ → M (Unit {0})
unfolding write_user
update_user_used_quota_and_request_count id quota count =
    write_user id
      λ u. record u { used_quota = u.used_quota +ℤ quota; request_count = u.request_count +ℤ count }

unfoldable pub update_user_used_quota : ℕ → ℤ → M (Unit {0})
unfolding write_user
update_user_used_quota id quota =
    write_user id (λ u. record u { used_quota = u.used_quota +ℤ quota })

unfoldable pub update_user_request_count : ℕ → ℤ → M (Unit {0})
unfolding write_user
update_user_request_count id count =
    write_user id (λ u. record u { request_count = u.request_count +ℤ count })

unfoldable pub update_channel_used_quota : ℕ → ℤ → M (Unit {0})
unfolding write_channel
update_channel_used_quota id quota =
    write_channel id (λ c. record c { used_quota = c.used_quota +ℤ quota })
