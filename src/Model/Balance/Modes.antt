-- ===== src/Model/Balance/Modes.antt =====
-- A call, batched or written at once, comes to its entries.
use new_api_blues.Prelude.{
  ℕ, pos, negsuc, ◌+ℤ◌, neg64_of_nonneg, -ℤ-eq-+ℤ-neg, +ℤ-eq--ℤ-neg, ap₂, pos_part, neg_part, true,
  false, [], ◌∷◌, ◌≡◌, refl, sym, ap, arith, ◌<◌, ◌+◌, two63, List, fun_ext,
}
use new_api_blues.Model.Store.{
  World, statement_ok, update_rows, write_user, write_token, write_channel, user_id_of, token_id_of,
}
use new_api_blues.Model.Batch.{add_new_record}
use new_api_blues.Model.Rows
use new_api_blues.Model.Quota.{Config}
use new_api_blues.Model.Quota
use new_api_blues.Model.Balance.Flush.{written}
use new_api_blues.Model.Balance.Calls.{
  Call, increase_user, decrease_user, increase_token, decrease_token, use_user, use_channel, exec,
  Delta, deltas, nonneg,
}

abbrev pub record_all : List Delta → World → World
record_all [] w = w
record_all ((type, id, v) ∷ ds) w = record_all ds (add_new_record type id v w).1

abbrev pub write_all : List Delta → World → World
write_all [] w = w
write_all ((type, id, v) ∷ ds) w = write_all ds (written type id v w)

-- How large the amounts of a call are, in either direction.
abbrev pub magnitude : Call → ℕ
magnitude (increase_user id q) = pos_part q + neg_part q
magnitude (decrease_user id q) = pos_part q + neg_part q
magnitude (increase_token id q) = pos_part q + neg_part q
magnitude (decrease_token id q) = pos_part q + neg_part q
magnitude (use_user id q) = pos_part q + neg_part q + 1
magnitude (use_channel id q) = pos_part q + neg_part q

pub batched-record_all :
    (config : Config) (c : Call) (w : World)
    → config.batch_update_enabled ≡ true
    → magnitude c < two63
    → (exec config c w).1 ≡ record_all (deltas c) w
unfolding exec Quota.increase_user_quota Quota.decrease_user_quota Quota.increase_token_quota
    Quota.decrease_token_quota Quota.update_user_used_quota_and_request_count
    Quota.update_channel_used_quota
batched-record_all config (increase_user id (pos q)) w on h = ground arith
batched-record_all config (decrease_user id (pos q)) w on h = ground (arith, neg64_of_nonneg q)
batched-record_all config (decrease_token id (pos q)) w on h = ground (arith, neg64_of_nonneg q)
batched-record_all config (increase_user id (negsuc q)) w on h = ground arith
batched-record_all config (use_user id q) w on h = rw on (unfold add_new_record in refl)
batched-record_all config _ w on h = ground arith

module _ {A : Type 0} (ident : A → ℕ) where
  update_rows_twice :
      (id : ℕ) (f g : A → A) (xs : List A)
      → ((x : A) → ident (f x) ≡ ident x)
      → update_rows ident id g (update_rows ident id f xs) ≡ update_rows ident id (λ x. g (f x)) xs
  unfolding update_rows
  update_rows_twice id f g [] keep = refl
  update_rows_twice id f g (x ∷ xs) keep = ground (arith, keep x, update_rows_twice id f g xs keep)

pub direct-write_all :
    (config : Config) (c : Call) (w : World)
    → config.batch_update_enabled ≡ false
    → w.faults ≡ []
    → (exec config c w).1 ≡ write_all (deltas c) w
unfolding exec Quota.increase_user_quota Quota.decrease_user_quota Quota.increase_token_quota
    Quota.decrease_token_quota Quota.update_user_used_quota_and_request_count
    Quota.update_channel_used_quota write_user write_token write_channel Rows.increase_user_quota
    Rows.decrease_user_quota Rows.increase_token_quota Rows.decrease_token_quota
    Rows.update_user_used_quota_and_request_count Rows.update_channel_used_quota
direct-write_all config (increase_user id (pos q)) w off h = ground (arith, statement_ok w h)
direct-write_all config (decrease_user id (pos q)) w off h =
    rw (off, nonneg q, statement_ok w h)
      (ap (λ f. record w { users = update_rows user_id_of id f w.users })
        (fun_ext (λ u. ap (λ x. record u { quota = x }) (-ℤ-eq-+ℤ-neg u.quota (pos q)))))
direct-write_all config (decrease_token id (pos q)) w off h =
    rw (off, nonneg q, statement_ok w h)
      (ap (λ f. record w { tokens = update_rows token_id_of id f w.tokens })
        (fun_ext (λ t.
          ap₂ (λ x y. record t { remain_quota = x; used_quota = y; accessed_time = w.now })
            (-ℤ-eq-+ℤ-neg t.remain_quota (pos q)) (+ℤ-eq--ℤ-neg t.used_quota (pos q)))))
direct-write_all config (use_user id q) w off h =
    rw (off, statement_ok w h)
      (ap (λ users. record w { users = users })
        (sym (
          update_rows_twice user_id_of id (λ u. record u { used_quota = u.used_quota +ℤ q })
            (λ u. record u { request_count = u.request_count +ℤ pos 1 }) w.users (λ u. refl))))
direct-write_all config (increase_user id (negsuc q)) w off h = ground arith
direct-write_all config _ w off h = ground (arith, statement_ok w h)
