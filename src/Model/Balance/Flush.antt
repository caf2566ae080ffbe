-- ===== src/Model/Balance/Flush.antt =====
-- The batch updater's round keeps every balance and leaves nothing pending.
use new_api_blues.Prelude.{
  ℕ, ℤ, pos, ◌+ℤ◌, ◌-ℤ◌, neg, [], ◌∷◌, ◌==◌, if◌then◌else◌, ◌≡◌, refl, ap, ◌∙◌, arith, +ℤ-zero,
  -ℤ-eq-+ℤ-neg, sym,
}
use new_api_blues.Model.Store.{
  World, Pending, ok, statement_ok, write_user, write_token, write_channel, find_row, update_rows,
  user_id_of, token_id_of, channel_id_of, User,
}
use new_api_blues.Model.Rows
use new_api_blues.Model.Batch.{
  BatchUpdateType, user_quota, token_quota, used_quota, channel_used_quota, request_count,
  flush_entry, flush_entries,
}
use new_api_blues.Model.Balance.Account.{
  Account, user_balance, token_remain, token_used, user_used, user_requests, channel_used,
  row_amount, total, held, share, share_total-nil, share_total-cons, contribution, plus, plus_zero,
  plus-plus, amount_of, amount_of-update_rows, amount_of-update_rows_same,
}

-- What writing one entry does to a database without faults.
abbrev pub written : BatchUpdateType → ℕ → ℤ → World → World
written user_quota k v w = record w {
  users = update_rows user_id_of k (λ u. record u { quota = u.quota +ℤ v }) w.users;
}
written token_quota k v w = record w {
  tokens =
      update_rows token_id_of k
        (λ t. record t {
          remain_quota = t.remain_quota +ℤ v;
          used_quota = t.used_quota -ℤ v;
          accessed_time = w.now;
        })
        w.tokens;
}
written used_quota k v w = record w {
  users = update_rows user_id_of k (λ u. record u { used_quota = u.used_quota +ℤ v }) w.users;
}
written request_count k v w = record w {
  users = update_rows user_id_of k (λ u. record u { request_count = u.request_count +ℤ v }) w.users;
}
written channel_used_quota k v w = record w {
  channels =
      update_rows channel_id_of k (λ c. record c { used_quota = c.used_quota +ℤ v }) w.channels;
}

pub flush_entry_lem :
    (type : BatchUpdateType) (k : ℕ) (v : ℤ) (w : World)
    → w.faults ≡ []
    → flush_entry type k v w ≡ (ok tt, written type k v w)
unfolding flush_entry write_user write_token write_channel Rows.increase_user_quota
    Rows.increase_token_quota Rows.update_user_used_quota Rows.update_user_request_count
    Rows.update_channel_used_quota
flush_entry_lem user_quota k v w h = ground (arith, statement_ok w h)
flush_entry_lem _ k v w h = ground (arith, statement_ok w h)

entry_total : (k j : ℕ) (v : ℤ) → (if k == j then v else pos 0) ≡ total j ((k, v) ∷ [])
unfolding total held
entry_total k j v = ground (arith, +ℤ-zero v, +ℤ-zero (pos 0))

entry_total-neg :
    (k j : ℕ) (v : ℤ) → (if k == j then neg v else pos 0) ≡ neg (total j ((k, v) ∷ []))
unfolding total held neg
entry_total-neg k j v = ground (arith, +ℤ-zero v, +ℤ-zero (pos 0))

module _ (k : ℕ) (v : ℤ) (w : World) where
  users_same :
      (amount : User → ℤ) (f : User → User) (id : ℕ)
      → ((u : User) → (f u).id ≡ u.id)
      → ((u : User) → amount (f u) ≡ amount u)
      → amount_of amount (find_row user_id_of id (update_rows user_id_of k f w.users))
        ≡ plus (amount_of amount (find_row user_id_of id w.users)) (pos 0)
  users_same amount f id keep same =
      amount_of-update_rows_same user_id_of amount k id f w.users keep same
      ∙ sym (plus_zero (amount_of amount (find_row user_id_of id w.users)))

  users_add :
      (amount : User → ℤ) (f : User → User) (id : ℕ)
      → ((u : User) → (f u).id ≡ u.id)
      → ((u : User) → amount (f u) ≡ amount u +ℤ v)
      → amount_of amount (find_row user_id_of id (update_rows user_id_of k f w.users))
        ≡ plus (amount_of amount (find_row user_id_of id w.users)) (total id ((k, v) ∷ []))
  users_add amount f id keep more =
      rw (← entry_total) (amount_of-update_rows user_id_of amount k id f v w.users keep more)

-- One entry, written out, adds its contribution to every account.
pub row_amount-written :
    (type : BatchUpdateType) (k : ℕ) (v : ℤ) (w : World) (a : Account)
    → row_amount (written type k v w) a ≡ plus (row_amount w a) (contribution type ((k, v) ∷ []) a)
row_amount-written user_quota k v w (user_balance id) =
    users_add k v w (λ u. u.quota) (λ u. record u { quota = u.quota +ℤ v }) id (λ u. refl)
      (λ u. refl)
row_amount-written user_quota k v w (user_used id) =
    users_same k v w (λ u. u.used_quota) (λ u. record u { quota = u.quota +ℤ v }) id (λ u. refl)
      (λ u. refl)
row_amount-written user_quota k v w (user_requests id) =
    users_same k v w (λ u. u.request_count) (λ u. record u { quota = u.quota +ℤ v }) id (λ u. refl)
      (λ u. refl)
row_amount-written used_quota k v w (user_used id) =
    users_add k v w (λ u. u.used_quota) (λ u. record u { used_quota = u.used_quota +ℤ v }) id
      (λ u. refl) (λ u. refl)
row_amount-written used_quota k v w (user_balance id) =
    users_same k v w (λ u. u.quota) (λ u. record u { used_quota = u.used_quota +ℤ v }) id
      (λ u. refl) (λ u. refl)
row_amount-written used_quota k v w (user_requests id) =
    users_same k v w (λ u. u.request_count) (λ u. record u { used_quota = u.used_quota +ℤ v }) id
      (λ u. refl) (λ u. refl)
row_amount-written request_count k v w (user_requests id) =
    users_add k v w (λ u. u.request_count) (λ u. record u { request_count = u.request_count +ℤ v })
      id (λ u. refl) (λ u. refl)
row_amount-written request_count k v w (user_balance id) =
    users_same k v w (λ u. u.quota) (λ u. record u { request_count = u.request_count +ℤ v }) id
      (λ u. refl) (λ u. refl)
row_amount-written request_count k v w (user_used id) =
    users_same k v w (λ u. u.used_quota) (λ u. record u { request_count = u.request_count +ℤ v }) id
      (λ u. refl) (λ u. refl)
row_amount-written token_quota k v w (token_remain id) = rw (← entry_total) (
    amount_of-update_rows token_id_of (λ t. t.remain_quota) k id
      (λ t. record t {
        remain_quota = t.remain_quota +ℤ v;
        used_quota = t.used_quota -ℤ v;
        accessed_time = w.now;
      })
      v w.tokens (λ t. refl) (λ t. refl))
row_amount-written token_quota k v w (token_used id) = rw (← entry_total-neg) (
    amount_of-update_rows token_id_of (λ t. t.used_quota) k id
      (λ t. record t {
        remain_quota = t.remain_quota +ℤ v;
        used_quota = t.used_quota -ℤ v;
        accessed_time = w.now;
      })
      (neg v) w.tokens (λ t. refl) (λ t. -ℤ-eq-+ℤ-neg t.used_quota v))
row_amount-written channel_used_quota k v w (channel_used id) = rw (← entry_total) (
    amount_of-update_rows channel_id_of (λ c. c.used_quota) k id
      (λ c. record c { used_quota = c.used_quota +ℤ v }) v w.channels (λ c. refl) (λ c. refl))
row_amount-written _ k v w _ = rw plus_zero

-- What is written leaves no fault to come, and the stores alone.
pub written_frame :
    (type : BatchUpdateType) (k : ℕ) (v : ℤ) (w : World)
    → ((written type k v w).faults ≡ w.faults) × ((written type k v w).pending ≡ w.pending)
written_frame user_quota k v w = (refl, refl)
written_frame _ k v w = (refl, refl)

-- A whole store, written out: every account gets its contribution.
pub row_amount-flush_entries :
    (type : BatchUpdateType) (m : Pending) (w : World) (a : Account)
    → w.faults ≡ []
    → (row_amount (flush_entries type m w).1 a ≡ plus (row_amount w a) (contribution type m a))
      × ((flush_entries type m w).1.faults ≡ [])
      × ((flush_entries type m w).1.pending ≡ w.pending)
      × ((flush_entries type m w).0 ≡ ok tt)
unfolding flush_entries
row_amount-flush_entries type [] w a h =
    (sym (rw (share_total-nil (share type a)) (plus_zero (row_amount w a))), h, refl, refl)
row_amount-flush_entries type ((k, v) ∷ m) w a h = rw (flush_entry_lem type k v w h) (
    let frame = written_frame type k v w in
    let rest = row_amount-flush_entries type m (written type k v w) a (frame.0 ∙ h) in
    (
      rest.0
          ∙ ap (λ o. plus o (contribution type m a)) (row_amount-written type k v w a)
          ∙ plus-plus (row_amount w a) (contribution type ((k, v) ∷ []) a) (contribution type m a)
          ∙ ap (plus (row_amount w a)) (share_total-cons (share type a) k v m),
      rest.1,
      rest.2 ∙ frame.1,
      rest.3,
    ))
