-- ===== src/Model/Settle/Step.antt =====
-- One call on a database without faults: what it moves and what it leaves alone.
use new_api_blues.Prelude.{
  ℕ, ℤ, pos, Bool, [], ◌∷◌, ◌≡◌, refl, sym, ap, ap₂, ◌∙◌, arith, ◌<◌, ◌+◌, two63, List, Option,
  none, some, Bool-cases, inl, inr,
}
use new_api_blues.Model.Store.{
  World, Token, ok, token_row, find_row, update_rows, token_id_of, statement_ok, write_user,
  write_token,
}
use new_api_blues.Model.Batch.{token_quota, BatchUpdateType, add_new_record}
use new_api_blues.Model.Rows
use new_api_blues.Model.Quota.{Config}
use new_api_blues.Model.Quota
use new_api_blues.Model.Balance.Account.{
  Account, user_balance, plus_swap, balance, row_amount, pending_amount, plus,
}
use new_api_blues.Model.Balance.Pending.{IsBounded, IsBounded-mono}
use new_api_blues.Model.Balance.Flush.{written}
use new_api_blues.Model.Balance.Calls.{
  Call, increase_user, decrease_user, increase_token, decrease_token, exec, Delta, deltas,
  deltas_total, worth, worth_lem,
}
use new_api_blues.Model.Balance.Modes.{
  record_all, write_all, magnitude, batched-record_all, direct-write_all,
}
use new_api_blues.Model.Balance.Refinement.{
  deltas_size, deltas_size-le, record_all-balance, record_all-faults, write_all-balance,
}

-- Whose token it is, and whether it is unlimited.
abbrev pub terms_of : Option Token → Option (ℕ × Bool)
terms_of none = none
terms_of (some t) = some (t.user_id, t.unlimited_quota)

terms_of-update_rows :
    (id k : ℕ) (f : Token → Token) (xs : List Token)
    → ((t : Token) → (f t).id ≡ t.id)
    → ((t : Token) → (f t).user_id ≡ t.user_id)
    → ((t : Token) → (f t).unlimited_quota ≡ t.unlimited_quota)
    → terms_of (find_row token_id_of id (update_rows token_id_of k f xs))
      ≡ terms_of (find_row token_id_of id xs)
unfolding find_row update_rows
terms_of-update_rows id k f [] same owner flag = refl
terms_of-update_rows id k f (x ∷ xs) same owner flag =
    ground (arith, same x, owner x, flag x, terms_of-update_rows id k f xs same owner flag)

terms-written :
    (type : BatchUpdateType) (k : ℕ) (v : ℤ) (w : World) (id : ℕ)
    → terms_of (token_row (written type k v w) id) ≡ terms_of (token_row w id)
terms-written token_quota k v w id =
    terms_of-update_rows id k _ w.tokens (λ t. refl) (λ t. refl) (λ t. refl)
terms-written _ k v w id = refl

terms-write_all :
    (ds : List Delta) (w : World) (id : ℕ)
    → terms_of (token_row (write_all ds w) id) ≡ terms_of (token_row w id)
terms-write_all [] w id = refl
terms-write_all ((type, k, v) ∷ ds) w id =
    terms-write_all ds (written type k v w) id ∙ terms-written type k v w id

terms-record_all :
    (ds : List Delta) (w : World) (id : ℕ)
    → terms_of (token_row (record_all ds w) id) ≡ terms_of (token_row w id)
terms-record_all [] w id = refl
terms-record_all ((type, k, v) ∷ ds) w id =
    terms-record_all ds (add_new_record type k v w).1 id ∙ (unfold add_new_record in refl)

-- A call moves every balance by its worth and keeps the terms of every token.
pub record Moves (m : ℕ) (w v : World) (c : Call) : Type 0 where
  pub by_worth : (a : Account) → balance v a ≡ plus (balance w a) (worth c a)
  pub bounded : IsBounded (m + magnitude c) v.pending
  pub no_faults : v.faults ≡ []
  pub same_terms : (id : ℕ) → terms_of (token_row v id) ≡ terms_of (token_row w id)

pub exec-Moves :
    (config : Config) (c : Call) (m : ℕ) (w : World)
    → w.faults ≡ []
    → IsBounded m w.pending
    → m + magnitude c < two63
    → Moves m w (exec config c w).1 c
exec-Moves config c m w h hb small = elim (Bool-cases config.batch_update_enabled) [
  | inl on ↦
      let e = batched-record_all config c w on (omega arith) in
      let size = deltas_size-le c in
      let moved = record_all-balance (deltas c) m w hb (omega arith) in
      rw e (record {
        by_worth = λ a. moved.0 a ∙ ap (plus (balance w a)) (sym (worth_lem c a));
        bounded =
            IsBounded-mono (m + deltas_size (deltas c)) (m + magnitude c)
              (record_all (deltas c) w).pending (omega arith) moved.1;
        no_faults = record_all-faults (deltas c) w ∙ h;
        same_terms = terms-record_all (deltas c) w;
      })
  | inr off ↦
      let e = direct-write_all config c w off h in
      let moved = write_all-balance (deltas c) w in
      let quiet = moved (user_balance 0) in
      rw e (record {
        by_worth = λ a.
            ap₂ (λ o s. plus o (pending_amount s a)) (moved a).0 (moved a).1
            ∙ plus_swap (row_amount w a) (deltas_total (deltas c) a) (pending_amount w.pending a)
            ∙ ap (plus (balance w a)) (sym (worth_lem c a));
        bounded = rw quiet.1 (IsBounded-mono m (m + magnitude c) w.pending (omega arith) hb);
        no_faults = quiet.2 ∙ h;
        same_terms = terms-write_all (deltas c) w;
      })
]

-- On a database without faults a call with an amount that is not negative succeeds.
pub exec_ok :
    (config : Config) (id q : ℕ) (w : World)
    → w.faults ≡ []
    → ((exec config (increase_user id (pos q)) w).0 ≡ ok tt)
      × ((exec config (decrease_user id (pos q)) w).0 ≡ ok tt)
      × ((exec config (increase_token id (pos q)) w).0 ≡ ok tt)
      × ((exec config (decrease_token id (pos q)) w).0 ≡ ok tt)
unfolding exec Quota.increase_user_quota Quota.decrease_user_quota Quota.increase_token_quota
    Quota.decrease_token_quota write_user write_token Rows.increase_user_quota
    Rows.decrease_user_quota Rows.increase_token_quota Rows.decrease_token_quota add_new_record
exec_ok config id q w h = (
  ground (arith, statement_ok w h),
  ground (arith, statement_ok w h),
  ground (arith, statement_ok w h),
  ground (arith, statement_ok w h),
)

pub decrease_token-faults :
    (config : Config) (id : ℕ) (q : ℤ) (w : World)
    → w.faults ≡ []
    → (exec config (decrease_token id q) w).1.faults ≡ []
unfolding exec Quota.decrease_token_quota write_token Rows.decrease_token_quota add_new_record
decrease_token-faults config id q w h = ground (arith, statement_ok w h)
