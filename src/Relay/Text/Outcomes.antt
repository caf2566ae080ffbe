-- ===== src/Relay/Text/Outcomes.antt =====
-- How a text request ends, and what it has cost then, on a database without faults and without
-- Redis.
use new_api_blues.Prelude.{
  ℕ, ℤ, pos, neg, neg64, Bool, true, false, some, [], ◌≡◌, refl, ap, ◌∙◌, arith, ◌<◌, ◌+◌, ◌*◌,
  two63, inl, inr,
}
use new_api_blues.Model.Store.{World, Token, ok, token_row}
use new_api_blues.Model.Quota.{Config, pre_consume_token_quota, post_consume_token_quota}
use new_api_blues.Model.Balance.Account.{Account, user_balance, balance, plus}
use new_api_blues.Model.Balance.Pending.{IsBounded}
use new_api_blues.Model.Settle.Refund.{pre_consume_inv, pre_consume-refund, pre_calls_owner}
use new_api_blues.Relay.Text.{
  Meta, Price, RelayError, Upstream, error_status, bad_answer, no_adaptor, not_converted, not_sent,
  invalid_api_type, convert_request_failed, do_request_failed, answered, done, failed,
  get_pre_consumed_quota, pre_consume_quota, return_pre_consumed_quota, finish, relay_text_helper,
}
use new_api_blues.Relay.Text.Settled.{pre_consume_quota_cases}

abbrev pub gives_back : Upstream → Bool
gives_back error_status = true
gives_back bad_answer = true
gives_back _ = false

module _ (config : Config) (off : config.redis_enabled ≡ false) (meta : Meta) (p : Price) where
  return_pre_consumed_quota-zero :
      (w : World) → return_pre_consumed_quota config (pos 0) meta.token_id w ≡ (ok tt, w)
  unfolding return_pre_consumed_quota
  return_pre_consumed_quota-zero w = refl

  return_pre_consumed_quota-pos :
      (q : ℕ) (w : World)
      → 0 < q
      → return_pre_consumed_quota config (pos q) meta.token_id w
        ≡ (ok tt, (post_consume_token_quota config meta.token_id (neg64 (pos q)) w).1)
  unfolding return_pre_consumed_quota
  return_pre_consumed_quota-pos q w h = ground arith

  finish_given_back :
      (pre : ℤ) (upstream : Upstream) (w : World)
      → gives_back upstream ≡ true
      → (finish config meta p pre upstream w).1
        ≡ (return_pre_consumed_quota config pre meta.token_id w).1
  unfolding finish return_pre_consumed_quota
  finish_given_back pre error_status w h = ground arith
  finish_given_back pre _ w h = ground arith

  -- On a database without faults and without Redis, for a request whose quota q beforehand is not
  -- negative and, four times over, fits in 64 bits beside what is pending: when the upstream
  -- answers with an error status, or its answer cannot be passed on, every balance is afterwards
  -- what it was before the request, whether quota was taken beforehand or not.
  pub relay_text_helper-refund :
      (prompt_tokens max_tokens : ℤ) (upstream : Upstream) (q m : ℕ) (w : World) (a : Account)
      → w.faults ≡ []
      → IsBounded m w.pending
      → m + 4 * q < two63
      → get_pre_consumed_quota config p prompt_tokens max_tokens ≡ pos q
      → gives_back upstream ≡ true
      → balance (relay_text_helper config meta p prompt_tokens max_tokens upstream w).1 a
        ≡ balance w a
  unfolding relay_text_helper
  relay_text_helper-refund prompt_tokens max_tokens upstream q m w a h hb small priced back =
      elim (pre_consume_quota_cases config off meta q w h) [
        | inl (e', refused) ↦ rw (priced, refused)
        | inr (inl trusted) ↦ rw (
          priced,
          trusted,
          finish_given_back (pos 0) upstream w back,
          return_pre_consumed_quota-zero w,
        )
        | inr (inr (positive, taken, charged)) ↦
            let v : World = (pre_consume_token_quota config meta.token_id (pos q) w).1 in
            rw
              (
                priced,
                charged,
                finish_given_back (pos q) upstream v back,
                return_pre_consumed_quota-pos q v positive,
              )
              (pre_consume-refund config meta.token_id q m w a h hb small taken).0
      ]

-- The exits of the relay that give nothing back.
abbrev pub keeps_charge : Upstream → Bool
keeps_charge no_adaptor = true
keeps_charge not_converted = true
keeps_charge not_sent = true
keeps_charge _ = false

finish_kept :
    (config : Config) (meta : Meta) (p : Price) (pre : ℤ) (upstream : Upstream) (w : World)
    → keeps_charge upstream ≡ true
    → (e : RelayError) × (finish config meta p pre upstream w ≡ (ok (failed e), w))
unfolding finish
finish_kept config meta p pre no_adaptor w h = (invalid_api_type, refl)
finish_kept config meta p pre not_converted w h = (convert_request_failed, refl)
finish_kept config meta p pre not_sent w h = (do_request_failed, refl)
finish_kept config meta p pre error_status w h = absurd (ground arith)
finish_kept config meta p pre bad_answer w h = absurd (ground arith)
finish_kept config meta p pre (answered u) w h = absurd (ground arith)

-- On a database without faults and without Redis, and while the amounts fit in 64 bits: a request
-- that was charged q > 0 beforehand and then failed before it was sent (no adaptor, the body not
-- converted, the connection failed) is answered with an error and has still cost the token's owner
-- the whole q.
pub relay_text_helper-leak :
    (config : Config) (meta : Meta) (p : Price) (prompt_tokens max_tokens : ℤ) (upstream : Upstream)
    (q m : ℕ) (w : World)
    → config.redis_enabled ≡ false
    → w.faults ≡ []
    → IsBounded m w.pending
    → m + 4 * q < two63
    → 0 < q
    → get_pre_consumed_quota config p prompt_tokens max_tokens ≡ pos q
    → (pre_consume_quota config meta (pos q) w).0 ≡ ok (done (pos q))
    → keeps_charge upstream ≡ true
    → let after = relay_text_helper config meta p prompt_tokens max_tokens upstream w in
      (e : RelayError) × (t : Token) × (after.0 ≡ ok (failed e))
      × (token_row w meta.token_id ≡ some t)
      × (balance after.1 (user_balance t.user_id)
          ≡ plus (balance w (user_balance t.user_id)) (neg (pos q)))
unfolding relay_text_helper
relay_text_helper-leak config meta p prompt_tokens max_tokens upstream q m w off h hb small positive
      priced went kept =
    elim (pre_consume_quota_cases config off meta q w h) [
      | inl (e, refused) ↦ absurd (ground (arith, refused, went))
      | inr (inl trusted) ↦ absurd (ground (arith, trusted, went))
      | inr (inr (_, taken, charged)) ↦
          let v : World = (pre_consume_token_quota config meta.token_id (pos q) w).1 in
          let (t, found, _, _, calls, _) = pre_consume_inv config meta.token_id q w h taken in
          let (e, ended) = finish_kept config meta p (pos q) upstream v kept in
          (
            e,
            t,
            rw (priced, charged, ended),
            found,
            rw (priced, charged, ended)
                (ap (λ x. balance x (user_balance t.user_id)) calls
                  ∙ pre_calls_owner config meta.token_id t.user_id t.unlimited_quota q m w h hb
                      small),
          )
    ]
