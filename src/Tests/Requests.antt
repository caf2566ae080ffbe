-- ===== src/Tests/Requests.antt =====
-- The theorems on requests (relay/controller, middleware) at concrete inputs.
use new_api_blues.Prelude.{
  ℕ, add64, sub64, mul64, wrap64, ◌+ℤ◌, ◌-ℤ◌, ◌*ℤ◌, lookup, ◌/◌, pos, neg, Bool, true, false,
  String, str_eq, Option, none, some, [], ◌∷◌, ◌≡◌, refl, arith, ◌≤◌, ◌↔◌, if◌then◌else◌, ◌==◌,
}
use new_api_blues.Model.Store.{Token, Result, ok, err, message, statement, find_row, token_row}
use new_api_blues.Model.Quota.{Config, get_token_by_id, get_user_quota, pre_consume_token_quota}
use new_api_blues.Model.Quota
use new_api_blues.Model.Rows
use new_api_blues.Model.Batch.{user_quota}
use new_api_blues.Model.Cache.{cache_get_user_quota, cache_decrease_user_quota}
use new_api_blues.Model.Balance.Account.{user_balance, token_remain, balance, plus, no_pending}
use new_api_blues.Model.Balance.Pending.{IsBounded}
use new_api_blues.Model.Access.{validate_user_token}
use new_api_blues.Model.Access.Usable.{validate_user_token_iff, known_token, is_usable}
use new_api_blues.Relay.Text.{
  get_pre_consumed_quota, pre_consume_quota, charge_beforehand, relay_text_helper, bad_answer,
  not_sent, RelayError, done, failed,
}
use new_api_blues.Relay.Text.Outcomes.{relay_text_helper-refund, relay_text_helper-leak}
use new_api_blues.Relay.Image.{
  ImageRequest, ImageUpstream, relay_image_helper, get_image_cost_ratio, image_quota,
  get_image_size_ratio, get_image_request, get_mapped_model_name,
}
use new_api_blues.Relay.Image.Bounds.{get_image_cost_ratio_bounds}
use new_api_blues.Relay.Image.Charge.{relay_image_helper-charge, is_paid, request}
use new_api_blues.Relay.Retry.{relay}
use new_api_blues.Relay.Retry.Trace.{
  relay_trace, relay-specific, attempted, answers, count, IsConsecutive, IsReported,
}
use new_api_blues.Middleware.Auth
use new_api_blues.Middleware.Auth.{Request, Context, token_auth, next, check_model, set_context}
use new_api_blues.Middleware.Auth.Granted.{token_auth-IsGranted, IsGranted}
use new_api_blues.Tests.Data.{key_one, world, direct, meta, price}

none_pending : IsBounded 0 no_pending
none_pending user_quota = tt
none_pending _ = tt

priced : get_pre_consumed_quota direct price (pos 10) (pos 5) ≡ pos 20
unfolding get_pre_consumed_quota add64 wrap64 ◌+ℤ◌
priced = refl

relay_text_helper-refund_example :
    balance
      (relay_text_helper direct meta price (pos 10) (pos 5) bad_answer world).1
      (token_remain 3)
    ≡ balance world (token_remain 3)
relay_text_helper-refund_example =
    relay_text_helper-refund direct refl meta price (pos 10) (pos 5) bad_answer 20 0 world
      (token_remain 3) refl none_pending (omega arith) priced refl

charged : (pre_consume_quota direct meta (pos 20) world).0 ≡ ok (done (pos 20))
unfolding pre_consume_quota charge_beforehand cache_get_user_quota cache_decrease_user_quota
    pre_consume_token_quota get_token_by_id get_user_quota statement find_row
    Quota.decrease_token_quota Quota.decrease_user_quota Rows.decrease_token_quota
    Rows.decrease_user_quota sub64 mul64 wrap64 ◌-ℤ◌ ◌*ℤ◌
charged = refl

relay_text_helper-leak_example :
    let after = relay_text_helper direct meta price (pos 10) (pos 5) not_sent world in
    (e : RelayError) × (t : Token) × (after.0 ≡ ok (failed e))
    × (token_row world 3 ≡ some t)
    × (balance after.1 (user_balance t.user_id)
        ≡ plus (balance world (user_balance t.user_id)) (neg (pos 20)))
relay_text_helper-leak_example =
    relay_text_helper-leak direct meta price (pos 10) (pos 5) not_sent 20 0 world refl refl
      none_pending (omega arith) (omega arith) priced charged refl

abbrev cat : ImageRequest
cat = record {
  model = "dall-e-3";
  prompt_length = 12;
  n = pos 1;
  size = "1024x1792";
  quality = "hd";
}

abbrev answered_well : ImageUpstream
answered_well = record { prepared = true; sent = true; status_ok = true; passed_on = true }

get_image_cost_ratio_bounds_example :
    (1000 ≤ get_image_cost_ratio cat) × (get_image_cost_ratio cat ≤ 3000)
get_image_cost_ratio_bounds_example = get_image_cost_ratio_bounds cat

key_found : token_row world 3 ≡ some key_one
unfolding find_row
key_found = refl

abbrev asked : ImageRequest
asked = request direct refl meta (λ c. pos (c / 100)) false none cat answered_well

image_priced : pos 30 ≡ image_quota (λ c. pos (c / 100)) false asked
unfolding image_quota get_image_cost_ratio get_image_size_ratio get_image_request
    get_mapped_model_name lookup mul64 wrap64 ◌*ℤ◌
image_priced = refl

relay_image_helper-charge_example :
    balance
      (relay_image_helper direct meta (λ c. pos (c / 100)) false none cat answered_well world).1
      (user_balance 7)
    ≡ (if is_paid direct refl meta asked (pos 30) answered_well world
        then plus (balance world (user_balance 7)) (neg (pos 30))
        else balance world (user_balance 7))
relay_image_helper-charge_example =
    relay_image_helper-charge direct refl meta (λ c. pos (c / 100)) false none cat answered_well
      (pos 30) 0 world key_one image_priced refl none_pending (omega arith) refl key_found

abbrev flaky : ℕ → ℕ → Option ℕ
flaky n channel = if channel == 1 then some 500 else none

abbrev second_channel : ℕ → Bool → Option ℕ
second_channel i ignore = some 2

relay_trace_example :
    let es = relay flaky second_channel (λ c s. false) false 3 1 in
    (count (attempted es) ≤ 4) × IsConsecutive (attempted es) × (answers es ≡ 1) × IsReported es
relay_trace_example = relay_trace flaky second_channel (λ c s. false) false 3 1

relay-specific_example : attempted (relay flaky second_channel (λ c s. false) true 3 1) ≡ 1 ∷ []
relay-specific_example = relay-specific flaky second_channel (λ c s. false) 3 1

validate_user_token_iff_example :
    ((validate_user_token direct (λ k. none) "abc" world).0 ≡ ok key_one) ↔ (
      (str_eq "abc" "" ≡ false)
      × (known_token direct (λ k. none) "abc" world ≡ some key_one)
      × (is_usable world.now key_one ≡ true))
validate_user_token_iff_example =
    validate_user_token_iff direct (λ k. none) "abc" key_one world refl

abbrev chat : Request
chat = record {
  authorization = "Bearer sk-abc";
  path = "/v1/chat/completions";
  request_model = ok "gpt-4";
  channel_param = "";
}

abbrev by_key : String → Result Token
by_key k = if str_eq k "abc" then ok key_one else err (message "Invalid token")

abbrev chat_context : Context
chat_context = record {
  user_id = 7;
  token_id = 3;
  token_name = "one";
  request_model = "gpt-4";
  specific_channel_id = none;
}

passes :
    token_auth by_key (λ s. false) (λ u. ok true) (λ u. false) (λ u. false) chat ≡ next chat_context
unfolding token_auth check_model set_context Auth.split_dash Auth.trim_prefix Auth.strip
passes = refl

token_auth-IsGranted_example :
    (token : Token) × IsGranted by_key
      (λ s. false)
      (λ u. ok true)
      (λ u. false)
      (λ u. false)
      chat
      chat_context
      token
token_auth-IsGranted_example =
    token_auth-IsGranted by_key (λ s. false) (λ u. ok true) (λ u. false) (λ u. false) chat
      chat_context passes
