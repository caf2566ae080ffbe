-- ===== src/Relay/Image/Charge.antt =====
-- Who pays for an image, and when (relay/controller/image.go).
use new_api_blues.Prelude.{
  ℕ, ℤ, pos, neg, Bool, true, false, not, Option, none, some, [], ◌≡◌, refl, sym, ap, ap₂, ◌∙◌,
  arith, ◌<◌, ◌+◌, ◌*◌, two63, if◌then◌else◌, inl, inr, Option-cases, Bool-cases, ◌==◌, eqb_ℤ,
  ltb_ℤ, sub64, ◌&&◌, List, String,
}
use new_api_blues.Model.Store.{World, Token, token_row, user_row, ok, statement_ok}
use new_api_blues.Model.Quota.{Config, post_consume_token_quota, get_user_quota, quota_or_zero}
use new_api_blues.Model.Quota
use new_api_blues.Model.Batch.{add_new_record}
use new_api_blues.Model.Cache.{cache_update_user_quota}
use new_api_blues.Model.Balance.Account.{user_balance, balance, plus, plus_zero}
use new_api_blues.Model.Balance.Calls.{exec, use_user, use_channel, worth}
use new_api_blues.Model.Balance.Pending.{IsBounded}
use new_api_blues.Model.Settle.Step.{exec-Moves}
use new_api_blues.Model.Settle.Post.{size_of, post_consume-balance, post_consume_state}
use new_api_blues.Relay.Text.{Meta}
use new_api_blues.Relay.Image.{
  settle_image, user_quota_of, ImageRequest, ImageUpstream, get_image_request,
  get_mapped_model_name, image_quota, validate_image_request, relay_image_helper, ImageError,
}

abbrev pub is_none : Option ImageError → Bool
is_none none = true
is_none (some e) = false

use_user_ok :
    (config : Config) (id : ℕ) (q : ℤ) (w : World)
    → (Quota.update_user_used_quota_and_request_count config id q w).0 ≡ ok tt
unfolding Quota.update_user_used_quota_and_request_count add_new_record
use_user_ok config id q w = ground arith

use_user_worth : (id o : ℕ) (q : ℤ) → worth (use_user id q) (user_balance o) ≡ pos 0
unfolding worth
use_user_worth id o q = refl

use_channel_worth : (id o : ℕ) (q : ℤ) → worth (use_channel id q) (user_balance o) ≡ pos 0
unfolding worth
use_channel_worth id o q = refl

module _ (config : Config) (off : config.redis_enabled ≡ false) (meta : Meta) where
  settle_image_calls :
      (quota : ℤ) (w : World)
      → let v = (post_consume_token_quota config meta.token_id quota w).1 in
        (settle_image config meta quota w).1 ≡ (
          if eqb_ℤ quota (pos 0)
          then v
          else (exec config
              (use_channel meta.channel_id quota)
              (exec config (use_user meta.user_id quota) v).1).1)
  unfolding settle_image cache_update_user_quota exec
  settle_image_calls quota w =
      let v : World = (post_consume_token_quota config meta.token_id quota w).1 in
      ground (arith, off, use_user_ok config meta.user_id quota v)

  settle_image_ok : (quota : ℤ) (w : World) → (settle_image config meta quota w).0 ≡ ok tt
  unfolding settle_image cache_update_user_quota Quota.update_channel_used_quota add_new_record
  settle_image_ok quota w =
      let v : World = (post_consume_token_quota config meta.token_id quota w).1 in
      ground (arith, off, use_user_ok config meta.user_id quota v)

  user_quota_of_lem :
      (id : ℕ) (w : World)
      → w.faults ≡ []
      → user_quota_of config id w ≡ (ok (quota_or_zero (user_row w id)), w)
  unfolding user_quota_of get_user_quota
  user_quota_of_lem id w h = ground (arith, off, statement_ok w h)

  -- Whether the request passes every check and is answered with a success.
  abbrev pub is_paid : ImageRequest → ℤ → ImageUpstream → World → Bool
  is_paid r quota up w =
      is_none (validate_image_request r)
      && up.prepared
      && not (ltb_ℤ (sub64 (quota_or_zero (user_row w meta.user_id)) quota) (pos 0))
      && up.sent
      && up.status_ok

  module _ (scale : ℕ → ℤ) (is_replicate : Bool) (mapping : Option (List (String × String)))
      (body : ImageRequest) (up : ImageUpstream) where
    abbrev pub request : ImageRequest
    request = record (get_image_request body) {
      model = (get_mapped_model_name (get_image_request body).model mapping).0;
    }

    -- An image request changes nothing unless it passes every check and is answered with a success; then it is settled.
    relay_image_helper_cases :
        (w : World)
        → w.faults ≡ []
        → (relay_image_helper config meta scale is_replicate mapping body up w).1 ≡ (
            if is_paid request (image_quota scale is_replicate request) up w
            then (settle_image config meta (image_quota scale is_replicate request) w).1
            else w)
    unfolding relay_image_helper
    relay_image_helper_cases w h = elim (Option-cases (validate_image_request request)) [
      | inr (x, e) ↦ rw (relay_image_helper, e) refl
      | inl e ↦ ground (
        arith,
        e,
        user_quota_of_lem meta.user_id w h,
        settle_image_ok (image_quota scale is_replicate request) w,
      )
    ]

  settle_image_owner :
      (quota : ℤ) (m : ℕ) (w : World) (t : Token)
      → w.faults ≡ []
      → IsBounded m w.pending
      → m + 4 * size_of quota + 2 < two63
      → (meta.token_id == 0) ≡ false
      → token_row w meta.token_id ≡ some t
      → balance (settle_image config meta quota w).1 (user_balance t.user_id)
        ≡ plus (balance w (user_balance t.user_id)) (neg quota)
  settle_image_owner quota m w t h hb small nonzero found =
      let v : World = (post_consume_token_quota config meta.token_id quota w).1 in
      let fit : m + 2 * size_of quota < two63 = omega (arith, small) in
      let paid = (post_consume-balance config meta.token_id quota m w t h hb fit nonzero found).0 in
      let (bounded, quiet) =
        post_consume_state config meta.token_id quota m w t h hb fit nonzero found in
      let one =
        exec-Moves config (use_user meta.user_id quota) (m + 2 * size_of quota) v quiet bounded
          (omega (arith, small)) in
      let w1 : World = (exec config (use_user meta.user_id quota) v).1 in
      let two =
        exec-Moves config (use_channel meta.channel_id quota)
          (m + 2 * size_of quota + (size_of quota + 1)) w1 one.no_faults one.bounded
          (omega (arith, small)) in
      elim (Bool-cases (eqb_ℤ quota (pos 0))) [
        | inl e ↦ rw (settle_image_calls quota w, e) paid
        | inr e ↦
            rw (settle_image_calls quota w, e)
              (two.by_worth (user_balance t.user_id)
                ∙ ap₂ plus
                    (one.by_worth (user_balance t.user_id)
                      ∙ ap₂ plus paid (use_user_worth meta.user_id t.user_id quota)
                      ∙ plus_zero _)
                    (use_channel_worth meta.channel_id t.user_id quota)
                ∙ plus_zero _)
      ]

  -- On a database without faults and without Redis, for a token that exists, and while the amounts
  -- fit in 64 bits: an image request costs the token's owner exactly its price when it passes
  -- every check and is answered with a success, and nothing in any other case.
  pub relay_image_helper-charge :
      (scale : ℕ → ℤ) (is_replicate : Bool) (mapping : Option (List (String × String)))
      (body : ImageRequest) (up : ImageUpstream) (quota : ℤ) (m : ℕ) (w : World) (t : Token)
      → quota ≡ image_quota scale is_replicate (request scale is_replicate mapping body up)
      → w.faults ≡ []
      → IsBounded m w.pending
      → m + 4 * size_of quota + 2 < two63
      → (meta.token_id == 0) ≡ false
      → token_row w meta.token_id ≡ some t
      → balance
          (relay_image_helper config meta scale is_replicate mapping body up w).1
          (user_balance t.user_id)
        ≡ (if is_paid (request scale is_replicate mapping body up) quota up w
            then plus (balance w (user_balance t.user_id)) (neg quota)
            else balance w (user_balance t.user_id))
  relay_image_helper-charge scale is_replicate mapping body up quota m w t priced h hb small nonzero
        found =
      let r = request scale is_replicate mapping body up in
      let cases =
        relay_image_helper_cases scale is_replicate mapping body up w h
        ∙ ap (λ q. if is_paid r q up w then (settle_image config meta q w).1 else w) (sym priced) in
      elim (Bool-cases (is_paid r quota up w)) [
        | inl e ↦ rw (cases, e) (settle_image_owner quota m w t h hb small nonzero found)
        | inr e ↦ rw (cases, e) refl
      ]
