-- ===== src/Relay/Image.antt =====
-- Image requests: the tables of relay/billing/ratio/image.go and the checks, the price and the
-- settlement of relay/controller/image.go. A ratio is counted in thousandths, which all the
-- table's are. The request's `n` is a Go int.
pub mod Bounds
pub mod Charge
use new_api_blues.Prelude.{
  ℕ, ℤ, pos, ◌+◌, ◌*◌, ◌/◌, String, str_eq, Bool, true, false, not, ◌&&◌, ◌||◌, Option, none, some,
  List, [], ◌∷◌, lookup, if◌then◌else◌, leb_ℤ, eqb_ℤ, ltb_ℤ, ◌==◌, leb, sub64, mul64,
}
use new_api_blues.Model.Store.{M, Result, ok, err, return, attempt, ◌>>=◌, ◌>>◌}
use new_api_blues.Model.Quota.{Config, get_user_quota}
use new_api_blues.Model.Quota
use new_api_blues.Model.Cache.{redis_get, redis_set, cache_update_user_quota}
use new_api_blues.Relay.Text.{Meta}

abbrev pub SizeRatios : Type 0
SizeRatios = List (String × ℕ)

abbrev pub image_size_ratios : List (String × SizeRatios)
image_size_ratios =
    ("dall-e-2", ("256x256", 1000) ∷ ("512x512", 1125) ∷ ("1024x1024", 1250) ∷ [])
    ∷ ("dall-e-3", ("1024x1024", 1000) ∷ ("1024x1792", 2000) ∷ ("1792x1024", 2000) ∷ [])
    ∷ (
      "ali-stable-diffusion-xl",
      ("512x1024", 1000)
          ∷ ("1024x768", 1000)
          ∷ ("1024x1024", 1000)
          ∷ ("576x1024", 1000)
          ∷ ("1024x576", 1000)
          ∷ [],
    )
    ∷ (
      "ali-stable-diffusion-v1.5",
      ("512x1024", 1000)
          ∷ ("1024x768", 1000)
          ∷ ("1024x1024", 1000)
          ∷ ("576x1024", 1000)
          ∷ ("1024x576", 1000)
          ∷ [],
    )
    ∷ ("wanx-v1", ("1024x1024", 1000) ∷ ("720x1280", 1000) ∷ ("1280x720", 1000) ∷ [])
    ∷ (
      "step-1x-medium",
      ("256x256", 1000)
          ∷ ("512x512", 1000)
          ∷ ("768x768", 1000)
          ∷ ("1024x1024", 1000)
          ∷ ("1280x800", 1000)
          ∷ ("800x1280", 1000)
          ∷ [],
    )
    ∷ []

abbrev pub image_generation_amounts : List (String × (ℤ × ℤ))
image_generation_amounts =
    ("dall-e-2", (pos 1, pos 10))
    ∷ ("dall-e-3", (pos 1, pos 1))
    ∷ ("ali-stable-diffusion-xl", (pos 1, pos 4))
    ∷ ("ali-stable-diffusion-v1.5", (pos 1, pos 4))
    ∷ ("wanx-v1", (pos 1, pos 4))
    ∷ ("cogview-3", (pos 1, pos 1))
    ∷ ("step-1x-medium", (pos 1, pos 1))
    ∷ []

abbrev pub image_prompt_length_limitations : List (String × ℕ)
image_prompt_length_limitations =
    ("dall-e-2", 1000)
    ∷ ("dall-e-3", 4000)
    ∷ ("ali-stable-diffusion-xl", 4000)
    ∷ ("ali-stable-diffusion-v1.5", 4000)
    ∷ ("wanx-v1", 4000)
    ∷ ("cogview-3", 833)
    ∷ ("step-1x-medium", 4000)
    ∷ []

abbrev pub image_origin_model_name : List (String × String)
image_origin_model_name =
    ("ali-stable-diffusion-xl", "stable-diffusion-xl")
    ∷ ("ali-stable-diffusion-v1.5", "stable-diffusion-v1.5")
    ∷ []

-- The fields of ImageRequest that are read; the prompt by its length in bytes.
pub record ImageRequest : Type 0 where
  pub model : String
  pub prompt_length : ℕ
  pub n : ℤ
  pub size : String
  pub quality : String

-- The defaults that getImageRequest fills in once the body has been read.
unfoldable pub get_image_request : ImageRequest → ImageRequest
get_image_request r = record r {
  n = if eqb_ℤ r.n (pos 0) then pos 1 else r.n;
  size = if str_eq r.size "" then "1024x1024" else r.size;
  model = if str_eq r.model "" then "dall-e-2" else r.model;
}

unfoldable pub is_valid_image_size : String → String → Bool
is_valid_image_size model size =
    if str_eq model "cogview-3" then true else elim (lookup model image_size_ratios) [
      | none ↦ true
      | some sizes ↦ elim (lookup size sizes) [ none ↦ false | some _ ↦ true ]
    ]

unfoldable pub is_valid_image_prompt_length : String → ℕ → Bool
is_valid_image_prompt_length model prompt_length =
    elim (lookup model image_prompt_length_limitations) [
      | none ↦ true
      | some max_prompt_length ↦ leb prompt_length max_prompt_length
    ]

unfoldable pub is_within_range : String → ℤ → Bool
is_within_range element value = elim (lookup element image_generation_amounts) [
  | none ↦ true
  | some (least, most) ↦ leb_ℤ least value && leb_ℤ value most
]

unfoldable pub get_image_size_ratio : String → String → ℕ
get_image_size_ratio model size = elim (lookup model image_size_ratios) [
  | none ↦ 1000
  | some sizes ↦ elim (lookup size sizes) [ none ↦ 1000 | some ratio ↦ ratio ]
]

pub data ImageError : Type 0 where
  prompt_missing size_not_supported prompt_too_long n_not_within_range : ImageError
  not_prepared insufficient_user_quota do_request_failed response_error : ImageError

unfoldable pub validate_image_request : ImageRequest → Option ImageError
validate_image_request r =
    if r.prompt_length == 0
    then some prompt_missing
    else if not (is_valid_image_size r.model r.size)
    then some size_not_supported
    else if not (is_valid_image_prompt_length r.model r.prompt_length)
    then some prompt_too_long
    else if not (is_within_range r.model r.n)
    then some n_not_within_range
    else none

unfoldable pub get_image_cost_ratio : ImageRequest → ℕ
get_image_cost_ratio r =
    let image_cost_ratio = get_image_size_ratio r.model r.size in
    if str_eq r.quality "hd" && str_eq r.model "dall-e-3"
    then (if str_eq r.size "1024x1024" then image_cost_ratio * 2 else image_cost_ratio * 3 / 2)
    else image_cost_ratio

-- getMappedModelName: a missing key and an empty value both leave the name.
unfoldable pub get_mapped_model_name : String → Option (List (String × String)) → String × Bool
get_mapped_model_name model_name none = (model_name, false)
get_mapped_model_name model_name (some mapping) = elim (lookup model_name mapping) [
  | none ↦ (model_name, false)
  | some mapped ↦ if str_eq mapped "" then (model_name, false) else (mapped, true)
]

-- What the adaptor and the upstream do: whether an adaptor was found and the bodies were built,
-- the request was sent, the status is 200 or 201 (or there is no response), and the response was
-- passed on.
pub record ImageUpstream : Type 0 where
  pub prepared : Bool
  pub sent : Bool
  pub status_ok : Bool
  pub passed_on : Bool

pub data ImageRelayed : Type 0 where
  done : ImageRelayed
  failed : ImageError → ImageRelayed

abbrev pub ok_or_zero : Result ℤ → ℤ
ok_or_zero (ok quota) = quota
ok_or_zero (err e) = pos 0

-- int64(ratio * imageCostRatio * 1000) is the parameter `scale` of the cost ratio.
unfoldable pub image_quota : (ℕ → ℤ) → Bool → ImageRequest → ℤ
image_quota scale is_replicate r =
    if is_replicate
    then scale (get_image_cost_ratio r)
    else mul64 (scale (get_image_cost_ratio r)) r.n

module _ (config : Config) where
  -- CacheGetUserQuota where its error is dropped: a failed write to Redis leaves the quota read.
  unfoldable pub fetch_user_quota : ℕ → M ℤ
  fetch_user_quota id = do
    quota ← attempt (get_user_quota id)
    elim quota [ err e ↦ return (pos 0) | ok q ↦ (do attempt (redis_set id q); return q) ]

  unfoldable pub user_quota_of : ℕ → M ℤ
  user_quota_of id =
      if config.redis_enabled
      then (do
        answer ← attempt (redis_get id)
        elim answer [
          | err e ↦ fetch_user_quota id
          | ok quota ↦
              if leb_ℤ quota config.pre_consumed_quota then fetch_user_quota id else return quota
        ])
      else (do answer ← attempt (get_user_quota id); return (ok_or_zero answer))

  -- The deferred settlement.
  unfoldable pub settle_image : Meta → ℤ → M (Unit {0})
  settle_image meta quota = do
    attempt (Quota.post_consume_token_quota config meta.token_id quota)
    attempt (cache_update_user_quota config meta.user_id)
    if eqb_ℤ quota (pos 0) then return tt else do
      Quota.update_user_used_quota_and_request_count config meta.user_id quota
      Quota.update_channel_used_quota config meta.channel_id quota

  -- `body` is the request as it was read, `mapping` the channel's model mapping.
  unfoldable pub relay_image_helper :
      Meta
      → (ℕ → ℤ)
      → Bool
      → Option (List (String × String))
      → ImageRequest
      → ImageUpstream
      → M ImageRelayed
  relay_image_helper meta scale is_replicate mapping body up =
      let read = get_image_request body in
      let r = record read { model = (get_mapped_model_name read.model mapping).0 } in
      let quota = image_quota scale is_replicate r in
      elim (validate_image_request r) [
        | some e ↦ return (failed e)
        | none ↦ if not up.prepared then return (failed not_prepared) else (do
          user_quota ← user_quota_of meta.user_id
          if ltb_ℤ (sub64 user_quota quota) (pos 0)
              then return (failed insufficient_user_quota)
              else if not up.sent
              then return (failed do_request_failed)
              else (do
                if up.status_ok then settle_image meta quota else return tt
                return (if up.passed_on then done else failed response_error)))
      ]
