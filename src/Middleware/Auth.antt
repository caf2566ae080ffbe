-- ===== src/Middleware/Auth.antt =====
-- The gate of the relay, TokenAuth (middleware/auth.go), with isModelInList and shouldCheckModel.
-- What the gate asks of other packages and of gin is an argument: `in_subnets` is IsIpInSubnets for
-- the client's address (it stands on the package net), `banned` the blacklist, `user_enabled`
-- CacheIsUserEnabled, `is_admin` IsAdmin, and the request's parts stand in `Request`.
pub mod Granted
use new_api_blues.Prelude.{
  ℕ, zero, suc, ◌==◌, String, str_eq, starts_with, Bool, true, false, not, ◌&&◌, ◌||◌, Option, none,
  some, List, [], ◌∷◌, if◌then◌else◌,
}
use Prim.Native.Char.{Char, code}
use new_api_blues.Model.Store.{Token, Result, ok, err}
use new_api_blues.Model.Channels.{push_char, split_comma, contains_text}

-- The parts of a request that the gate reads; `request_model` is what getRequestModel returns.
pub record Request : Type 0 where
  pub authorization : String
  pub path : String
  pub request_model : Result String
  pub channel_param : String

-- What the gate sets in the context.
pub record Context : Type 0 where
  pub user_id : ℕ
  pub token_id : ℕ
  pub token_name : String
  pub request_model : String
  pub specific_channel_id : Option String

pub data Gate : Type 0 where
  abort : ℕ → Gate  -- abortWithMessage, by its status code
  next : Context → Gate

-- strings.TrimPrefix
unfoldable pub strip : String → String → Option String
strip String.[] s = some s
strip (String.◌∷◌ c p) String.[] = none
strip (String.◌∷◌ c p) (String.◌∷◌ d s) =
    let rest = strip p s in if code c == code d then rest else none

unfoldable pub trim_prefix : String → String → String
trim_prefix p s = elim (strip p s) [ none ↦ s | some rest ↦ rest ]

-- strings.Split(s, "-"), the first part and the rest.
unfoldable pub split_dash : String → List String
split_dash String.[] = String.[] ∷ []
split_dash (String.◌∷◌ c s) =
    let rest = split_dash s in if code c == b'-' then String.[] ∷ rest else push_char c rest

abbrev pub head_part : List String → String
head_part [] = ""
head_part (part ∷ parts) = part

abbrev pub second_part : List String → Option String
second_part (part ∷ second ∷ parts) = some second
second_part _ = none

unfoldable pub is_model_in_list : String → String → Bool
is_model_in_list model_name models = contains_text model_name (split_comma models)

unfoldable pub should_check_model : String → Bool
should_check_model path =
    starts_with path "/v1/completions"
    || starts_with path "/v1/chat/completions"
    || starts_with path "/v1/images"
    || starts_with path "/v1/audio"

-- A pointer to a list that is not empty.
abbrev pub given : Option String → Bool
given none = false
given (some s) = not (str_eq s "")

abbrev pub text_of : Option String → String
text_of none = ""
text_of (some s) = s

abbrev pub parts_of : Request → List String
parts_of r = split_dash (trim_prefix "sk-" (trim_prefix "Bearer " r.authorization))

-- The context for a channel that the key names; the path's goes first.
abbrev pub context : Request → Token → String → Option String → Context
context r token model named = record {
  user_id = token.user_id;
  token_id = token.id;
  token_name = token.name;
  request_model = model;
  specific_channel_id = if str_eq r.channel_param "" then named else some r.channel_param;
}

module _ (validate_user_token : String → Result Token) (in_subnets : String → Bool)
    (user_enabled : ℕ → Result Bool) (banned is_admin : ℕ → Bool) where
  -- The last steps: the context, and a channel that the key or the path names.
  unfoldable pub set_context : Request → Token → String → Gate
  set_context r token model = elim (second_part (parts_of r)) [
    | none ↦ next (context r token model none)
    | some channel ↦
        if is_admin token.user_id then next (context r token model (some channel)) else abort 403
  ]

  unfoldable pub check_model : Request → Token → Gate
  check_model r token = elim r.request_model [
    | err e ↦ if should_check_model r.path then abort 400 else set_context r token ""
    | ok model ↦
        if given token.models
          && not (str_eq model "")
          && not (is_model_in_list model (text_of token.models))
        then abort 403
        else set_context r token model
  ]

  unfoldable pub token_auth : Request → Gate
  token_auth r = elim (validate_user_token (head_part (parts_of r))) [
    | err e ↦ abort 401
    | ok token ↦
        if given token.subnet && not (in_subnets (text_of token.subnet))
        then abort 403
        else elim (user_enabled token.user_id) [
          | err e ↦ abort 500
          | ok enabled ↦
              if not enabled || banned token.user_id then abort 403 else check_model r token
        ]
  ]
