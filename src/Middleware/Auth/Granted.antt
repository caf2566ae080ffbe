-- ===== src/Middleware/Auth/Granted.antt =====
-- What a request that passes TokenAuth (middleware/auth.go) is allowed.
use new_api_blues.Prelude.{
  ℕ, String, str_eq, Bool, true, false, not, ◌&&◌, ◌||◌, Option, none, some, ◌≡◌, refl, subst,
  eq_iff, ap, ◌∙◌, arith, Bool-cases, Option-cases, inl, inr, ◌⊎◌,
}
use new_api_blues.Model.Store.{Token, Result, ok, Result-cases}
use new_api_blues.Middleware.Auth.{
  Request, Context, next, head_part, second_part, is_model_in_list, given, text_of, parts_of,
  set_context, check_model, token_auth, context, should_check_model,
}

or_true : (a b : Bool) → b ≡ true → (a || b) ≡ true
or_true true b h = refl
or_true false b h = h

or_empty : (a b : Bool) → (not a || str_eq "" "" || b) ≡ true
or_empty true b = refl
or_empty false b = refl

module _ (validate_user_token : String → Result Token) (in_subnets : String → Bool)
    (user_enabled : ℕ → Result Bool) (banned is_admin : ℕ → Bool) where
  -- What a context that the gate grants may rely on.
  pub record IsGranted (r : Request) (c : Context) (token : Token) : Type 0 where
    pub valid : validate_user_token (head_part (parts_of r)) ≡ ok token
    pub owner : c.user_id ≡ token.user_id
    pub spent_from : c.token_id ≡ token.id
    pub in_subnet : (not (given token.subnet) || in_subnets (text_of token.subnet)) ≡ true
    pub enabled : user_enabled token.user_id ≡ ok true
    pub not_banned : banned token.user_id ≡ false
    pub model_allowed :
        (not (given token.models)
          || str_eq c.request_model ""
          || is_model_in_list c.request_model (text_of token.models))
        ≡ true
    pub channel_allowed :
        (is_admin token.user_id || str_eq r.channel_param (text_of c.specific_channel_id)) ≡ true

  -- What a context says of the token, the model and the channel.
  abbrev Says : Request → Token → String → Context → Type 0
  Says r token model c =
      (c.user_id ≡ token.user_id)
      × (c.token_id ≡ token.id)
      × (c.request_model ≡ model)
      × ((is_admin token.user_id || str_eq r.channel_param (text_of c.specific_channel_id)) ≡ true)

  context-Says :
      (r : Request) (token : Token) (model : String) (named : Option String)
      → (is_admin token.user_id ≡ true) ⊎ (named ≡ none)
      → Says r token model (context r token model named)
  context-Says r token model named (inl admin) = (refl, refl, refl, rw admin refl)
  context-Says r token model named (inr free) = (
    refl,
    refl,
    refl,
    elim (Bool-cases (str_eq r.channel_param "")) [
      | inl e ↦ rw (e, free) (or_true (is_admin token.user_id) _ e)
      | inr e ↦
          rw e
            (or_true (is_admin token.user_id) _ ((eq_iff r.channel_param r.channel_param).1 refl))
    ],
  )

  set_context-Says :
      (r : Request) (token : Token) (model : String) (c : Context)
      → set_context validate_user_token in_subnets user_enabled banned is_admin r token model
        ≡ next c
      → Says r token model c
  unfolding set_context
  set_context-Says r token model c h = elim (Option-cases (second_part (parts_of r))) [
    | inl e ↦
        let same : context r token model none ≡ c = ground (arith, h, e) in
        subst (Says r token model) same (context-Says r token model none (inr refl))
    | inr (channel, e) ↦ elim (Bool-cases (is_admin token.user_id)) [
      | inl admin ↦
          let same : context r token model (some channel) ≡ c = ground (arith, h, e, admin) in
          subst (Says r token model) same (context-Says r token model (some channel) (inl admin))
      | inr other ↦ absurd (ground (arith, h, e, other))
    ]
  ]

  check_model-Says :
      (r : Request) (token : Token) (c : Context)
      → check_model validate_user_token in_subnets user_enabled banned is_admin r token ≡ next c
      → (model : String) × ((not (given token.models)
            || str_eq model ""
            || is_model_in_list model (text_of token.models))
          ≡ true)
        × Says r token model c
  unfolding check_model
  check_model-Says r token c h = elim (Result-cases r.request_model) [
    | inr (x, e) ↦ elim (Bool-cases (should_check_model r.path)) [
      | inl f ↦ absurd (ground (arith, h, e, f))
      | inr f ↦ (
        "",
        or_empty (given token.models) _,
        set_context-Says r token "" c (ground (arith, h, e, f)),
      )
    ]
    | inl (model, e) ↦
        elim (Bool-cases (
          given token.models
          && not (str_eq model "")
          && not (is_model_in_list model (text_of token.models)))) [
            | inl f ↦ absurd (ground (arith, h, e, f))
            | inr f ↦ (
              model,
              ground (arith, f),
              set_context-Says r token model c (ground (arith, h, e, f)),
            )
          ]
  ]

  -- A request that passes the gate has a valid key, comes from an address that the key allows, belongs to a user who
  -- is enabled and not banned, asks for a model that the key allows, and is tied to a channel only for an administrator
  -- or by its path; the context names the key and its owner.
  pub token_auth-IsGranted :
      (r : Request) (c : Context)
      → token_auth validate_user_token in_subnets user_enabled banned is_admin r ≡ next c
      → (token : Token) × IsGranted r c token
  unfolding token_auth
  token_auth-IsGranted r c h = elim (Result-cases (validate_user_token (head_part (parts_of r)))) [
    | inr (x, e) ↦ absurd (ground (arith, h, e))
    | inl (token, e) ↦
        elim (Bool-cases (given token.subnet && not (in_subnets (text_of token.subnet)))) [
          | inl f ↦ absurd (ground (arith, h, e, f))
          | inr f ↦ elim (Result-cases (user_enabled token.user_id)) [
            | inr (x, u) ↦ absurd (ground (arith, h, e, f, u))
            | inl (enabled, u) ↦ elim (Bool-cases (not enabled || banned token.user_id)) [
              | inl b ↦ absurd (ground (arith, h, e, f, u, b))
              | inr b ↦
                  let (model, allowed, says) =
                    check_model-Says r token c (ground (arith, h, e, f, u, b)) in
                  let (owner, spent, asked, channel) = says in
                  let on : enabled ≡ true = ground (arith, b) in
                  (
                    token,
                    record {
                      valid = e;
                      owner = owner;
                      spent_from = spent;
                      in_subnet = ground (arith, f);
                      enabled = u ∙ ap ok on;
                      not_banned = ground (arith, b);
                      model_allowed = rw asked allowed;
                      channel_allowed = channel;
                    },
                  )
            ]
          ]
        ]
  ]
