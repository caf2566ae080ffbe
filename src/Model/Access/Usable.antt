-- ===== src/Model/Access/Usable.antt =====
-- The keys that ValidateUserToken accepts (model/token.go).
use new_api_blues.Prelude.{
  ℕ, ℤ, pos, negsuc, String, str_eq, Bool, true, false, ◌&&◌, ◌||◌, Option, none, some, [], ◌==◌,
  if◌then◌else◌, ltb_ℤ, leb_ℤ, eqb_ℤ, ◌≡◌, refl, ap, subst, ◌∙◌, arith, Bool-cases, Option-cases,
  inl, inr, ◌↔◌,
}
use new_api_blues.Model.Store.{
  World, Result-cases, Token, ok, err, Error, message, record_not_found, statement_ok,
}
use new_api_blues.Model.Quota.{Config}
use new_api_blues.Model.Access.{
  token_status_enabled, find_token, get_token_by_key, cache_get_token_by_key, set_token_status,
  validate_found, validate_user_token, token_status_expired, token_status_exhausted,
}

-- The specification: enabled, not past its time, and with quota left.
abbrev pub is_usable : ℤ → Token → Bool
is_usable now t =
    t.status == token_status_enabled
    && (eqb_ℤ t.expired_time (negsuc 0) || leb_ℤ now t.expired_time)
    && (t.unlimited_quota || ltb_ℤ (pos 0) t.remain_quota)

abbrev pub known_token : Config → (String → Option Token) → String → World → Option Token
known_token config redis_token key w =
    if config.redis_enabled
    then elim (redis_token key) [ none ↦ find_token key w.tokens | some t ↦ some t ]
    else find_token key w.tokens

module _ (config : Config) (redis_token : String → Option Token) where
  cache_get_lem :
      (key : String) (w : World)
      → w.faults ≡ []
      → cache_get_token_by_key config redis_token key w
        ≡ elim (known_token config redis_token key w) [
          | none ↦ (err record_not_found, w)
          | some t ↦ (ok t, w)
        ]
  unfolding cache_get_token_by_key get_token_by_key
  cache_get_lem key w h = elim (Bool-cases config.redis_enabled) [
    | inr off ↦ elim (Option-cases (find_token key w.tokens)) [
      | inl e ↦ ground (arith, statement_ok w h, off, e)
      | inr (t, e) ↦ ground (arith, statement_ok w h, off, e)
    ]
    | inl on ↦ elim (Option-cases (redis_token key)) [
      | inr (t, f) ↦ ground (arith, on, f)
      | inl f ↦ elim (Option-cases (find_token key w.tokens)) [
        | inl e ↦ ground (arith, statement_ok w h, on, f, e)
        | inr (t, e) ↦ ground (arith, statement_ok w h, on, f, e)
      ]
    ]
  ]

  missing :
      (key : String) (w : World)
      → w.faults ≡ []
      → known_token config redis_token key w ≡ none
      → cache_get_token_by_key config redis_token key w ≡ (err record_not_found, w)
  missing key w h e = cache_get_lem key w h ∙ rw e refl

  found :
      (key : String) (t : Token) (w : World)
      → w.faults ≡ []
      → known_token config redis_token key w ≡ some t
      → cache_get_token_by_key config redis_token key w ≡ (ok t, w)
  found key t w h e = cache_get_lem key w h ∙ rw e refl

  set_ok : (id status : ℕ) (w : World) → (set_token_status config redis_token id status w).0 ≡ ok tt
  unfolding set_token_status
  set_ok id status w = ground arith

  validate_found-usable :
      (t : Token) (w : World)
      → is_usable w.now t ≡ true
      → validate_found config redis_token t w ≡ (ok t, w)
  unfolding validate_found
  validate_found-usable t w h = ground arith

  validate_found-unusable :
      (t : Token) (w : World)
      → is_usable w.now t ≡ false
      → (e : Error) × ((validate_found config redis_token t w).0 ≡ err e)
  unfolding validate_found
  validate_found-unusable t w h = elim (Result-cases (validate_found config redis_token t w).0) [
    | inr x ↦ x
    | inl (u, e) ↦ absurd (
        ground
          (arith, e, h, set_ok t.id token_status_expired w, set_ok t.id token_status_exhausted w))
  ]

  -- On a database without faults a key is accepted with a token exactly if the key is not empty,
  -- the token is the one known under it, and it is enabled, in time and has quota left.
  pub validate_user_token_iff :
      (key : String) (t : Token) (w : World)
      → w.faults ≡ []
      → ((validate_user_token config redis_token key w).0 ≡ ok t) ↔ (
          (str_eq key "" ≡ false)
          × (known_token config redis_token key w ≡ some t)
          × (is_usable w.now t ≡ true))
  unfolding validate_user_token
  validate_user_token_iff key t w h = elim (Bool-cases (str_eq key "")) [
    | inl empty ↦ (λ e. absurd (ground (arith, e, empty)), λ e. absurd (ground (arith, e.0, empty)))
    | inr named ↦ elim (Option-cases (known_token config redis_token key w)) [
      | inl f ↦
          let refused : (validate_user_token config redis_token key w).0
              ≡ err (message "Invalid token") =
            ground (arith, named, missing key w h f) in
          (λ e. absurd (ground (arith, e, refused)), λ e. absurd (ground (arith, e.1, f)))
      | inr (u, f) ↦
          let same : validate_user_token config redis_token key w
              ≡ validate_found config redis_token u w =
            ground (arith, named, found key u w h f) in
          elim (Bool-cases (is_usable w.now u)) [
            | inl good ↦
                let granted = ap (λ r. r.0) (same ∙ validate_found-usable u w good) in
                (
                  λ e.
                      let one : u ≡ t = ground (arith, e, granted) in
                      (named, f ∙ ap some one, subst (λ x. is_usable w.now x ≡ true) one good),
                  λ e. let one : u ≡ t = ground (arith, f, e.1) in granted ∙ ap ok one,
                )
            | inr bad ↦
                let (x, turned) = validate_found-unusable u w bad in
                let refused = ap (λ r. r.0) same ∙ turned in
                (
                  λ e. absurd (ground (arith, e, refused)),
                  λ e.
                      let one : u ≡ t = ground (arith, f, e.1) in
                      absurd (ground (arith, subst (λ y. is_usable w.now y ≡ false) one bad, e.2)),
                )
          ]
    ]
  ]
