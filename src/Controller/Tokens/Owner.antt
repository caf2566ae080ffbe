-- ===== src/Controller/Tokens/Owner.antt =====
-- The handlers of tokens leave the tokens of other users alone (controller/token.go).
use new_api_blues.Prelude.{
  ℕ, pos, String, Bool, true, false, Option, none, some, inl, inr, ◌⊎◌, ◌==◌, ◌&&◌, ◌≡◌, refl, not,
  ltb, leb_ℤ, eqb_ℤ, negsuc, str_eq, subst, arith, if◌then◌else◌, Bool-cases,
}
use new_api_blues.Model.Store.{
  World, Token, Error, Result, ok, err, token_row, return, ◌>>=◌, then_return,
}
use new_api_blues.Model.Tokens.{token_insert, token_update, token_delete, delete_token_by_id}
use new_api_blues.Controller.Tokens.{
  TokenReply, token_reply, byte_length, validate_token, validate_subnet, may_enable, edited,
  add_token, update_token, delete_token,
}
use new_api_blues.Controller.Tokens.Rows.{
  UniqueIds, Own, same, Own-others, get_token_by_ids_lem, token_update_lem, token_delete_lem,
  token_insert_lem,
}

reply_world : (r : Result TokenReply × World) → (token_reply r).1 ≡ r.1
reply_world (ok r, w) = refl
reply_world (err e, w) = refl

delete_lem :
    (id user_id : ℕ) (w : World) → UniqueIds w.tokens → Own user_id w (delete_token id user_id w).1
unfolding delete_token delete_token_by_id
delete_lem id user_id w u =
    let (fs, found) = get_token_by_ids_lem id user_id w u in
    let v = record w { faults = fs } in
    elim found [
      | inl (e, g) ↦ rw g (same refl)
      | inr (t, o, f, g) ↦
          rw
            (
              g,
              reply_world ((token_delete t >>= λ _. return TokenReply.success) v),
              then_return (token_delete t) (λ _. TokenReply.success) v,
            )
            (subst (λ k. Own k w (token_delete t v).1) o (token_delete_lem t w v f refl))
    ]

-- A check that changes nothing.
abbrev Check : World → Result (Unit {0}) × World → Type 0
Check w r = (r ≡ (ok tt, w)) ⊎ ((e : Error) × (r ≡ (err e, w)))

may_enable-Check : (t : Token) (w : World) → Check w (may_enable t w)
unfolding may_enable
may_enable-Check t w =
    elim (Bool-cases
      (t.status == 3 && leb_ℤ t.expired_time w.now && not (eqb_ℤ t.expired_time (negsuc 0)))) [
        | inl a ↦ rw a (inr (_, refl))
        | inr a ↦
            elim (Bool-cases
              (t.status == 4 && leb_ℤ t.remain_quota (pos 0) && not t.unlimited_quota)) [
                | inl b ↦ rw (a, b) (inr (_, refl))
                | inr b ↦ rw (a, b) (inl refl)
              ]
      ]

enabling-Check :
    (b : Bool) (t : Token) (w : World) → Check w ((if b then may_enable t else return tt) w)
enabling-Check true t w = may_enable-Check t w
enabling-Check false t w = inl refl

edited_id : (status_only : String) (t old : Token) → (edited status_only t old).id ≡ old.id
unfolding edited
edited_id status_only t old = ground arith

module _ (valid_subnets : String → Bool) where
  validate_subnet-Check :
      (subnet : Option String) (w : World) → Check w (validate_subnet valid_subnets subnet w)
  unfolding validate_subnet
  validate_subnet-Check none w = inl refl
  validate_subnet-Check (some subnet) w =
      elim (Bool-cases (not (str_eq subnet "") && not (valid_subnets subnet))) [
        | inl a ↦ rw a (inr (_, refl))
        | inr a ↦ rw a (inl refl)
      ]

  validate_token-Check : (t : Token) (w : World) → Check w (validate_token valid_subnets t w)
  unfolding validate_token
  validate_token-Check t w = elim (Bool-cases (ltb 30 (byte_length t.name))) [
    | inl a ↦ rw a (inr (_, refl))
    | inr a ↦ rw a (validate_subnet-Check t.subnet w)
  ]

  add_lem :
      (key : String) (user_id : ℕ) (t : Option Token) (w : World)
      → Own user_id w (add_token valid_subnets key user_id t w).1
  unfolding add_token
  add_lem key user_id none w = same refl
  add_lem key user_id (some t) w = elim (validate_token-Check t w) [
    | inr (e, c) ↦ rw c (same refl)
    | inl c ↦
        let clean : Token = record {
          id = 0;
          user_id = user_id;
          key = key;
          status = 0;
          name = t.name;
          created_time = w.now;
          accessed_time = w.now;
          expired_time = t.expired_time;
          remain_quota = t.remain_quota;
          unlimited_quota = t.unlimited_quota;
          used_quota = pos 0;
          models = t.models;
          subnet = t.subnet;
        } in
        rw
          (
            c,
            reply_world ((token_insert clean >>= λ row. return (TokenReply.token row)) w),
            then_return (token_insert clean) TokenReply.token w,
          )
          (token_insert_lem user_id clean w)
  ]

  update_lem :
      (status_only : String) (user_id : ℕ) (t : Option Token) (w : World)
      → UniqueIds w.tokens
      → Own user_id w (update_token valid_subnets status_only user_id t w).1
  unfolding update_token
  update_lem status_only user_id none w u = same refl
  update_lem status_only user_id (some t) w u =
      let (fs, found) = get_token_by_ids_lem t.id user_id w u in
      let v = record w { faults = fs } in
      elim (validate_token-Check t w) [
        | inr (e, c) ↦ rw c (same refl)
        | inl c ↦ elim found [
          | inl (e, g) ↦ rw (c, g) (same refl)
          | inr (old, o, f, g) ↦ elim (enabling-Check (t.status == 1) old v) [
            | inr (e, d) ↦ rw (c, g, d) (same refl)
            | inl d ↦
                let new = edited status_only t old in
                rw
                  (
                    c,
                    g,
                    d,
                    reply_world ((token_update new >>= λ _. return (TokenReply.token new)) v),
                    then_return (token_update new) (λ _. TokenReply.token new) v,
                  )
                  (subst (λ k. Own k w (token_update new v).1) o
                    (token_update_lem new old w v (edited_id status_only t old) f refl))
          ]
        ]
      ]

-- A request to one of the three handlers that write tokens.
pub data TokenCommand : Type 0 where
  add : (key : String) → Option Token → TokenCommand
  update : (status_only : String) → Option Token → TokenCommand
  delete : (id : ℕ) → TokenCommand

unfoldable pub run_token : (String → Bool) → ℕ → TokenCommand → World → TokenReply × World
run_token valid_subnets user_id (add key t) w = add_token valid_subnets key user_id t w
run_token valid_subnets user_id (update status_only t) w =
    update_token valid_subnets status_only user_id t w
run_token valid_subnets user_id (delete id) w = delete_token id user_id w

-- AddToken, UpdateToken and DeleteToken, asked by one user, leave the row of every token of
-- another user as it is, whatever the request says and whichever statement fails, if an id stands
-- once among the tokens.
pub run_token-others :
    (valid_subnets : String → Bool) (user_id : ℕ) (c : TokenCommand) (w : World) (id : ℕ)
    (x : Token)
    → UniqueIds w.tokens
    → token_row w id ≡ some x
    → (x.user_id == user_id) ≡ false
    → token_row (run_token valid_subnets user_id c w).1 id ≡ some x
unfolding run_token
run_token-others valid user_id (add key t) w id x u f n =
    Own-others user_id w (add_token valid key user_id t w).1 id x (add_lem valid key user_id t w) f
      n
run_token-others valid user_id (update status_only t) w id x u f n =
    Own-others user_id w (update_token valid status_only user_id t w).1 id x
      (update_lem valid status_only user_id t w u) f n
run_token-others valid user_id (delete gone) w id x u f n =
    Own-others user_id w (delete_token gone user_id w).1 id x (delete_lem gone user_id w u) f n
