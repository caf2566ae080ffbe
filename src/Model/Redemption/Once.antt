-- ===== src/Model/Redemption/Once.antt =====
-- A code is redeemed at most once, and wholly or not at all (model/redemption.go).
use new_api_blues.Prelude.{
  ℕ, ℤ, ◌+ℤ◌, String, str_eq, Bool, true, some, List, [], ◌∷◌, ◌==◌, ◌≡◌, refl, subst, ap, ◌∙◌,
  arith, Bool-cases, Option-cases, inl, inr, ◌⊎◌, ==_self,
}
use new_api_blues.Model.Store.{
  World, Redemption, Result, ok, err, database, message, Error, update_rows, user_id_of, statement,
  statement_cases, write_user,
}
use new_api_blues.Model.Redemption.{
  redemption_code_status_enabled, transaction, find_code, redemption_id_of, save_redemption,
  used_at, redeem_block, redeem,
}

-- The world after a code was redeemed.
abbrev pub redeemed : ℕ → Redemption → List Bool → World → World
redeemed user_id r faults w = record w {
  users = update_rows user_id_of user_id (λ u. record u { quota = u.quota +ℤ r.quota }) w.users;
  redemptions = update_rows redemption_id_of r.id (λ _. used_at w.now r) w.redemptions;
  faults = faults;
}

abbrev pub Kept : World → Result ℤ × World → Type 0
Kept w r = (e : Error) × (faults : List Bool) × (r ≡ (err e, record w { faults = faults }))

abbrev pub Redeemed : String → ℕ → World → Result ℤ × World → Type 0
Redeemed key user_id w result =
    (r : Redemption) × (faults : List Bool) × (find_code key w.redemptions ≡ some r)
    × ((r.status == redemption_code_status_enabled) ≡ true)
    × (result ≡ (ok r.quota, redeemed user_id r faults w))

-- The statements of the block for a code that is enabled.
paid_cases :
    (key : String) (user_id : ℕ) (w : World) (r : Redemption) (f1 : List Bool)
    → find_code key w.redemptions ≡ some r
    → (r.status == redemption_code_status_enabled) ≡ true
    → statement w ≡ (ok tt, record w { faults = f1 })
    → Kept w (transaction (redeem_block key user_id) w)
      ⊎ Redeemed key user_id w (transaction (redeem_block key user_id) w)
unfolding transaction redeem_block save_redemption write_user
paid_cases key user_id w r f1 found enabled e1 =
    let w1 : World = record w { faults = f1 } in
    elim (statement_cases w1).1 [
      | inl e2 ↦ inl (database, (statement_cases w1).0, ground (arith, e1, found, enabled, e2))
      | inr e2 ↦
          let w2 : World = record w {
            faults = (statement_cases w1).0;
            users =
                update_rows user_id_of user_id (λ u. record u { quota = u.quota +ℤ r.quota })
                  w.users;
          } in
          elim (statement_cases w2).1 [
            | inl e3 ↦
                inl (database, (statement_cases w2).0, ground (arith, e1, found, enabled, e2, e3))
            | inr e3 ↦
                let w3 : World = redeemed user_id r (statement_cases w2).0 w in
                elim (statement_cases w3).1 [
                  | inl e4 ↦ inl (
                    database,
                    (statement_cases w3).0,
                    ground (arith, e1, found, enabled, e2, e3, e4),
                  )
                  | inr e4 ↦ inr (
                    r,
                    (statement_cases w3).0,
                    found,
                    enabled,
                    ground (arith, e1, found, enabled, e2, e3, e4),
                  )
                ]
          ]
    ]

block_cases :
    (key : String) (user_id : ℕ) (w : World)
    → Kept w (transaction (redeem_block key user_id) w)
      ⊎ Redeemed key user_id w (transaction (redeem_block key user_id) w)
unfolding transaction redeem_block
block_cases key user_id w = elim (statement_cases w).1 [
  | inl e ↦ inl (message "Invalid redemption code", (statement_cases w).0, ground (arith, e))
  | inr e ↦ elim (Option-cases (find_code key w.redemptions)) [
    | inl missing ↦
        inl (message "Invalid redemption code", (statement_cases w).0, ground (arith, e, missing))
    | inr (r, found) ↦ elim (Bool-cases (r.status == redemption_code_status_enabled)) [
      | inl enabled ↦ paid_cases key user_id w r (statement_cases w).0 found enabled e
      | inr used ↦ inl (
        message "This redemption code has been used",
        (statement_cases w).0,
        ground (arith, e, found, used),
      )
    ]
  ]
]

-- Whatever statement fails on the way, redeeming either fails and changes no table, or found the
-- code enabled, adds its quota to the user's row and marks the code as used.
pub redeem_cases :
    (key : String) (user_id : ℕ) (w : World)
    → Kept w (redeem key user_id w) ⊎ Redeemed key user_id w (redeem key user_id w)
unfolding redeem
redeem_cases key user_id w = elim (Bool-cases (str_eq key "")) [
  | inl e ↦ inl (message "Redemption code not provided", w.faults, ground (arith, e))
  | inr e ↦ elim (Bool-cases (user_id == 0)) [
    | inl z ↦ inl (message "Invalid user id", w.faults, ground (arith, e, z))
    | inr z ↦ elim (block_cases key user_id w) [
      | inl (x, f, b) ↦ inl (message "Redemption failed", f, ground (arith, e, z, b))
      | inr (r, f, found, enabled, b) ↦ inr (r, f, found, enabled, ground (arith, e, z, b))
    ]
  ]
]

find_code-key :
    (key : String) (rs : List Redemption) (r : Redemption)
    → find_code key rs ≡ some r
    → str_eq r.key key ≡ true
unfolding find_code
find_code-key key [] r h = absurd (ground (arith, h))
find_code-key key (x ∷ rs) r h = elim (Bool-cases (str_eq x.key key)) [
  | inl e ↦ let same : x ≡ r = ground (arith, h, e) in subst (λ y. str_eq y.key key ≡ true) same e
  | inr e ↦ find_code-key key rs r (ground (arith, h, e))
]

find_code-replaced :
    (key : String) (rs : List Redemption) (r new : Redemption)
    → find_code key rs ≡ some r
    → new.id ≡ r.id
    → new.key ≡ r.key
    → find_code key (update_rows redemption_id_of r.id (λ _. new) rs) ≡ some new
unfolding find_code update_rows
find_code-replaced key [] r new h i k = absurd (ground (arith, h))
find_code-replaced key (x ∷ rs) r new h i k =
    let named : str_eq new.key key ≡ true =
      ap (λ y. str_eq y key) k ∙ find_code-key key (x ∷ rs) r h in
    elim (Bool-cases (str_eq x.key key)) [
      | inl e ↦
          let same : x ≡ r = ground (arith, h, e) in
          let hit : (x.id == r.id) ≡ true = ap (λ y. y.id == r.id) same ∙ ==_self r.id in
          rw (hit, named) refl
      | inr e ↦
          let rest : find_code key rs ≡ some r = ground (arith, h, e) in
          elim (Bool-cases (x.id == r.id)) [
            | inl hit ↦ rw (hit, named) refl
            | inr miss ↦ rw (miss, e) (find_code-replaced key rs r new rest i k)
          ]
    ]

-- After a code was redeemed, redeeming it again fails, whoever asks and whatever statements fail.
pub redeem-once :
    (key : String) (first second : ℕ) (w : World) (quota : ℤ)
    → (redeem key first w).0 ≡ ok quota
    → let v = (redeem key first w).1 in (e : Error) × ((redeem key second v).0 ≡ err e)
redeem-once key first second w quota h =
    let v : World = (redeem key first w).1 in
    elim (redeem_cases key first w) [
      | inl (e, f, kept) ↦ absurd (ground (arith, h, kept))
      | inr (r, f, found, enabled, done) ↦
          let after : find_code key v.redemptions ≡ some (used_at w.now r) =
            ap (λ x. find_code key x.1.redemptions) done
            ∙ find_code-replaced key w.redemptions r (used_at w.now r) found refl refl in
          elim (redeem_cases key second v) [
            | inl (e, g, kept) ↦ (e, ap (λ x. x.0) kept)
            | inr (s, g, found', enabled', _) ↦ absurd (ground (arith, after, found', enabled'))
          ]
    ]
