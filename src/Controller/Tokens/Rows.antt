-- ===== src/Controller/Tokens/Rows.antt =====
-- What a write of model/token.go does to the tokens of one user and of the others.
use new_api_blues.Prelude.{
  ℕ, Bool, false, none, some, inl, inr, ◌⊎◌, List, [], ◌∷◌, ◌++◌, ◌==◌, ◌&&◌, ==_iff, ==_self, ◌≡◌,
  refl, sym, ap, ap₂, subst, ◌∙◌, arith, Bool-cases, Option-cases,
}
use new_api_blues.Model.Store.{
  World, Token, Error, ok, err, message, database, record_not_found, token_row, token_id_of,
  find_row, update_rows, find_row-update_rows, statement_cases, write_token,
}
use new_api_blues.Model.Tokens.{
  has_key, token_created, token_insert, token_update, token_delete, without_token, find_token_of,
  find_token_of_wanted, get_token_by_ids,
}

-- An id stands once in the table.
unfoldable pub UniqueIds : List Token → Type 0
UniqueIds [] = Unit {0}
UniqueIds (t ∷ ts) = (find_row token_id_of t.id ts ≡ none) × UniqueIds ts

find_token_of-row :
    (wanted : Token → Bool) (ts : List Token) (t : Token)
    → UniqueIds ts
    → find_token_of wanted ts ≡ some t
    → find_row token_id_of t.id ts ≡ some t
unfolding find_token_of find_row UniqueIds
find_token_of-row wanted [] t u e = ground (arith, e)
find_token_of-row wanted (x ∷ ts) t (n, u) e = elim (Bool-cases (wanted x)) [
  | inl f ↦ ground (arith, e, f, ==_self t.id)
  | inr f ↦
      let rest = find_token_of-row wanted ts t u ground (arith, e, f) in
      elim (Bool-cases (x.id == t.id)) [
        | inl i ↦ ground (
          arith,
          n,
          rest,
          subst (λ k. find_row token_id_of k ts ≡ none) ((==_iff x.id t.id).0 i) n,
        )
        | inr i ↦ rw i rest
      ]
]

-- What a handler of one user does to the tokens: nothing, a change or the removal of one of the
-- user's tokens, or a new row.
pub data Own (user_id : ℕ) (w v : World) : Type 0 where
  same : v.tokens ≡ w.tokens → Own user_id w v
  changed :
      (t : Token) (f : Token → Token)
      → token_row w t.id ≡ some t
      → t.user_id ≡ user_id
      → ((x : Token) → (f x).id ≡ x.id)
      → v.tokens ≡ update_rows token_id_of t.id f w.tokens
      → Own user_id w v
  removed :
      (t : Token)
      → token_row w t.id ≡ some t
      → t.user_id ≡ user_id
      → v.tokens ≡ without_token t.id w.tokens
      → Own user_id w v
  added : (t : Token) → v.tokens ≡ w.tokens ++ t ∷ [] → Own user_id w v

find_row-append :
    (id : ℕ) (ts : List Token) (t x : Token)
    → find_row token_id_of id ts ≡ some x
    → find_row token_id_of id (ts ++ t ∷ []) ≡ some x
unfolding find_row
find_row-append id [] t x e = ground (arith, e)
find_row-append id (y ∷ ts) t x e = elim (Bool-cases (y.id == id)) [
  | inl i ↦ ground (arith, e, i)
  | inr i ↦ rw i (find_row-append id ts t x ground (arith, e, i))
]

find_row-without_token :
    (id gone : ℕ) (ts : List Token)
    → (id == gone) ≡ false
    → find_row token_id_of id (without_token gone ts) ≡ find_row token_id_of id ts
unfolding find_row without_token
find_row-without_token id gone [] e = refl
find_row-without_token id gone (t ∷ ts) e = elim (Bool-cases (t.id == gone)) [
  | inl a ↦ ground (arith, e, a, find_row-without_token id gone ts e)
  | inr a ↦ elim (Bool-cases (t.id == id)) [
    | inl b ↦ rw (a, b) refl
    | inr b ↦ rw (a, b) (find_row-without_token id gone ts e)
  ]
]

-- A token of another user is not touched.
pub Own-others :
    (user_id : ℕ) (w v : World) (id : ℕ) (x : Token)
    → Own user_id w v
    → token_row w id ≡ some x
    → (x.user_id == user_id) ≡ false
    → token_row v id ≡ some x
Own-others user_id w v id x (same e) f n = rw e f
Own-others user_id w v id x (added t e) f n = rw e (find_row-append id w.tokens t x f)
Own-others user_id w v id x (removed t g o e) f n = elim (Bool-cases (id == t.id)) [
  | inl i ↦
      ground (arith, n, o, f, subst (λ k. token_row w k ≡ some t) (sym ((==_iff id t.id).0 i)) g)
  | inr i ↦ rw e (find_row-without_token id t.id w.tokens i ∙ f)
]
Own-others user_id w v id x (changed t h g o keep e) f n = elim (Bool-cases (id == t.id)) [
  | inl i ↦
      ground (arith, n, o, f, subst (λ k. token_row w k ≡ some t) (sym ((==_iff id t.id).0 i)) g)
  | inr i ↦ rw e (find_row-update_rows token_id_of t.id id h w.tokens keep ∙ rw (i, f) refl)
]

-- A look-up by two ids fails, or gives a token of the user.
pub get_token_by_ids_lem :
    (id user_id : ℕ) (w : World)
    → UniqueIds w.tokens
    → (fs : List Bool) × (((e : Error) × (get_token_by_ids id user_id w
            ≡ (err e, record w { faults = fs })))
        ⊎ ((t : Token) × (t.user_id ≡ user_id)
            × (token_row w t.id ≡ some t)
            × (get_token_by_ids id user_id w ≡ (ok t, record w { faults = fs }))))
unfolding get_token_by_ids
get_token_by_ids_lem id user_id w u =
    let (fs, outcome) = statement_cases w in
    let wanted : Token → Bool = λ t. t.id == id && t.user_id == user_id in
    elim (Bool-cases (id == 0)) [
      | inl a ↦ (w.faults, inl (message "id or userId is empty!", rw a refl))
      | inr a ↦ elim (Bool-cases (user_id == 0)) [
        | inl b ↦ (w.faults, inl (message "id or userId is empty!", rw (a, b) refl))
        | inr b ↦ elim outcome [
          | inl s ↦ (fs, inl (database, rw (a, b, s) refl))
          | inr s ↦ elim (Option-cases (find_token_of wanted w.tokens)) [
            | inl f ↦ (fs, inl (record_not_found, ground (arith, a, b, s, f)))
            | inr (t, f) ↦ (
              fs,
              inr (
                t,
                ground (arith, find_token_of_wanted wanted w.tokens t f),
                find_token_of-row wanted w.tokens t u f,
                ground (arith, a, b, s, f),
              ),
            )
          ]
        ]
      ]
    ]

-- The columns that Token.Update writes.
abbrev columns : Token → Token → Token
columns t x = record x {
  name = t.name;
  status = t.status;
  expired_time = t.expired_time;
  remain_quota = t.remain_quota;
  unlimited_quota = t.unlimited_quota;
  models = t.models;
  subnet = t.subnet;
}

pub token_update_lem :
    (t old : Token) (w v : World)
    → t.id ≡ old.id
    → token_row w old.id ≡ some old
    → v.tokens ≡ w.tokens
    → Own old.user_id w (token_update t v).1
unfolding token_update write_token
token_update_lem t old w v i f e =
    let (fs, outcome) = statement_cases v in
    elim outcome [
      | inl s ↦ rw s (same e)
      | inr s ↦ rw s (
          changed old (columns t) f refl (λ x. refl)
            (ap₂ (λ k ts. update_rows token_id_of k (columns t) ts) i e))
    ]

pub token_delete_lem :
    (t : Token) (w v : World)
    → token_row w t.id ≡ some t
    → v.tokens ≡ w.tokens
    → Own t.user_id w (token_delete t v).1
unfolding token_delete
token_delete_lem t w v f e =
    let (fs, outcome) = statement_cases v in
    elim outcome [
      | inl s ↦ rw s (same e)
      | inr s ↦ rw s (removed t f refl (ap (without_token t.id) e))
    ]

pub token_insert_lem : (user_id : ℕ) (t : Token) (w : World) → Own user_id w (token_insert t w).1
unfolding token_insert token_created
token_insert_lem user_id t w =
    let (fs, outcome) = statement_cases w in
    elim outcome [
      | inl s ↦ rw s (same refl)
      | inr s ↦ elim (Bool-cases (has_key t.key w.tokens)) [
        | inl k ↦ rw (s, k) (same refl)
        | inr k ↦ rw (s, k) (added (token_created w.next_token t) refl)
      ]
    ]
