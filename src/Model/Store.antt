-- ===== src/Model/Store.antt =====
-- The rows of the database (the structs of model/token.go, model/user.go, model/channel.go,
-- model/ability.go and model/redemption.go) and the state that an operation of the data layer
-- reads and writes. The database is an in-memory list of rows behind gorm's documented
-- behaviour: `First` fails with ErrRecordNotFound on no row, an update of no row is no error, and
-- any statement may fail as a whole: `faults` says which of the statements to come do.
use new_api_blues.Prelude.{
  ℕ, ℤ, String, Bool, true, false, Option, none, some, List, [], ◌∷◌, ◌⊎◌, inl, inr, ◌≡◌, refl, ap,
  ◌∙◌, arith, ◌==◌, if◌then◌else◌,
}

pub data Error : Type 0 where
  message : String → Error
  record_not_found : Error
  database : Error

pub data Result {ℓ} (A : Type ℓ) : Type ℓ where
  ok : A → Result A
  err : Error → Result A

pub Result-cases {ℓ} :
    {A : Type ℓ} (r : Result A) → ((a : A) × (r ≡ ok a)) ⊎ ((e : Error) × (r ≡ err e))
Result-cases (ok a) = inl (a, refl)
Result-cases (err e) = inr (e, refl)

pub record Token : Type 0 where
  pub id : ℕ
  pub user_id : ℕ
  pub key : String
  pub status : ℕ
  pub name : String
  pub created_time : ℤ
  pub accessed_time : ℤ
  pub expired_time : ℤ  -- -1 means never
  pub remain_quota : ℤ
  pub unlimited_quota : Bool
  pub used_quota : ℤ
  pub models : Option String
  pub subnet : Option String

pub record User : Type 0 where
  pub id : ℕ
  pub username : String
  pub password : String
  pub display_name : String
  pub role : ℕ
  pub status : ℕ
  pub email : String
  pub access_token : String
  pub github_id : String
  pub lark_id : String
  pub oidc_id : String
  pub quota : ℤ
  pub used_quota : ℤ
  pub request_count : ℤ
  pub group : String
  pub aff_code : String
  pub inviter_id : ℕ

-- The columns of a channel that the modelled code reads.
pub record Channel : Type 0 where
  pub id : ℕ
  pub type : ℕ
  pub key : String
  pub status : ℕ
  pub name : String
  pub models : String
  pub group : String
  pub used_quota : ℤ
  pub priority : Option ℤ

pub record Ability : Type 0 where
  pub group : String
  pub model : String
  pub channel_id : ℕ
  pub enabled : Bool
  pub priority : Option ℤ

pub record Redemption : Type 0 where
  pub id : ℕ
  pub user_id : ℕ
  pub key : String
  pub status : ℕ
  pub name : String
  pub quota : ℤ
  pub created_time : ℤ
  pub redeemed_time : ℤ

-- A map[int]int64 of the batch updater, as an association list.
abbrev pub Pending : Type 0
Pending = List (ℕ × ℤ)

-- batchUpdateStores: one map for each batch update type.
pub record BatchStores : Type 0 where
  pub user_quota : Pending
  pub token_quota : Pending
  pub used_quota : Pending
  pub channel_used_quota : Pending
  pub request_count : Pending

-- A sign-in session of the VSCode extension (model/vscode_auth_session.go).
pub record AuthSession : Type 0 where
  pub id : String
  pub status : String
  pub api_token : String
  pub token_name : String
  pub user_id : ℕ
  pub username : String
  pub display_name : String
  pub client_name : String
  pub version : String
  pub created_time : ℤ
  pub expires_at : ℤ
  pub provider : String
  pub provider_url : String
  pub external_token : String
  pub external_user : String

pub record World : Type 0 where
  pub users : List User
  pub tokens : List Token
  pub channels : List Channel
  pub abilities : List Ability
  pub redemptions : List Redemption
  pub pending : BatchStores
  pub user_quota_cache : List (ℕ × ℤ)  -- the Redis keys user_quota:<id>
  pub banned : List ℕ  -- the blacklist of users
  pub next_user : ℕ  -- the next id of a user's row
  pub next_token : ℕ
  pub next_channel : ℕ
  pub auth_sessions : List (String × AuthSession)
  pub auth_cleanups : List String  -- deletions of sessions that were started and have not run
  pub faults : List Bool
  pub now : ℤ

-- An operation: it may fail, and what it wrote before it failed stays written.
abbrev pub M : Type 0 → Type 0
M A = World → Result A × World

abbrev pub then_do : {A B : Type 0} → Result A × World → (A → M B) → Result B × World
then_do (ok a, w) f = f a w
then_do (err e, w) f = (err e, w)

infixl 5 ◌>>=◌ ◌>>◌
abbrev pub ◌>>=◌ : {A B : Type 0} → M A → (A → M B) → M B
◌>>=◌ m f w = then_do (m w) f

abbrev pub ◌>>◌ : {A B : Type 0} → M A → M B → M B
m >> k = m >>= λ _. k

abbrev pub return : {A : Type 0} → A → M A
return a w = (ok a, w)

abbrev pub throw : {A : Type 0} → Error → M A
throw e w = (err e, w)

-- The error as a value, for code that logs it and goes on.
abbrev pub attempt : {A : Type 0} → M A → M (Result A)
attempt m w = let (r, w') = m w in (ok r, w')

abbrev pub get : M World
get w = (ok w, w)

abbrev pub modify : (World → World) → M (Unit {0})
modify f w = (ok tt, f w)

-- One statement reaches the database, or fails.
unfoldable pub statement : M (Unit {0})
statement w = elim w.faults [
  | [] ↦ (ok tt, w)
  | failed ∷ rest ↦ (if failed then err database else ok tt, record w { faults = rest })
]

module _ {A : Type 0} (ident : A → ℕ) where
  -- SELECT … WHERE id = ? LIMIT 1
  unfoldable pub find_row : ℕ → List A → Option A
  find_row id [] = none
  find_row id (x ∷ xs) = if ident x == id then some x else find_row id xs

  -- UPDATE … WHERE id = ?
  unfoldable pub update_rows : ℕ → (A → A) → List A → List A
  update_rows id f [] = []
  update_rows id f (x ∷ xs) = (if ident x == id then f x else x) ∷ update_rows id f xs

abbrev pub map_if : {A : Type 0} → Bool → (A → A) → Option A → Option A
map_if b f none = none
map_if b f (some x) = some (if b then f x else x)

module _ {A : Type 0} (ident : A → ℕ) where
  -- A row that is looked up after an update shows it, if it is the row that was updated.
  pub find_row-update_rows :
      (id j : ℕ) (f : A → A) (xs : List A)
      → ((x : A) → ident (f x) ≡ ident x)
      → find_row ident j (update_rows ident id f xs) ≡ map_if (j == id) f (find_row ident j xs)
  unfolding find_row update_rows
  find_row-update_rows id j f [] keep = refl
  find_row-update_rows id j f (x ∷ xs) keep =
      ground (arith, keep x, find_row-update_rows id j f xs keep)

-- A row that is found by an id has that id.
pub find_row_id :
    {A : Type 0} (ident : A → ℕ) (id : ℕ) (xs : List A) (x : A)
    → find_row ident id xs ≡ some x
    → ident x ≡ id
unfolding find_row
find_row_id ident id [] x e = ground (arith, e)
find_row_id ident id (y ∷ xs) x e = ground (arith, e, find_row_id ident id xs x)

abbrev pub user_id_of : User → ℕ
user_id_of u = u.id

abbrev pub token_id_of : Token → ℕ
token_id_of t = t.id

abbrev pub channel_id_of : Channel → ℕ
channel_id_of c = c.id

abbrev pub user_row : World → ℕ → Option User
user_row w id = find_row user_id_of id w.users

abbrev pub token_row : World → ℕ → Option Token
token_row w id = find_row token_id_of id w.tokens

abbrev pub channel_row : World → ℕ → Option Channel
channel_row w id = find_row channel_id_of id w.channels

unfoldable pub write_user : ℕ → (User → User) → M (Unit {0})
write_user id f = do
  statement
  modify (λ w. record w { users = update_rows user_id_of id f w.users })

unfoldable pub write_token : ℕ → (Token → Token) → M (Unit {0})
write_token id f = do
  statement
  modify (λ w. record w { tokens = update_rows token_id_of id f w.tokens })

unfoldable pub write_channel : ℕ → (Channel → Channel) → M (Unit {0})
write_channel id f = do
  statement
  modify (λ w. record w { channels = update_rows channel_id_of id f w.channels })

-- With no fault to come, a statement goes through.
pub statement_ok : (w : World) → w.faults ≡ [] → statement w ≡ (ok tt, w)
unfolding statement
statement_ok w h = ground arith

-- A statement reaches the database or fails, and changes none of its tables.
pub statement_cases :
    (w : World)
    → (faults : List Bool) × ((statement w ≡ (err database, record w { faults = faults }))
        ⊎ (statement w ≡ (ok tt, record w { faults = faults })))
unfolding statement
statement_cases w = go w w.faults refl
  where
    go :
        (v : World) (fs : List Bool)
        → v.faults ≡ fs
        → (faults : List Bool) × ((statement v ≡ (err database, record v { faults = faults }))
            ⊎ (statement v ≡ (ok tt, record v { faults = faults })))
    go v [] e = ([], inr (statement_ok v e ∙ ap (λ f. (ok tt, record v { faults = f })) e))
    go v (true ∷ fs) e = (fs, inl ground (arith, e))
    go v (false ∷ fs) e = (fs, inr ground (arith, e))

-- A block goes on where its first part succeeds.
pub >>=-ok :
    {A B : Type 0} (m : M A) (f : A → M B) (w : World) (a : A)
    → (m w).0 ≡ ok a
    → (m >>= f) w ≡ f a (m w).1
>>=-ok m f w a h = rw h

-- What a block returns at its end does not change the world.
pub then_return :
    {A B : Type 0} (m : M A) (f : A → B) (w : World) → ((m >>= λ a. return (f a)) w).1 ≡ (m w).1
then_return m f w = go f (m w)
  where
    go : {A B : Type 0} (f : A → B) (r : Result A × World) → (then_do r (λ a. return (f a))).1 ≡ r.1
    go f (ok a, w) = refl
    go f (err e, w) = refl
