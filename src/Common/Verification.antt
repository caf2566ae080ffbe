-- ===== src/Common/Verification.antt =====
-- The verification codes of e-mail addresses (common/verification.go): a map in memory from a
-- purpose and a key, joined, to a code and the time it was registered. Times are in nanoseconds.
pub mod Codes
use new_api_blues.Prelude.{
  ℕ, ◌-◌, ◌/◌, ◌+◌, ◌*◌, String, str_eq, Bool, true, false, Option, none, some, List, [], ◌∷◌,
  if◌then◌else◌, ltb, leb, lookup, insert, length,
}

pub record VerificationValue : Type 0 where
  pub code : String
  pub time : ℕ

abbrev pub Codes : Type 0
Codes = List (String × VerificationValue)

abbrev pub verification_map_max_size : ℕ
verification_map_max_size = 10

abbrev pub verification_valid_minutes : ℕ
verification_valid_minutes = 10

-- purpose + key
unfoldable pub joined : String → String → String
joined String.[] key = key
joined (String.◌∷◌ c purpose) key = String.◌∷◌ c (joined purpose key)

-- int(now.Sub(value.time).Seconds()) >= VerificationValidMinutes*60
unfoldable pub over : ℕ → VerificationValue → Bool
over now v = leb (verification_valid_minutes * 60) ((now - v.time) / 1000000000)

unfoldable pub remove_expired_pairs : ℕ → Codes → Codes
remove_expired_pairs now [] = []
remove_expired_pairs now ((key, v) ∷ codes) =
    let rest = remove_expired_pairs now codes in if over now v then rest else (key, v) ∷ rest

unfoldable pub register_verification_code_with_key :
    (key code purpose : String) (now : ℕ) → Codes → Codes
register_verification_code_with_key key code purpose now codes =
    let stored = insert (joined purpose key) (record { code = code; time = now }) codes in
    if ltb verification_map_max_size (length stored)
    then remove_expired_pairs now stored
    else stored

-- Whether a code is the one that a look-up finds, while it lasts.
abbrev pub matches : ℕ → String → Option VerificationValue → Bool
matches now code none = false
matches now code (some v) = if over now v then false else str_eq code v.code

unfoldable pub verify_code_with_key : (key code purpose : String) (now : ℕ) → Codes → Bool
verify_code_with_key key code purpose now codes =
    matches now code (lookup (joined purpose key) codes)

unfoldable pub delete_key : (key purpose : String) → Codes → Codes
delete_key key purpose [] = []
delete_key key purpose ((at, v) ∷ codes) =
    let rest = delete_key key purpose codes in
    if str_eq at (joined purpose key) then rest else (at, v) ∷ rest
