-- ===== src/Controller/Tokens.antt =====
-- The handlers of a user's tokens (controller/token.go). A handler gets the decoded request
-- (`none` where it cannot be decoded) and the id of the user in the session. Whether a text is a
-- list of subnets is the argument `valid_subnets` (it stands on the package net).
pub mod Owner
pub mod Rows
use Prim.Native.Char.{Char, code}
use new_api_blues.Prelude.{
  ℕ, ◌+◌, ℤ, pos, negsuc, String, str_eq, Bool, true, false, not, ◌&&◌, Option, none, some, ◌==◌,
  if◌then◌else◌, ltb, leb_ℤ, eqb_ℤ,
}
use new_api_blues.Model.Store.{
  M, World, Token, Error, Result, ok, err, message, get, return, throw, ◌>>=◌, ◌>>◌,
}
use new_api_blues.Model.Tokens.{token_insert, token_update, get_token_by_ids, delete_token_by_id}

pub data TokenReply : Type 0 where
  failure : Error → TokenReply
  success : TokenReply
  token : Token → TokenReply

abbrev pub token_reply : Result TokenReply × World → TokenReply × World
token_reply (ok r, w) = (r, w)
token_reply (err e, w) = (failure e, w)

-- len of a string: its bytes in UTF-8.
abbrev pub char_size : Char → ℕ
char_size c =
    if ltb (code c) 128
    then 1
    else if ltb (code c) 2048
    then 2
    else if ltb (code c) 65536
    then 3
    else 4

unfoldable pub byte_length : String → ℕ
byte_length String.[] = 0
byte_length (String.◌∷◌ c s) = char_size c + byte_length s

-- Enabling is refused while what disabled the token still holds.
unfoldable pub may_enable : Token → M (Unit {0})
may_enable t = do
  w ← get
  if t.status == 3 && leb_ℤ t.expired_time w.now && not (eqb_ℤ t.expired_time (negsuc 0))
      then throw (
          message
            "Token expired, cannot enable, please modify token expiration time first or set to never expire")
      else if t.status == 4 && leb_ℤ t.remain_quota (pos 0) && not t.unlimited_quota
      then throw (
          message
            "Token quota exhausted, cannot enable, please modify token remaining quota first or set to unlimited quota")
      else return tt

unfoldable pub edited : (status_only : String) → Token → Token → Token
edited status_only t old =
    if not (str_eq status_only "") then record old { status = t.status } else record old {
      name = t.name;
      expired_time = t.expired_time;
      remain_quota = t.remain_quota;
      unlimited_quota = t.unlimited_quota;
      models = t.models;
      subnet = t.subnet;
    }

module _ (valid_subnets : String → Bool) where
  unfoldable pub validate_subnet : Option String → M (Unit {0})
  validate_subnet none = return tt
  validate_subnet (some subnet) =
      if not (str_eq subnet "") && not (valid_subnets subnet)
      then throw (message "Invalid network segment")
      else return tt

  unfoldable pub validate_token : Token → M (Unit {0})
  validate_token t =
      if ltb 30 (byte_length t.name)
      then throw (message "Token name too long")
      else validate_subnet t.subnet

  unfoldable pub add_token :
      (key : String) (user_id : ℕ) → Option Token → World → TokenReply × World
  add_token key user_id none w = (failure (message "invalid request"), w)
  add_token key user_id (some t) w = token_reply (
      (do
        validate_token t
        v ← get
        let clean : Token = record {
          id = 0;
          user_id = user_id;
          key = key;
          status = 0;
          name = t.name;
          created_time = v.now;
          accessed_time = v.now;
          expired_time = t.expired_time;
          remain_quota = t.remain_quota;
          unlimited_quota = t.unlimited_quota;
          used_quota = pos 0;
          models = t.models;
          subnet = t.subnet;
        }
        row ← token_insert clean
        return (token row))
        w)

  unfoldable pub update_token :
      (status_only : String) (user_id : ℕ) → Option Token → World → TokenReply × World
  update_token status_only user_id none w = (failure (message "invalid request"), w)
  update_token status_only user_id (some t) w = token_reply (
      (do
        validate_token t
        old ← get_token_by_ids t.id user_id
        if t.status == 1 then may_enable old else return tt
        token_update (edited status_only t old)
        return (token (edited status_only t old)))
        w)

unfoldable pub delete_token : ℕ → ℕ → World → TokenReply × World
delete_token id user_id w =
    token_reply ((do delete_token_by_id id user_id; return TokenReply.success) w)
