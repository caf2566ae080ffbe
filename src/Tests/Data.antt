-- ===== src/Tests/Data.antt =====
-- The users, tokens, channels and codes of the examples.
use new_api_blues.Prelude.{pos, negsuc, true, false, none, some, [], ◌∷◌}
use new_api_blues.Model.Store.{Token, User, Channel, Ability, Redemption, World}
use new_api_blues.Model.Quota.{Config}
use new_api_blues.Model.Balance.Account.{no_pending}
use new_api_blues.Relay.Text.{Meta, Price}

abbrev pub alice : User
alice = record {
  id = 7;
  username = "alice";
  password = "";
  display_name = "Alice";
  role = 1;
  status = 1;
  email = "";
  access_token = "";
  github_id = "";
  lark_id = "";
  oidc_id = "";
  quota = pos 500;
  used_quota = pos 0;
  request_count = pos 0;
  group = "default";
  aff_code = "";
  inviter_id = 0;
}

abbrev pub key_one : Token
key_one = record {
  id = 3;
  user_id = 7;
  key = "abc";
  status = 1;
  name = "one";
  created_time = pos 0;
  accessed_time = pos 0;
  expired_time = negsuc 0;
  remain_quota = pos 200;
  unlimited_quota = false;
  used_quota = pos 0;
  models = none;
  subnet = none;
}

abbrev pub channel_one : Channel
channel_one = record {
  id = 1;
  type = 1;
  key = "k";
  status = 1;
  name = "first";
  models = "gpt-4,gpt-4o";
  group = "default,vip";
  used_quota = pos 0;
  priority = some (pos 5);
}

abbrev pub ability_one : Ability
ability_one = record {
  group = "default";
  model = "gpt-4";
  channel_id = 1;
  enabled = true;
  priority = some (pos 5);
}

abbrev pub ability_two : Ability
ability_two = record ability_one { group = "vip" }

abbrev pub code_one : Redemption
code_one = record {
  id = 4;
  user_id = 1;
  key = "gift";
  status = 1;
  name = "gift";
  quota = pos 100;
  created_time = pos 0;
  redeemed_time = pos 0;
}

abbrev pub world : World
world = record {
  users = alice ∷ [];
  tokens = key_one ∷ [];
  channels = channel_one ∷ [];
  abilities = ability_one ∷ ability_two ∷ [];
  redemptions = code_one ∷ [];
  pending = no_pending;
  user_quota_cache = [];
  banned = [];
  next_user = 8;
  next_token = 4;
  next_channel = 3;
  auth_sessions = [];
  auth_cleanups = [];
  faults = [];
  now = pos 1000;
}

abbrev pub direct : Config
direct = record {
  batch_update_enabled = false;
  redis_enabled = false;
  pre_consumed_quota = pos 5;
  quota_remind_threshold = pos 10;
}

abbrev pub batched : Config
batched = record direct { batch_update_enabled = true }

abbrev pub meta : Meta
meta = record { token_id = 3; user_id = 7; channel_id = 1 }

abbrev pub price : Price
price = record { scale = λ t. t; price = λ p c. p; ratio_is_zero = false }
