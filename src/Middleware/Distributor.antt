-- ===== src/Middleware/Distributor.antt =====
-- The choice of a channel for a request, Distribute (middleware/distributor.go) with
-- GetChannelById (model/channel.go). The user's group is what CacheGetUserGroup gives, strconv.Atoi
-- is the argument `atoi`, and `select` is CacheGetRandomSatisfiedChannel. What is set in the
-- context besides the channel and the model is left out.
pub mod Enabled
use new_api_blues.Prelude.{ℕ, String, Option, none, some, not, ◌==◌, if◌then◌else◌}
use new_api_blues.Model.Store.{
  M, World, Channel, Result, ok, err, record_not_found, get, return, throw, attempt, statement,
  channel_row, ◌>>=◌, ◌>>◌,
}
use new_api_blues.Model.Channels.{channel_status_enabled}

unfoldable pub get_channel_by_id : ℕ → M Channel
get_channel_by_id id = do
  statement
  w ← get
  elim (channel_row w id) [ none ↦ throw record_not_found | some c ↦ return c ]

pub data Distribution : Type 0 where
  aborted : ℕ → Distribution  -- abortWithMessage, by its status code
  chosen : Channel → String → Distribution  -- SetupContextForSelectedChannel and the next handler

-- A channel that the request names.
abbrev pub named : Result Channel → Distribution
named (err e) = aborted 400
named (ok c) = if not (c.status == channel_status_enabled) then aborted 403 else chosen c ""

abbrev pub served : String → Result Channel → Distribution
served request_model (err e) = aborted 503
served request_model (ok c) = chosen c request_model

module _ (atoi : String → Option ℕ) (select : String → String → M Channel) where
  unfoldable pub distribute_named : Option ℕ → M Distribution
  distribute_named none = return (aborted 400)
  distribute_named (some id) = do found ← attempt (get_channel_by_id id); return (named found)

  unfoldable pub distribute :
      (user_group : String) (specific_channel_id : Option String) (request_model : String)
      → M Distribution
  distribute user_group (some text) request_model = distribute_named (atoi text)
  distribute user_group none request_model = do
    found ← attempt (select user_group request_model)
    return (served request_model found)
