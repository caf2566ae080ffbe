-- ===== src/Lib.antt =====
-- A verification library for an API gateway that relays requests to upstream model services and
-- charges for them.
--
-- The program. A request carries a key (a token of a user). The gate checks the key
-- (middleware/auth.go, model/token.go), the distributor picks a channel that serves the user's
-- group and the model (model/cache.go), the relay takes quota beforehand, sends the request and
-- settles the price (relay/controller, relay/billing), and failures are retried on other channels
-- and counted (controller/relay.go, monitor/metric.go). Quota lives in rows of users, tokens and
-- channels; updates are written at once or collected by the batch updater (model/utils.go).
--
-- The files.
--   Prelude           names, tests, lists, maps and 64-bit integers that the others share
--   Model/Store       the database rows, the state of the data layer, and its monad: an operation
--                     may fail, and what it wrote before stays written
--   Model/Rows, Model/Batch, Model/Quota, Model/Cache
--                     the quota operations of model/token.go, model/user.go, model/channel.go,
--                     model/utils.go and model/cache.go, one function for each of theirs
--   Model/Balance     the accounts behind the rows: the balance of an account is its row plus what
--                     is pending, and every operation and the flush are seen as moves of balances
--   Model/Settle      the two settlements of a request, seen from the accounts
--   Model/Redemption  redeeming a code (model/redemption.go), with its transaction
--   Model/Accounts    the rows of users (model/user.go) with the blacklist (common/blacklist): what
--                     each write changes (Rows), the order of ids (Ids), insertion and login (Login)
--   Model/Tokens      the writes of tokens (model/token.go)
--   Model/VscodeSessions
--                     the sign-in sessions of the editor plugin (model/vscode_auth_session.go)
--   Model/Access      the validation of a key (model/token.go) and the tests on users
--   Model/Channels    abilities, the channel cache and the choice of a channel (model/ability.go,
--                     model/cache.go), with the sort of sort.Slice as a parameter; Writes, Live and
--                     Random are the database's side (model/channel.go)
--   Common/RateLimit  the in-memory limiter (common/rate-limit.go, middleware/rate-limit.go)
--   Common/Verification
--                     the verification codes of e-mail addresses (common/verification.go)
--   Controller/Users  the handlers of users (controller/user.go): their guards on roles are seen as
--                     commands of an actor (Managed, Commands, Rank), UpdateSelf on its own (Own)
--   Controller/Login  logging in and registering with a password (controller/user.go)
--   Controller/Tokens the handlers of tokens (controller/token.go)
--   Controller/Vscode the two sign-ins of the editor plugin (controller/vscode_auth.go, coder_auth.go),
--                     with histories of the sessions (Accounts, Quiet, Callback, History) and an account's
--                     password after a Coder sign-in (Rehash)
--   Monitor/Metric    the success rates of channels (monitor/metric.go)
--   Relay/Text, Relay/Image, Relay/Retry
--                     the life of a request's quota (relay/controller/text.go, image.go, helper.go)
--                     and the retry loop (controller/relay.go)
--   Relay/Ratio       the price ratio of completion tokens (relay/billing/ratio/model.go), as fractions
--   Middleware/Auth, Middleware/Session
--                     the gates TokenAuth and authHelper (middleware/auth.go)
--   Middleware/Distributor
--                     the choice of a channel for a request (middleware/distributor.go)
--   Tests             examples
--
-- Bounds. An int64 keeps its wrap-around (wrap64). A theorem on balances asks that the amounts in
-- play add up to less than 2^63, which `IsBounded` says of what is pending; a row is a database
-- BIGINT, which refuses to overflow and is an unbounded integer here. Ids are naturals. All loops
-- are over lists or count down, so that no fuel is needed.
--
-- Not modelled. gorm, gin, Redis, the network, floats and the clock: statements fail as the list
-- `faults` says, a Redis key is an entry of a map, prices and random draws are parameters, and
-- time is a field or an argument. Goroutines that settle quota run to their end where they are
-- started; the mutexes of the batch updater and the limiter make their calls a sequence, which is
-- what the theorems quantify over. The goroutines that delete a sign-in session are steps of their
-- own. Hashing, validation of a body and the values drawn at random are arguments, and a handler's
-- logs, HTTP codes and URLs are left out. The adaptors, the handlers of channels, codes, options and
-- logs, the OAuth exchanges, notifications and start-up are left out.
pub mod Controller
pub mod Prelude
pub mod Model
pub mod Common
pub mod Monitor
pub mod Relay
pub mod Middleware
pub mod Tests
