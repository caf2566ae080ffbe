-- ===== src/Relay/Retry.antt =====
-- The retry loop of `Relay` with `shouldRetry` and `processChannelRelayError`
-- (controller/relay.go). The relay itself, the choice of a channel and the verdict on an error are
-- arguments: `answer n c` is what the n-th attempt, on channel c, comes to (`none` is success, else
-- the status code), and `pick i ignore_first` is the channel that the i-th round is given.
pub mod Trace
use new_api_blues.Prelude.{
  ℕ, zero, suc, ◌/◌, Bool, true, false, not, Option, none, some, List, [], ◌∷◌, ◌==◌, if◌then◌else◌,
}

unfoldable pub should_retry : Bool → ℕ → Bool
should_retry specific_channel status_code =
    if specific_channel
    then false
    else if status_code == 429
    then true
    else if status_code / 100 == 5
    then true
    else if status_code == 400
    then false
    else if status_code / 100 == 2
    then false
    else true

-- What the handler does, in order; the goroutine of an error stands where it is started.
pub data Event : Type 0 where
  attempt : ℕ → Option ℕ → Event  -- relayHelper on a channel, and its error's status
  emit : ℕ → Bool → Event  -- monitor.Emit
  disable : ℕ → Event  -- monitor.DisableChannel
  respond : ℕ → Event  -- the error sent to the client

module _ (answer : ℕ → ℕ → Option ℕ) (pick : ℕ → Bool → Option ℕ)
    (should_disable : ℕ → ℕ → Bool) where
  unfoldable pub process_channel_relay_error : ℕ → ℕ → Event
  process_channel_relay_error channel_id status =
      if should_disable channel_id status then disable channel_id else emit channel_id false

  -- `rounds i n last status`: i rounds are left, n attempts were made, the last failed on channel
  -- `last` with `status`.
  unfoldable pub rounds : ℕ → ℕ → ℕ → ℕ → ℕ → List Event
  rounds retry_times zero n last status = respond status ∷ []
  rounds retry_times (suc i) n last status = elim (pick (suc i) (not (suc i == retry_times))) [
    | none ↦ respond status ∷ []
    | some channel_id ↦ elim (channel_id == last) [
      | true ↦ rounds retry_times i n last status
      | false ↦ elim (answer n channel_id) [
        | none ↦ attempt channel_id none ∷ []
        | some status' ↦
            attempt channel_id (some status')
            ∷ process_channel_relay_error channel_id status'
            ∷ rounds retry_times i (suc n) channel_id status'
      ]
    ]
  ]

  unfoldable pub relay : Bool → ℕ → ℕ → List Event
  unfolding should_retry
  relay specific_channel config_retry_times channel_id = elim (answer 0 channel_id) [
    | none ↦ attempt channel_id none ∷ emit channel_id true ∷ []
    | some status ↦
        let retry_times = if should_retry specific_channel status then config_retry_times else 0 in
        attempt channel_id (some status)
        ∷ process_channel_relay_error channel_id status
        ∷ rounds retry_times retry_times 1 channel_id status
  ]
