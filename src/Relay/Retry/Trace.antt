-- ===== src/Relay/Retry/Trace.antt =====
-- What a client and the monitor see of the retry loop (controller/relay.go).
use new_api_blues.Prelude.{
  ℕ, zero, suc, ◌≤◌, Bool, true, false, not, Option, none, some, List, [], ◌∷◌, ◌==◌, if◌then◌else◌,
  ◌≡◌, ◌≢◌, refl, arith, Bool-cases, Option-cases, inl, inr, ◌⊎◌, ==_iff,
}
use new_api_blues.Relay.Retry.{
  should_retry, Event, attempt, emit, disable, respond, process_channel_relay_error, rounds, relay,
}

-- The channels that were tried, in order.
abbrev pub attempted : List Event → List ℕ
attempted [] = []
attempted (attempt c _ ∷ es) = c ∷ attempted es
attempted (emit _ _ ∷ es) = attempted es
attempted (disable _ ∷ es) = attempted es
attempted (respond _ ∷ es) = attempted es

-- How many answers the client gets: a relayed success or an error.
abbrev pub answers : List Event → ℕ
answers [] = 0
answers (attempt _ none ∷ es) = suc (answers es)
answers (attempt _ (some _) ∷ es) = answers es
answers (emit _ _ ∷ es) = answers es
answers (disable _ ∷ es) = answers es
answers (respond _ ∷ es) = suc (answers es)

-- Each failed attempt is followed at once by its report to the monitor.
abbrev pub IsReported : List Event → Type 0
IsReported [] = Unit
IsReported (attempt c (some _) ∷ []) = ⊥
IsReported (attempt c (some _) ∷ e ∷ es) = ((e ≡ disable c) ⊎ (e ≡ emit c false)) × IsReported es
IsReported (attempt c none ∷ es) = IsReported es
IsReported (emit _ _ ∷ es) = IsReported es
IsReported (disable _ ∷ es) = IsReported es
IsReported (respond _ ∷ es) = IsReported es

-- No channel twice in a row.
abbrev pub IsAlternating : ℕ → List ℕ → Type 0
IsAlternating last [] = Unit
IsAlternating last (c ∷ cs) = (c ≢ last) × IsAlternating c cs

abbrev pub IsConsecutive : List ℕ → Type 0
IsConsecutive [] = Unit
IsConsecutive (c ∷ cs) = IsAlternating c cs

abbrev pub count : List ℕ → ℕ
count [] = 0
count (_ ∷ cs) = suc (count cs)

module _ (answer : ℕ → ℕ → Option ℕ) (pick : ℕ → Bool → Option ℕ)
    (should_disable : ℕ → ℕ → Bool) where
  -- What the loop promises of its events.
  abbrev pub RoundsHold : ℕ → ℕ → List Event → Type 0
  RoundsHold i last es =
      (count (attempted es) ≤ i)
      × (IsAlternating last (attempted es))
      × (answers es ≡ 1)
      × IsReported es

  -- The events after a failed attempt: its report, then the rest of the loop.
  Failed-hold :
      (i last c status : ℕ) (es : List Event)
      → c ≢ last
      → RoundsHold i c es
      → RoundsHold (suc i) last (
          attempt c (some status)
          ∷ process_channel_relay_error answer pick should_disable c status
          ∷ es)
  unfolding process_channel_relay_error
  Failed-hold i last c status es other (few, apart, one, told) =
      elim (Bool-cases (should_disable c status)) [
        | inl e ↦ rw e (omega (arith, few), (other, apart), one, (inl refl, told))
        | inr e ↦ rw e (omega (arith, few), (other, apart), one, (inr refl, told))
      ]

  rounds_lem :
      (retry_times i n last status : ℕ)
      → RoundsHold i last (rounds answer pick should_disable retry_times i n last status)
  unfolding rounds
  rounds_lem r zero n last status = (omega arith, tt, refl, tt)
  rounds_lem r (suc i) n last status = elim (Option-cases (pick (suc i) (not (suc i == r)))) [
    | inl e ↦ rw (rounds, e) (omega arith, tt, refl, tt)
    | inr (c, e) ↦ elim (Bool-cases (c == last)) [
      | inl same ↦
          let (few, apart, one, told) = rounds_lem r i n last status in
          rw (rounds, e, same) (omega (arith, few), apart, one, told)
      | inr other ↦
          let apart : c ≢ last = λ h. absurd (ground (arith, ==_iff c last)) in
          elim (Option-cases (answer n c)) [
            | inl a ↦ rw (rounds, e, other, a) (omega arith, (apart, tt), refl, tt)
            | inr (status', a) ↦
                rw (rounds, e, other, a)
                  (Failed-hold i last c status'
                    (rounds answer pick should_disable r i (suc n) c status') apart
                    (rounds_lem r i (suc n) c status'))
          ]
    ]
  ]

  -- One request is tried at most RetryTimes + 1 times, never twice in a row on one channel, the client gets exactly
  -- one answer, and each failed attempt is reported to the monitor at once.
  pub relay_trace :
      (specific_channel : Bool) (retry_times channel_id : ℕ)
      → let es = relay answer pick should_disable specific_channel retry_times channel_id in
        (count (attempted es) ≤ suc retry_times)
        × IsConsecutive (attempted es)
        × (answers es ≡ 1)
        × IsReported es
  unfolding relay should_retry process_channel_relay_error
  relay_trace specific_channel retry_times channel_id = elim (Option-cases (answer 0 channel_id)) [
    | inl a ↦ rw (relay, a) (omega arith, tt, refl, tt)
    | inr (status, a) ↦
        let r = if should_retry specific_channel status then retry_times else 0 in
        let (few, apart, one, told) = rounds_lem r r 1 channel_id status in
        let bound : r ≤ retry_times = ground arith in
        elim (Bool-cases (should_disable channel_id status)) [
          | inl e ↦ rw (relay, a, e) (omega (arith, few, bound), apart, one, (inl refl, told))
          | inr e ↦ rw (relay, a, e) (omega (arith, few, bound), apart, one, (inr refl, told))
        ]
  ]

  -- A request that names its channel is tried on that channel only, and once, whatever comes of it.
  pub relay-specific :
      (retry_times channel_id : ℕ)
      → attempted (relay answer pick should_disable true retry_times channel_id) ≡ channel_id ∷ []
  unfolding relay should_retry rounds process_channel_relay_error
  relay-specific retry_times channel_id = elim (Option-cases (answer 0 channel_id)) [
    | inl a ↦ rw (attempted, relay, a) refl
    | inr (status, a) ↦ elim (Bool-cases (should_disable channel_id status)) [
      | inl e ↦ rw (attempted, relay, a, e) refl
      | inr e ↦ rw (attempted, relay, a, e) refl
    ]
  ]
