-- ===== src/Monitor/Metric.antt =====
-- Success rates of channels (monitor/metric.go). `below` stands for the comparison of
-- float64(successes)/float64(total) with the configured threshold.
use mathlib.Core.List.{append_assoc, append-nil}
use new_api_blues.Prelude.{
  ℕ, suc, Bool, true, false, List, [], ◌∷◌, ◌++◌, length, length-append, drop, ltb, if◌then◌else◌,
  ◌≡◌, refl, sym, ap, ◌∙◌, arith, ◌≤◌, ◌<◌, Bool-cases, inl, inr, ◌⊎◌,
}

-- The results kept for one channel, oldest first.
unfoldable pub trimmed : ℕ → List Bool → List Bool
trimmed metric_queue_size queue =
    if ltb metric_queue_size (length queue) then drop 1 queue else queue

unfoldable pub consume_success : ℕ → List Bool → List Bool
unfolding trimmed
consume_success metric_queue_size queue = trimmed metric_queue_size queue ++ true ∷ []

unfoldable pub count_successes : List Bool → ℕ
count_successes [] = 0
count_successes (true ∷ q) = suc (count_successes q)
count_successes (false ∷ q) = count_successes q

module _ (below : ℕ → ℕ → Bool) where
  -- Whether the channel is to be disabled, and the queue that is left.
  unfoldable pub consume_fail : ℕ → List Bool → Bool × List Bool
  unfolding trimmed count_successes
  consume_fail metric_queue_size queue =
      let q = trimmed metric_queue_size queue ++ false ∷ [] in
      if ltb (length q) metric_queue_size
      then (false, q)
      else if below (count_successes q) (length q)
      then (true, [])
      else (false, q)

  -- What the two consumers make of a run of results of one channel.
  unfoldable pub consume_all : ℕ → List Bool → List Bool → List Bool
  unfolding consume_success consume_fail
  consume_all size queue [] = queue
  consume_all size queue (true ∷ rs) = consume_all size (consume_success size queue) rs
  consume_all size queue (false ∷ rs) = consume_all size (consume_fail size queue).1 rs

  length-trimmed :
      (size : ℕ) (queue : List Bool) → length queue ≤ suc size → length (trimmed size queue) ≤ size
  unfolding trimmed
  length-trimmed size [] h = ground arith
  length-trimmed size (x ∷ q) h = ground arith

  consume_success-length :
      (size : ℕ) (q : List Bool) → length q ≤ suc size → length (consume_success size q) ≤ suc size
  unfolding consume_success
  consume_success-length size q h =
      omega (arith, length-append (trimmed size q) (true ∷ []), length-trimmed size q h)

  consume_fail-length :
      (size : ℕ) (q : List Bool) → length q ≤ suc size → length (consume_fail size q).1 ≤ suc size
  unfolding consume_fail
  consume_fail-length size q h =
      ground (arith, length-append (trimmed size q) (false ∷ []), length-trimmed size q h)

  -- A channel is disabled exactly when its window, with the failure in it, holds at least the
  -- configured number of results and its success rate is below the threshold; the window is then
  -- emptied, and else kept.
  pub consume_fail_exact :
      (size : ℕ) (queue : List Bool)
      → let q = trimmed size queue ++ false ∷ [] in
        (((consume_fail size queue).0 ≡ true)
          × (size ≤ length q)
          × (below (count_successes q) (length q) ≡ true)
          × ((consume_fail size queue).1 ≡ []))
        ⊎ (((consume_fail size queue).0 ≡ false)
            × ((length q < size) ⊎ (below (count_successes q) (length q) ≡ false))
            × ((consume_fail size queue).1 ≡ q))
  unfolding consume_fail
  consume_fail_exact size queue = ground arith

  trimmed-suffix : (size : ℕ) (q : List Bool) → (old : List Bool) × (old ++ trimmed size q ≡ q)
  unfolding trimmed
  trimmed-suffix size [] = ([], ground arith)
  trimmed-suffix size (x ∷ q) = elim (Bool-cases (ltb size (suc (length q)))) [
    | inl e ↦ (x ∷ [], rw e refl)
    | inr e ↦ ([], rw e refl)
  ]

  fail-suffix :
      (size : ℕ) (q : List Bool)
      → (old : List Bool) × (old ++ (consume_fail size q).1 ≡ q ++ false ∷ [])
  fail-suffix size q =
      let (old, e) = trimmed-suffix size q in
      elim (consume_fail_exact size q) [
        | inl (_, _, _, emptied) ↦ (q ++ false ∷ [], rw emptied (append-nil _))
        | inr (_, _, kept) ↦ (
          old,
          rw kept
              (sym (append_assoc old (trimmed size q) (false ∷ [])) ∙ ap (λ x. x ++ false ∷ []) e),
        )
      ]

  success-suffix :
      (size : ℕ) (q : List Bool)
      → (old : List Bool) × (old ++ consume_success size q ≡ q ++ true ∷ [])
  unfolding consume_success
  success-suffix size q =
      let (old, e) = trimmed-suffix size q in
      (old, sym (append_assoc old (trimmed size q) (true ∷ [])) ∙ ap (λ x. x ++ true ∷ []) e)

  -- One more result: what a step forgets comes before what it keeps.
  suffix-step :
      (old rest before after q rs : List Bool) (r : Bool)
      → old ++ before ≡ q ++ r ∷ []
      → rest ++ after ≡ before ++ rs
      → (old ++ rest) ++ after ≡ q ++ r ∷ rs
  suffix-step old rest before after q rs r h k =
      append_assoc old rest after
      ∙ ap (λ x. old ++ x) k
      ∙ sym (append_assoc old before rs)
      ∙ ap (λ x. x ++ rs) h
      ∙ append_assoc q (r ∷ []) rs

  -- Over any run of results, from a window of size + 1 results at most, what is kept for a channel
  -- is a last part of its results, size + 1 of them at most.
  pub consume_all-window :
      (size : ℕ) (queue rs : List Bool)
      → length queue ≤ suc size
      → (old : List Bool) × (old ++ consume_all size queue rs ≡ queue ++ rs)
        × (length (consume_all size queue rs) ≤ suc size)
  unfolding consume_all
  consume_all-window size queue [] h = ([], sym (append-nil queue), h)
  consume_all-window size queue (true ∷ rs) h =
      let (old, e) = success-suffix size queue in
      let q = consume_success size queue in
      let (rest, f, small) = consume_all-window size q rs (consume_success-length size queue h) in
      (old ++ rest, suffix-step old rest q (consume_all size q rs) queue rs true e f, small)
  consume_all-window size queue (false ∷ rs) h =
      let (old, e) = fail-suffix size queue in
      let q = (consume_fail size queue).1 in
      let (rest, f, small) = consume_all-window size q rs (consume_fail-length size queue h) in
      (old ++ rest, suffix-step old rest q (consume_all size q rs) queue rs false e f, small)
