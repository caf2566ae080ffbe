-- ===== src/Common/RateLimit/Run.antt =====
-- The limiter over a run of requests, to any keys at any times.
use mathlib.Core.List.{append_assoc, append-nil}
use new_api_blues.Prelude.{
  ℕ, ℤ, pos, two63, String, str_eq, eq_iff, Bool, true, false, ◌&&◌, Option, none, some, List, [],
  ◌∷◌, ◌++◌, All, ◌<◌, ◌≡◌, refl, sym, if◌then◌else◌, lookup, insert, lookup-insert, Bool-cases,
  inl, inr, subst,
}
use new_api_blues.Common.RateLimit.{InMemoryRateLimiter, request, request_queue}
use new_api_blues.Common.RateLimit.Window.{IsSpaced, IsTail, Holds, extended, request_queue_lem}

abbrev pub prepend : Bool → ℤ → Option (List ℤ) → Option (List ℤ)
prepend b t none = none
prepend b t (some ts) = some (if b then t ∷ ts else ts)

module _ (n : ℕ) (d : ℤ) (key : String) where
  -- The times at which a run of requests, each to a key at a time, grants one to `key`.
  unfoldable pub grants : InMemoryRateLimiter → List (String × ℕ) → Option (List ℤ)
  grants l [] = some []
  grants l ((k, now) ∷ es) = elim (request l k n d (pos now)) [
    | none ↦ none
    | some (granted, l') ↦ prepend (granted && str_eq k key) (pos now) (grants l' es)
  ]

  -- Every queue of the limiter is the end of some history, and that of `key` of this one.
  pub record IsSound (history : List ℤ) (l : InMemoryRateLimiter) : Type 0 where
    pub others : (k : String) → (h : List ℤ) × Holds n d h (lookup k l.store)
    pub this : Holds n d history (lookup key l.store)

  Holds-IsSpaced :
      (history : List ℤ) (o : Option (List ℤ)) → Holds n d history o → IsSpaced n d history
  Holds-IsSpaced history none h = subst (IsSpaced n d) (sym h) tt
  Holds-IsSpaced history (some queue) h = h.spaced

  request_lem :
      (l : InMemoryRateLimiter) (k : String) (now : ℤ) (granted : Bool) (queue : List ℤ)
      → request_queue (lookup k l.store) n d now ≡ some (granted, queue)
      → request l k n d now ≡ some (granted, record l { store = insert k queue l.store })
  unfolding request
  request_lem l k now granted queue e = rw (e, request)

  -- A queue is replaced: what held of the other keys still holds.
  insert-others :
      (l : InMemoryRateLimiter) (k : String) (queue h : List ℤ) (history : List ℤ)
      → IsTail n d h queue
      → IsSound history l
      → (j : String) → (g : List ℤ) × Holds n d g (lookup j (insert k queue l.store))
  insert-others l k queue h history t s j = elim (Bool-cases (str_eq k j)) [
    | inl e ↦ (h, rw (lookup-insert, e) t)
    | inr e ↦ let (g, old) = s.others j in (g, rw (lookup-insert, e) old)
  ]

  same_key :
      (l : InMemoryRateLimiter) (k : String) (queue h history : List ℤ)
      → str_eq k key ≡ true
      → IsTail n d h queue
      → IsSound history l
      → IsSound h (record l { store = insert k queue l.store })
  same_key l k queue h history e t s = record {
    others = insert-others l k queue h history t s;
    this = rw (lookup-insert, e) t;
  }

  other_key :
      (l : InMemoryRateLimiter) (k : String) (queue h history : List ℤ)
      → str_eq k key ≡ false
      → IsTail n d h queue
      → IsSound history l
      → IsSound history (record l { store = insert k queue l.store })
  other_key l k queue h history e t s = record {
    others = insert-others l k queue h history t s;
    this = rw (lookup-insert, e) s.this;
  }

  -- What a run of grants adds to the history.
  join :
      (granted : Bool) (now : ℤ) (history ts : List ℤ) (o : Option (List ℤ))
      → o ≡ some ts
      → IsSpaced n d (extended n d history granted now ++ ts)
      → (us : List ℤ) × (prepend (granted && true) now o ≡ some us) × IsSpaced n d (history ++ us)
  join true now history ts o e h =
      (now ∷ ts, rw e, subst (IsSpaced n d) (append_assoc history (now ∷ []) ts) h)
  join false now history ts o e h =
      (ts, rw e, subst (λ x. IsSpaced n d (x ++ ts)) (append-nil history) h)

  skip :
      (granted : Bool) (now : ℤ) (o : Option (List ℤ)) (ts : List ℤ)
      → o ≡ some ts
      → prepend (granted && false) now o ≡ some ts
  skip true now o ts e = rw e
  skip false now o ts e = rw e

  grants_lem :
      (history : List ℤ) (l : InMemoryRateLimiter) (es : List (String × ℕ))
      → 0 < n
      → All (λ e. e.1 < two63) es
      → IsSound history l
      → (ts : List ℤ) × (grants l es ≡ some ts) × IsSpaced n d (history ++ ts)
  unfolding grants
  grants_lem history l [] npos small s = (
    [],
    refl,
    subst (IsSpaced n d) (sym (append-nil history))
        (Holds-IsSpaced history (lookup key l.store) s.this),
  )
  grants_lem history l ((k, now) ∷ es) npos small s = elim (Bool-cases (str_eq k key)) [
    | inl same ↦
        let at_key : Holds n d history (lookup k l.store) =
          subst (λ j. Holds n d history (lookup j l.store)) (sym ((eq_iff k key).0 same)) s.this in
        let (granted, queue, e, t) =
          request_queue_lem n d history (lookup k l.store) now npos small.0 at_key in
        let l' : InMemoryRateLimiter = record l { store = insert k queue l.store } in
        let (ts, run, spaced) =
          grants_lem (extended n d history granted (pos now)) l' es npos small.1
            (same_key l k queue _ history same t s) in
        rw (request_lem l k (pos now) granted queue e, same, grants)
          (join granted (pos now) history ts (grants l' es) run spaced)
    | inr other ↦
        let (h, holds) = s.others k in
        let (granted, queue, e, t) =
          request_queue_lem n d h (lookup k l.store) now npos small.0 holds in
        let l' : InMemoryRateLimiter = record l { store = insert k queue l.store } in
        let (ts, run, spaced) =
          grants_lem history l' es npos small.1 (other_key l k queue _ history other t s) in
        rw (request_lem l k (pos now) granted queue e, other, grants)
          (ts, skip granted (pos now) (grants l' es) ts run, spaced)
  ]

  -- From an empty store and with a positive limit n, whatever keys are requested at whatever times
  -- below 2^63, the limiter never panics, and of the requests that it grants to a key, the one n
  -- places after another comes at least d later: no window shorter than d holds more than n
  -- grants.
  pub grants-IsSpaced :
      (l : InMemoryRateLimiter) (es : List (String × ℕ))
      → l.store ≡ []
      → 0 < n
      → All (λ e. e.1 < two63) es
      → (ts : List ℤ) × (grants l es ≡ some ts) × IsSpaced n d ts
  grants-IsSpaced l es empty npos small = grants_lem [] l es npos small (record {
    others = λ k. ([], rw empty (unfold lookup in refl));
    this = rw empty (unfold lookup in refl);
  })
