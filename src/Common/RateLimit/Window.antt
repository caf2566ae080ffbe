-- ===== src/Common/RateLimit/Window.antt =====
-- What the rate limiter grants to one key over a run of requests to any keys.
use mathlib.Core.List.{append_assoc, append-nil}
use new_api_blues.Prelude.{
  ℕ, suc, ℤ, pos, ◌+ℤ◌, ◌-ℤ◌, ◌≤ℤ◌, leb_ℤ, sub64, wrap64_of_IsInt64, -ℤ_bounds, ltb→lt, All-append,
  two63, int_laws, Bool, true, false, Option, none, some, List, [], ◌∷◌, ◌++◌, length,
  length-append, get_elem?, get_elem?-append_left, get_elem?-append_end, get_elem?-past, All, ◌≤◌,
  ◌<◌, ◌≡◌, refl, sym, ap, ◌∙◌, arith, ltb, if◌then◌else◌, Bool-cases, inl, inr, ◌⊎◌, subst,
}
use new_api_blues.Common.RateLimit.{request_known, request_queue}

-- What comes n places later comes at least d later.
abbrev pub Far : ℤ → ℤ → Option ℤ → Type 0
Far d x none = Unit
Far d x (some y) = x +ℤ d ≤ℤ y

abbrev pub IsSpaced : ℕ → ℤ → List ℤ → Type 0
IsSpaced n d [] = Unit
IsSpaced n d (x ∷ xs) = Far d x (get_elem? (x ∷ xs) n) × IsSpaced n d xs

-- A Unix time of the present era.
abbrev pub IsUnix : ℤ → Type 0
IsUnix t = (k : ℕ) × (t ≡ pos k) × (k < two63)

late_enough : (d now oldest : ℤ) → leb_ℤ d (now -ℤ oldest) ≡ true → oldest +ℤ d ≤ℤ now
late_enough d now oldest h = omega int_laws

module _ (n : ℕ) (d : ℤ) where
  short-IsSpaced : (xs : List ℤ) → length xs ≤ n → IsSpaced n d xs
  short-IsSpaced [] h = tt
  short-IsSpaced (x ∷ xs) h =
      (subst (Far d x) (sym (get_elem?-past (x ∷ xs) n h)) tt, short-IsSpaced xs (omega arith))

  -- A grant after a full window may follow once the window's oldest is d old.
  append-IsSpaced :
      (old rest : List ℤ) (oldest now : ℤ)
      → suc (length rest) ≡ n
      → oldest +ℤ d ≤ℤ now
      → IsSpaced n d (old ++ oldest ∷ rest)
      → IsSpaced n d ((old ++ oldest ∷ rest) ++ now ∷ [])
  append-IsSpaced [] rest oldest now full late h = (
    subst (λ k. Far d oldest (get_elem? ((oldest ∷ rest) ++ now ∷ []) k)) full
        (subst (Far d oldest) (sym (get_elem?-append_end rest now)) late),
    short-IsSpaced (rest ++ now ∷ []) (omega (arith, length-append rest (now ∷ []))),
  )
  append-IsSpaced (x ∷ old) rest oldest now full late h = (
    subst (Far d x)
        (sym (
          get_elem?-append_left (x ∷ old ++ oldest ∷ rest) (now ∷ []) n
            (omega (arith, length-append old (oldest ∷ rest)))))
        h.0,
    append-IsSpaced old rest oldest now full late h.1,
  )

  -- The queue is the end of the grants so far: all of them, or the last n.
  pub record IsTail (history queue : List ℤ) : Type 0 where
    pub old : List ℤ
    pub parts : history ≡ old ++ queue
    pub capped : length queue ≤ n
    pub full : (old ≡ []) ⊎ (length queue ≡ n)
    pub spaced : IsSpaced n d history
    pub in_range : All IsUnix queue

  abbrev pub Holds : List ℤ → Option (List ℤ) → Type 0
  Holds history none = history ≡ []
  Holds history (some queue) = IsTail history queue

  abbrev pub extended : List ℤ → Bool → ℤ → List ℤ
  extended history granted now = history ++ (if granted then now ∷ [] else [])

  elapsed :
      (now : ℕ) (oldest : ℤ)
      → now < two63
      → IsUnix oldest
      → sub64 (pos now) oldest ≡ pos now -ℤ oldest
  unfolding sub64
  elapsed now oldest small (k, e, h) = wrap64_of_IsInt64 (pos now -ℤ oldest) (
      rw e (omega (arith, -ℤ_bounds (pos now) (pos k)), omega (arith, -ℤ_bounds (pos now) (pos k))))

  -- A grant to a window that is not full.
  not_full :
      (history queue : List ℤ) (now : ℕ)
      → now < two63
      → length queue < n
      → IsTail history queue
      → IsTail (history ++ pos now ∷ []) (queue ++ pos now ∷ [])
  not_full history queue now small room t = record {
    old = [];
    parts = ap (λ h. h ++ pos now ∷ []) whole;
    capped = omega (arith, length-append queue (pos now ∷ []));
    full = inl refl;
    spaced =
        subst (λ h. IsSpaced n d (h ++ pos now ∷ [])) (sym whole)
          (short-IsSpaced (queue ++ pos now ∷ [])
            (omega (arith, length-append queue (pos now ∷ []))));
    in_range = All-append IsUnix queue (pos now ∷ []) t.in_range ((now, refl, small), tt);
  }
    where
      whole : history ≡ queue
      whole = elim t.full [
        | inl e ↦ t.parts ∙ ap (λ o. o ++ queue) e
        | inr e ↦ absurd (omega arith)
      ]

  -- A grant to a full window whose oldest is old enough.
  slide :
      (history : List ℤ) (oldest : ℤ) (rest : List ℤ) (now : ℕ)
      → now < two63
      → suc (length rest) ≡ n
      → oldest +ℤ d ≤ℤ pos now
      → IsTail history (oldest ∷ rest)
      → IsTail (history ++ pos now ∷ []) (rest ++ pos now ∷ [])
  slide history oldest rest now small size late t = record {
    old = t.old ++ oldest ∷ [];
    parts =
        ap (λ h. h ++ pos now ∷ []) t.parts
        ∙ append_assoc t.old (oldest ∷ rest) (pos now ∷ [])
        ∙ sym (append_assoc t.old (oldest ∷ []) (rest ++ pos now ∷ []));
    capped = omega (arith, length-append rest (pos now ∷ []));
    full = inr (omega (arith, length-append rest (pos now ∷ [])));
    spaced =
        subst (λ h. IsSpaced n d (h ++ pos now ∷ [])) (sym t.parts)
          (append-IsSpaced t.old rest oldest (pos now) size late
            (subst (IsSpaced n d) t.parts t.spaced));
    in_range = All-append IsUnix rest (pos now ∷ []) t.in_range.1 ((now, refl, small), tt);
  }

  refused : (history queue : List ℤ) → IsTail history queue → IsTail (history ++ []) queue
  refused history queue t = subst (λ h. IsTail h queue) (sym (append-nil history)) t

  pub request_queue_lem :
      (history : List ℤ) (o : Option (List ℤ)) (now : ℕ)
      → 0 < n
      → now < two63
      → Holds history o
      → (granted : Bool) × (queue : List ℤ) × (request_queue o n d (pos now)
          ≡ some (granted, queue))
        × IsTail (extended history granted (pos now)) queue
  unfolding request_queue request_known
  request_queue_lem history none now npos small h = (
    true,
    pos now ∷ [],
    refl,
    record {
      old = [];
      parts = ap (λ h. h ++ pos now ∷ []) h;
      capped = omega arith;
      full = inl refl;
      spaced =
          subst (λ h. IsSpaced n d (h ++ pos now ∷ [])) (sym h)
            (short-IsSpaced (pos now ∷ []) (omega arith));
      in_range = ((now, refl, small), tt);
    },
  )
  request_queue_lem history (some []) now npos small h =
      (true, pos now ∷ [], ground arith, not_full history [] now small npos h)
  request_queue_lem history (some (oldest ∷ rest)) now npos small h =
      elim (Bool-cases (ltb (length (oldest ∷ rest)) n)) [
        | inl room ↦ (
          true,
          (oldest ∷ rest) ++ pos now ∷ [],
          rw room,
          not_full history (oldest ∷ rest) now small (ltb→lt _ _ room) h,
        )
        | inr no_room ↦ elim (Bool-cases (leb_ℤ d (sub64 (pos now) oldest))) [
          | inl late ↦ (
            true,
            rest ++ pos now ∷ [],
            rw (no_room, late),
            slide history oldest rest now small (ground (arith, h.capped))
                (late_enough d (pos now) oldest
                  (subst (λ z. leb_ℤ d z ≡ true) (elapsed now oldest small h.in_range.0) late))
                h,
          )
          | inr early ↦ (false, oldest ∷ rest, rw (no_room, early), refused history _ h)
        ]
      ]
