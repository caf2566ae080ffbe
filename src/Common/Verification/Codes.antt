-- ===== src/Common/Verification/Codes.antt =====
-- When a code is accepted (common/verification.go).
use new_api_blues.Prelude.{
  ℕ, ◌-◌, ◌&&◌, ◌≤◌, String, str_eq, eq_iff, true, none, some, inl, inr, [], ◌∷◌, ◌≡◌, refl, arith,
  sym, ap, ◌∙◌, if◌then◌else◌, ltb, lookup, Distinct, insert-Distinct, insert, lookup-insert,
  length, Bool-cases,
}
use new_api_blues.Common.Verification.{
  VerificationValue, Codes, joined, over, matches, remove_expired_pairs,
  register_verification_code_with_key, verify_code_with_key, verification_map_max_size,
}

lookup-none :
    (asked : String) (now : ℕ) (codes : Codes)
    → lookup asked codes ≡ none
    → lookup asked (remove_expired_pairs now codes) ≡ none
unfolding lookup remove_expired_pairs
lookup-none asked now [] n = refl
lookup-none asked now ((key, v) ∷ codes) n = elim (Bool-cases (str_eq key asked)) [
  | inl e ↦ ground (arith, n, e)
  | inr e ↦ elim (Bool-cases (over now v)) [
    | inl o ↦ rw o (lookup-none asked now codes ground (arith, n, e))
    | inr o ↦ rw (o, e) (lookup-none asked now codes ground (arith, n, e))
  ]
]

over_later :
    (v : VerificationValue) (now later : ℕ) → now ≤ later → over now v ≡ true → over later v ≡ true
unfolding over
over_later v now later h o = ground (arith, h, o)

-- The removal of expired codes does not change which codes are accepted, then or later.
remove-matches :
    (asked code : String) (now later : ℕ) (codes : Codes)
    → now ≤ later
    → Distinct codes
    → matches later code (lookup asked (remove_expired_pairs now codes))
      ≡ matches later code (lookup asked codes)
unfolding lookup remove_expired_pairs Distinct
remove-matches asked code now later [] h d = refl
remove-matches asked code now later ((key, v) ∷ codes) h (n, d) =
    elim (Bool-cases (str_eq key asked)) [
      | inl e ↦ elim (Bool-cases (over now v)) [
        | inl o ↦
            let gone =
              lookup-none asked now codes
                (ap (λ k. lookup k codes) (sym ((eq_iff key asked).0 e)) ∙ n) in
            rw (o, gone, e, over_later v now later h o) refl
        | inr o ↦ rw (o, e) refl
      ]
      | inr e ↦ elim (Bool-cases (over now v)) [
        | inl o ↦ rw (o, e) (remove-matches asked code now later codes h d)
        | inr o ↦ rw (o, e) (remove-matches asked code now later codes h d)
      ]
    ]

-- A code that was stored is accepted if it is that code and less than 600 seconds old.
matches-fresh :
    (code code' : String) (now later : ℕ)
    → matches later code' (some (record { code = code; time = now }))
      ≡ (str_eq code' code && ltb (later - now) 600000000000)
unfolding over
matches-fresh code code' now later = ground arith

-- Once a code is registered, a code is accepted for the same purpose and key, joined, exactly if
-- it is that code and less than 600000000000 ns have passed; for any other purpose and key, joined,
-- it is accepted exactly if it was before. Time does not run backwards, and a key stands once in
-- the map.
pub register-verify :
    (key code purpose key' code' purpose' : String) (now later : ℕ) (codes : Codes)
    → now ≤ later
    → Distinct codes
    → verify_code_with_key key' code' purpose' later
        (register_verification_code_with_key key code purpose now codes)
      ≡ (if str_eq (joined purpose key) (joined purpose' key')
          then str_eq code' code && ltb (later - now) 600000000000
          else verify_code_with_key key' code' purpose' later codes)
unfolding verify_code_with_key register_verification_code_with_key
register-verify key code purpose key' code' purpose' now later codes h d =
    let at = joined purpose key in
    let asked = joined purpose' key' in
    let value : VerificationValue = record { code = code; time = now } in
    let stored = insert at value codes in
    let read : matches later code' (lookup asked stored) ≡ (
        if str_eq at asked
        then str_eq code' code && ltb (later - now) 600000000000
        else matches later code' (lookup asked codes)) =
      elim (Bool-cases (str_eq at asked)) [
        | inl e ↦ rw (lookup-insert at asked value codes, e) (matches-fresh code code' now later)
        | inr e ↦ rw (lookup-insert at asked value codes, e) refl
      ] in
    elim (Bool-cases (ltb verification_map_max_size (length stored))) [
      | inl f ↦
          rw f (
            remove-matches asked code' now later stored h (insert-Distinct at value codes d) ∙ read)
      | inr f ↦ rw f read
    ]
