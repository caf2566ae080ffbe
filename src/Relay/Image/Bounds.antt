-- ===== src/Relay/Image/Bounds.antt =====
-- What a validated image request can cost (relay/controller/image.go).
use new_api_blues.Prelude.{
  ℕ, ℤ, pos, ◌≤◌, String, str_eq, eq_iff, ◌&&◌, some, List, [], ◌∷◌, lookup, ◌≡◌, ap₂, ◌∙◌, subst,
  refl, arith, Bool-cases, Option-cases, inl, inr, ◌≤ℤ◌,
}
use new_api_blues.Relay.Image.{
  image_size_ratios, image_generation_amounts, ImageRequest, get_image_size_ratio,
  get_image_cost_ratio,
}

-- Every value of a map has a property.
abbrev pub Values {ℓ} : {V : Type ℓ} → (V → Type 0) → List (String × V) → Type 0
Values P [] = Unit
Values P ((k, v) ∷ m) = P v × Values P m

pub Values-lookup {ℓ} :
    {V : Type ℓ} (P : V → Type 0) (k : String) (v : V) (m : List (String × V))
    → Values P m
    → lookup k m ≡ some v
    → P v
unfolding lookup
Values-lookup P k v [] h e = absurd (ground (arith, e))
Values-lookup P k v ((j, w) ∷ m) (here, there) e = elim (Bool-cases (str_eq j k)) [
  | inl same ↦ subst P (ground (arith, e, same)) here
  | inr other ↦ Values-lookup P k v m there (ground (arith, e, other))
]

abbrev Listed : ℕ → Type 0
Listed r = (1000 ≤ r) × (r ≤ 2000)

abbrev Amounts : ℤ × ℤ → Type 0
Amounts (least, most) = (pos 1 ≤ℤ least) × (most ≤ℤ pos 10)

ratios-Listed : Values (Values Listed) image_size_ratios
ratios-Listed = ground arith

Amounts-Amounts : Values Amounts image_generation_amounts
Amounts-Amounts = ground arith

size_ratio-Listed : (model size : String) → Listed (get_image_size_ratio model size)
unfolding get_image_size_ratio
size_ratio-Listed model size = elim (Option-cases (lookup model image_size_ratios)) [
  | inl e ↦ rw (get_image_size_ratio, e) (omega arith, omega arith)
  | inr (sizes, e) ↦
      let all = Values-lookup (Values Listed) model sizes image_size_ratios ratios-Listed e in
      elim (Option-cases (lookup size sizes)) [
        | inl f ↦ rw (get_image_size_ratio, e, f) (omega arith, omega arith)
        | inr (ratio, f) ↦
            rw (get_image_size_ratio, e, f) (Values-lookup Listed size ratio sizes all f)
      ]
]

square_ratio : get_image_size_ratio "dall-e-3" "1024x1024" ≡ 1000
unfolding get_image_size_ratio lookup
square_ratio = refl

-- The cost ratio of any image is between 1 and 3.
pub get_image_cost_ratio_bounds :
    (r : ImageRequest) → (1000 ≤ get_image_cost_ratio r) × (get_image_cost_ratio r ≤ 3000)
unfolding get_image_cost_ratio
get_image_cost_ratio_bounds r =
    let (low, high) = size_ratio-Listed r.model r.size in
    elim (Bool-cases (str_eq r.quality "hd" && str_eq r.model "dall-e-3")) [
      | inl e ↦ elim (Bool-cases (str_eq r.size "1024x1024")) [
        | inl f ↦
            let is_model : r.model ≡ "dall-e-3" =
              (eq_iff r.model "dall-e-3").0 (ground (arith, e)) in
            let is_size : r.size ≡ "1024x1024" = (eq_iff r.size "1024x1024").0 f in
            let one : get_image_size_ratio r.model r.size ≡ 1000 =
              ap₂ get_image_size_ratio is_model is_size ∙ square_ratio in
            rw (get_image_cost_ratio, e, f, one) (omega arith, omega arith)
        | inr f ↦ rw (get_image_cost_ratio, e, f) (omega (arith, low), omega (arith, high))
      ]
      | inr e ↦ rw (get_image_cost_ratio, e) (low, omega (arith, high))
    ]
