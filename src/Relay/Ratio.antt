-- ===== src/Relay/Ratio.antt =====
-- The default price ratio of completion tokens, GetCompletionRatio (relay/billing/ratio/model.go).
-- A ratio is a fraction. The name of a model on a type of channel, "name(type)", is formatted by
-- the argument `on_type`.
use new_api_blues.Prelude.{
  ℕ, String, str_eq, starts_with, Bool, true, ◌&&◌, ◌||◌, Option, none, some, List, [], ◌∷◌, lookup,
  if◌then◌else◌,
}

-- strings.HasSuffix(s, p)
unfoldable pub ends_with : String → String → Bool
ends_with p String.[] = str_eq p ""
ends_with p (String.◌∷◌ c s) =
    let rest = ends_with p s in if str_eq p (String.◌∷◌ c s) then true else rest

-- strings.TrimSuffix(s, p)
unfoldable pub trim_suffix : String → String → String
trim_suffix p String.[] = String.[]
trim_suffix p (String.◌∷◌ c s) =
    let rest = trim_suffix p s in if str_eq p (String.◌∷◌ c s) then String.[] else String.◌∷◌ c rest

abbrev pub Ratio : Type 0
Ratio = ℕ × ℕ

abbrev pub RatioMap : Type 0
RatioMap = List (String × Ratio)

-- CompletionRatio, and DefaultCompletionRatio, which starts as a copy of it.
abbrev pub completion_ratio : RatioMap
completion_ratio =
    ("llama3-8b-8192(33)", (2, 1))
    ∷ ("llama3-70b-8192(33)", (70, 53))
    ∷ ("whisper-1", (0, 1))
    ∷ ("deepseek-chat", (2, 1))
    ∷ ("deepseek-reasoner", (219, 55))
    ∷ []

-- The switch over exact names.
abbrev pub named_ratios : RatioMap
named_ratios =
    ("llama2-70b-4096", (5, 4))
    ∷ ("llama3-8b-8192", (2, 1))
    ∷ ("llama3-70b-8192", (79, 59))
    ∷ ("command", (2, 1))
    ∷ ("command-light", (2, 1))
    ∷ ("command-nightly", (2, 1))
    ∷ ("command-light-nightly", (2, 1))
    ∷ ("command-r", (3, 1))
    ∷ ("command-r-plus", (5, 1))
    ∷ ("grok-beta", (3, 1))
    ∷ ("ibm-granite/granite-20b-code-instruct-8k", (5, 1))
    ∷ ("ibm-granite/granite-3.0-2b-instruct", (4166666666666667, 500000000000000))
    ∷ ("ibm-granite/granite-3.0-8b-instruct", (5, 1))
    ∷ ("ibm-granite/granite-8b-code-instruct-128k", (5, 1))
    ∷ ("meta/llama-2-13b", (5, 1))
    ∷ ("meta/llama-2-13b-chat", (5, 1))
    ∷ ("meta/llama-2-7b", (5, 1))
    ∷ ("meta/llama-2-7b-chat", (5, 1))
    ∷ ("meta/meta-llama-3-8b", (5, 1))
    ∷ ("meta/meta-llama-3-8b-instruct", (5, 1))
    ∷ ("meta/llama-2-70b", (55, 13))
    ∷ ("meta/llama-2-70b-chat", (55, 13))
    ∷ ("meta/meta-llama-3-70b", (55, 13))
    ∷ ("meta/meta-llama-3-70b-instruct", (55, 13))
    ∷ ("meta/meta-llama-3.1-405b-instruct", (1, 1))
    ∷ ("mistralai/mistral-7b-instruct-v0.2", (5, 1))
    ∷ ("mistralai/mistral-7b-v0.1", (5, 1))
    ∷ ("mistralai/mixtral-8x7b-instruct-v0.1", (10, 3))
    ∷ []

unfoldable pub gpt_35_ratio : String → Ratio
gpt_35_ratio name =
    if str_eq name "gpt-3.5-turbo" || ends_with "0125" name
    then (3, 1)
    else if ends_with "1106" name
    then (2, 1)
    else (4, 3)

unfoldable pub gpt_4_ratio : String → Ratio
gpt_4_ratio name =
    if starts_with name "gpt-4o"
    then (if str_eq name "gpt-4o-2024-05-13" then (3, 1) else (4, 1))
    else if starts_with name "gpt-4-turbo" || ends_with "preview" name
    then (3, 1)
    else (2, 1)

abbrev pub ratio_or_one : Option Ratio → Ratio
ratio_or_one none = (1, 1)
ratio_or_one (some r) = r

-- By families of names, then by exact names.
unfoldable pub family_ratio : String → Ratio
family_ratio name =
    if starts_with name "gpt-3.5"
    then gpt_35_ratio name
    else if starts_with name "gpt-4"
    then gpt_4_ratio name
    else if starts_with name "o1"
    then (4, 1)
    else if str_eq name "chatgpt-4o-latest"
    then (3, 1)
    else if starts_with name "claude-3"
    then (5, 1)
    else if starts_with name "claude-"
    then (3, 1)
    else if starts_with name "mistral-"
    then (3, 1)
    else if starts_with name "gemini-"
    then (3, 1)
    else if starts_with name "deepseek-"
    then (2, 1)
    else ratio_or_one (lookup name named_ratios)

-- The first table that knows a name.
abbrev pub first_known : Option Ratio → Option Ratio → Option Ratio
first_known (some r) other = some r
first_known none other = other

unfoldable pub get_completion_ratio : (String → String) → RatioMap → RatioMap → String → Ratio
get_completion_ratio on_type configured default asked =
    let name =
      if starts_with asked "qwen-" && ends_with "-internet" asked
      then trim_suffix "-internet" asked
      else asked in
    let model = on_type name in
    elim (first_known (lookup model configured) (
      first_known (lookup model default)
        (first_known (lookup name configured) (lookup name default)))) [
          | some r ↦ r
          | none ↦ family_ratio name
        ]
