-- ===== src/Metering/Families/Laws.antt =====
-- internal/metering/model_normalizer.go: what the families do to a model's name.
use costguard.Base.{
  String, Bool, true, false, List, [], ◌∷◌, ◌≡◌, ◌≢◌, ◌⊎◌, ◌||◌, inl, inr, refl, sym, ap, ◌∙◌,
  arith, All, str_eq, eq_iff, has_prefix, has_prefix_refl, has_prefix_trans, has_prefix_of_disagree,
  disagree, Bool-cases, if◌then◌else◌,
}
use costguard.Metering.Families.{
  first_family, openai_families, anthropic_families, google_families, families_of, normalize_model,
}

-- A family's name is left as it is.
abbrev Fixed : List (String × String) → String × String → Type 0
Fixed families e = first_family families e.0 ≡ e.0

first_family-outcome :
    (all families : List (String × String)) (model : String)
    → All (Fixed all) families
    → let r = first_family families model in (r ≡ model) ⊎ (first_family all r ≡ r)
unfolding first_family
first_family-outcome all [] model h = inl refl
first_family-outcome all ((name, dashed) ∷ families) model (here, later) =
    elim (Bool-cases (str_eq model name || has_prefix dashed model)) [
      | inl hit ↦ rw hit (inr here)
      | inr miss ↦ rw miss (first_family-outcome all families model later)
    ]

first_family_idempotent :
    (families : List (String × String)) (model : String)
    → All (Fixed families) families
    → first_family families (first_family families model) ≡ first_family families model
first_family_idempotent families model h = elim (first_family-outcome families families model h) [
  | inl same ↦ ap (first_family families) same
  | inr fixed ↦ fixed
]

-- A family whose names begin with the prefix of an earlier one is not reached.
has_prefix_of_hit :
    (p name dashed model : String)
    → has_prefix p name ≡ true
    → has_prefix p dashed ≡ true
    → (str_eq model name || has_prefix dashed model) ≡ true
    → has_prefix p model ≡ true
has_prefix_of_hit p name dashed model h k hit = elim (Bool-cases (str_eq model name)) [
  | inl same ↦ rw ((eq_iff model name).0 same) h
  | inr other ↦ has_prefix_trans p dashed model k (rw other at hit)
]

shadowed-miss :
    (p name dashed model : String)
    → has_prefix p name ≡ true
    → has_prefix p dashed ≡ true
    → has_prefix p model ≡ false
    → (str_eq model name || has_prefix dashed model) ≡ false
shadowed-miss p name dashed model h k miss =
    ground (arith, has_prefix_of_hit p name dashed model h k)

-- The families of OpenAI that are reached.
abbrev pub reached : List (String × String)
reached =
    ("gpt-4o-mini", "gpt-4o-mini-")
    ∷ ("gpt-4o", "gpt-4o-")
    ∷ ("gpt-4.1-nano", "gpt-4.1-nano-")
    ∷ ("gpt-4.1-mini", "gpt-4.1-mini-")
    ∷ ("gpt-4.1", "gpt-4.1-")
    ∷ ("gpt-5.4", "gpt-5.4-")
    ∷ []

abbrev shadowed : List (String × String)
shadowed =
    ("gpt-5.4", "gpt-5.4-")
    ∷ ("gpt-5.4-mini", "gpt-5.4-mini-")
    ∷ ("gpt-5.4-nano", "gpt-5.4-nano-")
    ∷ []

first_family-shadowed :
    (model : String)
    → first_family shadowed model ≡ first_family (("gpt-5.4", "gpt-5.4-") ∷ []) model
unfolding first_family
first_family-shadowed model = elim (Bool-cases (has_prefix "gpt-5.4-" model)) [
  | inl hit ↦ ground arith
  | inr miss ↦
      rw
        (
          shadowed-miss "gpt-5.4-" "gpt-5.4-mini" "gpt-5.4-mini-" model refl refl miss,
          shadowed-miss "gpt-5.4-" "gpt-5.4-nano" "gpt-5.4-nano-" model refl refl miss,
        )
        refl
]

-- Two tables that agree agree behind the same first entries.
first_family-cons :
    (e : String × String) (fs gs : List (String × String)) (model : String)
    → first_family fs model ≡ first_family gs model
    → first_family (e ∷ fs) model ≡ first_family (e ∷ gs) model
unfolding first_family
first_family-cons (name, dashed) fs gs model h =
    ap (λ r. if str_eq model name || has_prefix dashed model then name else r) h

first_family-reached :
    (model : String) → first_family openai_families model ≡ first_family reached model
first_family-reached model = first_family-cons _ _ _ model (
    first_family-cons _ _ _ model (
      first_family-cons _ _ _ model (
        first_family-cons _ _ _ model
          (first_family-cons _ _ _ model (first_family-shadowed model)))))

reached-Fixed : All (Fixed reached) reached
unfolding first_family
reached-Fixed = (refl, (refl, (refl, (refl, (refl, (refl, tt))))))

anthropic-Fixed : All (Fixed anthropic_families) anthropic_families
unfolding first_family
anthropic-Fixed = (refl, (refl, (refl, (refl, tt))))

google-Fixed : All (Fixed google_families) google_families
unfolding first_family
google-Fixed = (refl, (refl, (refl, tt)))

openai_idempotent :
    (model : String)
    → first_family openai_families (first_family openai_families model)
      ≡ first_family openai_families model
openai_idempotent model =
    first_family-reached (first_family openai_families model)
    ∙ ap (first_family reached) (first_family-reached model)
    ∙ first_family_idempotent reached model reached-Fixed
    ∙ sym (first_family-reached model)

abbrev Idempotent : List (String × String) → Type 0
Idempotent fs = (model : String) → first_family fs (first_family fs model) ≡ first_family fs model

if-Idempotent :
    (b : Bool) (fs gs : List (String × String))
    → Idempotent fs
    → Idempotent gs
    → Idempotent (if b then fs else gs)
if-Idempotent true fs gs h k = h
if-Idempotent false fs gs h k = k

families_of-Idempotent : (provider : String) → Idempotent (families_of provider)
unfolding first_family
families_of-Idempotent provider = if-Idempotent (str_eq provider "openai") _ _ openai_idempotent (
    if-Idempotent (str_eq provider "anthropic") _ _
      (λ model. first_family_idempotent anthropic_families model anthropic-Fixed)
      (if-Idempotent (str_eq provider "google") _ _
        (λ model. first_family_idempotent google_families model google-Fixed) (λ model. refl)))

-- Normalising a model's name a second time, for the same provider, changes nothing.
pub normalize_model_idempotent :
    (provider model : String)
    → normalize_model provider (normalize_model provider model) ≡ normalize_model provider model
unfolding normalize_model
normalize_model_idempotent provider model = families_of-Idempotent provider model

-- A model with a prefix that a family's names contradict is not of that family.
disagree-miss :
    (p name dashed model : String)
    → disagree p name ≡ true
    → disagree p dashed ≡ true
    → has_prefix p model ≡ true
    → (str_eq model name || has_prefix dashed model) ≡ false
disagree-miss p name dashed model h k hit = elim (Bool-cases (str_eq model name)) [
  | inl same ↦
      let own : has_prefix name model ≡ true =
        rw ((eq_iff model name).0 same) (has_prefix_refl name) in
      cc (has_prefix_of_disagree p name model h hit, own)
  | inr other ↦ rw other (has_prefix_of_disagree p dashed model k hit)
]

unreached :
    (model name : String)
    → str_eq "gpt-5.4" name ≡ false
    → first_family openai_families name ≡ "gpt-5.4"
    → first_family openai_families model ≢ name
unreached model name apart becomes e = cc (
  apart,
  (eq_iff "gpt-5.4" name).1 (
      sym becomes
      ∙ ap (first_family openai_families) (sym e)
      ∙ families_of-Idempotent "openai" model
      ∙ e),
)

-- Every OpenAI model whose name begins with "gpt-5.4-" is normalised to "gpt-5.4", so those that
-- begin with "gpt-5.4-mini" and "gpt-5.4-nano" too; no model at all is normalised to one of these
-- two names, whose tests stand behind that of "gpt-5.4-".
pub mini_models-normalize_model :
    (model other : String)
    → has_prefix "gpt-5.4-" model ≡ true
    → (normalize_model "openai" model ≡ "gpt-5.4")
      × (normalize_model "openai" other ≢ "gpt-5.4-mini")
      × (normalize_model "openai" other ≢ "gpt-5.4-nano")
unfolding normalize_model
mini_models-normalize_model model other hit = (
  rw
      (
        disagree-miss "gpt-5.4-" "gpt-4o-mini" "gpt-4o-mini-" model refl refl hit,
        disagree-miss "gpt-5.4-" "gpt-4o" "gpt-4o-" model refl refl hit,
        disagree-miss "gpt-5.4-" "gpt-4.1-nano" "gpt-4.1-nano-" model refl refl hit,
        disagree-miss "gpt-5.4-" "gpt-4.1-mini" "gpt-4.1-mini-" model refl refl hit,
        disagree-miss "gpt-5.4-" "gpt-4.1" "gpt-4.1-" model refl refl hit,
      )
      (ground arith),
  unreached other "gpt-5.4-mini" refl refl,
  unreached other "gpt-5.4-nano" refl refl,
)
