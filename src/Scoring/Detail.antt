-- ===== src/Scoring/Detail.antt =====
-- `validation_weight_detail` of scoring.py: what one validation contributes to an assertion.
use trust_news.Prelude.{
  String, Bool, true, false, ◌&&◌, ◌||◌, Option, none, some, List, [], ◌∷◌, ◌==◌, if◌then◌else◌,
}
use trust_news.Prelude.Int.{pos}
use trust_news.Scoring.Values.{PyFloat, Raw, null, int, float, or_else, truthy}
use trust_news.Scoring.Weights.{
  Verdict, Weights, Config, weights_policy_version, safe_non_negative_number, validator_type_name,
  stated_type, stated_reputation, resolved_type_weight, normalize_validation_result,
}

-- The keys that the code looks up in a validation and then in its payload. An `Option` is `none`
-- where the key is absent; a list or text that is absent counts as empty, as the code treats it.
pub record Fields (P : PyFloat) : Type 0 where
  pub validator_config : Option (Config P)
  pub validator_type : Raw P
  pub validator_type_weight : Option (Raw P)
  pub reputation_at_validation : Option (Raw P)
  pub effective_weight : Option (Raw P)
  pub policy_version : String
  pub approval : Option (Raw P)
  pub sources : List String
  pub sources_declared : List String
  pub evidence_used : List String
  pub evidence_validation : Option String

pub record Validation (P : PyFloat) : Type 0 where
  pub own : Fields P
  pub payload : Fields P
  pub execution_status : String
  pub text : String

pub record Detail (P : PyFloat) : Type 0 where
  pub validator : String
  pub validator_type : String
  pub validator_type_weight : P.Float
  pub reputation : P.Float
  pub reputation_at_validation : P.Float
  pub effective_weight : P.Float
  pub policy_version : String
  pub legacy_dynamic_weight : Bool
  pub result : Verdict
  pub description : String
  pub sources : List String
  pub sources_declared : List String
  pub evidence_used : List String
  pub evidence_validation : Option String

abbrev pub is_some {ℓ} : {A : Type ℓ} → Option A → Bool
is_some none = false
is_some (some a) = true

abbrev pub option_or {ℓ} : {A : Type ℓ} → Option A → Option A → Option A
option_or none o = o
option_or (some a) o = some a

abbrev list_or : List String → List String → List String
list_or [] ys = ys
list_or (x ∷ xs) ys = x ∷ xs

abbrev text_or : String → String → String
text_or s t = if s == "" then t else s

-- The three weights of a validation.
pub record Triple (P : PyFloat) : Type 0 where
  pub type_weight : P.Float
  pub reputation : P.Float
  pub effective : P.Float
  pub legacy : Bool

module _ (P : PyFloat) where
  -- `validation.get(key, payload.get(key))`.
  abbrev pub get_or_payload : Option (Raw P) → Option (Raw P) → Raw P
  get_or_payload none none = null
  get_or_payload none (some v) = v
  get_or_payload (some v) _ = v

  abbrev pub frozen : Option (Raw P) → Option (Raw P) → P.Float
  frozen own payload = safe_non_negative_number P (get_or_payload own payload) P.zero

  -- The branches on which snapshot of the weights the validation carries.
  unfoldable pub weights_of : Validation P → Raw P → Option (Config P) → Weights P → Triple P
  unfolding stated_reputation resolved_type_weight safe_non_negative_number
  weights_of v validator_type cfg weights =
      let type_weight = frozen v.own.validator_type_weight v.payload.validator_type_weight in
      let reputation = frozen v.own.reputation_at_validation v.payload.reputation_at_validation in
      let stated = safe_non_negative_number P (stated_reputation P cfg) P.zero in
      let resolved = resolved_type_weight P validator_type weights in
      if is_some v.own.effective_weight || is_some v.payload.effective_weight
      then record {
        type_weight = type_weight;
        reputation = reputation;
        effective = frozen v.own.effective_weight v.payload.effective_weight;
        legacy = false;
      }
      else if (is_some v.own.validator_type_weight || is_some v.payload.validator_type_weight)
          && (is_some v.own.reputation_at_validation || is_some v.payload.reputation_at_validation)
      then record {
        type_weight = type_weight;
        reputation = reputation;
        effective = safe_non_negative_number P (float (P.mul type_weight reputation)) P.zero;
        legacy = false;
      }
      else record {
        type_weight = resolved;
        reputation = stated;
        effective = safe_non_negative_number P (float (P.mul resolved stated)) P.zero;
        legacy = true;
      }

  -- The configuration that a validation carries, or else the cached one of its validator.
  unfoldable pub config_of :
      String → Validation P → (String → Option (Config P)) → Option (Config P)
  config_of validator v get_cached =
      option_or (option_or v.own.validator_config v.payload.validator_config) (get_cached validator)

  unfoldable pub type_of : Validation P → Option (Config P) → Raw P
  unfolding stated_type truthy
  type_of v cfg =
      or_else P v.own.validator_type
        (or_else P v.payload.validator_type (or_else P (stated_type P cfg) (int (pos 1))))

  unfoldable pub approval_of : Validation P → Raw P
  approval_of v = get_or_payload v.own.approval v.payload.approval

  unfoldable pub validation_weight_detail :
      String → Validation P → (String → Option (Config P)) → Weights P → Detail P
  unfolding weights_of config_of type_of approval_of validator_type_name normalize_validation_result
  validation_weight_detail validator v get_cached weights =
      let cfg = config_of validator v get_cached in
      let validator_type = type_of v cfg in
      let w = weights_of v validator_type cfg weights in
      record {
        validator = validator;
        validator_type = validator_type_name P validator_type;
        validator_type_weight = w.type_weight;
        reputation = w.reputation;
        reputation_at_validation = w.reputation;
        effective_weight = w.effective;
        policy_version =
            text_or (text_or v.own.policy_version v.payload.policy_version) weights_policy_version;
        legacy_dynamic_weight = w.legacy;
        result = normalize_validation_result P (approval_of v);
        description = v.text;
        sources = list_or v.own.sources v.payload.sources;
        sources_declared = list_or v.own.sources_declared v.payload.sources_declared;
        evidence_used = list_or v.own.evidence_used v.payload.evidence_used;
        evidence_validation = option_or v.own.evidence_validation v.payload.evidence_validation;
      }
