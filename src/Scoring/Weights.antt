-- ===== src/Scoring/Weights.antt =====
-- Validator types and weights: `_safe_non_negative_number`, `validator_type_name`,
-- `_resolved_type_weight` and `validation_weight_snapshot` of scoring.py.
use trust_news.Prelude.{
  zero, suc, String, Bool, true, false, ◌&&◌, Option, none, some, List, [], ◌∷◌, ◌==◌, upper_is,
  if◌then◌else◌,
}
use trust_news.Prelude.Int.{ℤ, pos}
use trust_news.Scoring.Values.{
  PyFloat, Raw, null, bool, int, float, text, member, truthy, or_else, to_float, to_int,
}

pub data ValidatorType : Type 0 where
  llm_memory_validation : ValidatorType
  llm_search_validation : ValidatorType
  rag_evidence_validation : ValidatorType
  deterministic_validation : ValidatorType
  human : ValidatorType

abbrev pub name : ValidatorType → String
name llm_memory_validation = "LLM_MEMORY_VALIDATION"
name llm_search_validation = "LLM_SEARCH_VALIDATION"
name rag_evidence_validation = "RAG_EVIDENCE_VALIDATION"
name deterministic_validation = "DETERMINISTIC_VALIDATION"
name human = "HUMAN"

-- `str(int(ValidatorType[name]))`.
abbrev pub number_text : ValidatorType → String
number_text llm_memory_validation = "1"
number_text llm_search_validation = "2"
number_text rag_evidence_validation = "3"
number_text deterministic_validation = "4"
number_text human = "5"

-- `ValidatorType(n)`; `none` is its ValueError.
unfoldable pub type_of_number : ℤ → Option ValidatorType
type_of_number (pos (suc zero)) = some llm_memory_validation
type_of_number (pos (suc (suc zero))) = some llm_search_validation
type_of_number (pos (suc (suc (suc zero)))) = some rag_evidence_validation
type_of_number (pos (suc (suc (suc (suc zero))))) = some deterministic_validation
type_of_number (pos (suc (suc (suc (suc (suc zero)))))) = some human
type_of_number _ = none

-- `ValidatorType[s]`; `none` is its KeyError.
unfoldable pub type_of_name : String → Option ValidatorType
type_of_name s =
    if s == "LLM_MEMORY_VALIDATION"
    then some llm_memory_validation
    else if s == "LLM_SEARCH_VALIDATION"
    then some llm_search_validation
    else if s == "RAG_EVIDENCE_VALIDATION"
    then some rag_evidence_validation
    else if s == "DETERMINISTIC_VALIDATION"
    then some deterministic_validation
    else if s == "HUMAN"
    then some human
    else none

-- The result names TRUE, FALSE and UNKNOWN.
pub data Verdict : Type 0 where
  verdict_true : Verdict
  verdict_false : Verdict
  verdict_unknown : Verdict

-- CONSENSUS_POLICY["version"] is not read by the decision.
abbrev pub weights_policy_version : String
weights_policy_version = "validator-weights-v1"

-- A dict from strings, as an association list with distinct keys.
abbrev pub Weights : PyFloat → Type 0
Weights P = List (String × Raw P)

-- `weights.get(key)`: a missing key and a null give None.
unfoldable pub configured_weight : (P : PyFloat) → String → Weights P → Raw P
configured_weight P key [] = null
configured_weight P key ((k, v) ∷ rest) = if k == key then v else configured_weight P key rest

-- A validator's cached entry or configuration document. `reputation` is `none` where the key is
-- absent; `validator_type` and the inner `config`'s `type` are null where absent.
pub record Config (P : PyFloat) : Type 0 where
  pub validator_type : Raw P
  pub config_type : Raw P
  pub reputation : Option (Raw P)
  pub alias : String

pub record WeightSnapshot (P : PyFloat) : Type 0 where
  pub validator_type : String
  pub validator_type_weight : P.Float
  pub reputation_at_validation : P.Float
  pub effective_weight : P.Float
  pub weights_policy_version : String
  pub legacy_dynamic_weight : Bool

module _ (P : PyFloat) where
  abbrev finite_or : Option P.Float → P.Float → P.Float
  finite_or none default = default
  finite_or (some x) default = if P.is_finite x && P.le P.zero x then x else default

  unfoldable pub safe_non_negative_number : Raw P → P.Float → P.Float
  unfolding to_float
  safe_non_negative_number value default = finite_or (to_float P value) default

  -- `ValidatorType[str(value)]`: the text of no other value is a member's name.
  unfoldable pub type_by_text : Raw P → Option ValidatorType
  unfolding type_of_name
  type_by_text (text s) = type_of_name s
  type_by_text _ = none

  unfoldable pub parsed_number : Option ℤ → Option ValidatorType
  unfolding type_of_number
  parsed_number none = none
  parsed_number (some n) = type_of_number n

  -- The two `try` blocks that `validator_type_name` and `get_validator_type_weight` begin with.
  unfoldable pub parse_validator_type : Raw P → ValidatorType
  unfolding to_int parsed_number type_by_text
  parse_validator_type value = elim (parsed_number (to_int P value)) [
    | some t ↦ t
    | none ↦ elim (type_by_text value) [ some t ↦ t | none ↦ llm_memory_validation ]
  ]

  unfoldable pub validator_type_name : Raw P → String
  unfolding parse_validator_type
  validator_type_name value = name (parse_validator_type value)

  -- VALIDATOR_TYPE_WEIGHTS.
  unfoldable pub validator_type_weights : ValidatorType → P.Float
  validator_type_weights llm_memory_validation = P.quarter
  validator_type_weights llm_search_validation = P.half
  validator_type_weights rag_evidence_validation = P.one
  validator_type_weights deterministic_validation = P.one
  validator_type_weights human = P.tenth

  -- Called with no `weights`, as scoring.py does.
  unfoldable pub get_validator_type_weight : Raw P → P.Float
  unfolding parse_validator_type validator_type_weights
  get_validator_type_weight validator_type =
      validator_type_weights (parse_validator_type validator_type)

  abbrev is_null : Raw P → Bool
  is_null null = true
  is_null _ = false

  -- The configured weight of a type: by its name, or else by its number.
  unfoldable pub configured_for : ValidatorType → Weights P → Raw P
  unfolding configured_weight
  configured_for t weights =
      let by_name = configured_weight P (name t) weights in
      if is_null by_name then configured_weight P (number_text t) weights else by_name

  unfoldable pub resolved_type_weight : Raw P → Weights P → P.Float
  unfolding safe_non_negative_number get_validator_type_weight configured_for parse_validator_type
  resolved_type_weight validator_type weights =
      let configured = configured_for (parse_validator_type validator_type) weights in
      if is_null configured
      then safe_non_negative_number (float (get_validator_type_weight validator_type)) P.zero
      else safe_non_negative_number configured P.zero

  -- The type that a configuration states, `cfg or {}` being no configuration at all.
  unfoldable pub stated_type : Option (Config P) → Raw P
  stated_type none = null
  stated_type (some cfg) = or_else P cfg.validator_type cfg.config_type

  -- `cfg.get("reputation", 1.0)`.
  unfoldable pub stated_reputation : Option (Config P) → Raw P
  stated_reputation none = float P.one
  stated_reputation (some cfg) = elim cfg.reputation [ none ↦ float P.one | some r ↦ r ]

  unfoldable pub validation_weight_snapshot : Option (Config P) → Weights P → WeightSnapshot P
  unfolding stated_type stated_reputation resolved_type_weight validator_type_name truthy
  validation_weight_snapshot cfg weights =
      let validator_type = or_else P (stated_type cfg) (int (pos 1)) in
      let reputation = safe_non_negative_number (stated_reputation cfg) P.zero in
      let type_weight = resolved_type_weight validator_type weights in
      record {
        validator_type = validator_type_name validator_type;
        validator_type_weight = type_weight;
        reputation_at_validation = reputation;
        effective_weight = safe_non_negative_number (float (P.mul type_weight reputation)) P.zero;
        weights_policy_version = weights_policy_version;
        legacy_dynamic_weight = false;
      }

  unfoldable pub normalize_validation_result : Raw P → Verdict
  unfolding upper_is
  normalize_validation_result (member name n) =
      if upper_is name "TRUE"
      then verdict_true
      else if upper_is name "FALSE"
      then verdict_false
      else verdict_unknown
  normalize_validation_result (bool true) = verdict_true
  normalize_validation_result (int (pos (suc zero))) = verdict_true
  normalize_validation_result (int (pos (suc (suc zero)))) = verdict_false
  normalize_validation_result (text s) =
      if upper_is s "TRUE"
      then verdict_true
      else if upper_is s "FALSE"
      then verdict_false
      else verdict_unknown
  normalize_validation_result _ = verdict_unknown
