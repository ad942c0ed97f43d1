-- ===== src/Orders/Counting.antt =====
-- The recorded validations of an order and the count of those that are missing, from the branches
-- for validators' responses in process_kafka_message of news-handler/main.py.
use trust_news.Prelude.{
  upper_is, ℕ, ◌+◌, String, Bool, true, false, ◌||◌, Option, none, some, List, [], ◌∷◌, ◌==◌, any,
  length, if◌then◌else◌,
}
use trust_news.Prelude.Dict.{lookup, put, keys, or_default, is_present, distinct, difference}
use trust_news.Scoring.Values.{PyFloat, Raw, member}
use trust_news.Scoring.Weights.{Verdict, verdict_true, verdict_false, verdict_unknown}
use trust_news.Orders.Model.{
  ValidationMode, blockchain, light, OrderStatus, validated, validated_with_errors, ValidatorInfo,
  Stored, Validations, ExecutionStatus, completed, error, Response,
}
use trust_news.Orders.World.{Consumed}

abbrev pub status_text : ExecutionStatus → String
status_text completed = "COMPLETED"
status_text error = "ERROR"

-- `ValidationMode(str(value or "BLOCKCHAIN").upper())`; `none` is its ValueError.
unfoldable pub normalize_validation_mode : Option String → Option ValidationMode
unfolding upper_is
normalize_validation_mode none = some blockchain
normalize_validation_mode (some s) =
    if s == "" || upper_is s "BLOCKCHAIN"
    then some blockchain
    else if upper_is s "LIGHT"
    then some light
    else none

-- `Validacion(approval) if completed else None`; `none` is a ValueError.
unfoldable pub approval_value : ExecutionStatus → Option Verdict → Option (Option Verdict)
approval_value error v = some none
approval_value completed none = none
approval_value completed (some v) = some (some v)

abbrev pub is_light : Option ValidationMode → Bool
is_light (some light) = true
is_light _ = false

abbrev pub consume : String → String → ℕ → Consumed
consume client_id field new_value = record {
  client_id = client_id;
  field = field;
  new_value = new_value;
}

abbrev pub is_incomplete : Response → Bool
is_incomplete r = r.validator == "" || r.id_assertion == ""

module _ {P : PyFloat} where
  -- The members of Validacion.
  abbrev pub verdict_member : Verdict → Raw P
  verdict_member verdict_unknown = member "UNKNOWN" 0
  verdict_member verdict_true = member "TRUE" 1
  verdict_member verdict_false = member "FALSE" 2

  abbrev pub of_assertion : String → Validations P → List (String × Stored P)
  of_assertion id_assertion vs = or_default (lookup id_assertion vs) []

  -- `len(expected - done)`, for one assertion and in total.
  unfoldable pub missing_of : ValidatorInfo → Validations P → List String
  missing_of v vs =
      difference (distinct v.validator_addresses) (keys (of_assertion v.id_assertion vs))

  unfoldable pub total_pending : List ValidatorInfo → Validations P → ℕ
  total_pending [] vs = 0
  total_pending (v ∷ rest) vs = length (missing_of v vs) + total_pending rest vs

  abbrev pub is_error : Stored P → Bool
  is_error s = s.validation.execution_status == "ERROR"

  unfoldable pub has_errors : Validations P → Bool
  has_errors = any (λ a. any (λ v. is_error v.1) a.1)

  unfoldable pub terminal_status : Validations P → OrderStatus
  unfolding has_errors
  terminal_status vs = if has_errors vs then validated_with_errors else validated

  unfoldable pub is_done : String → String → Validations P → Bool
  unfolding lookup
  is_done id_assertion validator vs = is_present (lookup validator (of_assertion id_assertion vs))

  unfoldable pub record_validation : String → String → Stored P → Validations P → Validations P
  unfolding lookup put
  record_validation id_assertion validator s vs =
      put id_assertion (put validator s (of_assertion id_assertion vs)) vs
