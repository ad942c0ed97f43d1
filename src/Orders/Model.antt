-- ===== src/Orders/Model.antt =====
-- The documents and messages of news-handler/main.py: orders, their validators and validations, and
-- the payloads of Kafka messages from common/models/async_models.py.
use trust_news.Prelude.{ℕ, String, Bool, Option, List}
use trust_news.Prelude.Int.{ℤ}
use trust_news.Scoring.Values.{PyFloat}
use trust_news.Scoring.Weights.{Verdict}
use trust_news.Scoring.Detail.{Validation}

pub data ValidationMode : Type 0 where
  blockchain : ValidationMode
  light : ValidationMode

pub data OrderStatus : Type 0 where
  pending : OrderStatus
  assertions_requested : OrderStatus
  assertions_not_available : OrderStatus
  quota_exceded : OrderStatus
  document_created : OrderStatus
  ipfs_pending : OrderStatus
  ipfs_uploaded : OrderStatus
  blockchain_requested : OrderStatus
  registration_error : OrderStatus
  validation_pending : OrderStatus
  no_validators_available : OrderStatus
  validated : OrderStatus
  validated_with_errors : OrderStatus

pub record Assertion : Type 0 where
  pub assertion_id : String
  pub text : String
  pub category_id : ℤ
  pub topic_code : String
  pub evidence_kind : String

-- assertions-document-v2. `is_valid` says whether pydantic takes the stored form back, and
-- `names_order_id` whether its JSON text contains "order_id".
pub record Document : Type 0 where
  pub mode : ValidationMode
  pub assertions : List Assertion
  pub is_valid : Bool
  pub names_order_id : Bool

-- An entry of an order's `validators`: whom an assertion waits for.
pub record ValidatorInfo : Type 0 where
  pub id_assertion : String
  pub validator_addresses : List String
  pub text : String
  pub category_id : ℤ
  pub topic_code : Option String
  pub evidence_kind : Option String

-- The fields of a response that are stored as they came.
pub record Extras : Type 0 where
  pub evaluation_citation_trace : Option String
  pub llm_usage : Option String
  pub resolved_model : Option String
  pub evidence_search_response : Option String
  pub search_policy : Option String
  pub confidence : Option String
  pub error : Option String
  pub error_details : Option String

-- What an order keeps of a validator's response; `validation` is what scoring reads of it.
pub record Stored (P : PyFloat) : Type 0 where
  pub validation : Validation P
  pub tx_hash : Option String
  pub validator_alias : String
  pub validation_mode : Option ValidationMode
  pub category_id : Option ℤ
  pub correlation_id : Option String
  pub extras : Extras
  pub response_time_seconds : Option ℕ

-- `validations[assertion][validator]`.
abbrev pub Validations : PyFloat → Type 0
Validations P = List (String × List (String × Stored P))

pub record AssertionsError : Type 0 where
  pub provider : String
  pub error : String
  pub attempts : ℕ

pub record BlockchainError : Type 0 where
  pub stage : String
  pub code : String
  pub message : String
  pub retryable : Bool

-- An order document. An `Option` is `none` where the key is absent or null; a missing
-- collection counts as empty, as the code treats it. Time stamps are left out.
pub record Order (P : PyFloat) : Type 0 where
  pub client_id : String
  pub validation_mode : Option String
  pub text : String
  pub status : OrderStatus
  pub assertions : Option (List Assertion)
  pub document : Option Document
  pub cid : Option String
  pub post_id : Option ℤ
  pub tx_hash : Option String
  pub hash_text : Option String
  pub validations : Validations P
  pub validation_requests : List (String × List String)
  pub validators : List ValidatorInfo
  pub validators_pending : ℕ
  pub assertions_without_validator : List String
  pub assertions_error : Option AssertionsError
  pub blockchain_error : Option BlockchainError
  pub generation_evaluation_trace : Option String

pub data ExecutionStatus : Type 0 where
  completed : ExecutionStatus
  error : ExecutionStatus

-- A response to a validation request; LIGHT and BLOCKCHAIN responses share most fields, and those
-- of only one kind are `none` in the other.
pub record Response : Type 0 where
  pub post_id : String
  pub validator : String
  pub id_assertion : String
  pub execution_status : ExecutionStatus
  pub approval : Option Verdict
  pub text : String
  pub tx_hash : Option String
  pub validator_alias : String
  pub category_id : Option ℤ
  pub correlation_id : Option String
  pub sources : List String
  pub sources_declared : List String
  pub evidence_used : List String
  pub evidence_validation : Option String
  pub extras : Extras

-- A validator address of a registration: a text, or a dict with an optional address.
pub data Address : Type 0 where
  plain : String → Address
  entry : Option String → Address

pub record RegisteredAssertion : Type 0 where
  pub id_assertion : String
  pub category_id : ℤ
  pub validator_addresses : List Address

pub record Registration : Type 0 where
  pub post_id : String
  pub tx_hash : String
  pub hash_text : String
  pub assertions : List RegisteredAssertion

pub record ValidationRequest : Type 0 where
  pub validator : String
  pub id_assertion : String

-- A response message, parsed by the model that ACTION_TO_MODEL_RESPONSE names for its action.
pub data Payload : Type 0 where
  generated : Document → (trace : Option String) → Payload
  not_generated : AssertionsError → (trace : Option String) → Payload
  uploaded : (cid : String) → Payload
  registered : Registration → Payload
  registration_failed : BlockchainError → Payload
  requested : ValidationRequest → Payload
  light_completed : Response → Payload
  completed_on_chain : Response → Payload
