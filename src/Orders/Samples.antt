-- ===== src/Orders/Samples.antt =====
-- An order, its surroundings and messages, at which the handlers are tried.
use trust_news.Prelude.{true, false, none, some, [], ◌∷◌}
use trust_news.Prelude.Int.{pos}
use trust_news.Scoring.Values.{null, int}
use trust_news.Scoring.Weights.{verdict_true}
use trust_news.Scoring.Fixed.{fixed}
use trust_news.Orders.Model.{
  blockchain, validation_pending, Assertion, Document, ValidatorInfo, Extras, Order, completed,
  Response,
}
use trust_news.Orders.Registry.{entry, Addresses, Cached}
use trust_news.Orders.World.{Env, World}

abbrev nowhere : Addresses
nowhere = record {
  healthcheck_url = "";
  health_url = "";
  service_url = "";
  validator_service_url = "";
}

abbrev ada : Cached fixed
ada = record {
  validator = "0xA";
  scoring = record {
    validator_type = int (pos 1);
    config_type = null;
    reputation = none;
    alias = "ada";
  };
  status = null;
  categories = entry (pos 4) ∷ [];
  own = record nowhere { health_url = "http://ada/health" };
  config = nowhere;
}

abbrev pub env : Env fixed
env = record {
  fetch_client_quotas = λ c. some (record {
    news_consumed = 1;
    news_limit = 2;
    validations_consumed = 0;
    validations_limit = 5;
  });
  update_accepted = λ c. true;
  send_accepted = λ m. true;
  exception_text = "";
  response_time_seconds = λ k a v. some 3;
  hash_text_to_multihash = λ s. s;
  is_healthy = λ url. true;
  validator_type_weights = [];
}

abbrev bridge : Assertion
bridge = record {
  assertion_id = "a1";
  text = "The bridge opened.";
  category_id = pos 4;
  topic_code = "CITY";
  evidence_kind = "EVENT";
}

abbrev pub document : Document
document = record {
  mode = blockchain;
  assertions = bridge ∷ [];
  is_valid = true;
  names_order_id = false;
}

abbrev waiting : ValidatorInfo
waiting = record {
  id_assertion = "a1";
  validator_addresses = "0xA" ∷ "0xB" ∷ [];
  text = "The bridge opened.";
  category_id = pos 4;
  topic_code = none;
  evidence_kind = none;
}

abbrev pub order : Order fixed
order = record {
  client_id = "c";
  validation_mode = some "LIGHT";
  text = "";
  status = validation_pending;
  assertions = some (bridge ∷ []);
  document = some document;
  cid = none;
  post_id = none;
  tx_hash = none;
  hash_text = none;
  validations = [];
  validation_requests = [];
  validators = waiting ∷ [];
  validators_pending = 2;
  assertions_without_validator = [];
  assertions_error = none;
  blockchain_error = none;
  generation_evaluation_trace = none;
}

abbrev pub world : World fixed
world = record {
  orders = ("o1", order) ∷ [];
  validators_cache = ("0xa", ada) ∷ [];
  events = [];
  validations = [];
  sent = [];
  consumed = [];
}

abbrev no_extras : Extras
no_extras = record {
  evaluation_citation_trace = none;
  llm_usage = none;
  resolved_model = none;
  evidence_search_response = none;
  search_policy = none;
  confidence = none;
  error = none;
  error_details = none;
}

abbrev pub response : Response
response = record {
  post_id = "7";
  validator = "0xA";
  id_assertion = "a1";
  execution_status = completed;
  approval = some verdict_true;
  text = "It did.";
  tx_hash = none;
  validator_alias = "ada";
  category_id = none;
  correlation_id = none;
  sources = [];
  sources_declared = [];
  evidence_used = [];
  evidence_validation = none;
  extras = no_extras;
}
