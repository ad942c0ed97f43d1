-- ===== src/Orders/World.antt =====
-- The state around the orders of news-handler/main.py: the collections of MongoDB and the messages
-- sent to Kafka, with the helpers that read and write them.
use trust_news.Prelude.{
  ℕ, String, Bool, Option, none, some, List, [], ◌∷◌, ◌++◌, ◌==◌, if◌then◌else◌,
}
use trust_news.Prelude.Dict.{lookup, put}
use trust_news.Scoring.Values.{PyFloat}
use trust_news.Scoring.Weights.{Verdict, WeightSnapshot, Weights}
use trust_news.Orders.Registry.{Cache}
use trust_news.Orders.Model.{Order, Document, ExecutionStatus}

-- Messages that the handlers send. The fields that are copied from the assertion and its document
-- are left out.
pub data Sent : Type 0 where
  upload_ipfs : (order_id : String) → Document → Sent
  register_blockchain : (order_id cid : String) → Sent
  light_validation_request : (order_id id_assertion validator correlation_id : String) → Sent

-- An event of the log, without its topic, payload and time stamp.
pub record Event : Type 0 where
  pub order_id : String
  pub action : String

pub record LoggedValidation (P : PyFloat) : Type 0 where
  pub order_id : String
  pub post_id : String
  pub id_assertion : String
  pub id_validator : String
  pub approval : Option Verdict
  pub execution_status : ExecutionStatus
  pub tx_hash : Option String
  pub weight_snapshot : WeightSnapshot P
  pub response_time_seconds : Option ℕ

-- A write of a client's consumption to the admin service.
pub record Consumed : Type 0 where
  pub client_id : String
  pub field : String
  pub new_value : ℕ

pub record World (P : PyFloat) : Type 0 where
  pub orders : List (String × Order P)
  pub validators_cache : Cache P
  pub events : List Event
  pub validations : List (LoggedValidation P)
  pub sent : List Sent
  pub consumed : List Consumed

-- The `consumed` and `limits` of a client.
pub record Quotas : Type 0 where
  pub news_consumed : ℕ
  pub news_limit : ℕ
  pub validations_consumed : ℕ
  pub validations_limit : ℕ

-- What the handlers read from outside: the answers of the admin service (`none` and `false` are
-- exceptions), of Kafka, of the health checks, and the clock, as the seconds since the request
-- for a validation. `exception_text` is the text of an exception that is caught.
pub record Env (P : PyFloat) : Type 0 where
  pub fetch_client_quotas : String → Option Quotas
  pub update_accepted : Consumed → Bool
  pub send_accepted : Sent → Bool
  pub exception_text : String
  pub response_time_seconds : String → String → String → Option ℕ
  pub hash_text_to_multihash : String → String
  pub is_healthy : (url : String) → Bool
  pub validator_type_weights : Weights P

module _ {P : PyFloat} where
  unfoldable pub get_order_doc : World P → String → Option (Order P)
  get_order_doc w order_id = lookup order_id w.orders

  abbrev pub changed :
      String
      → (Order P → Order P)
      → Option (Order P)
      → List (String × Order P)
      → List (String × Order P)
  changed order_id f none orders = orders
  changed order_id f (some o) orders = put order_id (f o) orders

  -- `update_one({"order_id": order_id}, update)`: an unknown order is left alone.
  unfoldable pub update_order : String → (Order P → Order P) → World P → World P
  update_order order_id f w = record w {
    orders = changed order_id f (lookup order_id w.orders) w.orders;
  }

  unfoldable pub log_event : String → String → World P → World P
  log_event order_id action w =
      if order_id == ""
      then w
      else record w { events = w.events ++ record { order_id = order_id; action = action } ∷ [] }

  unfoldable pub log_validation : LoggedValidation P → World P → World P
  log_validation v w =
      if v.order_id == "" then w else record w { validations = w.validations ++ v ∷ [] }

  unfoldable pub send : Sent → World P → World P
  send m w = record w { sent = w.sent ++ m ∷ [] }

  unfoldable pub update_client_consumed : Consumed → World P → World P
  update_client_consumed c w = record w { consumed = w.consumed ++ c ∷ [] }
