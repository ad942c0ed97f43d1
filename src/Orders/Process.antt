-- ===== src/Orders/Process.antt =====
-- `process_kafka_message` of news-handler/main.py: from a message to the branch of its action. The
-- action new_validator_config, which is about the validator cache and no order, is not modelled.
use trust_news.Prelude.{
  ℕ, String, Bool, false, not, ◌&&◌, Option, none, some, List, [], ◌∷◌, ◌==◌, codes, any, leb, eqb,
  concat, int_of_text, if◌then◌else◌,
}
use trust_news.Prelude.Int.{ℤ, pos}
use trust_news.Scoring.Values.{PyFloat}
use trust_news.Orders.Model.{
  Order, Payload, generated, not_generated, uploaded, registered, registration_failed, requested,
  light_completed, completed_on_chain,
}
use trust_news.Orders.World.{Env, World, log_event}
use trust_news.Orders.Responses.{light_validation_completed, validation_completed}
use trust_news.Orders.Publication.{
  ipfs_upload_done, blockchain_registered, blockchain_registration_failed, request_validation,
}
use trust_news.Orders.Generation.{assertions_generated, assertions_not_generated}

-- What `ACTION_TO_MODEL_RESPONSE` makes of a message.
pub data Parsed : Type 0 where
  unknown : Parsed
  invalid : Parsed
  valid : Payload → Parsed

-- A message about an order. An `order_id` that is absent is empty, and `post_id` is the payload's.
pub record Message : Type 0 where
  pub action : String
  pub order_id : String
  pub post_id : String
  pub parsed : Parsed

abbrev is_digit : ℕ → Bool
is_digit c = leb 48 c && leb c 57

-- `int(post_id) if post_id.isdigit() else post_id`, where only a number can be found.
abbrev query_post_id : String → Option ℤ
query_post_id s = if any (λ c. not (is_digit c)) (codes s) then none else int_of_text s

abbrev same_id : Option ℤ → Option ℤ → Bool
same_id (some (pos m)) (some (pos n)) = eqb m n
same_id _ _ = false

module _ {P : PyFloat} where
  -- `find_one({"post_id": ...})`.
  unfoldable pub find_by_post_id : Option ℤ → List (String × Order P) → Option String
  find_by_post_id n [] = none
  find_by_post_id n ((k, o) ∷ rest) =
      let later = find_by_post_id n rest in if same_id n o.post_id then some k else later

  unfoldable pub get_order_id_by_post_id : World P → String → Option String
  unfolding find_by_post_id int_of_text
  get_order_id_by_post_id w post_id = find_by_post_id (query_post_id post_id) w.orders

  -- The branch of an action. An exception ends a branch; what it wrote before stays.
  unfoldable pub handle : Env P → String → Payload → World P → World P
  handle env order_id (generated document trace) = assertions_generated env order_id document trace
  handle env order_id (not_generated failure trace) =
      assertions_not_generated order_id failure trace
  handle env order_id (uploaded cid) = ipfs_upload_done env order_id cid
  handle env order_id (registered reg) = blockchain_registered order_id reg
  handle env order_id (registration_failed failure) =
      blockchain_registration_failed order_id failure
  handle env order_id (requested r) = request_validation order_id r
  handle env order_id (light_completed r) = light_validation_completed env order_id r
  handle env order_id (completed_on_chain r) = validation_completed env order_id r

  unfoldable pub handle_parsed : Env P → String → String → Parsed → World P → World P
  unfolding handle log_event concat
  handle_parsed env order_id action unknown w = log_event order_id (concat action "_unknown") w
  handle_parsed env order_id action invalid w = log_event order_id (concat action "_invalid") w
  handle_parsed env order_id action (valid p) w =
      handle env order_id p (log_event order_id action w)

  unfoldable pub resolved_order : World P → Message → Option String
  unfolding get_order_id_by_post_id
  resolved_order w m =
      if not (m.order_id == "")
      then some m.order_id
      else if m.post_id == ""
      then none
      else get_order_id_by_post_id w m.post_id

  abbrev pub on_resolved : Env P → Message → World P → Option String → World P
  on_resolved env m w none = w
  on_resolved env m w (some order_id) =
      if order_id == "" then w else handle_parsed env order_id m.action m.parsed w

  unfoldable pub process_kafka_message : Env P → Message → World P → World P
  unfolding handle_parsed resolved_order
  process_kafka_message env m w =
      if m.action == "" then w else on_resolved env m w (resolved_order w m)
