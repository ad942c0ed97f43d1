-- ===== src/Orders/Publication.antt =====
-- The way of an order to the chain: the branches `ipfs_uploaded`, `blockchain_registered`,
-- `blockchain_registration_failed` and `request_validation` of process_kafka_message, and
-- `handle_blockchain_request`.
use trust_news.Prelude.{
  ℕ, ◌+◌, String, Bool, true, false, not, ◌||◌, Option, none, some, List, [], ◌∷◌, ◌++◌, ◌==◌, map,
  length, int_of_text, if◌then◌else◌,
}
use trust_news.Prelude.Int.{ℤ}
use trust_news.Prelude.Dict.{lookup, put, is_present, or_default, is_member, distinct}
use trust_news.Scoring.Values.{PyFloat}
use trust_news.Scoring.Consensus.{is_empty}
use trust_news.Orders.Model.{
  ipfs_uploaded, blockchain_requested, registration_error, validation_pending, Assertion, Document,
  ValidatorInfo, BlockchainError, Order, Address, plain, entry, RegisteredAssertion, Registration,
  ValidationRequest,
}
use trust_news.Orders.World.{
  register_blockchain, Env, World, get_order_doc, update_order, log_event, send,
}
use trust_news.Orders.Counting.{is_done}

-- The address that counts: a dict's, or the text itself, if it is not empty.
abbrev address_of : Address → List String
address_of (plain s) = if s == "" then [] else s ∷ []
address_of (entry none) = []
address_of (entry (some s)) = if s == "" then [] else s ∷ []

abbrev pub addresses_of : List Address → List String
addresses_of [] = []
addresses_of (a ∷ rest) = address_of a ++ addresses_of rest

-- `canonical_assertions.get(id, {})`: the last assertion with the id.
unfoldable pub canonical_assertion : String → List Assertion → Option Assertion
canonical_assertion k [] = none
canonical_assertion k (a ∷ rest) = elim (canonical_assertion k rest) [
  | some b ↦ some b
  | none ↦ if a.assertion_id == k then some a else none
]

abbrev text_of : Option Assertion → String
text_of none = ""
text_of (some a) = a.text

abbrev topic_of : Option Assertion → Option String
topic_of none = none
topic_of (some a) = some a.topic_code

abbrev kind_of : Option Assertion → Option String
kind_of none = none
kind_of (some a) = some a.evidence_kind

-- The body of the loop over the registered assertions.
unfoldable pub validator_info : List Assertion → RegisteredAssertion → ValidatorInfo
unfolding canonical_assertion distinct
validator_info canonical a =
    let c = canonical_assertion a.id_assertion canonical in
    record {
      id_assertion = a.id_assertion;
      validator_addresses = distinct (addresses_of a.validator_addresses);
      text = text_of c;
      category_id = a.category_id;
      topic_code = topic_of c;
      evidence_kind = kind_of c;
    }

-- `sum(len(v["validatorAddresses"]) for v in validators_info)`.
unfoldable pub addresses_total : List ValidatorInfo → ℕ
addresses_total [] = 0
addresses_total (v ∷ rest) = length v.validator_addresses + addresses_total rest

abbrev pub assertions_of : Option Document → List Assertion
assertions_of none = []
assertions_of (some d) = d.assertions

abbrev find_info : String → List ValidatorInfo → Option ValidatorInfo
find_info k [] = none
find_info k (v ∷ rest) =
    let later = find_info k rest in if v.id_assertion == k then some v else later

abbrev expects : String → Option ValidatorInfo → Bool
expects validator none = false
expects validator (some v) = is_member validator v.validator_addresses

-- `set.add`.
abbrev add_member : String → List String → List String
add_member k s = if is_member k s then s else s ++ k ∷ []

abbrev with_request : String → String → List (String × List String) → List (String × List String)
with_request id_assertion validator requests =
    put id_assertion (add_member validator (or_default (lookup id_assertion requests) [])) requests

module _ {P : PyFloat} where
  unfoldable pub registered : Registration → ℤ → List Assertion → Order P → Order P
  unfolding validator_info addresses_total
  registered reg post_id canonical o =
      let infos = map (validator_info canonical) reg.assertions in
      record o {
        validators = infos;
        validators_pending = addresses_total infos;
        status = validation_pending;
        post_id = some post_id;
        tx_hash = some reg.tx_hash;
        hash_text = some reg.hash_text;
      }

  unfoldable pub register_on : String → Registration → ℤ → Option (Order P) → World P → World P
  unfolding update_order registered
  register_on order_id reg post_id none w = w
  register_on order_id reg post_id (some doc) w =
      update_order order_id (registered reg post_id (assertions_of doc.document)) w

  -- After `int(postId)`, which may have raised.
  unfoldable pub register_parsed : String → Registration → Option ℤ → World P → World P
  unfolding register_on get_order_doc
  register_parsed order_id reg none w = w
  register_parsed order_id reg (some post_id) w =
      if is_empty reg.assertions
      then w
      else register_on order_id reg post_id (get_order_doc w order_id) w

  unfoldable pub blockchain_registered : String → Registration → World P → World P
  unfolding register_parsed int_of_text
  blockchain_registered order_id reg w = register_parsed order_id reg (int_of_text reg.post_id) w

  unfoldable pub blockchain_registration_failed : String → BlockchainError → World P → World P
  unfolding update_order
  blockchain_registration_failed order_id failure =
      update_order order_id
        (λ o. record o { status = registration_error; blockchain_error = some failure })

  unfoldable pub handle_blockchain_request : String → String → World P → World P
  unfolding send log_event
  handle_blockchain_request order_id cid w =
      log_event order_id "register_blockchain" (send (register_blockchain order_id cid) w)

  unfoldable pub fail_request : Env P → String → Bool → World P → World P
  unfolding update_order
  fail_request env order_id retryable = update_order order_id (λ o. record o {
    status = registration_error;
    blockchain_error = some (record {
      stage = "REGISTER_REQUEST";
      code = "BLOCKCHAIN_REQUEST_FAILED";
      message = env.exception_text;
      retryable = retryable;
    });
  })

  -- The `try` block and what follows it. A document that is absent is a KeyError, one that pydantic
  -- refuses a ValidationError, which is not retryable.
  unfoldable pub request_registration :
      Env P → String → String → Option Document → World P → World P
  unfolding fail_request handle_blockchain_request update_order
  request_registration env order_id cid none w = fail_request env order_id true w
  request_registration env order_id cid (some d) w =
      if not d.is_valid
      then fail_request env order_id false w
      else if not (env.send_accepted (register_blockchain order_id cid))
      then fail_request env order_id true w
      else update_order order_id
          (λ o. record o { status = blockchain_requested; blockchain_error = none })
          (handle_blockchain_request order_id cid w)

  unfoldable pub upload_on : Env P → String → String → Option (Order P) → World P → World P
  unfolding update_order request_registration
  upload_on env order_id cid none w = w
  upload_on env order_id cid (some doc) w =
      if not (is_present doc.assertions)
      then w
      else request_registration env order_id cid doc.document
          (update_order order_id (λ o. record o { cid = some cid; status = ipfs_uploaded }) w)

  unfoldable pub ipfs_upload_done : Env P → String → String → World P → World P
  unfolding upload_on get_order_doc
  ipfs_upload_done env order_id cid w =
      if cid == "" then w else upload_on env order_id cid (get_order_doc w order_id) w

  unfoldable pub request_on : String → ValidationRequest → Option (Order P) → World P → World P
  unfolding is_done update_order is_member lookup put
  request_on order_id r none w = w
  request_on order_id r (some doc) w =
      if not (expects r.validator (find_info r.id_assertion doc.validators))
      then w
      else if is_done r.id_assertion r.validator doc.validations
      then w
      else update_order order_id
          (λ o. record o {
            validation_requests = with_request r.id_assertion r.validator doc.validation_requests;
          })
          w

  unfoldable pub request_validation : String → ValidationRequest → World P → World P
  unfolding request_on get_order_doc
  request_validation order_id r w =
      if r.validator == "" || r.id_assertion == ""
      then w
      else request_on order_id r (get_order_doc w order_id) w
