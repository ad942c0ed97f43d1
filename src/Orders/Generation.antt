-- ===== src/Orders/Generation.antt =====
-- The branches `assertions_generated` and `assertions_not_generated` of process_kafka_message, and
-- `start_light_flow` with `dispatch_light_validation_requests`.
use trust_news.Prelude.{
  ◌+◌, String, Bool, true, false, not, Option, none, some, List, [], ◌∷◌, ◌==◌, map, length, eqb,
  concat, if◌then◌else◌,
}
use trust_news.Scoring.Values.{PyFloat}
use trust_news.Orders.Model.{
  blockchain, light, assertions_not_available, quota_exceded, document_created, ipfs_pending,
  validation_pending, no_validators_available, Assertion, Document, AssertionsError, Order,
}
use trust_news.Orders.Registry.{
  Cached, Cache, light_validators_for_category, light_validator_is_healthy,
}
use trust_news.Orders.World.{
  upload_ipfs, light_validation_request, Quotas, Env, World, get_order_doc, update_order, log_event,
  send, update_client_consumed,
}
use trust_news.Orders.Counting.{normalize_validation_mode, consume}
use trust_news.Orders.Dispatches.{same_mode, Dispatch, nothing, is_exceeded, add_assertion}

module _ {P : PyFloat} where
  -- The comprehension that keeps the healthy candidates, with the cache that it fills.
  unfoldable pub healthy :
      (String → Bool)
      → List (Cached P)
      → List (String × Bool)
      → List (Cached P) × List (String × Bool)
  unfolding light_validator_is_healthy
  healthy is_healthy [] health_cache = ([], health_cache)
  healthy is_healthy (v ∷ rest) health_cache =
      let (b, now) = light_validator_is_healthy is_healthy v health_cache in
      let (kept, after) = healthy is_healthy rest now in (if b then v ∷ kept else kept, after)

  -- The inner loop: one message for each validator; `false` where sending raises.
  unfoldable pub send_requests : Env P → String → String → List String → World P → World P × Bool
  unfolding send log_event concat
  send_requests env order_id id_assertion [] w = (w, true)
  send_requests env order_id id_assertion (v ∷ rest) w =
      let m =
        light_validation_request order_id id_assertion v
          (concat order_id (concat ":" (concat id_assertion (concat ":" v)))) in
      let next =
        send_requests env order_id id_assertion rest
          (log_event order_id "light_validation_request" (send m w)) in
      if env.send_accepted m then next else (w, false)

  abbrev cached_values : Cache P → List (Cached P)
  cached_values = map (λ x. x.1)

  unfoldable pub ids_for :
      Env P → Assertion → World P → List (String × Bool) → List String × List (String × Bool)
  unfolding healthy light_validators_for_category
  ids_for env a w health_cache =
      let (vs, after) =
        healthy env.is_healthy
          (light_validators_for_category (cached_values w.validators_cache) a.category_id)
          health_cache in
      (map (λ v. v.validator) vs, after)

  -- The loop over the assertions; `none` where a message could not be sent.
  unfoldable pub dispatch_all :
      Env P
      → String
      → List Assertion
      → List (String × Bool)
      → Dispatch
      → World P
      → World P × Option Dispatch
  unfolding ids_for send_requests add_assertion
  dispatch_all env order_id [] health_cache d w = (w, some d)
  dispatch_all env order_id (a ∷ rest) health_cache d w =
      let (ids, after) = ids_for env a w health_cache in
      let (w', sent) = send_requests env order_id a.assertion_id ids w in
      let next = dispatch_all env order_id rest after (add_assertion a ids d) w' in
      if sent then next else (w', none)

  unfoldable pub dispatched : Dispatch → Order P → Order P
  dispatched d o = record o {
    validators = d.validators;
    validation_requests = d.requests;
    validators_pending = d.total_pending;
    assertions_without_validator = d.without_validator;
    status = if eqb d.total_pending 0 then no_validators_available else validation_pending;
  }

  abbrev pub close_dispatch : String → World P × Option Dispatch → World P
  close_dispatch order_id (w, none) = w
  close_dispatch order_id (w, some d) = update_order order_id (dispatched d) w

  unfoldable pub dispatch_light_validation_requests : Env P → String → Document → World P → World P
  unfolding dispatch_all update_order dispatched
  dispatch_light_validation_requests env order_id document w =
      close_dispatch order_id (dispatch_all env order_id document.assertions [] nothing w)

  -- What both flows write when the document is there.
  unfoldable pub document_stored : Document → Order P → Order P
  document_stored document o = record o {
    assertions = some document.assertions;
    document = some document;
    status = document_created;
    validations = [];
    validation_requests = [];
    validators = [];
    validators_pending = 0;
  }

  unfoldable pub start_light_flow : Env P → String → String → Document → World P → World P
  unfolding dispatch_light_validation_requests update_order document_stored
  start_light_flow env order_id text document w =
      dispatch_light_validation_requests env order_id document (
        update_order order_id
          (λ o. record (document_stored document o) {
            validation_mode = some "LIGHT";
            cid = none;
            tx_hash = none;
            hash_text = some (env.hash_text_to_multihash text);
          })
          w)

  -- The last part of the BLOCKCHAIN flow; a document that names an order id raises.
  unfoldable pub request_upload : Env P → String → Document → World P → World P
  unfolding update_order document_stored send log_event
  request_upload env order_id document w =
      let stored = update_order order_id (document_stored document) w in
      if document.names_order_id
      then w
      else if not (env.send_accepted (upload_ipfs order_id document))
      then stored
      else update_order order_id (λ o. record o { status = ipfs_pending })
          (log_event order_id "upload_ipfs" (send (upload_ipfs order_id document) stored))

  abbrev pub within_quota : Env P → String → String → Document → Option Quotas → World P → World P
  within_quota env order_id client_id document none w = w
  within_quota env order_id client_id document (some q) w =
      let c = consume client_id "news_generation" (q.news_consumed + 1) in
      if is_exceeded q (length document.assertions)
      then update_order order_id
          (λ o. record o { status = quota_exceded; assertions = some document.assertions }) w
      else if env.update_accepted c
      then request_upload env order_id document (update_client_consumed c w)
      else w

  unfoldable pub start_blockchain_flow : Env P → String → String → Document → World P → World P
  unfolding update_order update_client_consumed request_upload is_exceeded
  start_blockchain_flow env order_id client_id document w =
      if client_id == ""
      then request_upload env order_id document w
      else within_quota env order_id client_id document (env.fetch_client_quotas client_id) w

  abbrev pub trace_kept : String → Option String → World P → World P
  trace_kept order_id none w = w
  trace_kept order_id (some t) w =
      update_order order_id (λ o. record o { generation_evaluation_trace = some t }) w

  unfoldable pub generated_on :
      Env P → String → Document → Option String → Option (Order P) → World P → World P
  unfolding normalize_validation_mode start_light_flow start_blockchain_flow update_order
  generated_on env order_id document trace none w = w
  generated_on env order_id document trace (some doc) w =
      let w' = trace_kept order_id trace w in
      if not (same_mode (normalize_validation_mode doc.validation_mode) document.mode)
      then w'
      else elim document.mode [
        | light ↦ start_light_flow env order_id doc.text document w'
        | blockchain ↦ start_blockchain_flow env order_id doc.client_id document w'
      ]

  unfoldable pub assertions_generated :
      Env P → String → Document → Option String → World P → World P
  unfolding generated_on get_order_doc
  assertions_generated env order_id document trace w =
      generated_on env order_id document trace (get_order_doc w order_id) w

  unfoldable pub not_generated_on :
      String → AssertionsError → Option String → Option (Order P) → World P → World P
  unfolding update_order
  not_generated_on order_id failure trace none w = w
  not_generated_on order_id failure trace (some doc) w =
      update_order order_id
        (λ o. record o { status = assertions_not_available; assertions_error = some failure })
        (trace_kept order_id trace w)

  unfoldable pub assertions_not_generated :
      String → AssertionsError → Option String → World P → World P
  unfolding not_generated_on get_order_doc
  assertions_not_generated order_id failure trace w =
      not_generated_on order_id failure trace (get_order_doc w order_id) w
