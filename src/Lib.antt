-- ===== src/Lib.antt =====
-- Verification of the Trust News backend: the decisions that turn validators' answers into a
-- verdict, the evidence that a verdict may rest on, and the life of an order between the services.
--
-- A client publishes a text; api/news-handler turns it into an order. Generated assertions come back
-- over Kafka and are sent to validators, directly in the LIGHT flow, or by way of IPFS and the chain in
-- the BLOCKCHAIN flow. Each validator (api/validate-asertions) asks for evidence, grounds its verdict
-- with common/utils/evidence.py and answers; news-handler records the answer with a snapshot of its
-- weight and closes the order when nobody is waited for. common/utils/scoring.py computes the result
-- of each assertion from the recorded answers.
--
-- Prelude          numbers, lists, texts (Prelude/Text: Python's strip, upper, lower, int and the order
--                  of strings), integers (Prelude/Int), dicts and sets (Prelude/Dict).
-- Scoring          api/common/utils/scoring.py and the types, weights and result names of
--                  api/common/models/async_models.py. Values: what a JSON value can be, and Python's
--                  floats as a parameter PyFloat with the laws FloatLaws. Weights, Detail, Consensus: the
--                  functions of the file under their own names; the ladder of
--                  calculate_assertion_result is `decide`, its sums are `add_votes`. Fixed: fixed-point
--                  numbers, an instance of PyFloat that has the laws. Results: all assertions of an order.
-- Evidence         api/common/utils/evidence.py. Url: is_http_url and sanitize_evidence_item, over a
--                  parameter UrlParser for urlparse and pydantic's HttpUrl. Contexts: _citation_contexts.
--                  Claims and Grounding: evaluate_evidence_grounding; its loop is `check_claims`. Citable and
--                  Citations describe what the index and the loop mean, by filters on what was retrieved.
-- Orders           process_kafka_message of api/news-handler/main.py and the helpers that it calls.
--                  Model: the documents and the payloads. World: the MongoDB collections, the messages
--                  sent and what the services around answer (Env). Registry:
--                  api/common/utils/validator_registry.py and the health checks. Counting and Responses: the two
--                  branches for validators' answers. Publication: IPFS, the registration and requests.
--                  Dispatches and Generation: the branches for generated assertions, with
--                  start_light_flow and dispatch_light_validation_requests. Process: from a message to its branch.
-- Fetching         api/evidence-search/app/document_fetcher.py. Net: _validate_fetch_url, over a
--                  parameter for urllib, ipaddress and the resolver. Body: _bounded_get, for clients with
--                  and without streaming. Redirects:
--                  _get_following_validated_redirects; its loop is `follow`, by recursion on the redirects
--                  that are left, at most MAX_REDIRECTS. Failures: failure_metadata,
--                  _fetch_error_code, and a fetch that ends in an exception. Outcomes:
--                  classify_fetch_outcome and should_retry_fetch. Retries: fetch_main_text, over the
--                  attempts that are left, at most FETCH_MAX_ATTEMPTS; times are milliseconds, and the
--                  clock goes on with the duration of each fetch and sleep, which are parameters.
-- Chunking         api/evidence-search/app/chunker.py. Sentences: split_sentences and
--                  _overlap_sentences. Cut: chunk_text; its loops are `add_sentences` and
--                  `cut_slices`, which runs on as much fuel as the sentence has characters and one
--                  more: each slice takes one of them or more away. Windows: build_context_windows;
--                  its loop is `select_windows`.
-- Cache            api/news-handler/main.py. Fields: a cached validator as a dict, and
--                  merge_refreshed_validator. Refresh: load_validators_cache_from_chain; its loop over
--                  the snapshot is `refresh_all`. Events: update_validator_cache_from_event. What other
--                  tasks do while a request to news-chain runs is a function of the state.
-- Worker           api/validate-asertions/main.py. Circuit: request_evidence_search and its circuit
--                  breaker; the loop is `request_loop`, over the attempts that are left. Evidences:
--                  fetch_evidences_for_payload. Verdicts: validate_payload_v2, which ends in the
--                  grounding of the part Evidence; the model and Source Router are parameters.
--                  Errors: validation_error_details, with the errors of common/llm/errors.py that it reports.
-- Router           api/source-router/app. Taxonomy: common/routing_taxonomy.py. Eligibility:
--                  eligibility.py. Model, Reuse and Service: SourceRouterService.resolve in service.py, from
--                  the stored route through search, classification and the reuse of profiles to the
--                  new route.
-- Gateway          api/gateway/security.py. Security: RequestSecurityMiddleware; its loop over the
--                  messages is `buffer_messages`.
--
-- A handler is a function from the world to the world; an exception that process_kafka_message catches
-- ends it with what was written before. A handler runs to its end before the next message; the order
-- locks and concurrent handlers are not modelled, nor are time stamps. All other loops are
-- structural recursion on the lists that they walk or on the redirects left, so no fuel is needed. A document's
-- keys that no modelled function reads are left out.
--
-- Not modelled: the action new_validator_config as a branch of process_kafka_message (the part Cache has
-- its handler; for Orders the cache is a part of the world that is read), the search of the event log for a request's time stamp
-- (its result, the seconds that a response took, is an answer of Env), the HTTP endpoints, the
-- extraction of text, the ranking of chunks, logging, prompts and LLM and search clients, the
-- chain and IPFS services, the web pages and the smart contracts.

pub mod Prelude
pub mod Scoring
pub mod Evidence
pub mod Orders
pub mod Fetching
pub mod Chunking
pub mod Gateway
pub mod Cache
pub mod Worker
pub mod Router
