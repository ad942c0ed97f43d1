-- ===== src/Worker/Evidences.antt =====
-- `fetch_evidences_for_payload` of validate-asertions/main.py: the evidences of a validation.
use trust_news.Prelude.{
  String, Bool, true, false, not, Option, none, some, List, [], ◌∷◌, any, if◌then◌else◌,
}
use trust_news.Scoring.Weights.{
  ValidatorType, llm_memory_validation, llm_search_validation, rag_evidence_validation,
}
use trust_news.Evidence.Contexts.{Context, Source, Retrieved}
use trust_news.Worker.Circuit.{CallResult, answered, raised, circuit_open, budget_exhausted}

unfoldable pub is_automatic_validator : ValidatorType → Bool
is_automatic_validator llm_memory_validation = true
is_automatic_validator llm_search_validation = true
is_automatic_validator rag_evidence_validation = true
is_automatic_validator _ = false

unfoldable pub uses_evidence_search : ValidatorType → Bool
uses_evidence_search rag_evidence_validation = true
uses_evidence_search _ = false

unfoldable pub uses_online_search : ValidatorType → Bool
uses_online_search llm_search_validation = true
uses_online_search _ = false

abbrev pub is_eligible_context : Option Context → Bool
is_eligible_context none = false
is_eligible_context (some c) = c.citation_eligible

abbrev pub has_eligible_context : Option Source → Bool
has_eligible_context none = false
has_eligible_context (some s) = any is_eligible_context s.contexts

-- `has_citable_evidence`.
unfoldable pub has_citable_evidence : Retrieved → Bool
has_citable_evidence = any has_eligible_context

-- EVIDENCE_SEARCH_STRATEGY, as far as the worker tells its values apart.
pub data Strategy : Type 0 where
  local : Strategy
  other_strategy : Strategy

-- `resolve_local_sources`: SourceRouterRequestError, or the sources.
pub data Route : Type 0 where
  route_failed : Route
  routed : List String → Route

-- Where a validation fails.
pub data Stage : Type 0 where
  not_automatic : Stage
  source_router : Stage
  evidence_search : Stage
  llm_request : Stage
  llm_response_parse : Stage

-- The evidences and whether a response says `search_skipped`, or a failure.
pub data Fetched : Type 0 where
  not_fetched : Stage → Fetched
  fetched : Retrieved → Bool → Fetched

abbrev pub search_result : CallResult Retrieved → Fetched
search_result (answered evidences recovery) = fetched evidences false
search_result (raised f) = not_fetched evidence_search
search_result circuit_open = not_fetched evidence_search
search_result budget_exhausted = not_fetched evidence_search

abbrev pub local_result : (List String → CallResult Retrieved) → Route → Fetched
local_result search route_failed = not_fetched source_router
local_result search (routed []) = fetched [] true
local_result search (routed (source ∷ rest)) = search_result (search (source ∷ rest))

abbrev pub fetch_by_strategy :
    Option Strategy → Route → (List String → CallResult Retrieved) → Fetched
fetch_by_strategy none route search = not_fetched evidence_search
fetch_by_strategy (some local) route search = local_result search route
fetch_by_strategy (some other_strategy) route search = search_result (search [])

-- `fetch_evidences_for_payload`, where a strategy that is `none` raises RuntimeError and `search` is
-- `request_evidence_search` with some preferred sources.
unfoldable pub fetch_evidences_for_payload :
    ValidatorType → Option Strategy → Route → (List String → CallResult Retrieved) → Fetched
unfolding uses_evidence_search
fetch_evidences_for_payload validator_type strategy route search =
    if not (uses_evidence_search validator_type)
    then fetched [] false
    else fetch_by_strategy strategy route search
