-- ===== src/Worker/Verdicts.antt =====
-- `validate_payload_v2` of validate-asertions/main.py: what the worker answers to an assertion. The
-- language model and the two services are parameters.
use trust_news.Prelude.{
  String, Bool, true, false, not, ◌&&◌, Option, List, [], ◌∷◌, ◌==◌, if◌then◌else◌,
}
use trust_news.Scoring.Weights.{
  Verdict, verdict_true, verdict_false, verdict_unknown, ValidatorType,
}
use trust_news.Scoring.Consensus.{is_decisive}
use trust_news.Evidence.Url.{UrlParser}
use trust_news.Evidence.Contexts.{Retrieved}
use trust_news.Evidence.Claims.{Claims, Reference, Grounding}
use trust_news.Evidence.Grounding.{evaluate_evidence_grounding}
use trust_news.Worker.Circuit.{CallResult}
use trust_news.Worker.Evidences.{
  is_automatic_validator, uses_evidence_search, uses_online_search, has_citable_evidence, Strategy,
  Route, Stage, not_automatic, llm_request, llm_response_parse, Fetched, not_fetched, fetched,
  fetch_evidences_for_payload,
}

-- The parsed answer of the model.
pub record Answer : Type 0 where
  pub resultado : String
  pub sources : Claims
  pub evidence_used : Claims

pub data LlmReply : Type 0 where
  request_failed : LlmReply
  not_parsed : LlmReply
  parsed : Answer → LlmReply

-- The verdict of `parse_validator_api_response`.
unfoldable pub parsed_verdict : String → Verdict
parsed_verdict resultado =
    if resultado == "TRUE"
    then verdict_true
    else if resultado == "FALSE"
    then verdict_false
    else verdict_unknown

-- `verdict.name`.
abbrev pub verdict_name : Verdict → String
verdict_name verdict_true = "TRUE"
verdict_name verdict_false = "FALSE"
verdict_name verdict_unknown = "UNKNOWN"

-- "evidence_validation": the reason of an abstention, or what the checks of the citations say.
pub data EvidenceValidation : Type 0 where
  no_citable_evidence : EvidenceValidation
  router_no_source : EvidenceValidation
  checked : Grounding → EvidenceValidation

-- A verdict with its extras; `explains` says that the description tells of a verdict without support.
pub record Judged : Type 0 where
  pub verdict : Verdict
  pub sources_declared : Claims
  pub evidence_used : List Reference
  pub evidence_validation : EvidenceValidation
  pub explains : Bool

pub data Judgement : Type 0 where
  failed_at : Stage → Judgement
  judged : Judged → Judgement

-- The answer, and whether the model was called for it.
pub record Validated : Type 0 where
  pub asked : Bool
  pub judgement : Judgement

abbrev pub abstention : EvidenceValidation → Validated
abstention reason = record {
  asked = false;
  judgement = judged (record {
    verdict = verdict_unknown;
    sources_declared = [];
    evidence_used = [];
    evidence_validation = reason;
    explains = false;
  });
}

abbrev is_empty_claims : Claims → Bool
is_empty_claims [] = true
is_empty_claims (c ∷ cs) = false

-- The claims that are checked.
unfoldable pub claimed_evidence : ValidatorType → Answer → Claims
unfolding uses_online_search uses_evidence_search
claimed_evidence validator_type a =
    if uses_online_search validator_type
    then a.sources
    else if not (uses_evidence_search validator_type) && is_empty_claims a.evidence_used
    then a.sources
    else a.evidence_used

module _ (parser : UrlParser) (validator_type : ValidatorType) where
  abbrev pub grounding_of : Answer → Retrieved → Grounding
  grounding_of a evidences =
      evaluate_evidence_grounding parser (verdict_name (parsed_verdict a.resultado))
        (claimed_evidence validator_type a) evidences (uses_evidence_search validator_type)
        (if uses_online_search validator_type
          then "PROVIDER_SEARCH_UNVERIFIED"
          else "MODEL_KNOWLEDGE")

  -- What follows the model's answer.
  unfoldable pub judge : Retrieved → LlmReply → Judgement
  unfolding parsed_verdict claimed_evidence evaluate_evidence_grounding uses_evidence_search
      uses_online_search
  judge evidences request_failed = failed_at llm_request
  judge evidences not_parsed = failed_at llm_response_parse
  judge evidences (parsed a) =
      let g = grounding_of a evidences in
      judged (record {
        verdict = g.effective_verdict;
        sources_declared = if uses_online_search validator_type then a.sources else [];
        evidence_used = g.evidence_used;
        evidence_validation = checked g;
        explains =
            not (is_decisive g.effective_verdict) && is_decisive (parsed_verdict a.resultado);
      })

  -- What follows the evidences; `llm` answers the prompt that holds them.
  unfoldable pub validate_fetched : (Retrieved → LlmReply) → Fetched → Validated
  unfolding judge has_citable_evidence uses_evidence_search
  validate_fetched llm (not_fetched stage) = record { asked = false; judgement = failed_at stage }
  validate_fetched llm (fetched evidences skipped) =
      if uses_evidence_search validator_type && skipped
      then abstention router_no_source
      else if uses_evidence_search validator_type && not (has_citable_evidence evidences)
      then abstention no_citable_evidence
      else record { asked = true; judgement = judge evidences (llm evidences) }

  unfoldable pub validate_payload_v2 :
      Option Strategy
      → Route
      → (List String → CallResult Retrieved)
      → (Retrieved → LlmReply)
      → Validated
  unfolding is_automatic_validator fetch_evidences_for_payload validate_fetched
  validate_payload_v2 strategy route search llm =
      if not (is_automatic_validator validator_type)
      then record { asked = false; judgement = failed_at not_automatic }
      else validate_fetched llm (fetch_evidences_for_payload validator_type strategy route search)
