-- ===== src/Worker/Examples.antt =====
-- The validation worker at small inputs.
use trust_news.Prelude.{
  zero, suc, false, not, Bool, ℕ, ◌+◌, ◌&&◌, leb, ltb, ◌≡◌, refl, true, String, none, some, List,
  [], ◌∷◌, arith,
}
use trust_news.Scoring.Weights.{rag_evidence_validation}
use trust_news.Evidence.Url.{UrlParser, text}
use trust_news.Evidence.Contexts.{Source, Retrieved}
use trust_news.Worker.Circuit.{
  RetrySettings, Circuit, circuit_is_open, failure_threshold, timeout_error, status_error, body,
  failed, Reply, Exchange, CallResult, answered, is_retryable_error, request_evidence_search,
}
use trust_news.Worker.Budget.{AreInTime, requests_stay_within_budget}
use trust_news.Worker.Recovery.{transient_failures_are_recovered}
use trust_news.Worker.Opening.{
  failure, failures_in_row, last_time, Call, after_calls, circuit_opens_after_failures,
}
use trust_news.Worker.Evidences.{
  local, routed, fetch_evidences_for_payload, source_router, evidence_search,
}
use trust_news.Worker.Verdicts.{Answer, LlmReply, parsed, validate_payload_v2}
use trust_news.Worker.Support.{IsJustified, documentary_verdict-IsJustified}
use trust_news.Worker.Errors.{
  cause_of, request_error, provider_error, is_retried_by_llm, is_transient_status,
  validation_error_details, retryable_as_retried,
}

abbrev settings : RetrySettings
settings = record {
  timeout = 90;
  stated_attempts = 2;
  stated_budget = 120;
  retry_base = 1;
  stated_threshold = 3;
  cooldown = 30;
}

abbrev gazette : Source
gazette = record {
  source_id = "s1";
  url = text "https://gazette.example/bridge";
  title = "Bridge";
  relationship_to_origin = "INDEPENDENT";
  document_provenance = none;
  contexts =
      some (record {
        context_id = "c1";
        text = "The bridge opened.";
        citation_eligible = true;
        selected_chunk_id = "k1";
        text_sha256 = "";
      })
      ∷ [];
}

abbrev evidences : Retrieved
evidences = some gazette ∷ []

abbrev reply_to : ℕ → Reply Retrieved
reply_to zero = failed timeout_error
reply_to (suc zero) = failed timeout_error
reply_to (suc (suc n)) = body evidences

-- The first request fails after 20 units, later ones are answered.
abbrev upstream : ℕ → ℕ → Exchange Retrieved
upstream n timeout = record { elapsed = 20; reply = reply_to n; others = λ c. c }

abbrev closed : Circuit
closed = record { failures = 2; open_until = 0 }

requests_stay_within_budget_example :
    AreInTime settings 1120 2 (request_evidence_search settings upstream 1000 closed)
requests_stay_within_budget_example = requests_stay_within_budget settings upstream 1000 closed

transient_failures_are_recovered_example :
    let r = request_evidence_search settings upstream 1000 closed in
    (r.0 ≡ answered evidences (some 2)) × (r.1.circuit ≡ record { failures = 0; open_until = 0 })
unfolding is_retryable_error
transient_failures_are_recovered_example =
    transient_failures_are_recovered settings upstream 20
      (record { fast = λ n timeout. omega arith; quiet = λ n timeout c. omega arith }) evidences 1
      1000 closed (omega arith) (λ timeout. (timeout_error, refl, refl), λ timeout. refl)
      (omega arith) (omega arith)

-- A service that does not answer in time, and one that refuses what it is asked.
abbrev away : ℕ → ℕ → Exchange Retrieved
away n timeout = record { elapsed = 20; reply = failed timeout_error; others = λ c. c }

abbrev refusing : ℕ → ℕ → Exchange Retrieved
refusing n timeout = record { elapsed = 1; reply = failed (status_error 400); others = λ c. c }

abbrev away_at : ℕ → Call Retrieved
away_at t = record { started_at = t; upstream = away; quiet = λ n timeout c. refl }

abbrev refused_at : ℕ → Call Retrieved
refused_at t = record { started_at = t; upstream = refusing; quiet = λ n timeout c. refl }

-- Three calls in a row fail for good, with one between them that is only refused.
abbrev calls : List (Call Retrieved)
calls = away_at 200 ∷ refused_at 190 ∷ away_at 100 ∷ away_at 0 ∷ []

abbrev is_open_at : (t : ℕ) → Bool
is_open_at t = circuit_is_open (after_calls settings calls).0 t

circuit_is_opened :
    ((after_calls settings calls).1 ≡ failure 241 ∷ failure 141 ∷ failure 41 ∷ [])
    × (is_open_at 250 ≡ true)
    × (is_open_at 280 ≡ false)
unfolding request_evidence_search circuit_is_open
circuit_is_opened = (refl, refl, refl)

circuit_opens_after_failures_example : circuit_is_open (after_calls settings calls).0 250 ≡ (
    leb (failure_threshold settings) (failures_in_row (after_calls settings calls).1)
    && ltb 250 (last_time (after_calls settings calls).1 + 30))
circuit_opens_after_failures_example = circuit_opens_after_failures settings calls 250

abbrev parser : UrlParser
parser = record { scheme = λ s. some "https"; has_hostname = λ s. true; accepts = λ s. true }

abbrev answer : Answer
answer = record {
  resultado = "TRUE";
  sources = [];
  evidence_used =
      some (record { context_id = "c1"; supports = some true; reason = "It says so." }) ∷ [];
}

abbrev search : List String → CallResult Retrieved
search preferred = (request_evidence_search settings upstream 1000 closed).0

abbrev llm : Retrieved → LlmReply
llm found = parsed answer

documentary_verdict-IsJustified_example :
    IsJustified parser llm
      (fetch_evidences_for_payload rag_evidence_validation
        (some local)
        (routed ("gazette.example" ∷ []))
        search)
      (validate_payload_v2 parser rag_evidence_validation
        (some local)
        (routed ("gazette.example" ∷ []))
        search
        llm)
documentary_verdict-IsJustified_example =
    documentary_verdict-IsJustified parser (some local) (routed ("gazette.example" ∷ [])) search llm

retryable_as_retried_example :
    let cause = cause_of (status_error 503) in
    let plain = validation_error_details source_router cause in
    let wrapped = validation_error_details source_router (request_error cause) in
    let provider = validation_error_details source_router (provider_error (some 429)) in
    ((validation_error_details source_router (cause_of timeout_error)).retryable
      ≡ is_retryable_error timeout_error)
    × (wrapped.status_code ≡ plain.status_code)
    × (wrapped.retryable ≡ is_transient_status plain.status_code)
    × (provider.status_code ≡ some 429)
    × ((is_retried_by_llm (some 429) && not provider.retryable) ≡ false)
retryable_as_retried_example =
    retryable_as_retried source_router timeout_error (cause_of (status_error 503)) 428

-- A timeout of Source Router is reported as not retryable, one of Evidence Search as retryable.
timeouts :
    ((validation_error_details source_router (request_error (cause_of timeout_error))).retryable
      ≡ false)
    × ((validation_error_details evidence_search (cause_of timeout_error)).retryable ≡ true)
unfolding validation_error_details request_error
timeouts = (refl, refl)
