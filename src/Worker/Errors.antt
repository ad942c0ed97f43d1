-- ===== src/Worker/Errors.antt =====
-- `validation_error_details` of validate-asertions/main.py: how a failed validation is reported.
use trust_news.Prelude.{
  ℕ, suc, ◌≡◌, refl, ap, arith, String, Bool, true, false, not, ◌&&◌, ◌||◌, Option, none, some, eqb,
  leb, concat, if◌then◌else◌,
}
use trust_news.Prelude.Decimal.{decimal}
use trust_news.Worker.Circuit.{
  Failure, timeout_error, network_error, status_error, other_error, is_retryable_error,
}
use trust_news.Worker.Evidences.{
  Stage, source_router, evidence_search, llm_request, llm_response_parse,
}

-- What is read of the exception that is a failure's cause: its classes httpx.TimeoutException and
-- httpx.NetworkError, its attribute `status_code`, and that of its attribute `response`.
pub record Cause : Type 0 where
  pub is_timeout : Bool
  pub is_network_error : Bool
  pub own_status : Option ℕ
  pub response_status : Option ℕ

-- `a or b`, where 0 counts as none.
abbrev pub or_status : Option ℕ → Option ℕ → Option ℕ
or_status none b = b
or_status (some n) b = if eqb n 0 then b else some n

-- `getattr(cause, "status_code", None) or getattr(response, "status_code", None)`.
abbrev pub status_code_of : Cause → Option ℕ
status_code_of cause = or_status cause.own_status cause.response_status

-- The exception of an HTTP request itself; an error with a status is an httpx.HTTPStatusError, which
-- has the response.
abbrev pub cause_of : Failure → Cause
cause_of timeout_error = record {
  is_timeout = true;
  is_network_error = false;
  own_status = none;
  response_status = none;
}
cause_of network_error = record {
  is_timeout = false;
  is_network_error = true;
  own_status = none;
  response_status = none;
}
cause_of (status_error code) = record {
  is_timeout = false;
  is_network_error = false;
  own_status = none;
  response_status = some code;
}
cause_of other_error = record {
  is_timeout = false;
  is_network_error = false;
  own_status = none;
  response_status = none;
}

-- SourceRouterRequestError or EvidenceSearchRequestError around an exception.
unfoldable pub request_error : Cause → Cause
request_error cause = record {
  is_timeout = false;
  is_network_error = false;
  own_status = status_code_of cause;
  response_status = cause.response_status;
}

-- LLMProviderError, with the status of the provider's answer if there was one.
unfoldable pub provider_error : Option ℕ → Cause
provider_error status = record {
  is_timeout = false;
  is_network_error = false;
  own_status = status;
  response_status = none;
}

-- Whether `complete` repeats a request of the model after such an error.
unfoldable pub is_retried_by_llm : Option ℕ → Bool
is_retried_by_llm none = false
is_retried_by_llm (some n) =
    eqb n 408 || eqb n 429 || eqb n 500 || eqb n 502 || eqb n 503 || eqb n 504

-- `isinstance(cause, (httpx.TimeoutException, httpx.NetworkError))`.
abbrev pub is_transport_error : Cause → Bool
is_transport_error cause = cause.is_timeout || cause.is_network_error

pub record ErrorDetails : Type 0 where
  pub stage : Stage
  pub code : String
  pub retryable : Bool
  pub status_code : Option ℕ

-- `code`, by the stage and the status code.
unfoldable pub error_code : Stage → Cause → Option ℕ → String
unfolding concat decimal
error_code source_router cause (some n) = concat "SOURCE_ROUTER_HTTP_" (decimal n)
error_code source_router cause none = "SOURCE_ROUTER_FAILED"
error_code evidence_search cause (some n) = concat "EVIDENCE_SEARCH_HTTP_" (decimal n)
error_code evidence_search cause none =
    if cause.is_timeout then "EVIDENCE_SEARCH_TIMEOUT" else "EVIDENCE_SEARCH_FAILED"
error_code llm_request cause (some n) = concat "LLM_HTTP_" (decimal n)
error_code llm_response_parse cause status = "LLM_INVALID_RESPONSE"
error_code _ cause status = "VALIDATION_EXECUTION_ERROR"

abbrev pub is_transient_status : Option ℕ → Bool
is_transient_status none = false
is_transient_status (some n) = eqb n 408 || eqb n 429 || leb 500 n

unfoldable pub validation_error_details : Stage → Cause → ErrorDetails
unfolding error_code
validation_error_details stage cause =
    let status_code = status_code_of cause in
    record {
      stage = stage;
      code = error_code stage cause status_code;
      retryable = is_transport_error cause || is_transient_status status_code;
      status_code = status_code;
    }

plain-retryable :
    (stage : Stage) (f : Failure)
    → (validation_error_details stage (cause_of f)).retryable ≡ is_retryable_error f
unfolding validation_error_details is_retryable_error
plain-retryable stage timeout_error = refl
plain-retryable stage network_error = refl
plain-retryable stage (status_error n) = refl
plain-retryable stage other_error = refl

or_status-same :
    (own response : Option ℕ) → or_status (or_status own response) response ≡ or_status own response
or_status-same none none = refl
or_status-same none (some n) = ground arith
or_status-same (some m) none = ground arith
or_status-same (some m) (some n) = ground arith

wrapped-status :
    (stage : Stage) (cause : Cause)
    → let plain = validation_error_details stage cause in
      let wrapped = validation_error_details stage (request_error cause) in
      (wrapped.status_code ≡ plain.status_code)
      × (wrapped.retryable ≡ is_transient_status plain.status_code)
unfolding validation_error_details request_error
wrapped-status stage cause =
    let same = or_status-same cause.own_status cause.response_status in
    (same, ap is_transient_status same)

-- What the reports of failures say at any stage. An exception of an HTTP request itself is reported as
-- retryable exactly if request_evidence_search takes it to be. A request error around an exception
-- is reported with the exception's status code, and as retryable exactly by that status, so that a
-- timeout or a network error is not. An error of the model's provider is reported with its status,
-- and as retryable if the model's own retries would repeat the request.
pub retryable_as_retried :
    (stage : Stage) (f : Failure) (cause : Cause) (n : ℕ)
    → let plain = validation_error_details stage cause in
      let wrapped = validation_error_details stage (request_error cause) in
      let provider = validation_error_details stage (provider_error (some (suc n))) in
      ((validation_error_details stage (cause_of f)).retryable ≡ is_retryable_error f)
      × (wrapped.status_code ≡ plain.status_code)
      × (wrapped.retryable ≡ is_transient_status plain.status_code)
      × (provider.status_code ≡ some (suc n))
      × ((is_retried_by_llm (some (suc n)) && not provider.retryable) ≡ false)
unfolding validation_error_details provider_error is_retried_by_llm
retryable_as_retried stage f cause n =
    let (status, by_status) = wrapped-status stage cause in
    (plain-retryable stage f, status, by_status, ground arith, ground arith)
