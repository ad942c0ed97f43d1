-- ===== src/Fetching/Outcomes.antt =====
-- `classify_fetch_outcome` and `should_retry_fetch` of document_fetcher.py.
use trust_news.Prelude.{
  ℕ, String, ◌≡◌, ◌⊎◌, refl, Bool-cases, inl, inr, subst, sym, eq_iff, Bool, true, false, not, ◌&&◌,
  ◌||◌, Option, none, some, List, arith, ◌==◌, eqb, leb, ltb, if◌then◌else◌,
}

pub data Outcome : Type 0 where
  extracted : Outcome
  pending : Outcome
  access_denied : Outcome
  not_found : Outcome
  rate_limited : Outcome
  server_failure : Outcome
  network_failure : Outcome
  empty_content : Outcome
  unsupported_content : Outcome
  extraction_failure : Outcome
  client_failure : Outcome
  fetch_failure : Outcome

-- The keys of a recorded attempt that are read again; no outcome is the empty one.
pub record FetchAttempt : Type 0 where
  pub url : String
  pub outcome : String
  pub http_status : Option ℕ
  pub attempt_number : Option ℕ

-- An entry of the retry trace, by its action.
pub data RetryAction : Type 0 where
  retry :
      (after_attempt : ℕ) (outcome : Outcome) (delay : ℕ) (retry_after_observed : Bool)
      → RetryAction
  retry_skipped_budget :
      (after_attempt : ℕ) (outcome : Outcome) (delay : ℕ) (is_too_long : Bool) → RetryAction

-- The fields of a FetchResult that decide, that the retries change, or that a failure sets. A failure
-- code of None is empty, and so are a list and an error of None. Times are whole milliseconds.
pub record FetchResult : Type 0 where
  pub status : String
  pub text : String
  pub error : String
  pub failure_stage : String
  pub failure_code : String
  pub http_status : Option ℕ
  pub retryable : Bool
  pub retry_after_seconds : Option ℕ
  pub attempts : List FetchAttempt
  pub attempted_urls : List String
  pub retry_trace : List RetryAction

abbrev pub is_status : ℕ → Option ℕ → Bool
is_status n none = false
is_status n (some m) = eqb m n

abbrev at_least : ℕ → Option ℕ → Bool
at_least n none = false
at_least n (some m) = leb n m

abbrev below : ℕ → Option ℕ → Bool
below n none = false
below n (some m) = ltb m n

unfoldable pub classify_fetch_outcome : String → String → Option ℕ → Outcome
classify_fetch_outcome status failure_code http_status =
    if status == "ok"
    then extracted
    else if failure_code == "HTTP_202_EMPTY_BODY"
    then pending
    else if is_status 401 http_status || is_status 403 http_status || failure_code == "BLOCK_PAGE"
    then access_denied
    else if is_status 404 http_status || is_status 410 http_status
    then not_found
    else if is_status 429 http_status || failure_code == "HTTP_RATE_LIMITED"
    then rate_limited
    else if at_least 500 http_status || failure_code == "HTTP_SERVER_ERROR"
    then server_failure
    else if failure_code == "TIMEOUT"
        || failure_code == "NETWORK_ERROR"
        || failure_code == "TLS_HOSTNAME_MISMATCH"
    then network_failure
    else if failure_code == "BODY_EMPTY"
        || failure_code == "HTML_NO_MAIN_CONTENT"
        || failure_code == "PDF_NO_TEXT"
    then empty_content
    else if failure_code == "FORMAT_UNSUPPORTED"
    then unsupported_content
    else if failure_code == "EXTRACTOR_ERROR" || failure_code == "DOCUMENT_TOO_LARGE"
    then extraction_failure
    else if at_least 400 http_status && below 500 http_status
    then client_failure
    else fetch_failure

-- The status is absent, too, when it is no integer.
unfoldable pub classify_attempt_outcome : FetchAttempt → Outcome
unfolding classify_fetch_outcome
classify_attempt_outcome attempt =
    classify_fetch_outcome (if attempt.outcome == "EXTRACTED" then "ok" else "failed")
      attempt.outcome attempt.http_status

unfoldable pub outcome_of : FetchResult → Outcome
unfolding classify_fetch_outcome
outcome_of r = classify_fetch_outcome r.status r.failure_code r.http_status

-- Membership in RETRYABLE_OUTCOMES.
abbrev pub is_retryable : Outcome → Bool
is_retryable pending = true
is_retryable rate_limited = true
is_retryable server_failure = true
is_retryable network_failure = true
is_retryable _ = false

abbrev pub is_given : Option ℕ → Bool
is_given none = false
is_given (some n) = true

abbrev retries : Outcome → FetchResult → Bool
retries pending r = is_given r.retry_after_seconds
retries network_failure r = r.failure_code == "TIMEOUT"
retries _ r = true

unfoldable pub should_retry_fetch : FetchResult → Bool
unfolding outcome_of
should_retry_fetch r =
    if not r.retryable || not (is_retryable (outcome_of r)) then false else retries (outcome_of r) r

differ : (code : String) → (code == "BLOCK_PAGE") ≡ true → (code == "HTTP_202_EMPTY_BODY") ≡ false
differ code h =
    subst (λ c. (c == "HTTP_202_EMPTY_BODY") ≡ false) (sym ((eq_iff code "BLOCK_PAGE").0 h)) refl

-- A pending document, a limit of the rate, a failure of the server, or a timeout.
abbrev pub has_transient_cause : FetchResult → Bool
has_transient_cause r =
    r.failure_code == "HTTP_202_EMPTY_BODY"
    || is_status 429 r.http_status
    || r.failure_code == "HTTP_RATE_LIMITED"
    || at_least 500 r.http_status
    || r.failure_code == "HTTP_SERVER_ERROR"
    || r.failure_code == "TIMEOUT"

-- What a second request is made for.
pub record IsTransient (r : FetchResult) : Type 0 where
  pub allowed : r.retryable ≡ true
  pub failed : (r.status == "ok") ≡ false
  pub stable_code : (r.failure_code == "BLOCK_PAGE") ≡ false
  pub accessible :
      (r.failure_code == "HTTP_202_EMPTY_BODY") ≡ true
      ⊎ ((is_status 401 r.http_status
            || is_status 403 r.http_status
            || is_status 404 r.http_status
            || is_status 410 r.http_status)
          ≡ false)
  pub waits :
      (not (r.failure_code == "HTTP_202_EMPTY_BODY") || is_given r.retry_after_seconds) ≡ true
  pub cause : has_transient_cause r ≡ true

all_false :
    (a b c d e f : Bool)
    → (a || b || c || d || e || f) ≡ false
    → (a ≡ false) × (b ≡ false) × (c ≡ false) × (d ≡ false) × (e ≡ false) × (f ≡ false)
all_false a b c d e f h = ground arith

abbrev is_settled : Outcome → Bool
is_settled pending = false
is_settled rate_limited = false
is_settled server_failure = false
is_settled _ = true

chain-settled :
    (a b c d e f g h : Bool)
    → is_settled (
        if a
        then extracted
        else if b
        then access_denied
        else if c
        then not_found
        else if d
        then network_failure
        else if e
        then empty_content
        else if f
        then unsupported_content
        else if g
        then extraction_failure
        else if h
        then client_failure
        else fetch_failure)
      ≡ true
chain-settled true b c d e f g h = refl
chain-settled false true c d e f g h = refl
chain-settled false false true d e f g h = refl
chain-settled false false false true e f g h = refl
chain-settled false false false false true f g h = refl
chain-settled false false false false false true g h = refl
chain-settled false false false false false false true h = refl
chain-settled false false false false false false false true = refl
chain-settled false false false false false false false false = refl

outcome_of-settled :
    (r : FetchResult)
    → (r.failure_code == "HTTP_202_EMPTY_BODY") ≡ false
    → is_status 429 r.http_status ≡ false
    → (r.failure_code == "HTTP_RATE_LIMITED") ≡ false
    → at_least 500 r.http_status ≡ false
    → (r.failure_code == "HTTP_SERVER_ERROR") ≡ false
    → is_settled (outcome_of r) ≡ true
unfolding outcome_of
outcome_of-settled r p q l u v = rw (p, q, l, u, v) (chain-settled _ _ _ _ _ _ _ _)

settled-final :
    (o : Outcome) (r : FetchResult)
    → is_settled o ≡ true
    → (r.failure_code == "TIMEOUT") ≡ false
    → (if not r.retryable || not (is_retryable o) then false else retries o r) ≡ false
settled-final network_failure r s t = ground arith
settled-final pending r s t = ground arith
settled-final rate_limited r s t = ground arith
settled-final server_failure r s t = ground arith
settled-final _ r s t = ground arith

should_retry_fetch-no_cause :
    (r : FetchResult)
    → (r.failure_code == "HTTP_202_EMPTY_BODY") ≡ false
    → is_status 429 r.http_status ≡ false
    → (r.failure_code == "HTTP_RATE_LIMITED") ≡ false
    → at_least 500 r.http_status ≡ false
    → (r.failure_code == "HTTP_SERVER_ERROR") ≡ false
    → (r.failure_code == "TIMEOUT") ≡ false
    → should_retry_fetch r ≡ false
unfolding should_retry_fetch
should_retry_fetch-no_cause r p q l u v t =
    settled-final (outcome_of r) r (outcome_of-settled r p q l u v) t

should_retry_fetch-cause :
    (r : FetchResult) → should_retry_fetch r ≡ true → has_transient_cause r ≡ true
should_retry_fetch-cause r h = elim (Bool-cases (has_transient_cause r)) [
  | inl e ↦ e
  | inr e ↦
      let (p, q, l, u, v, t) = all_false _ _ _ _ _ _ e in
      let no = should_retry_fetch-no_cause r p q l u v t in ground (arith, no)
]

pub should_retry_fetch-IsTransient : (r : FetchResult) → should_retry_fetch r ≡ true → IsTransient r
unfolding should_retry_fetch
should_retry_fetch-IsTransient r h = record {
  allowed = ground arith;
  failed = ground arith;
  stable_code = ground (arith, differ r.failure_code);
  accessible = ground arith;
  waits = ground arith;
  cause = should_retry_fetch-cause r h;
}
