-- ===== src/Fetching/Failures.antt =====
-- `_fetch_error_code` and `failure_metadata` of document_fetcher.py, and the result of
-- `_fetch_main_text_once` after an exception.
use trust_news.Prelude.{
  String, Bool, true, false, ◌&&◌, ◌||◌, none, List, [], ◌∷◌, ◌++◌, ◌==◌, if◌then◌else◌, text_take,
  text_drop, text_length, int_of_text,
}
use trust_news.Prelude.Int.{ℤ, pos, leb_ℤ}
use trust_news.Prelude.Dict.{lookup, or_default}
use trust_news.Fetching.Outcomes.{FetchAttempt, FetchResult}

pub data FetchStage : Type 0 where
  fetch : FetchStage
  extraction : FetchStage

-- A code and whether the failure may be retried.
abbrev pub Metadata : Type 0
Metadata = String × Bool

abbrev is_429 : ℤ → Bool
is_429 status = leb_ℤ (pos 429) status && leb_ℤ status (pos 429)

abbrev status_metadata : ℤ → Metadata
status_metadata status = (
  if is_429 status
      then "HTTP_RATE_LIMITED"
      else if leb_ℤ (pos 500) status
      then "HTTP_SERVER_ERROR"
      else "HTTP_CLIENT_ERROR",
  is_429 status || leb_ℤ (pos 500) status,
)

abbrev mapping : List (String × Metadata)
mapping =
    ("http_timeout", ("TIMEOUT", true))
    ∷ ("connect_error", ("NETWORK_ERROR", true))
    ∷ ("tls_hostname_mismatch", ("TLS_HOSTNAME_MISMATCH", true))
    ∷ ("non_html_content_type", ("FORMAT_UNSUPPORTED", false))
    ∷ ("pdf_parser_unavailable", ("FORMAT_UNSUPPORTED", false))
    ∷ ("pdf_text_extraction_failed", ("EXTRACTOR_ERROR", false))
    ∷ ("pdf_too_large", ("DOCUMENT_TOO_LARGE", false))
    ∷ ("unsupported_url_scheme", ("UNSUPPORTED_URL", false))
    ∷ ("empty_body", ("BODY_EMPTY", true))
    ∷ ("html_no_main_content", ("HTML_NO_MAIN_CONTENT", true))
    ∷ ("pdf_no_text", ("PDF_NO_TEXT", false))
    ∷ ("text_empty", ("BODY_EMPTY", true))
    ∷ ("block_page", ("BLOCK_PAGE", false))
    ∷ []

abbrev default_code : FetchStage → String
default_code fetch = "FETCH_ERROR"
default_code extraction = "EXTRACTOR_ERROR"

-- `error.startswith("http_")`.
abbrev pub is_http_error : String → Bool
is_http_error error = text_take 5 error == "http_"

unfoldable pub failure_metadata : String → FetchStage → Metadata
unfolding text_take text_drop int_of_text lookup
failure_metadata error stage =
    if is_http_error error
    then status_metadata (or_default (int_of_text (text_drop 5 error)) (pos 0))
    else or_default (lookup error mapping) (default_code stage, true)

-- What is read of an exception: its text, its two classes of interest, and the name of its class.
pub record Exception : Type 0 where
  pub message : String
  pub is_timeout : Bool
  pub is_connect_error : Bool
  pub class_name : String

-- `pattern in text`.
contains : String → String → Bool
unfolding text_take
contains pattern String.[] = pattern == ""
contains pattern (String.◌∷◌ c s) =
    text_take (text_length pattern) (String.◌∷◌ c s) == pattern || contains pattern s

abbrev pub failure : String → List String → List FetchAttempt → String → Metadata → FetchResult
failure url attempted_urls attempts error (code, retryable) = record {
  status = "failed";
  text = "";
  error = error;
  failure_stage = "FETCH";
  failure_code = code;
  http_status = none;
  retryable = retryable;
  retry_after_seconds = none;
  attempts =
      attempts
      ++ record { url = url; outcome = code; http_status = none; attempt_number = none } ∷ [];
  attempted_urls = attempted_urls;
  retry_trace = [];
}

module _ (lower : String → String) where
  unfoldable pub fetch_error_code : Exception → String
  unfolding contains
  fetch_error_code e =
      let message = lower e.message in
      if contains "certificate_verify_failed" message
        && (contains "hostname mismatch" message || contains "not valid for" message)
      then "tls_hostname_mismatch"
      else if e.is_timeout
      then "http_timeout"
      else if e.is_connect_error
      then "connect_error"
      else e.class_name

  -- The result after an exception for which no other host name is tried.
  unfoldable pub failed_fetch : String → List String → List FetchAttempt → Exception → FetchResult
  unfolding fetch_error_code failure_metadata
  failed_fetch url attempted_urls attempts e =
      let error = fetch_error_code e in
      failure url attempted_urls attempts error (failure_metadata error fetch)
