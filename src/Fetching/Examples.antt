-- ===== src/Fetching/Examples.antt =====
-- Fetching at a small input: a redirect to another host, and then a page.
use trust_news.Prelude.{
  false, ℕ, ◌≤◌, suc, String, ◌≡◌, refl, true, none, some, [], ◌∷◌, ◌==◌, length, eqb,
  if◌then◌else◌,
}
use trust_news.Fetching.Net.{Net}
use trust_news.Fetching.Body.{Wire, Response, response, bounded_get}
use trust_news.Fetching.Redirects.{max_redirects, get_following_validated_redirects}
use trust_news.Fetching.Outcomes.{FetchResult, should_retry_fetch}
use trust_news.Fetching.Retries.{FetchSettings, Surroundings, fetch_result, fetch_main_text}
use trust_news.Fetching.Attempts.{
  AreBounded, last_result, numbered_attempts, fetch_main_text-AreBounded,
}
use trust_news.Fetching.Failures.{failure_metadata, fetch}
use trust_news.Fetching.Limits.{IsComplete, body_is_complete}
use trust_news.Fetching.Safety.{IsSafe, fetch_requests_checked_urls}

abbrev net : Net
net = record {
  Address = ℕ;
  parse = λ url.
      some (record {
        scheme = "https";
        hostname = url;
        username = none;
        password = none;
        port = none;
      });
  lower = λ s. s;
  address = λ s. none;
  resolve = λ moment host port. some (8 ∷ []);
  is_global = λ a. eqb a 8;
  join = λ base location. location;
}

abbrev page : Wire
page = record {
  status_code = 200;
  content_type = "text/html";
  declared_length = some 3;
  location = none;
  parts = (1 ∷ 2 ∷ []) ∷ (3 ∷ []) ∷ [];
  is_streamed = true;
}

abbrev server : ℕ → String → Wire
server moment url =
    if url == "news.example"
    then record page { status_code = 301; location = some "www.news.example" }
    else page

requests_two :
    (get_following_validated_redirects net 10 server "news.example" [] []).1.visited
    ≡ "www.news.example" ∷ "news.example" ∷ []
unfolding get_following_validated_redirects
requests_two = refl

fetch_requests_checked_urls_example :
    let t = (get_following_validated_redirects net 10 server "news.example" [] []).1 in
    IsSafe net 10 server true t.visited × (length t.visited ≤ suc max_redirects)
fetch_requests_checked_urls_example = fetch_requests_checked_urls net 10 server "news.example" [] []

abbrev kept : Response
kept = record { status_code = 200; location = none; body = 1 ∷ 2 ∷ 3 ∷ [] }

page_read : bounded_get 10 page ≡ response kept
unfolding bounded_get
page_read = refl

body_is_complete_example : (kept.status_code ≡ page.status_code) × IsComplete 10 page kept.body
body_is_complete_example = body_is_complete 10 page kept page_read

abbrev busy : FetchResult
busy = record {
  status = "failed";
  text = "";
  error = "http_429";
  failure_stage = "FETCH";
  failure_code = "HTTP_RATE_LIMITED";
  http_status = some 429;
  retryable = true;
  retry_after_seconds = none;
  attempts =
      record {
        url = "news.example";
        outcome = "HTTP_RATE_LIMITED";
        http_status = some 429;
        attempt_number = none;
      }
      ∷ [];
  attempted_urls = "news.example" ∷ [];
  retry_trace = [];
}

is_retried : should_retry_fetch busy ≡ true
unfolding should_retry_fetch
is_retried = refl

-- The code of a timeout is the one of a client error; an error of the server is retried.
error_codes :
    (failure_metadata "http_timeout" fetch ≡ ("HTTP_CLIENT_ERROR", false))
    × (failure_metadata "http_503" fetch ≡ ("HTTP_SERVER_ERROR", true))
    × (failure_metadata "connect_error" fetch ≡ ("NETWORK_ERROR", true))
unfolding failure_metadata
error_codes = (refl, refl, refl)

abbrev settings : FetchSettings
settings = record {
  stated_attempts = 3;
  retry_base = 500;
  stated_retry_max = 3000;
  stated_jitter = 20;
  retry_budget = 15000;
}

abbrev article : FetchResult
article = record busy {
  status = "ok";
  text = "An article.";
  error = "";
  failure_code = "";
  http_status = some 200;
  attempts = [];
}

-- The server is busy once; a run takes 100 ms, and each delay is the shortest.
abbrev busy_once : Surroundings
busy_once = record {
  fetch_once = λ n timeout. (if eqb n 1 then busy else article, 100);
  uniform = λ n low high. low;
  oversleep = λ n. 1;
}

text_is_read : (fetch_main_text settings busy_once "news.example" 10000).0.text ≡ "An article."
unfolding fetch_main_text
text_is_read = refl

-- 100 for the first run, 400 for the delay of 500 less its jitter, 1 too long, 100 for the second.
time_is_taken : (fetch_main_text settings busy_once "news.example" 10000).1.elapsed ≡ 601
unfolding fetch_main_text
time_is_taken = refl

-- Without a budget the retry that the trace records is not made.
abbrev without_budget : FetchSettings
without_budget = record settings { retry_budget = 0 }

is_run_once :
    let (result, f) = fetch_main_text without_budget busy_once "news.example" 10000 in
    (length f.runs ≡ 1) × (length result.retry_trace ≡ 1) × (f.elapsed ≡ 501)
unfolding fetch_main_text
is_run_once = (refl, refl, refl)

fetch_main_text-AreBounded_example :
    let (result, f) = fetch_main_text settings busy_once "news.example" 10000 in
    AreBounded settings f.runs
    × (result.attempts ≡ numbered_attempts f.runs)
    × (result ≡ fetch_result "news.example" (last_result f.runs, f))
fetch_main_text-AreBounded_example =
    fetch_main_text-AreBounded settings busy_once "news.example" 10000
