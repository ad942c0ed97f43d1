-- ===== src/Fetching/Retries.antt =====
-- `fetch_main_text` of document_fetcher.py: a fetch that is repeated. Times are whole milliseconds,
-- and the ratio of the jitter is a whole percentage whose share of a delay is rounded down.
use trust_news.Prelude.{
  ℕ, zero, suc, ◌+◌, ◌-◌, ◌*◌, ◌/◌, ◌^◌, min, max, String, Bool, true, not, ◌&&◌, ◌||◌, Option,
  none, some, List, [], ◌∷◌, ◌++◌, map, ◌==◌, any, ltb, leb, eqb, if◌then◌else◌,
}
use trust_news.Fetching.Outcomes.{
  FetchAttempt, RetryAction, retry, retry_skipped_budget, FetchResult, outcome_of, is_given,
  should_retry_fetch,
}

-- The settings as the environment states them, in milliseconds and percent.
pub record FetchSettings : Type 0 where
  pub stated_attempts : ℕ
  pub retry_base : ℕ
  pub stated_retry_max : ℕ
  pub stated_jitter : ℕ
  pub retry_budget : ℕ

abbrev pub fetch_max_attempts : FetchSettings → ℕ
fetch_max_attempts s = max 1 s.stated_attempts

abbrev pub retry_max : FetchSettings → ℕ
retry_max s = max s.retry_base s.stated_retry_max

abbrev pub jitter : FetchSettings → ℕ
jitter s = min 100 s.stated_jitter

-- One call of `_fetch_main_text_once`, with the time since the start at which it is made and ends.
pub record Run : Type 0 where
  pub started : ℕ
  pub timeout : ℕ
  pub ended : ℕ
  pub result : FetchResult

-- The surroundings: what a run with its number and timeout returns and how long it takes, the random
-- number that the nth delay draws between two bounds, and how much longer the nth sleep takes than
-- its delay.
pub record Surroundings : Type 0 where
  pub fetch_once : ℕ → ℕ → FetchResult × ℕ
  pub uniform : ℕ → ℕ → ℕ → ℕ
  pub oversleep : ℕ → ℕ

-- The local variables of the loop; `elapsed` is what the clock shows since the start, and `runs` are
-- the runs so far, the last one first.
pub record Fetching : Type 0 where
  pub elapsed : ℕ
  pub all_attempts : List FetchAttempt
  pub all_urls : List String
  pub retry_trace : List RetryAction
  pub runs : List Run

abbrev base_delay : FetchSettings → Option ℕ → ℕ → ℕ
base_delay s none retry_number = min (s.retry_base * 2 ^ (retry_number - 1)) (retry_max s)
base_delay s (some delay) retry_number = delay

-- A spread is no more than its base, so no bound is below zero.
unfoldable pub retry_delay_seconds : FetchSettings → Surroundings → FetchResult → ℕ → ℕ
retry_delay_seconds s env result retry_number =
    let base = base_delay s result.retry_after_seconds retry_number in
    let spread = base * jitter s / 100 in
    if eqb base 0 || eqb (jitter s) 0
    then base
    else env.uniform retry_number (base - spread) (base + spread)

unfoldable pub merge_attempt_urls : List String → List String → List String
merge_attempt_urls target [] = target
merge_attempt_urls target (item ∷ source) =
    merge_attempt_urls (if any (λ u. u == item) target then target else target ++ item ∷ []) source

abbrev pub effective_timeout : FetchSettings → ℕ → ℕ → ℕ
effective_timeout s timeout elapsed =
    max 1 (if not (eqb s.retry_budget 0) then min timeout (s.retry_budget - elapsed) else timeout)

abbrev with_attempt_number : ℕ → FetchAttempt → FetchAttempt
with_attempt_number n attempt = record attempt { attempt_number = some n }

-- The state after a run.
unfoldable pub record_run : ℕ → ℕ → FetchResult × ℕ → Fetching → Fetching
unfolding merge_attempt_urls
record_run attempt_number timeout outcome f =
    let ended = f.elapsed + outcome.1 in
    let run : Run = record {
      started = f.elapsed;
      timeout = timeout;
      ended = ended;
      result = outcome.0;
    } in
    record {
      elapsed = ended;
      all_attempts = f.all_attempts ++ map (with_attempt_number attempt_number) outcome.0.attempts;
      all_urls = merge_attempt_urls f.all_urls outcome.0.attempted_urls;
      retry_trace = f.retry_trace;
      runs = run ∷ f.runs;
    }

-- A delay after which no run is made: it is too long, or ends after the budget.
abbrev pub is_skipped : FetchSettings → ℕ → ℕ → Bool
is_skipped s elapsed delay =
    ltb (retry_max s) delay || not (eqb s.retry_budget 0) && leb s.retry_budget (elapsed + delay)

abbrev skip : FetchSettings → ℕ → FetchResult → ℕ → Fetching → Fetching
skip s attempt_number result delay f = record f {
  retry_trace =
      f.retry_trace
      ++ retry_skipped_budget attempt_number (outcome_of result) delay (ltb (retry_max s) delay)
        ∷ [];
}

-- The entry of the trace, and the sleep, which takes no time without a delay.
abbrev wait : Surroundings → ℕ → FetchResult → ℕ → Fetching → Fetching
wait env attempt_number result delay f = record f {
  elapsed = f.elapsed + (if eqb delay 0 then 0 else delay + env.oversleep attempt_number);
  retry_trace =
      f.retry_trace
      ++ retry attempt_number (outcome_of result) delay (is_given result.retry_after_seconds) ∷ [];
}

module _ (s : FetchSettings) (env : Surroundings) (timeout : ℕ) where
  -- What follows a run: the end of the loop, or the next pass.
  unfoldable pub after_run :
      ℕ
      → (Option FetchResult → Fetching → Option FetchResult × Fetching)
      → FetchResult
      → Fetching
      → Option FetchResult × Fetching
  unfolding should_retry_fetch retry_delay_seconds
  after_run attempt_number again result f =
      let delay = retry_delay_seconds s env result attempt_number in
      if leb (fetch_max_attempts s) attempt_number || not (should_retry_fetch result)
      then (some result, f)
      else if is_skipped s f.elapsed delay
      then (some result, skip s attempt_number result delay f)
      else again (some result) (wait env attempt_number result delay f)

  -- The loop over the attempts that are left; `done` is the number of those made.
  unfoldable pub fetch_loop : ℕ → ℕ → Option FetchResult → Fetching → Option FetchResult × Fetching
  unfolding record_run after_run
  fetch_loop zero done last f = (last, f)
  fetch_loop (suc left) done last f =
      let attempt_number = done + 1 in
      let allowed = effective_timeout s timeout f.elapsed in
      let outcome = env.fetch_once attempt_number allowed in
      let after =
        after_run attempt_number (λ last' f'. fetch_loop left attempt_number last' f') outcome.0
          (record_run attempt_number allowed outcome f) in
      if ltb 1 attempt_number && leb s.retry_budget f.elapsed then (last, f) else after

abbrev retry_budget_exhausted : FetchResult
retry_budget_exhausted = record {
  status = "failed";
  text = "";
  error = "retry_budget_exhausted";
  failure_stage = "FETCH";
  failure_code = "TIMEOUT";
  http_status = none;
  retryable = true;
  retry_after_seconds = none;
  attempts = [];
  attempted_urls = [];
  retry_trace = [];
}

-- `all_urls or [url]`.
abbrev pub urls_or : String → List String → List String
urls_or url [] = url ∷ []
urls_or url (u ∷ us) = u ∷ us

abbrev pub fetch_result : String → Option FetchResult × Fetching → FetchResult
fetch_result url (none, f) = retry_budget_exhausted
fetch_result url (some result, f) = record result {
  attempts = f.all_attempts;
  attempted_urls = urls_or url f.all_urls;
  retry_trace = f.retry_trace;
}

-- The result, and the variables at the end of the loop.
unfoldable pub fetch_main_text : FetchSettings → Surroundings → String → ℕ → FetchResult × Fetching
unfolding fetch_loop
fetch_main_text s env url timeout =
    let start : Fetching = record {
      elapsed = 0;
      all_attempts = [];
      all_urls = [];
      retry_trace = [];
      runs = [];
    } in
    let (last, f) = fetch_loop s env timeout (fetch_max_attempts s) 0 none start in
    (fetch_result url (last, f), f)
