-- ===== src/Fetching/Attempts.antt =====
-- The runs of one fetch and its budget.
use trust_news.Prelude.{
  ℕ, zero, suc, ◌+◌, ◌≤◌, ◌<◌, ◌≡◌, ◌⊎◌, refl, ap, ◌∙◌, ◌++◌, map, Bool, true, false, String,
  Option, none, some, List, [], ◌∷◌, arith, length, not, ◌&&◌, ◌||◌, leb, ltb, All, if-both,
  if-given,
}
use trust_news.Fetching.Outcomes.{
  FetchAttempt, FetchResult, IsTransient, should_retry_fetch, should_retry_fetch-IsTransient,
  RetryAction,
}
use trust_news.Fetching.Retries.{
  FetchSettings, fetch_max_attempts, Run, Surroundings, Fetching, retry_delay_seconds, record_run,
  is_skipped, after_run, effective_timeout, fetch_loop, fetch_result, fetch_main_text,
}

-- A run whose timeout ends within the budget; a budget of zero is none.
abbrev pub IsInBudget : FetchSettings → Run → Type 0
IsInBudget s r = (s.retry_budget ≡ 0) ⊎ (r.started + r.timeout ≤ s.retry_budget)

-- What a run comes after: nothing, or a transient failure that has ended, with time left.
abbrev pub Follows : FetchSettings → ℕ → List Run → Type 0
Follows s started [] = started ≡ 0
Follows s started (q ∷ rest) =
    IsTransient q.result × (q.ended ≤ started) × (started < s.retry_budget)

abbrev pub AreRetries : FetchSettings → List Run → Type 0
AreRetries s [] = Unit
AreRetries s (r ∷ rest) = Follows s r.started rest × AreRetries s rest

abbrev pub last_result : List Run → Option FetchResult
last_result [] = none
last_result (r ∷ rest) = some r.result

abbrev made_in : ℕ → FetchAttempt → FetchAttempt
made_in n attempt = record attempt { attempt_number = some n }

-- The attempts of all runs, from the first run on, each with the number of its run.
abbrev pub numbered_attempts : List Run → List FetchAttempt
numbered_attempts [] = []
numbered_attempts (r ∷ rest) =
    numbered_attempts rest ++ map (made_in (suc (length rest))) r.result.attempts

-- From one to all allowed runs, each in the budget and after a transient failure.
abbrev pub AreBounded : FetchSettings → List Run → Type 0
AreBounded s runs =
    (1 ≤ length runs)
    × (length runs ≤ fetch_max_attempts s)
    × All (IsInBudget s) runs
    × AreRetries s runs

-- A loop that ends with the last run's result and the attempts of all runs.
abbrev EndsBounded : FetchSettings → Option FetchResult × Fetching → Type 0
EndsBounded s o =
    (o.0 ≡ last_result o.1.runs)
    × (o.1.all_attempts ≡ numbered_attempts o.1.runs)
    × AreBounded s o.1.runs

-- What the next pass may begin with.
abbrev MayFollow : ℕ → List Run → Type 0
MayFollow elapsed [] = elapsed ≡ 0
MayFollow elapsed (q ∷ rest) = IsTransient q.result × (q.ended ≤ elapsed)

not_stopped : (a b : Bool) → (a || not b) ≡ false → b ≡ true
not_stopped a b h = ground arith

module _ (s : FetchSettings) where
  MayFollow-Follows :
      (done elapsed : ℕ) (runs : List Run)
      → length runs ≡ done
      → MayFollow elapsed runs
      → (ltb 1 (done + 1) && leb s.retry_budget elapsed) ≡ false
      → Follows s elapsed runs
  MayFollow-Follows done elapsed [] n m h = m
  MayFollow-Follows done elapsed (q ∷ rest) n (t, e) h = (t, e, ground (arith, n))

  timeout-IsInBudget :
      (timeout elapsed : ℕ) (runs : List Run)
      → Follows s elapsed runs
      → (s.retry_budget ≡ 0) ⊎ (elapsed + effective_timeout s timeout elapsed ≤ s.retry_budget)
  timeout-IsInBudget timeout elapsed [] h = ground arith
  timeout-IsInBudget timeout elapsed (q ∷ rest) (_, _, h) = ground arith

  module _ (env : Surroundings) (timeout : ℕ) where
    after_run-EndsBounded :
        (attempt_number : ℕ) (again : Option FetchResult → Fetching → Option FetchResult × Fetching)
        (r : FetchResult) (f : Fetching)
        → EndsBounded s (some r, f)
        → ((elapsed : ℕ) (trace : List RetryAction)
            → f.elapsed ≤ elapsed
            → should_retry_fetch r ≡ true
            → EndsBounded s (again (some r) (record f { elapsed = elapsed; retry_trace = trace })))
        → EndsBounded s (after_run s env timeout attempt_number again r f)
    unfolding after_run
    after_run-EndsBounded attempt_number again r f h rest =
        if-given (EndsBounded s)
          (leb (fetch_max_attempts s) attempt_number || not (should_retry_fetch r)) (λ _. h)
          (λ goes_on.
            if-both (EndsBounded s)
              (is_skipped s f.elapsed (retry_delay_seconds s env r attempt_number)) h
              (rest _ _ (omega arith) (
                not_stopped (leb (fetch_max_attempts s) attempt_number) (should_retry_fetch r)
                  goes_on)))

    fetch_loop-EndsBounded :
        (left done : ℕ) (f : Fetching)
        → left + done ≡ fetch_max_attempts s
        → length f.runs ≡ done
        → f.all_attempts ≡ numbered_attempts f.runs
        → All (IsInBudget s) f.runs
        → AreRetries s f.runs
        → MayFollow f.elapsed f.runs
        → EndsBounded s (fetch_loop s env timeout left done (last_result f.runs) f)
    unfolding fetch_loop record_run
    fetch_loop-EndsBounded zero done f total n all b a m =
        (refl, all, (omega arith, omega arith, b, a))
    fetch_loop-EndsBounded (suc left) done f total n all b a m =
        if-given (EndsBounded s) (ltb 1 (done + 1) && leb s.retry_budget f.elapsed)
          (λ stops. (refl, all, (ground arith, omega arith, b, a)))
          (λ goes_on.
            let follows = MayFollow-Follows done f.elapsed f.runs n m goes_on in
            let in_budget = timeout-IsInBudget timeout f.elapsed f.runs follows in
            let allowed = effective_timeout s timeout f.elapsed in
            let outcome = env.fetch_once (done + 1) allowed in
            let now = record_run (done + 1) allowed outcome f in
            let number : done + 1 ≡ suc (length f.runs) = omega (arith, n) in
            let listed : now.all_attempts ≡ numbered_attempts now.runs =
              ap (λ l. l ++ map (made_in (done + 1)) outcome.0.attempts) all
              ∙ ap (λ k. numbered_attempts f.runs ++ map (made_in k) outcome.0.attempts) number in
            after_run-EndsBounded (done + 1)
              (λ last' f'. fetch_loop s env timeout left (done + 1) last' f') outcome.0 now
              (refl, listed, (omega arith, omega arith, (in_budget, b), (follows, a)))
              (λ elapsed trace later transient.
                fetch_loop-EndsBounded left (done + 1)
                  (record now { elapsed = elapsed; retry_trace = trace }) (omega arith)
                  (omega arith) listed (in_budget, b) (follows, a)
                  (should_retry_fetch-IsTransient outcome.0 transient, later)))

fetch_result-attempts :
    (url : String) (f : Fetching) (runs : List Run)
    → 1 ≤ length runs
    → (fetch_result url (last_result runs, f)).attempts ≡ f.all_attempts
fetch_result-attempts url f [] h = absurd (omega arith)
fetch_result-attempts url f (r ∷ rest) h = refl

-- A fetch makes at least one run of _fetch_main_text_once and at most the allowed number. The timeout
-- that a run is given ends within the budget, unless that is zero. Each run but the first follows a
-- transient failure, after it has ended and before the budget is used up. The result is the last
-- run's, with the attempts of all runs in order, each with the number of its run.
pub fetch_main_text-AreBounded :
    (s : FetchSettings) (env : Surroundings) (url : String) (timeout : ℕ)
    → let (result, f) = fetch_main_text s env url timeout in
      AreBounded s f.runs
      × (result.attempts ≡ numbered_attempts f.runs)
      × (result ≡ fetch_result url (last_result f.runs, f))
unfolding fetch_main_text
fetch_main_text-AreBounded s env url timeout =
    let f = (fetch_main_text s env url timeout).1 in
    let (last, listed, bounded) =
      fetch_loop-EndsBounded s env timeout (fetch_max_attempts s) 0
        (record { elapsed = 0; all_attempts = []; all_urls = []; retry_trace = []; runs = [] })
        (omega arith) refl refl tt tt refl in
    let same = ap (λ l. fetch_result url (l, f)) last in
    (
      bounded,
      ap (λ r. r.attempts) same ∙ fetch_result-attempts url f f.runs bounded.0 ∙ listed,
      same,
    )
