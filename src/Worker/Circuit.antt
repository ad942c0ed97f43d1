-- ===== src/Worker/Circuit.antt =====
-- `request_evidence_search` of validate-asertions/main.py with its circuit breaker. Times are whole
-- numbers of a unit in which all settings are whole. The service that is called, with the time that
-- it takes and what other threads do to the circuit meanwhile, is a parameter.
use trust_news.Prelude.{
  ℕ, zero, suc, ◌+◌, ◌-◌, ◌*◌, ◌^◌, min, max, Bool, true, false, ◌||◌, not, Option, none, some,
  List, [], ◌∷◌, ltb, leb, eqb, if◌then◌else◌,
}

-- The settings as the environment states them.
pub record RetrySettings : Type 0 where
  pub timeout : ℕ
  pub stated_attempts : ℕ
  pub stated_budget : ℕ
  pub retry_base : ℕ
  pub stated_threshold : ℕ
  pub cooldown : ℕ

-- EVIDENCE_SEARCH_REQUEST_MAX_ATTEMPTS, _BUDGET_SECONDS and EVIDENCE_SEARCH_CIRCUIT_FAILURE_THRESHOLD.
abbrev pub max_attempts : RetrySettings → ℕ
max_attempts s = max 1 s.stated_attempts

abbrev pub budget : RetrySettings → ℕ
budget s = max s.timeout s.stated_budget

abbrev pub failure_threshold : RetrySettings → ℕ
failure_threshold s = max 1 s.stated_threshold

-- `_evidence_search_circuit`.
pub record Circuit : Type 0 where
  pub failures : ℕ
  pub open_until : ℕ

-- The exceptions of a request: a timeout, a network error, a response with an error status, or
-- another one, such as a body that is no object.
pub data Failure : Type 0 where
  timeout_error : Failure
  network_error : Failure
  status_error : ℕ → Failure
  other_error : Failure

unfoldable pub is_retryable_error : Failure → Bool
is_retryable_error timeout_error = true
is_retryable_error network_error = true
is_retryable_error (status_error code) = eqb code 408 || eqb code 429 || leb 500 code
is_retryable_error other_error = false

unfoldable pub circuit_is_open : Circuit → ℕ → Bool
circuit_is_open c now = ltb now c.open_until

unfoldable pub record_success : Circuit → Circuit
record_success c = record { failures = 0; open_until = 0 }

unfoldable pub record_failure : RetrySettings → ℕ → Circuit → Circuit
record_failure s now c =
    let failures = c.failures + 1 in
    record {
      failures = failures;
      open_until = if leb (failure_threshold s) failures then now + s.cooldown else c.open_until;
    }

pub data Reply (B : Type 0) : Type 0 where
  body : B → Reply B
  failed : Failure → Reply B

-- An HTTP request: how long it took, what came back, and what other threads did to the circuit.
pub record Exchange (B : Type 0) : Type 0 where
  pub elapsed : ℕ
  pub reply : Reply B
  pub others : Circuit → Circuit

pub record SentRequest : Type 0 where
  pub started : ℕ
  pub timeout : ℕ

-- The clock, the circuit and the requests so far, the last one first.
pub record Calling : Type 0 where
  pub now : ℕ
  pub circuit : Circuit
  pub sent : List SentRequest

-- How the call ends: with a body and its "request_recovery", with the exception of a request, with
-- EvidenceSearchCircuitOpenError, or with "Evidence Search request budget exhausted".
pub data CallResult (B : Type 0) : Type 0 where
  answered : B → Option ℕ → CallResult B
  raised : Failure → CallResult B
  circuit_open : CallResult B
  budget_exhausted : CallResult B

abbrev pub last_error : {B : Type 0} → Option Failure → CallResult B
last_error none = budget_exhausted
last_error (some f) = raised f

module _ (s : RetrySettings) where
  -- `min(BASE * 2 ** (attempts - 1), max(0, deadline - now))`.
  abbrev pub retry_delay : ℕ → ℕ → ℕ → ℕ
  retry_delay deadline attempts now = min (s.retry_base * 2 ^ (attempts - 1)) (deadline - now)

  abbrev pub sleep : ℕ → ℕ → Calling → Calling
  sleep deadline attempts c = record c { now = c.now + retry_delay deadline attempts c.now }

  -- `min(EVIDENCE_SEARCH_TIMEOUT_SECONDS, remaining)`.
  abbrev pub request_timeout : ℕ → Calling → ℕ
  request_timeout deadline c = min s.timeout (deadline - c.now)

module _ (s : RetrySettings) {B : Type 0} where
  -- What follows the loop.
  unfoldable pub give_up : Option Failure → Calling → CallResult B × Calling
  unfolding record_failure
  give_up last c = (last_error last, record c { circuit = record_failure s c.now c.circuit })

  -- What follows the request with the number `attempts`; `again` is the rest of the loop.
  unfoldable pub after_reply :
      ℕ
      → Bool
      → ℕ
      → (Option Failure → Calling → CallResult B × Calling)
      → Reply B
      → Calling
      → CallResult B × Calling
  unfolding record_success is_retryable_error give_up
  after_reply deadline is_last attempts again (body b) c = (
    answered b (if ltb 1 attempts then some attempts else none),
    record c { circuit = record_success c.circuit },
  )
  after_reply deadline is_last attempts again (failed f) c =
      if not (is_retryable_error f)
      then (raised f, c)
      else if is_last
      then give_up (some f) c
      else again (some f) (sleep s deadline attempts c)

  -- A request that is sent now, and the state after it.
  abbrev pub send_request : ℕ → Exchange B → Calling → Calling
  send_request timeout e c = record {
    now = c.now + e.elapsed;
    circuit = e.others c.circuit;
    sent = record { started = c.now; timeout = timeout } ∷ c.sent;
  }

  -- `upstream attempts timeout` is the request with that number and that timeout.
  module _ (upstream : ℕ → ℕ → Exchange B) (deadline : ℕ) where
    -- The loop: `left` attempts are left and `attempts` were made.
    unfoldable pub request_loop : ℕ → ℕ → Option Failure → Calling → CallResult B × Calling
    unfolding circuit_is_open give_up after_reply
    request_loop zero attempts last c = give_up last c
    request_loop (suc left) attempts last c =
        let timeout = request_timeout s deadline c in
        let e = upstream (attempts + 1) timeout in
        let after =
          after_reply deadline (eqb left 0) (attempts + 1)
            (λ last' c'. request_loop left (attempts + 1) last' c') e.reply
            (send_request timeout e c) in
        if circuit_is_open c.circuit c.now
        then (circuit_open, c)
        else if leb deadline c.now
        then give_up last c
        else after

  unfoldable pub request_evidence_search :
      (ℕ → ℕ → Exchange B) → ℕ → Circuit → CallResult B × Calling
  unfolding request_loop
  request_evidence_search upstream started_at circuit =
      request_loop upstream (started_at + budget s) (max_attempts s) 0 none
        (record { now = started_at; circuit = circuit; sent = [] })
