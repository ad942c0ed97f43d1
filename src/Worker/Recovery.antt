-- ===== src/Worker/Recovery.antt =====
-- A service that fails for a while.
use trust_news.Prelude.{
  sym, subst, ℕ, zero, suc, ◌+◌, ◌-◌, ◌*◌, ◌^◌, ◌≤◌, ◌<◌, ◌≡◌, refl, true, false, Option, none,
  some, [], arith, ltb, leb, eqb, if◌then◌else◌,
}
use trust_news.Worker.Circuit.{
  RetrySettings, max_attempts, budget, Circuit, Failure, is_retryable_error, circuit_is_open,
  record_success, body, failed, Exchange, Calling, CallResult, answered, after_reply, sleep,
  send_request, request_timeout, request_loop, request_evidence_search, retry_delay,
}

module _ {B : Type 0} (upstream : ℕ → ℕ → Exchange B) where
  -- The next `k` requests after `n` fail in a way that may pass, and the one after them is answered,
  -- whatever their timeouts.
  abbrev pub RecoversAfter : B → ℕ → ℕ → Type 0
  RecoversAfter b zero n = (timeout : ℕ) → (upstream (n + 1) timeout).reply ≡ body b
  RecoversAfter b (suc k) n =
      ((timeout : ℕ)
        → (f : Failure) × ((upstream (n + 1) timeout).reply ≡ failed f)
          × (is_retryable_error f ≡ true))
      × RecoversAfter b k (n + 1)

  -- No request takes longer than that, and other threads do not open the circuit meanwhile.
  pub record IsCalm (slowest : ℕ) : Type 0 where
    pub fast : (n timeout : ℕ) → (upstream n timeout).elapsed ≤ slowest
    pub quiet :
        (n timeout : ℕ) (c : Circuit) → ((upstream n timeout).others c).open_until ≤ c.open_until

-- What the `k` requests after `n`, and the pauses after them, take at most.
abbrev pub time_of_failures : RetrySettings → ℕ → ℕ → ℕ → ℕ
time_of_failures s slowest zero n = 0
time_of_failures s slowest (suc k) n =
    slowest + s.retry_base * 2 ^ n + time_of_failures s slowest k (n + 1)

retry_delay_bound :
    (s : RetrySettings) (deadline n now : ℕ)
    → retry_delay s deadline (n + 1) now ≤ s.retry_base * 2 ^ n
retry_delay_bound s deadline n now = let e : n + 1 - 1 ≡ n = omega arith in rw e (omega arith)

-- "request_recovery" of an answer to the request with that number.
abbrev pub recovery : ℕ → Option ℕ
recovery attempts = if ltb 1 attempts then some attempts else none

-- An answer to the request with a number, after which the circuit has no failures.
abbrev Answers : {B : Type 0} → B → ℕ → CallResult B × Calling → Type 0
Answers b attempts r =
    (r.0 ≡ answered b (recovery attempts)) × (r.1.circuit ≡ record { failures = 0; open_until = 0 })

module _ (s : RetrySettings) {B : Type 0} (upstream : ℕ → ℕ → Exchange B) (slowest : ℕ)
    (calm : IsCalm upstream slowest) (b : B) (deadline : ℕ) where
  request_loop-Answers :
      (k left n : ℕ) (last : Option Failure) (c : Calling)
      → k ≤ left
      → RecoversAfter upstream b k n
      → c.circuit.open_until ≤ c.now
      → c.now + time_of_failures s slowest k n < deadline
      → Answers b (n + suc k) (request_loop s upstream deadline (suc left) n last c)
  unfolding request_loop circuit_is_open after_reply record_success
  request_loop-Answers zero left n last c enough recovers closed early =
      let answer = recovers (request_timeout s deadline c) in
      let shut : ltb c.now c.circuit.open_until ≡ false = ground arith in
      let in_time : leb deadline c.now ≡ false = ground arith in
      rw (shut, in_time, answer) (refl, refl)
  request_loop-Answers (suc k) (suc left) n last c enough (fails, recovers) closed early =
      let timeout = request_timeout s deadline c in
      let (f, failing, may_retry) = fails timeout in
      let e = upstream (n + 1) timeout in
      let c' = sleep s deadline (n + 1) (send_request s timeout e c) in
      let shut : ltb c.now c.circuit.open_until ≡ false = ground arith in
      let in_time : leb deadline c.now ≡ false = ground arith in
      let quiet = calm.quiet (n + 1) timeout c.circuit in
      let again : eqb (suc left) 0 ≡ false = ground arith in
      let fast = calm.fast (n + 1) timeout in
      rw (shut, in_time, failing, may_retry, again)
        (subst (λ m. Answers b m (request_loop s upstream deadline (suc left) (n + 1) (some f) c'))
          (omega arith)
          (request_loop-Answers k left (n + 1) (some f) c' (omega arith) recovers
            (omega (arith, quiet))
            (omega (arith, fast, retry_delay_bound s deadline n (c.now + e.elapsed)))))
  request_loop-Answers (suc k) zero n last c enough recovers closed early = absurd (omega arith)

-- A failure that passes is recovered from: if the circuit is closed when a call begins and other
-- threads do not open it, the first requests fail in a way that may pass, the next one is answered,
-- there are as many requests as that and the failures with their pauses fit into the budget, then the
-- call returns the answer, says how many requests it took if more than one, and resets the circuit.
pub transient_failures_are_recovered :
    (s : RetrySettings) {B : Type 0} (upstream : ℕ → ℕ → Exchange B) (slowest : ℕ)
    (calm : IsCalm upstream slowest) (b : B) (k started_at : ℕ) (circuit : Circuit)
    → k < max_attempts s
    → RecoversAfter upstream b k 0
    → circuit.open_until ≤ started_at
    → time_of_failures s slowest k 0 < budget s
    → let r = request_evidence_search s upstream started_at circuit in
      (r.0 ≡ answered b (recovery (suc k)))
      × (r.1.circuit ≡ record { failures = 0; open_until = 0 })
unfolding request_evidence_search record_success
transient_failures_are_recovered s upstream slowest calm b k started_at circuit few recovers closed
      early =
    let deadline = started_at + budget s in
    let start : Calling = record { now = started_at; circuit = circuit; sent = [] } in
    let e : max_attempts s ≡ suc (max_attempts s - 1) = omega arith in
    subst (λ m. Answers b (suc k) (request_loop s upstream deadline m 0 none start)) (sym e)
      (subst
        (λ m.
          Answers b m (request_loop s upstream deadline (suc (max_attempts s - 1)) 0 none start))
        (omega arith)
        (request_loop-Answers s upstream slowest calm b deadline k (max_attempts s - 1) 0 none start
          (omega arith) recovers closed (omega arith)))
