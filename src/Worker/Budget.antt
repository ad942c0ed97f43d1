-- ===== src/Worker/Budget.antt =====
-- The requests of one call and its budget.
use trust_news.Prelude.{
  ℕ, zero, suc, ◌+◌, ◌≤◌, ◌<◌, ◌≡◌, refl, ap, Bool, Option, none, some, [], arith, length, not, leb,
  eqb, All, if-both, Bool-cases, inl, inr,
}
use trust_news.Worker.Circuit.{
  RetrySettings, max_attempts, budget, Circuit, Failure, is_retryable_error, circuit_is_open, Reply,
  body, failed, Exchange, SentRequest, Calling, CallResult, give_up, after_reply, sleep,
  send_request, request_timeout, request_loop, request_evidence_search,
}

-- A request that is sent before the deadline and may take the time up to it at most.
abbrev pub IsInTime : RetrySettings → ℕ → SentRequest → Type 0
IsInTime s deadline a =
    (a.started < deadline) × (a.started + a.timeout ≤ deadline) × (a.timeout ≤ s.timeout)

module _ (s : RetrySettings) {B : Type 0} where
  -- So many requests at most, all in time.
  abbrev pub AreInTime : ℕ → ℕ → CallResult B × Calling → Type 0
  AreInTime deadline most r = All (IsInTime s deadline) r.1.sent × (length r.1.sent ≤ most)

  module _ (upstream : ℕ → ℕ → Exchange B) (deadline : ℕ) where
    after_reply-AreInTime :
        (most : ℕ) (is_last : Bool) (attempts : ℕ)
        (again : Option Failure → Calling → CallResult B × Calling) (r : Reply B) (c : Calling)
        → All (IsInTime s deadline) c.sent
        → length c.sent ≤ most
        → ((last : Option Failure) (now : Calling)
            → All (IsInTime s deadline) now.sent
            → now.sent ≡ c.sent
            → AreInTime deadline most (again last now))
        → AreInTime deadline most (after_reply s deadline is_last attempts again r c)
    unfolding after_reply give_up
    after_reply-AreInTime most is_last attempts again (body b) c h few rest = (h, few)
    after_reply-AreInTime most is_last attempts again (failed f) c h few rest =
        if-both (AreInTime deadline most) (not (is_retryable_error f)) (h, few)
          (if-both (AreInTime deadline most) is_last (h, few)
            (rest (some f) (sleep s deadline attempts c) h refl))

    request_loop-AreInTime :
        (left attempts : ℕ) (last : Option Failure) (c : Calling)
        → All (IsInTime s deadline) c.sent
        → AreInTime deadline
            (left + length c.sent)
            (request_loop s upstream deadline left attempts last c)
    unfolding request_loop give_up
    request_loop-AreInTime zero attempts last c h = (h, omega arith)
    request_loop-AreInTime (suc left) attempts last c h =
        let most = suc left + length c.sent in
        let timeout = request_timeout s deadline c in
        let e = upstream (attempts + 1) timeout in
        if-both (AreInTime deadline most) (circuit_is_open c.circuit c.now) (h, omega arith)
          (elim (Bool-cases (leb deadline c.now)) [
            | inl late ↦ rw late (h, omega arith)
            | inr open_still ↦
                let early : c.now < deadline = ground arith in
                rw open_still (
                  after_reply-AreInTime most (eqb left 0) (attempts + 1)
                    (λ last' c'. request_loop s upstream deadline left (attempts + 1) last' c')
                    e.reply (send_request s timeout e c) ((early, omega arith, omega arith), h)
                    (omega arith)
                    (λ last' c' h' same.
                      let (in_time, few) = request_loop-AreInTime left (attempts + 1) last' c' h' in
                      (in_time, omega (arith, few, ap length same))))
          ])

-- A call sends at most the allowed number of requests; each is sent before the call's budget is
-- used up, with a timeout that ends within the budget and is no longer than the one of a request.
pub requests_stay_within_budget :
    (s : RetrySettings) {B : Type 0} (upstream : ℕ → ℕ → Exchange B) (started_at : ℕ)
    (circuit : Circuit)
    → AreInTime s
        (started_at + budget s)
        (max_attempts s)
        (request_evidence_search s upstream started_at circuit)
unfolding request_evidence_search
requests_stay_within_budget s upstream started_at circuit =
    let (in_time, few) =
      request_loop-AreInTime s upstream (started_at + budget s) (max_attempts s) 0 none
        (record { now = started_at; circuit = circuit; sent = [] }) tt in
    (in_time, omega (arith, few))
