-- ===== src/Worker/Opening.antt =====
-- When the circuit of Evidence Search is open, after a sequence of calls.
use trust_news.Prelude.{
  ℕ, zero, suc, ◌+◌, ◌<◌, ◌≡◌, refl, ◌∙◌, ap, Bool, true, ◌&&◌, Option, none, some, List, [], ◌∷◌,
  arith, ltb, leb, eqb, if-given, Bool-cases, inl, inr, if◌then◌else◌,
}
use trust_news.Worker.Circuit.{
  RetrySettings, max_attempts, budget, failure_threshold, Circuit, Failure, is_retryable_error,
  circuit_is_open, record_success, record_failure, Reply, body, failed, Exchange, Calling,
  CallResult, answered, raised, circuit_open, budget_exhausted, give_up, after_reply, send_request,
  request_timeout, request_loop, request_evidence_search,
}

-- What a call says of the service: it answers, or it fails at some time in a way that may pass.
pub data CallEvent : Type 0 where
  success : CallEvent
  failure : ℕ → CallEvent

-- The failures at the head of a history.
abbrev pub failures_in_row : List CallEvent → ℕ
failures_in_row [] = 0
failures_in_row (success ∷ past) = 0
failures_in_row (failure now ∷ past) = suc (failures_in_row past)

abbrev pub last_time : List CallEvent → ℕ
last_time [] = 0
last_time (success ∷ past) = 0
last_time (failure now ∷ past) = now

-- The event of a call, before those of a history, by what the call returned or raised: an error that
-- cannot pass and a call that the open circuit refused are none.
abbrev pub with_event : {B : Type 0} → CallResult B → ℕ → List CallEvent → List CallEvent
with_event (answered b recovery) now past = success ∷ past
with_event (raised f) now past = if is_retryable_error f then failure now ∷ past else past
with_event circuit_open now past = past
with_event budget_exhausted now past = failure now ∷ past

-- The error of an earlier attempt of a call is one that may pass.
abbrev MayPass : Option Failure → Type 0
MayPass none = Unit
MayPass (some f) = is_retryable_error f ≡ true

module _ (s : RetrySettings) where
  -- The circuit after a history, whose last event stands first.
  circuit_after : List CallEvent → Circuit
  unfolding record_success record_failure
  circuit_after [] = record { failures = 0; open_until = 0 }
  circuit_after (success ∷ past) = record_success (circuit_after past)
  circuit_after (failure now ∷ past) = record_failure s now (circuit_after past)

  failures-circuit_after :
      (past : List CallEvent) → (circuit_after past).failures ≡ failures_in_row past
  unfolding circuit_after
  failures-circuit_after [] = refl
  failures-circuit_after (success ∷ past) = refl
  failures-circuit_after (failure now ∷ past) = omega (arith, failures-circuit_after past)

  closed_below :
      (past : List CallEvent)
      → failures_in_row past < failure_threshold s
      → (circuit_after past).open_until ≡ 0
  unfolding circuit_after
  closed_below [] h = refl
  closed_below (success ∷ past) h = refl
  closed_below (failure now ∷ past) h =
      ground (arith, failures-circuit_after past, closed_below past)

  open_after :
      (past : List CallEvent) (now : ℕ)
      → circuit_is_open (circuit_after past) now ≡ (
          leb (failure_threshold s) (failures_in_row past) && ltb now (last_time past + s.cooldown))
  unfolding circuit_is_open circuit_after
  open_after [] now = ground arith
  open_after (success ∷ past) now = ground arith
  open_after (failure u ∷ past) now = ground (arith, failures-circuit_after past, closed_below past)

  give_up-Agrees :
      (B : Type 0) (past : List CallEvent) (last : Option Failure) (c : Calling)
      → MayPass last
      → c.circuit ≡ circuit_after past
      → let r = give_up s {B = B} last c in
        r.1.circuit ≡ circuit_after (with_event r.0 r.1.now past)
  unfolding give_up circuit_after
  give_up-Agrees B past none c h e = ap (record_failure s c.now) e
  give_up-Agrees B past (some f) c h e = rw h (ap (record_failure s c.now) e)

  module _ {B : Type 0} where
    -- The circuit after a call is the one after its event.
    abbrev Agrees : List CallEvent → CallResult B × Calling → Type 0
    Agrees past r = r.1.circuit ≡ circuit_after (with_event r.0 r.1.now past)

    after_reply-Agrees :
        (past : List CallEvent) (deadline : ℕ) (is_last : Bool) (attempts : ℕ)
        (again : Option Failure → Calling → CallResult B × Calling) (r : Reply B) (c : Calling)
        → c.circuit ≡ circuit_after past
        → ((f : Failure) (now : ℕ)
            → is_retryable_error f ≡ true
            → Agrees past (again (some f) (record c { now = now })))
        → Agrees past (after_reply s deadline is_last attempts again r c)
    unfolding after_reply circuit_after
    after_reply-Agrees past deadline is_last attempts again (body b) c e rest = ap record_success e
    after_reply-Agrees past deadline is_last attempts again (failed f) c e rest =
        elim (Bool-cases (is_retryable_error f)) [
          | inr final ↦ rw (final, final) e
          | inl passes ↦ rw passes (
              if-given (Agrees past) is_last (λ _. give_up-Agrees B past (some f) c passes e)
                (λ _. rest f _ passes))
        ]

    module _ (upstream : ℕ → ℕ → Exchange B)
        (quiet : (n timeout : ℕ) (c : Circuit) → (upstream n timeout).others c ≡ c) where
      request_loop-Agrees :
          (past : List CallEvent) (deadline left attempts : ℕ) (last : Option Failure) (c : Calling)
          → MayPass last
          → c.circuit ≡ circuit_after past
          → Agrees past (request_loop s upstream deadline left attempts last c)
      unfolding request_loop
      request_loop-Agrees past deadline zero attempts last c h e = give_up-Agrees B past last c h e
      request_loop-Agrees past deadline (suc left) attempts last c h e =
          let timeout = request_timeout s deadline c in
          let x = upstream (attempts + 1) timeout in
          if-given (Agrees past) (circuit_is_open c.circuit c.now) (λ _. e)
            (λ _.
              if-given (Agrees past) (leb deadline c.now) (λ _. give_up-Agrees B past last c h e)
                (λ _.
                  after_reply-Agrees past deadline (eqb left 0) (attempts + 1)
                    (λ last' c'. request_loop s upstream deadline left (attempts + 1) last' c')
                    x.reply (send_request s timeout x c)
                    (quiet (attempts + 1) timeout c.circuit ∙ e)
                    (λ f now passes.
                      request_loop-Agrees past deadline left (attempts + 1) (some f)
                        (record (send_request s timeout x c) { now = now }) passes
                        (quiet (attempts + 1) timeout c.circuit ∙ e))))

-- A call, by the time it starts and what the service does.
pub record Call (B : Type 0) : Type 0 where
  pub started_at : ℕ
  pub upstream : ℕ → ℕ → Exchange B
  pub quiet : (n timeout : ℕ) (c : Circuit) → (upstream n timeout).others c ≡ c

module _ (s : RetrySettings) {B : Type 0} where
  -- The circuit and the history after calls, of which the last one stands first.
  abbrev pub after_calls : List (Call B) → Circuit × List CallEvent
  after_calls [] = (record { failures = 0; open_until = 0 }, [])
  after_calls (call ∷ earlier) =
      let (circuit, past) = after_calls earlier in
      let (result, c) = request_evidence_search s call.upstream call.started_at circuit in
      (c.circuit, with_event result c.now past)

  after_calls-agree :
      (calls : List (Call B)) → (after_calls calls).0 ≡ circuit_after s (after_calls calls).1
  unfolding circuit_after request_evidence_search
  after_calls-agree [] = refl
  after_calls-agree (call ∷ earlier) =
      request_loop-Agrees s call.upstream call.quiet (after_calls earlier).1
        (call.started_at + budget s) (max_attempts s) 0 none
        (record { now = call.started_at; circuit = (after_calls earlier).0; sent = [] }) tt
        (after_calls-agree earlier)

  -- After any calls of request_evidence_search, one after the other and with no other thread at the
  -- circuit, the circuit is open at a time exactly if the last ones ended in a failure that may pass,
  -- as many as the threshold or more, and the last of these did so less than a cooldown ago. Calls
  -- that raised an error that cannot pass, and those that the open circuit refused, do not count,
  -- neither as a failure nor as an answer.
  pub circuit_opens_after_failures :
      (calls : List (Call B)) (now : ℕ)
      → let (circuit, past) = after_calls calls in
        circuit_is_open circuit now ≡ (
          leb (failure_threshold s) (failures_in_row past) && ltb now (last_time past + s.cooldown))
  circuit_opens_after_failures calls now =
      ap (λ c. circuit_is_open c now) (after_calls-agree calls)
      ∙ open_after s (after_calls calls).1 now
