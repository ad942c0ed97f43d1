-- ===== src/Fetching/Redirects.antt =====
-- `_get_following_validated_redirects` of document_fetcher.py.
use trust_news.Prelude.{
  ℕ, zero, suc, ◌+◌, String, Bool, true, false, not, ◌&&◌, Option, none, some, List, [], ◌∷◌, ◌++◌,
  ◌==◌, if◌then◌else◌,
}
use trust_news.Prelude.Dict.{is_member}
use trust_news.Fetching.Net.{
  Net, Reason, redirect_loop, redirect_missing_location, redirect_limit_exceeded,
  redirect_https_downgrade, document_too_large, is_https, validate_fetch_url,
}
use trust_news.Fetching.Body.{Wire, Response, Read, response, too_large, is_redirect, bounded_get}

-- The outcome of an attempt: a reason, or a redirect that was followed.
pub record Attempt : Type 0 where
  pub url : String
  pub http_status : Option ℕ
  pub redirect_to : Option String
  pub outcome : Option Reason

-- The loop's variables: the URLs requested so far, the last one first, and the two lists that it
-- extends.
pub record Trace : Type 0 where
  pub visited : List String
  pub attempted_urls : List String
  pub attempts : List Attempt

pub data Result : Type 0 where
  fetched : Response → Result
  refused : Reason → Result

abbrev refusal : String → Option ℕ → Reason → Attempt
refusal url status reason = record {
  url = url;
  http_status = status;
  redirect_to = none;
  outcome = some reason;
}

unfoldable pub stop : String → Option ℕ → Reason → Trace → Result × Trace
stop url status reason t =
    (refused reason, record t { attempts = t.attempts ++ refusal url status reason ∷ [] })

unfoldable pub visit : String → Trace → Trace
visit url t = record t { visited = url ∷ t.visited }

unfoldable pub redirected : String → ℕ → String → Trace → Trace
redirected current status target t = record t {
  attempted_urls = t.attempted_urls ++ target ∷ [];
  attempts =
      t.attempts
      ++ record {
        url = current;
        http_status = some status;
        redirect_to = some target;
        outcome = none;
      }
        ∷ [];
}

abbrev pub max_redirects : ℕ
max_redirects = 5

-- A round ends the loop, or goes on with a target.
pub data Step : Type 0 where
  done : Result × Trace → Step
  go_on : String → Trace → Step

unfoldable pub target_step : String → ℕ → String → Option Reason → Trace → Step
unfolding stop redirected
target_step current status target (some reason) t = done (stop target (some status) reason t)
target_step current status target none t = go_on target (redirected current status target t)

-- The loop after a round.
abbrev pub resume : (String → Trace → Result × Trace) → Step → Result × Trace
resume next (done r) = r
resume next (go_on target t) = next target t

-- `get` is what the server answers to a request at a moment. `left` is MAX_REDIRECTS less the
-- redirects that were followed, and each round has two moments: one for the check of its URL and
-- the request, and one for the check of the target.
module _ (net : Net) (max_document_bytes : ℕ) (get : ℕ → String → Wire) where
  -- The check of a target, up to the decision to follow it.
  unfoldable pub refuse_target : ℕ → String → String → Option Reason
  unfolding validate_fetch_url
  refuse_target moment current target = elim (validate_fetch_url net moment target) [
    | some reason ↦ some reason
    | none ↦
        if is_https net (net.parse current) && not (is_https net (net.parse target))
        then some redirect_https_downgrade
        else none
  ]

  abbrev target_of : String → Option String → Option String
  target_of current none = none
  target_of current (some location) =
      if location == "" then none else some (net.join current location)

  -- A response that redirects, with its target if it names one.
  unfoldable pub redirect_step :
      (may_follow : Bool) → (moment : ℕ) → String → ℕ → Option String → Trace → Step
  unfolding stop target_step
  redirect_step may_follow moment current status none t =
      done (stop current (some status) redirect_missing_location t)
  redirect_step may_follow moment current status (some target) t =
      if not may_follow
      then done (stop current (some status) redirect_limit_exceeded t)
      else target_step current status target (refuse_target moment current target) t

  unfoldable pub read_step : (may_follow : Bool) → (moment : ℕ) → String → Read → Trace → Step
  unfolding redirect_step refuse_target stop
  read_step may_follow moment current (too_large status) t =
      done (stop current (some status) document_too_large t)
  read_step may_follow moment current (response r) t =
      if not (is_redirect r.status_code)
      then done (fetched r, t)
      else redirect_step may_follow (moment + 1) current r.status_code
          (target_of current r.location) t

  -- One round of the loop.
  unfoldable pub checked_step :
      (may_follow : Bool) → (moment : ℕ) → String → Option Reason → Trace → Step
  unfolding read_step bounded_get visit stop is_member
  checked_step may_follow moment current (some reason) t = done (stop current none reason t)
  checked_step may_follow moment current none t =
      if is_member current t.visited
      then done (stop current none redirect_loop t)
      else read_step may_follow moment current (bounded_get max_document_bytes (get moment current))
          (visit current t)

  unfoldable pub round : (may_follow : Bool) → (moment : ℕ) → String → Trace → Step
  unfolding checked_step validate_fetch_url
  round may_follow moment current t =
      checked_step may_follow moment current (validate_fetch_url net moment current) t

  -- Without redirects left, every round is the last.
  abbrev pub last : Step → Result × Trace
  last (done r) = r
  last (go_on target t) = (refused redirect_limit_exceeded, t)

  unfoldable pub follow : (left moment : ℕ) → String → Trace → Result × Trace
  unfolding round
  follow zero moment current t = last (round false moment current t)
  follow (suc left) moment current t =
      resume (λ target t'. follow left (moment + 2) target t') (round true moment current t)

  unfoldable pub get_following_validated_redirects :
      String → List String → List Attempt → Result × Trace
  unfolding follow
  get_following_validated_redirects url attempted_urls attempts =
      follow max_redirects 0 url
        (record { visited = []; attempted_urls = attempted_urls; attempts = attempts })
