-- ===== src/Gateway/Security.antt =====
-- RequestSecurityMiddleware of api/gateway/security.py.
use trust_news.Prelude.{
  ascii_prefix, ℕ, zero, suc, ◌+◌, String, Bool, false, not, ◌&&◌, ◌||◌, Option, none, some, List,
  [], ◌∷◌, ◌++◌, map, ◌==◌, codes, any, leb, ltb, eqb, length, lower_is, int_of_text, if◌then◌else◌,
}
use trust_news.Prelude.Int.{ℤ, pos, negsuc}

-- An ASGI message to the application: a part of the body, or any other, such as a disconnect.
pub data Received : Type 0 where
  request : (body : List ℕ) → (more_body : Bool) → Received
  other : (type : String) → Received

abbrev pub Headers : Type 0
Headers = List (String × String)

-- A message of the application: the start of a response, or any other.
pub data Sent : Type 0 where
  response_start : (status : ℕ) → Headers → Sent
  rest : String → Sent

pub record Scope : Type 0 where
  pub type : String
  pub method : String
  pub path : String
  pub headers : Headers

pub data Level : Type 0 where
  info : Level
  warning : Level
  error : Level

-- One access event.
pub record Access : Type 0 where
  pub level : Level
  pub request_id : String
  pub method : String
  pub path : String
  pub status : ℕ
  pub body_bytes : ℕ

-- What the application does with the messages that it receives: what it sends, and whether it
-- raises in the end.
pub record Served : Type 0 where
  pub sent : List Sent
  pub raised : Bool

-- What a call comes to. `served` is what the application received, if it was called; a call that
-- waits for a client that sends nothing more has no end.
pub record Outcome : Type 1 where
  pub served : Option (ℕ → Received)
  pub sent : List Sent
  pub logged : List Access

abbrev non_negative : Option ℤ → Option ℕ
non_negative none = none
non_negative (some (pos n)) = some n
non_negative (some (negsuc n)) = none

-- `_content_length`: the first header of that name decides.
unfoldable pub content_length : Headers → Option ℕ
unfolding lower_is int_of_text
content_length [] = none
content_length ((name, value) ∷ more) =
    let later = content_length more in
    if lower_is name "content-length" then non_negative (int_of_text value) else later

abbrev is_id_code : ℕ → Bool
is_id_code c =
    leb b'0' c && leb c b'9'
    || leb b'A' c && leb c b'Z'
    || leb b'a' c && leb c b'z'
    || eqb c b'-'
    || eqb c b'_'
    || eqb c b'.'

-- `_request_id`: the first header of that name whose text is well formed, or else a new one.
unfoldable pub request_id_of : (fresh : String) → Headers → String
unfolding lower_is ascii_prefix
request_id_of fresh [] = fresh
request_id_of fresh ((name, value) ∷ more) =
    let later = request_id_of fresh more in
    let candidate = ascii_prefix 128 value in
    if lower_is name "x-request-id"
      && not (candidate == "")
      && not (any (λ c. not (is_id_code c)) (codes candidate))
    then candidate
    else later

abbrev is_relevant : ℕ → Bool
is_relevant s = eqb s 401 || eqb s 403 || eqb s 405 || eqb s 413 || eqb s 429

-- `_log_request`.
unfoldable pub log_request : Scope → ℕ → String → ℕ → Access
log_request scope status request_id body_bytes = record {
  level = if leb 500 status then error else if is_relevant status then warning else info;
  request_id = request_id;
  method = scope.method;
  path = scope.path;
  status = status;
  body_bytes = body_bytes;
}

-- `_reject_too_large`.
unfoldable pub reject_too_large : Scope → String → ℕ → Outcome
unfolding log_request
reject_too_large scope request_id body_bytes = record {
  served = none;
  sent =
      response_start 413 (("x-request-id", request_id) ∷ []) ∷ rest "Request body too large" ∷ [];
  logged = log_request scope 413 request_id body_bytes ∷ [];
}

-- What the loop over `receive` ends with; `waiting` where the client sends nothing more.
pub data Buffer : Type 0 where
  too_large : (body_bytes : ℕ) → Buffer
  ready : List Received → (body_bytes : ℕ) → Buffer
  waiting : Buffer

unfoldable pub buffer_messages :
    (limit : ℕ) → List Received → (body_bytes : ℕ) → List Received → Buffer
buffer_messages limit buffered body_bytes [] = waiting
buffer_messages limit buffered body_bytes (other type ∷ more) =
    ready (buffered ++ other type ∷ []) body_bytes
buffer_messages limit buffered body_bytes (request body more_body ∷ more) =
    let n = body_bytes + length body in
    let now = buffered ++ request body more_body ∷ [] in
    let next = buffer_messages limit now n more in
    if ltb limit n then too_large n else if more_body then next else ready now n

-- `replay_receive`, at its first call, its second, and so on.
unfoldable pub replay_receive : List Received → ℕ → Received
replay_receive [] i = request [] false
replay_receive (m ∷ more) zero = m
replay_receive (m ∷ more) (suc i) = replay_receive more i

abbrev pub has_request_id : Headers → Bool
has_request_id = any (λ h. lower_is h.0 "x-request-id")

-- `send_with_request_id`.
unfoldable pub send_with_request_id : String → Sent → Sent
unfolding lower_is
send_with_request_id request_id (rest m) = rest m
send_with_request_id request_id (response_start status headers) =
    response_start status
      (if has_request_id headers then headers else headers ++ ("x-request-id", request_id) ∷ [])

-- `status_code` after the messages: that of the last start, or 500.
unfoldable pub status_after : ℕ → List Sent → ℕ
status_after status [] = status
status_after status (rest m ∷ more) = status_after status more
status_after status (response_start s headers ∷ more) = status_after s more

unfoldable pub serve : ((ℕ → Received) → Served) → Scope → String → ℕ → List Received → Outcome
unfolding send_with_request_id status_after log_request replay_receive
serve app scope request_id body_bytes buffered =
    let s = app (replay_receive buffered) in
    record {
      served = some (replay_receive buffered);
      sent = map (send_with_request_id request_id) s.sent;
      logged =
          log_request scope (if s.raised then 500 else status_after 500 s.sent) request_id
            body_bytes
          ∷ [];
    }

abbrev pub exceeds : Option ℕ → ℕ → Bool
exceeds none limit = false
exceeds (some n) limit = ltb limit n

abbrev pub length_or_zero : Option ℕ → ℕ
length_or_zero none = 0
length_or_zero (some n) = n

unfoldable pub after_buffer : ((ℕ → Received) → Served) → Scope → String → Buffer → Outcome
unfolding serve reject_too_large
after_buffer app scope request_id (too_large n) = reject_too_large scope request_id n
after_buffer app scope request_id (ready buffered n) = serve app scope request_id n buffered
after_buffer app scope request_id waiting = record { served = none; sent = []; logged = [] }

-- `__call__` for a scope of type "http"; any other scope goes to the application as it is.
unfoldable pub call :
    (limit : ℕ) → (fresh : String) → ((ℕ → Received) → Served) → Scope → List Received → Outcome
unfolding content_length request_id_of reject_too_large after_buffer buffer_messages
call limit fresh app scope stream =
    let request_id = request_id_of fresh scope.headers in
    let declared = content_length scope.headers in
    if exceeds declared limit
    then reject_too_large scope request_id (length_or_zero declared)
    else after_buffer app scope request_id (buffer_messages limit [] 0 stream)
