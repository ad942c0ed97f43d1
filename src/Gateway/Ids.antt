-- ===== src/Gateway/Ids.antt =====
-- Request ids of responses.
use trust_news.Prelude.{
  ℕ, String, ◌≡◌, refl, true, List, [], ◌∷◌, ◌++◌, map, arith, All, lower_is, if-both, Bool-cases,
  inl, inr,
}
use trust_news.Gateway.Security.{
  Received, Sent, response_start, rest, Headers, Scope, Served, Outcome, Buffer, too_large, ready,
  waiting, exceeds, length_or_zero, content_length, request_id_of, has_request_id, reject_too_large,
  buffer_messages, send_with_request_id, serve, after_buffer, call,
}

own_name : lower_is "x-request-id" "x-request-id" ≡ true
unfolding lower_is
own_name = refl

has_request_id-added :
    (id : String) (headers : Headers) → has_request_id (headers ++ ("x-request-id", id) ∷ []) ≡ true
has_request_id-added id [] = ground (arith, own_name)
has_request_id-added id (h ∷ headers) = ground (arith, has_request_id-added id headers)

-- A message that starts a response has a request id in its headers.
abbrev pub HasId : Sent → Type 0
HasId (rest m) = Unit
HasId (response_start status headers) = has_request_id headers ≡ true

send-HasId : (id : String) (m : Sent) → HasId (send_with_request_id id m)
unfolding send_with_request_id
send-HasId id (rest m) = tt
send-HasId id (response_start status headers) = elim (Bool-cases (has_request_id headers)) [
  | inl h ↦ rw h h
  | inr h ↦ rw h (has_request_id-added id headers)
]

map-HasId : (id : String) (ms : List Sent) → All HasId (map (send_with_request_id id) ms)
map-HasId id [] = tt
map-HasId id (m ∷ ms) = (send-HasId id m, map-HasId id ms)

reject-HasId : (scope : Scope) (id : String) (n : ℕ) → All HasId (reject_too_large scope id n).sent
unfolding reject_too_large
reject-HasId scope id n = (has_request_id-added id [], (tt, tt))

after_buffer-HasId :
    (app : (ℕ → Received) → Served) (scope : Scope) (id : String) (b : Buffer)
    → All HasId (after_buffer app scope id b).sent
unfolding after_buffer serve
after_buffer-HasId app scope id (too_large n) = reject-HasId scope id n
after_buffer-HasId app scope id (ready buffered n) = map-HasId id _
after_buffer-HasId app scope id waiting = tt

-- Every response that a call starts, the rejections included, has a request id in its headers.
pub responses_have_request_ids :
    (limit : ℕ) (fresh : String) (app : (ℕ → Received) → Served) (scope : Scope)
    (stream : List Received)
    → All HasId (call limit fresh app scope stream).sent
unfolding call
responses_have_request_ids limit fresh app scope stream =
    let id = request_id_of fresh scope.headers in
    if-both (λ (o : Outcome). All HasId o.sent) (exceeds (content_length scope.headers) limit)
      (reject-HasId scope id (length_or_zero (content_length scope.headers)))
      (after_buffer-HasId app scope id (buffer_messages limit [] 0 stream))
