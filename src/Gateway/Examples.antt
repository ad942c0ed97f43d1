-- ===== src/Gateway/Examples.antt =====
-- A small request through the gateway.
use trust_news.Prelude.{ℕ, ◌≡◌, refl, true, false, List, [], ◌∷◌, All}
use trust_news.Gateway.Security.{Received, request, response_start, rest, Scope, Served, call}
use trust_news.Gateway.Ids.{HasId, responses_have_request_ids}

abbrev scope : Scope
scope = record {
  type = "http";
  method = "POST";
  path = "/publish";
  headers = ("Content-Length", "3") ∷ [];
}

abbrev app : (ℕ → Received) → Served
app receive = record { sent = response_start 200 [] ∷ rest "ok" ∷ []; raised = false }

abbrev stream : List Received
stream = request (1 ∷ 2 ∷ []) true ∷ request (3 ∷ []) false ∷ []

responses_have_request_ids_example : All HasId (call 4 "id" app scope stream).sent
responses_have_request_ids_example = responses_have_request_ids 4 "id" app scope stream

answered :
    (call 4 "id" app scope stream).sent
    ≡ response_start 200 (("x-request-id", "id") ∷ []) ∷ rest "ok" ∷ []
unfolding call
answered = refl
