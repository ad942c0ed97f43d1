-- ===== src/Gateway/Requests.antt =====
-- What reaches the application, and what its client gets.
use trust_news.Prelude.{
  ℕ, zero, suc, ◌+◌, ◌≤◌, String, ◌≡◌, false, Option, none, some, List, [], ◌∷◌, ◌++◌, length,
}
use trust_news.Gateway.Security.{Received, request, other, response_start, rest, Outcome}

abbrev size : Received → ℕ
size (request body more) = length body
size (other type) = 0

abbrev pub body_size : List Received → ℕ
body_size [] = 0
body_size (m ∷ more) = size m + body_size more

-- The answers to the first calls of a receiver, in order.
abbrev pub first_answers : ℕ → (ℕ → Received) → List Received
first_answers zero receive = []
first_answers (suc n) receive = receive 0 ∷ first_answers n (λ i. receive (suc i))

-- The application, if it is called, receives at its first calls the messages that the client sent,
-- from the first on; each later call gives an empty body. The bodies
-- are within the limit together.
pub record IsServed (limit : ℕ) (stream : List Received) (served : Option (ℕ → Received))
    : Type 1 where
  pub received : List Received
  pub remaining : List Received
  pub in_order : stream ≡ received ++ remaining
  pub within : body_size received ≤ limit
  pub receive : ℕ → Received
  pub called : served ≡ some receive
  pub replayed : first_answers (length received) receive ≡ received
  pub then_empty : (i : ℕ) → receive (length received + i) ≡ request [] false

-- The application was not called: the answer is 413, or there is none yet.
pub data IsUnserved (o : Outcome) : Type 1 where
  rejected :
      (id : String)
      → o.served ≡ none
      → o.sent ≡ response_start 413 (("x-request-id", id) ∷ []) ∷ rest "Request body too large" ∷ []
      → IsUnserved o
  unanswered : o.served ≡ none → o.sent ≡ [] → IsUnserved o

record IsBuffered (limit : ℕ) (all buffered : List Received) (n : ℕ) : Type 0 where
  left : List Received
  whole : all ≡ buffered ++ left
  counted : n ≡ body_size buffered
  fits : n ≤ limit
