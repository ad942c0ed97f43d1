-- ===== src/Orders/Dispatches.antt =====
-- What the dispatch of light validation requests collects for an order, and its quotas.
use trust_news.Prelude.{
  ℕ, ◌+◌, String, Bool, true, false, ◌||◌, Option, some, List, [], ◌∷◌, ◌++◌, length, ltb,
  if◌then◌else◌,
}
use trust_news.Prelude.Dict.{put}
use trust_news.Scoring.Consensus.{is_empty}
use trust_news.Orders.Model.{ValidationMode, blockchain, light, Assertion, ValidatorInfo}
use trust_news.Orders.Registry.{}
use trust_news.Orders.World.{Quotas}

abbrev pub same_mode : Option ValidationMode → ValidationMode → Bool
same_mode (some blockchain) blockchain = true
same_mode (some light) light = true
same_mode _ _ = false

-- The four collections that dispatching fills, and the health cache.
pub record Dispatch : Type 0 where
  pub validators : List ValidatorInfo
  pub requests : List (String × List String)
  pub without_validator : List String
  pub total_pending : ℕ

abbrev pub nothing : Dispatch
nothing = record { validators = []; requests = []; without_validator = []; total_pending = 0 }

-- What a client may still publish.
unfoldable pub is_exceeded : Quotas → ℕ → Bool
is_exceeded q num_assertions =
    ltb q.news_limit q.news_consumed
    || ltb q.validations_limit (q.validations_consumed + num_assertions)

abbrev pub light_info : Assertion → List String → ValidatorInfo
light_info a ids = record {
  id_assertion = a.assertion_id;
  validator_addresses = ids;
  text = a.text;
  category_id = a.category_id;
  topic_code = some a.topic_code;
  evidence_kind = some a.evidence_kind;
}

unfoldable pub add_assertion : Assertion → List String → Dispatch → Dispatch
unfolding put
add_assertion a ids d = record {
  validators = d.validators ++ light_info a ids ∷ [];
  requests = put a.assertion_id ids d.requests;
  without_validator =
      if is_empty ids then d.without_validator ++ a.assertion_id ∷ [] else d.without_validator;
  total_pending = d.total_pending + length ids;
}
