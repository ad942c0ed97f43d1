-- ===== src/Router/Model.antt =====
-- Routes, profiles and responses of the source router: app/models.py and service.py.
use trust_news.Prelude.{ℕ, String, Bool, true, false, Option, none, some, List, [], ◌∷◌}
use trust_news.Router.Taxonomy.{MatchLevel, EvidenceKind}
use trust_news.Router.Eligibility.{Classification}

-- A stored candidate, without its scores and its reason.
pub record Candidate : Type 0 where
  pub domain : String
  pub topic_match : MatchLevel
  pub evidence_kind_match : MatchLevel

unfoldable pub route_candidate : Classification → Candidate
route_candidate source = record {
  domain = source.domain;
  topic_match = source.topic_match;
  evidence_kind_match = source.evidence_kind_match;
}

-- A profile: `source` without its match fields, and what else is read of it.
pub record Profile : Type 0 where
  pub source : Classification
  pub topic_codes : List String
  pub evidence_kinds : List EvidenceKind
  pub profile_version : String
  pub last_verified_at : ℕ

pub data DiagnosticCode : Type 0 where
  profile_fallback_used : DiagnosticCode
  classification_partial : DiagnosticCode
  classification_failed : DiagnosticCode
  no_discovery_candidates : DiagnosticCode
  no_eligible_sources : DiagnosticCode

pub record RouteDocument : Type 0 where
  pub candidates : List Candidate
  pub router_version : String
  pub discovery_provider : String
  pub discovery_config : Option String
  pub created_at : ℕ
  pub refresh_after : ℕ
  pub degraded : Bool
  pub diagnostic_code : Option DiagnosticCode

-- The collections of routes and of profiles.
pub record Repository : Type 0 where
  pub routes : List (String × RouteDocument)
  pub profiles : List (String × Profile)

pub record RouterSettings : Type 0 where
  pub router_version : String
  pub search_provider : String
  pub cache_config : String
  pub has_fallback_mode : Bool
  pub refresh_seconds : ℕ

pub data RouteState : Type 0 where
  fresh missing stale : RouteState

-- A response; `candidates` is what `_rank_route` ranks.
pub record RouteResponse : Type 0 where
  pub route_state : RouteState
  pub candidates : List Candidate
  pub stale_route_used : Bool
  pub degraded : Bool
  pub diagnostic_code : Option DiagnosticCode

-- What `classify_candidates` does: it returns the classifications and the domains without one, or
-- raises an error of the model or another one.
pub data Classified : Type 0 where
  classified : List Classification → List String → Classified
  llm_failed : Classified
  broken : Classified

abbrev pub is_empty : {A : Type 0} → List A → Bool
is_empty [] = true
is_empty (x ∷ xs) = false

-- The candidates of a refresh, their classifications and the domains without one.
pub record Found : Type 0 where
  pub candidates : List String
  pub sources : List Classification
  pub failed_domains : List String

abbrev pub old_candidates : Option RouteDocument → List Candidate
old_candidates none = []
old_candidates (some previous) = previous.candidates

abbrev pub serve_previous : RouteDocument → Option DiagnosticCode → RouteResponse
serve_previous previous code = record {
  route_state = stale;
  candidates = previous.candidates;
  stale_route_used = true;
  degraded = true;
  diagnostic_code = code;
}
