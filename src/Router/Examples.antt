-- ===== src/Router/Examples.antt =====
-- A route for Spain with one eligible source.
use mathlib.Core.Option
use trust_news.Prelude.{
  ◌≡◌, ◌↔◌, refl, true, false, Bool, String, Option, none, some, List, [], ◌∷◌, map,
}
use trust_news.Router.Taxonomy.{
  country, supranational, national_primary, exact, statistical_office, media, statistical_data,
  Jurisdiction,
}
use trust_news.Router.Eligibility.{Signature, Classification, is_eligible}
use trust_news.Router.Coverage.{IsUsable, is_eligible_iff}
use trust_news.Router.Model.{
  Profile, RouteDocument, Repository, RouterSettings, Classified, classified,
}
use trust_news.Router.Service.{resolve_route}

abbrev spain : Jurisdiction
spain = record {
  scope = country;
  country_code = some "ES";
  region_code = none;
  jurisdiction_code = none;
  applicable_country_codes = [];
}

abbrev union : Jurisdiction
union = record {
  scope = supranational;
  country_code = none;
  region_code = none;
  jurisdiction_code = some "EU";
  applicable_country_codes = "FR" ∷ "ES" ∷ [];
}

abbrev signature : Signature
signature = record {
  topic_code = "ECONOMY_MACRO";
  evidence_kind = statistical_data;
  jurisdiction = spain;
}

abbrev office : Classification
office = record {
  domain = "ine.es";
  source_type = statistical_office;
  authority_level = national_primary;
  jurisdictions = union ∷ [];
  topic_match = exact;
  evidence_kind_match = exact;
}

abbrev paper : Classification
paper = record office { domain = "paper.es"; source_type = media }

is_eligible_iff_example : (is_eligible signature office ≡ true) ↔ IsUsable signature office
is_eligible_iff_example = is_eligible_iff signature office

two_sources : (is_eligible signature office ≡ true) × (is_eligible signature paper ≡ false)
unfolding is_eligible
two_sources = (refl, refl)

abbrev settings : RouterSettings
settings = record {
  router_version = "v2";
  search_provider = "exa";
  cache_config = "c";
  has_fallback_mode = false;
  refresh_seconds = 600;
}

abbrev old_route : RouteDocument
old_route = record {
  candidates = record { domain = "bde.es"; topic_match = exact; evidence_kind_match = exact } ∷ [];
  router_version = "v2";
  discovery_provider = "exa";
  discovery_config = none;
  created_at = 10;
  refresh_after = 500;
  degraded = false;
  diagnostic_code = none;
}

abbrev repository : Repository
repository = record { routes = ("key", old_route) ∷ []; profiles = [] }

abbrev discover : Bool → Option (List String)
discover again = some ("ine.es" ∷ "paper.es" ∷ [])

abbrev classify : List String → Classified
classify domains = classified (office ∷ paper ∷ []) []

abbrev profile_of : Classification → Option Profile → Profile
profile_of c known = record {
  source = c;
  topic_codes = [];
  evidence_kinds = [];
  profile_version = "v2";
  last_verified_at = 1000;
}

-- The refreshed route has the eligible source, and keeps the old one.
refreshed_route :
    Option.map
      (λ r. map (λ c. c.domain) r.candidates)
      (resolve_route settings 1000 signature discover classify profile_of "key" false repository).0
    ≡ some ("ine.es" ∷ "bde.es" ∷ [])
unfolding resolve_route
refreshed_route = refl
