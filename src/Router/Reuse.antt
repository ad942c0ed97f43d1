-- ===== src/Router/Reuse.antt =====
-- What `resolve` of service.py uses again: the route that is stored, and in `_profile_fallback` the
-- profiles that are.
use trust_news.Prelude.{
  ℕ, ◌+◌, String, Bool, true, ◌&&◌, Option, none, some, List, [], ◌∷◌, ◌==◌, ltb, any,
  if◌then◌else◌,
}
use trust_news.Prelude.Dict.{is_member}
use trust_news.Router.Taxonomy.{exact, kind_value}
use trust_news.Router.Eligibility.{Signature, Classification, eligible_sources}
use trust_news.Router.Model.{Profile, RouteDocument, RouterSettings}

module _ (s : RouterSettings) (now : ℕ) where
  abbrev is_same_config : Option String → Bool
  is_same_config none = true
  is_same_config (some config) = config == s.cache_config

  -- A route of another search backend or policy does not count.
  unfoldable pub usable_previous : Option RouteDocument → Option RouteDocument
  usable_previous none = none
  usable_previous (some r) =
      if r.discovery_provider == s.search_provider && is_same_config r.discovery_config
      then some r
      else none

  abbrev pub is_fresh : RouteDocument → Bool
  is_fresh r = r.router_version == s.router_version && ltb now r.refresh_after

  unfoldable pub is_reusable : Signature → Profile → Bool
  unfolding is_member
  is_reusable signature p =
      p.profile_version == s.router_version
      && ltb now (p.last_verified_at + s.refresh_seconds)
      && is_member signature.topic_code p.topic_codes
      && any (λ k. kind_value k == kind_value signature.evidence_kind) p.evidence_kinds

  abbrev with_exact_match : Profile → Classification
  with_exact_match p = record p.source { topic_match = exact; evidence_kind_match = exact }

  -- `get_profiles(domains)`, and those of them that may be used again.
  unfoldable pub profile_sources :
      Signature → List (String × Profile) → List String → List Classification
  unfolding is_reusable is_member
  profile_sources signature [] domains = []
  profile_sources signature ((domain, p) ∷ rest) domains =
      let others = profile_sources signature rest domains in
      if is_member domain domains && is_reusable signature p
      then with_exact_match p ∷ others
      else others

  -- `_profile_fallback`.
  unfoldable pub profile_fallback :
      Signature → List (String × Profile) → List String → List Classification
  unfolding profile_sources eligible_sources
  profile_fallback signature profiles domains =
      eligible_sources signature (profile_sources signature profiles domains)
