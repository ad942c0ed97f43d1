-- ===== src/Router/Service.antt =====
-- `SourceRouterService.resolve` of service.py. Times are numbers; the search, the classification and
-- the time are parameters, and the ranking of the sources that are served is left out.
use trust_news.Prelude.{
  min, ℕ, ◌+◌, String, Bool, true, false, ◌&&◌, not, Option, none, some, List, [], ◌∷◌, ◌++◌, map,
  keep, and_then, if◌then◌else◌,
}
use trust_news.Prelude.Dict.{lookup, put, is_present, is_member}
use trust_news.Router.Eligibility.{Signature, Classification, eligible_sources}
use trust_news.Router.Model.{
  fresh, missing, stale, Candidate, route_candidate, Profile, DiagnosticCode, profile_fallback_used,
  classification_partial, classification_failed, no_discovery_candidates, no_eligible_sources,
  RouteDocument, Repository, RouterSettings, RouteState, RouteResponse, Classified, classified,
  llm_failed, broken, is_empty, Found, old_candidates, serve_previous,
}
use trust_news.Router.Reuse.{usable_previous, is_fresh, profile_fallback}

module _ (s : RouterSettings) (now : ℕ) where
  module _ (signature : Signature) (discover : Bool → Option (List String))
      (classify : List String → Classified)
      (profile_of : Classification → Option Profile → Profile) where
    -- The classification of the candidates that the primary search found; `none` is an exception.
    unfoldable pub classify_primary : List String → Option Found
    classify_primary [] = some (record { candidates = []; sources = []; failed_domains = [] })
    classify_primary (c ∷ cs) = elim (classify (c ∷ cs)) [
      | classified sources failed ↦
          some (record { candidates = c ∷ cs; sources = sources; failed_domains = failed })
      | llm_failed ↦ some (record { candidates = c ∷ cs; sources = []; failed_domains = c ∷ cs })
      | broken ↦ none
    ]

    -- The classification of the new candidates of the second search; an exception leaves all as it is.
    unfoldable pub extend_found : Found → List String → Classified → Found
    extend_found f new (classified sources failed) = record {
      candidates = f.candidates ++ new;
      sources = f.sources ++ sources;
      failed_domains = f.failed_domains ++ failed;
    }
    extend_found f new llm_failed = f
    extend_found f new broken = f

    unfoldable pub second_search : Found → Option (List String) → Found
    unfolding extend_found is_member
    second_search f none = f
    second_search f (some domains) =
        let new = keep (λ d. not (is_member d f.candidates)) domains in
        if is_empty new then f else extend_found f new (classify new)

    unfoldable pub search_again : Found → Found
    unfolding second_search eligible_sources
    search_again f =
        if s.has_fallback_mode && is_empty (eligible_sources signature f.sources)
        then second_search f (discover true)
        else f

    unfoldable pub find_sources : Option Found
    unfolding classify_primary search_again
    find_sources =
        and_then (discover false)
          (λ domains. and_then (classify_primary domains) (λ f. some (search_again f)))

    -- `_profiles_from_classifications`, where `profile_of` merges a classification into the profile
    -- that is stored.
    unfoldable pub profiles_from_classifications :
        List (String × Profile) → List Classification → List (String × Profile)
    unfolding lookup
    profiles_from_classifications existing =
        map (λ c. (c.domain, profile_of c (lookup c.domain existing)))

    unfoldable pub save_profiles :
        List (String × Profile) → List (String × Profile) → List (String × Profile)
    unfolding put
    save_profiles [] profiles = profiles
    save_profiles ((domain, p) ∷ rest) profiles = save_profiles rest (put domain p profiles)

    unfoldable pub diagnostic_of :
        Found → List Classification → List Classification → Option DiagnosticCode
    diagnostic_of f fallback sources =
        if not (is_empty f.failed_domains)
        then some (
            if not (is_empty fallback)
            then profile_fallback_used
            else if not (is_empty f.sources)
            then classification_partial
            else classification_failed)
        else if is_empty f.candidates
        then some no_discovery_candidates
        else if is_empty sources
        then some no_eligible_sources
        else none

    -- `{item.domain: route_candidate(signature, item) for item in classifications}`.
    unfoldable pub current_candidates :
        List Classification → List (String × Candidate) → List (String × Candidate)
    unfolding route_candidate put
    current_candidates [] current = current
    current_candidates (c ∷ cs) current =
        current_candidates cs (put c.domain (route_candidate c) current)

    -- `current.setdefault(old.domain, old)`.
    unfoldable pub keep_old : List Candidate → List (String × Candidate) → List (String × Candidate)
    unfolding lookup put
    keep_old [] current = current
    keep_old (old ∷ rest) current =
        keep_old rest
          (if is_present (lookup old.domain current) then current else put old.domain old current)

    abbrev created : Option RouteDocument → ℕ
    created none = now
    created (some previous) = previous.created_at

    -- The response if nothing was found.
    abbrev pub nothing_found : Option RouteDocument → Found → Option DiagnosticCode → RouteResponse
    nothing_found none f code = record {
      route_state = missing;
      candidates = [];
      stale_route_used = false;
      degraded = not (is_empty f.failed_domains);
      diagnostic_code = code;
    }
    nothing_found (some previous) f code = serve_previous previous code

    unfoldable pub new_route :
        Option RouteDocument → Found → List Classification → Option DiagnosticCode → RouteDocument
    unfolding current_candidates keep_old
    new_route previous f sources code = record {
      candidates =
          map (λ x. x.1) (keep_old (old_candidates previous) (current_candidates sources []));
      router_version = s.router_version;
      discovery_provider = s.search_provider;
      discovery_config = some s.cache_config;
      created_at = created previous;
      refresh_after =
          now
          + (if is_empty f.failed_domains then s.refresh_seconds else min s.refresh_seconds 300);
      degraded = not (is_empty f.failed_domains);
      diagnostic_code = code;
    }

    abbrev pub initial_state : Option RouteDocument → RouteState
    initial_state none = missing
    initial_state (some previous) = stale

    -- What follows the classifications `sources`, with those of the fallback.
    unfoldable pub store_route :
        String
        → Option RouteDocument
        → Found
        → List Classification
        → Option DiagnosticCode
        → Repository
        → RouteResponse × Repository
    unfolding new_route put
    store_route key previous f [] code w = (nothing_found previous f code, w)
    store_route key previous f (c ∷ cs) code w =
        let route = new_route previous f (c ∷ cs) code in
        (
          record {
            route_state = initial_state previous;
            candidates = route.candidates;
            stale_route_used = false;
            degraded = route.degraded;
            diagnostic_code = code;
          },
          record w { routes = put key route w.routes },
        )

    unfoldable pub refresh_with :
        String → Bool → Option RouteDocument → Found → Repository → RouteResponse × Repository
    unfolding eligible_sources save_profiles profiles_from_classifications profile_fallback
        diagnostic_of store_route
    refresh_with key force_refresh previous f w =
        let eligible = eligible_sources signature f.sources in
        let profiles =
          save_profiles (profiles_from_classifications w.profiles eligible) w.profiles in
        let fallback =
          if force_refresh
          then []
          else profile_fallback s now signature profiles f.failed_domains in
        let sources = eligible ++ fallback in
        store_route key previous f sources (diagnostic_of f fallback sources)
          (record w { profiles = profiles })

    -- The handler of an exception; `none` is the exception itself.
    abbrev pub refresh_failed : Option RouteDocument → Option RouteResponse
    refresh_failed none = none
    refresh_failed (some previous) = some (serve_previous previous previous.diagnostic_code)

    unfoldable pub refresh_route :
        String
        → Bool
        → Option RouteDocument
        → Option Found
        → Repository
        → Option RouteResponse × Repository
    unfolding refresh_with
    refresh_route key force_refresh previous none w = (refresh_failed previous, w)
    refresh_route key force_refresh previous (some f) w =
        let (response, w') = refresh_with key force_refresh previous f w in (some response, w')

    abbrev serve_fresh : RouteDocument → RouteResponse
    serve_fresh r = record {
      route_state = fresh;
      candidates = r.candidates;
      stale_route_used = false;
      degraded = r.degraded;
      diagnostic_code = r.diagnostic_code;
    }

    -- By the stored route, if there is one that counts.
    unfoldable pub resolve_with :
        String → Bool → Option RouteDocument → Repository → Option RouteResponse × Repository
    unfolding refresh_route find_sources
    resolve_with key force_refresh none w = refresh_route key force_refresh none find_sources w
    resolve_with key force_refresh (some r) w =
        if is_fresh s now r
        then (some (serve_fresh r), w)
        else refresh_route key force_refresh (some r) find_sources w

    abbrev pub stored_route : String → Bool → Repository → Option RouteDocument
    stored_route key force_refresh w =
        if force_refresh then none else usable_previous s now (lookup key w.routes)

    -- `resolve` of a request with that route key.
    unfoldable pub resolve_route : String → Bool → Repository → Option RouteResponse × Repository
    unfolding resolve_with usable_previous lookup
    resolve_route key force_refresh w =
        resolve_with key force_refresh (stored_route key force_refresh w) w
