-- ===== src/Router/Sound.antt =====
-- Where the sources of a route come from.
use mathlib.Core.List.{Memᴰ}
use trust_news.Prelude.{ℕ, String, ◌≡◌, ◌⊎◌, Bool, Option, none, some, List, All}
use trust_news.Prelude.Dict.{put}
use trust_news.Router.Eligibility.{Signature, Classification}
use trust_news.Router.Coverage.{IsUsable}
use trust_news.Router.Model.{
  Candidate, route_candidate, Profile, RouteDocument, Repository, RouterSettings, RouteResponse,
  Classified, old_candidates,
}
use trust_news.Router.Known.{IsKnown}

-- A candidate of a source that is known and usable, or one of some older candidates.
pub data IsGrounded (known : Classification → Type 0) (signature : Signature) (old : List Candidate)
    (c : Candidate) : Type 0 where
  current :
      (source : Classification)
      → known source
      → IsUsable signature source
      → c ≡ route_candidate source
      → IsGrounded known signature old c
  stored : Memᴰ c old → IsGrounded known signature old c

-- A response's candidates are grounded, and the stored routes are as they were or have a new route
-- with these candidates; without a response no route counted and nothing is stored.
abbrev pub IsSound :
    (Classification → Type 0)
    → Signature
    → String
    → Option RouteDocument
    → Repository
    → Option RouteResponse × Repository
    → Type 0
IsSound known signature key previous w (none, w') = (previous ≡ none) × (w' ≡ w)
IsSound known signature key previous w (some response, w') =
    All (IsGrounded known signature (old_candidates previous)) response.candidates
    × ((w'.routes ≡ w.routes)
        ⊎ ((route : RouteDocument) × (w'.routes ≡ put key route w.routes)
            × (route.candidates ≡ response.candidates)))

module _ (s : RouterSettings) (now : ℕ) (signature : Signature)
    (discover : Bool → Option (List String)) (classify : List String → Classified)
    (profile_of : Classification → Option Profile → Profile) (key : String) where
  module _ (known : Classification → Type 0) where
    abbrev Grounded : List Candidate → Candidate → Type 0
    Grounded = IsGrounded known signature

    abbrev AreUsable : List Classification → Type 0
    AreUsable = All (λ c. known c × IsUsable signature c)

  module _ (w : Repository) where
    abbrev Known : Classification → Type 0
    Known = IsKnown s now signature classify profile_of w
