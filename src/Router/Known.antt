-- ===== src/Router/Known.antt =====
-- Which sources `resolve` of service.py knows of: those that were classified, and those of profiles
-- that may be used again.
use mathlib.Core.List.{Memᴰ}
use trust_news.Prelude.{
  ℕ, String, ◌≡◌, refl, Bool, true, false, ◌&&◌, not, Option, none, some, List, [], ◌∷◌, ◌++◌, map,
  All, if-both, if-given, ◌==◌, keep, and_then, arith,
}
use trust_news.Prelude.Dict.{lookup, put, is_member}
use trust_news.Router.Taxonomy.{exact}
use trust_news.Router.Eligibility.{Signature, Classification, is_eligible, eligible_sources}
use trust_news.Router.Model.{
  Profile, Repository, RouterSettings, Classified, classified, llm_failed, broken, Found, is_empty,
}
use trust_news.Router.Reuse.{is_reusable, profile_sources}
use trust_news.Router.Service.{
  classify_primary, extend_found, second_search, search_again, find_sources, save_profiles,
  profiles_from_classifications,
}

-- Both parts of a list.
pub All-++ : {A : Type 0} (P : A → Type 0) (xs ys : List A) → All P xs → All P ys → All P (xs ++ ys)
All-++ P [] ys h k = k
All-++ P (x ∷ xs) ys (p, h) k = (p, All-++ P xs ys h k)

pub All-listed :
    {A : Type 0} (P : A → Type 0) (xs : List A) → ((x : A) → Memᴰ x xs → P x) → All P xs
All-listed P [] f = tt
All-listed P (x ∷ xs) f =
    (f x (Memᴰ.head refl), All-listed P xs (λ y listed. f y (Memᴰ.tail listed)))

pub All-map :
    {A : Type 0} (P Q : A → Type 0) (xs : List A) → ((x : A) → P x → Q x) → All P xs → All Q xs
All-map P Q [] f h = tt
All-map P Q (x ∷ xs) f (p, h) = (f x p, All-map P Q xs f h)

-- A predicate of every value of a dict.
abbrev pub HasAll : {A : Type 0} → (A → Type 0) → List (String × A) → Type 0
HasAll P [] = Unit
HasAll P ((k, v) ∷ rest) = P v × HasAll P rest

pub HasAll-put :
    {A : Type 0} (P : A → Type 0) (k : String) (v : A) (d : List (String × A))
    → P v
    → HasAll P d
    → HasAll P (put k v d)
unfolding put
HasAll-put P k v [] p h = (p, tt)
HasAll-put P k v ((j, u) ∷ rest) p (q, h) =
    if-both (HasAll P) (j == k) (p, h) (q, HasAll-put P k v rest p h)

pub All-values :
    {A : Type 0} (P : A → Type 0) (d : List (String × A)) → HasAll P d → All P (map (λ x. x.1) d)
All-values P [] h = tt
All-values P ((k, v) ∷ rest) (p, h) = (p, All-values P rest h)

HasAll-listed :
    {A : Type 0} (P : A → Type 0) (d : List (String × A))
    → ((k : String) (v : A) → Memᴰ (k, v) d → P v)
    → HasAll P d
HasAll-listed P [] f = tt
HasAll-listed P ((k, v) ∷ rest) f =
    (f k v (Memᴰ.head refl), HasAll-listed P rest (λ j u listed. f j u (Memᴰ.tail listed)))

-- A source as a classification that the model returned for some domains has it.
pub data IsClassified (classify : List String → Classified) (c : Classification) : Type 0 where
  in_answer :
      (domains : List String) (sources : List Classification) (failed : List String)
      → classify domains ≡ classified sources failed
      → Memᴰ c sources
      → IsClassified classify c

-- A profile that is stored, or that a classification of now makes.
pub data IsProfile (classify : List String → Classified)
    (profile_of : Classification → Option Profile → Profile) (w : Repository) (p : Profile)
    : Type 0 where
  stored_profile :
      (domain : String) → Memᴰ (domain, p) w.profiles → IsProfile classify profile_of w p
  new_profile :
      (c : Classification) (known : Option Profile)
      → IsClassified classify c
      → p ≡ profile_of c known
      → IsProfile classify profile_of w p

-- A source that was classified now, or that of a profile that may be used again, with exact matches.
pub data IsKnown (s : RouterSettings) (now : ℕ) (signature : Signature)
    (classify : List String → Classified) (profile_of : Classification → Option Profile → Profile)
    (w : Repository) (c : Classification) : Type 0 where
  classified_now : IsClassified classify c → IsKnown s now signature classify profile_of w c
  reused :
      (p : Profile)
      → IsProfile classify profile_of w p
      → is_reusable s now signature p ≡ true
      → c ≡ record p.source { topic_match = exact; evidence_kind_match = exact }
      → IsKnown s now signature classify profile_of w c

-- A part of the sources.
pub eligible_sources-All :
    (P : Classification → Type 0) (signature : Signature) (cs : List Classification)
    → All P cs
    → All P (eligible_sources signature cs)
unfolding eligible_sources
eligible_sources-All P signature [] h = tt
eligible_sources-All P signature (c ∷ cs) (p, h) =
    let rest = eligible_sources-All P signature cs h in
    if-both (All P) (is_eligible signature c) {x = c ∷ eligible_sources signature cs} (p, rest) rest

module _ (s : RouterSettings) (now : ℕ) (signature : Signature)
    (discover : Bool → Option (List String)) (classify : List String → Classified)
    (profile_of : Classification → Option Profile → Profile) where
  -- Sources that were classified, if anything was found.
  abbrev pub IsFromModel : Option Found → Type 0
  IsFromModel none = Unit
  IsFromModel (some f) = All (IsClassified classify) f.sources

  classify_primary-IsFromModel :
      (domains : List String) (x : Classified)
      → classify domains ≡ x
      → IsFromModel (classify_primary s now signature discover classify profile_of domains)
  unfolding classify_primary
  classify_primary-IsFromModel [] x e = tt
  classify_primary-IsFromModel (d ∷ ds) (classified sources failed) e =
      rw (e, IsFromModel)
        (All-listed (IsClassified classify) sources
          (λ c listed. in_answer (d ∷ ds) sources failed e listed))
  classify_primary-IsFromModel (d ∷ ds) llm_failed e = rw (e, IsFromModel) tt
  classify_primary-IsFromModel (d ∷ ds) broken e = rw (e, IsFromModel) tt

  extend_found-IsFromModel :
      (f : Found) (new : List String) (x : Classified)
      → classify new ≡ x
      → IsFromModel (some f)
      → IsFromModel (some (extend_found s now signature discover classify profile_of f new x))
  unfolding extend_found
  extend_found-IsFromModel f new (classified sources failed) e h =
      All-++ (IsClassified classify) f.sources sources h (
        All-listed (IsClassified classify) sources
          (λ c listed. in_answer new sources failed e listed))
  extend_found-IsFromModel f new llm_failed e h = h
  extend_found-IsFromModel f new broken e h = h

  second_search-IsFromModel :
      (f : Found) (o : Option (List String))
      → IsFromModel (some f)
      → IsFromModel (some (second_search s now signature discover classify profile_of f o))
  unfolding second_search
  second_search-IsFromModel f none h = h
  second_search-IsFromModel f (some domains) h =
      let new = keep (λ d. not (is_member d f.candidates)) domains in
      if-both (λ x. IsFromModel (some x)) (is_empty new) h (extend_found-IsFromModel f new _ refl h)

  search_again-IsFromModel :
      (o : Option Found)
      → IsFromModel o
      → IsFromModel
          (and_then o (λ f. some (search_again s now signature discover classify profile_of f)))
  unfolding search_again
  search_again-IsFromModel none h = tt
  search_again-IsFromModel (some f) h =
      if-both (λ x. IsFromModel (some x))
        (s.has_fallback_mode && is_empty (eligible_sources signature f.sources))
        (second_search-IsFromModel f (discover true) h) h

  search-IsFromModel :
      (o : Option (List String))
      → IsFromModel (
          and_then o (λ domains.
            and_then
              (classify_primary s now signature discover classify profile_of domains)
              (λ f. some (search_again s now signature discover classify profile_of f))))
  search-IsFromModel none = tt
  search-IsFromModel (some domains) =
      search_again-IsFromModel _ (classify_primary-IsFromModel domains _ refl)

  pub find_sources-IsFromModel :
      IsFromModel (find_sources s now signature discover classify profile_of)
  unfolding find_sources
  find_sources-IsFromModel = search-IsFromModel (discover false)

  module _ (w : Repository) where
    abbrev IsOurs : Profile → Type 0
    IsOurs = IsProfile classify profile_of w

    save_profiles-HasAll :
        (new old : List (String × Profile))
        → HasAll IsOurs new
        → HasAll IsOurs old
        → HasAll IsOurs (save_profiles s now signature discover classify profile_of new old)
    unfolding save_profiles
    save_profiles-HasAll [] old h k = k
    save_profiles-HasAll ((domain, p) ∷ rest) old (q, h) k =
        save_profiles-HasAll rest (put domain p old) h (HasAll-put IsOurs domain p old q k)

    new_profiles-HasAll :
        (existing : List (String × Profile)) (cs : List Classification)
        → All (IsClassified classify) cs
        → HasAll IsOurs
            (profiles_from_classifications s now signature discover classify profile_of existing cs)
    unfolding profiles_from_classifications
    new_profiles-HasAll existing [] h = tt
    new_profiles-HasAll existing (c ∷ cs) (p, h) =
        (new_profile c (lookup c.domain existing) p refl, new_profiles-HasAll existing cs h)

    -- The profiles after those of the classifications were saved.
    pub saved-HasAll :
        (cs : List Classification)
        → All (IsClassified classify) cs
        → HasAll IsOurs (
            save_profiles s now signature discover classify profile_of
              (profiles_from_classifications s now signature discover classify profile_of w.profiles
                cs)
              w.profiles)
    saved-HasAll cs h =
        save_profiles-HasAll _ w.profiles (new_profiles-HasAll w.profiles cs h)
          (HasAll-listed IsOurs w.profiles (λ domain p listed. stored_profile domain listed))

    pub profile_sources-IsKnown :
        (profiles : List (String × Profile)) (domains : List String)
        → HasAll IsOurs profiles
        → All
            (IsKnown s now signature classify profile_of w)
            (profile_sources s now signature profiles domains)
    unfolding profile_sources
    profile_sources-IsKnown [] domains h = tt
    profile_sources-IsKnown ((domain, p) ∷ rest) domains (q, h) =
        let others = profile_sources-IsKnown rest domains h in
        if-given (All (IsKnown s now signature classify profile_of w))
          (is_member domain domains && is_reusable s now signature p)
          (λ e. (reused p q (ground arith) refl, others)) (λ e. others)
