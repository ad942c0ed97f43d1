-- ===== src/Router/Coverage.antt =====
-- Which sources are eligible, said without the early returns of eligibility.py.
use trust_news.Prelude.{ap, ◌≡◌, ◌≢◌, ◌⊎◌, ◌↔◌, inl, inr, refl, true, false, arith, Bool-cases}
use trust_news.Router.Taxonomy.{
  AuthorityLevel, other_authority, unknown_authority, supranational_primary, MatchLevel, no_match,
  intergovernmental_organization, SourceType, provides,
}
use trust_news.Router.Eligibility.{
  Signature, Classification, jurisdiction_is_eligible, is_official_kind, is_intergovernmental,
  is_supranational_primary, source_type_is_eligible, is_no_match, has_authority, is_eligible,
}
use trust_news.Router.Covering.{OneCovers, any-OneCovers, OneCovers-any}

-- What makes a source usable for a route.
pub record IsUsable (signature : Signature) (source : Classification) : Type 0 where
  pub topic : source.topic_match ≢ no_match
  pub kind : source.evidence_kind_match ≢ no_match
  pub fitting :
      (provides signature.evidence_kind source.source_type ≡ true)
      ⊎ ((source.source_type ≡ intergovernmental_organization)
          × (source.authority_level ≡ supranational_primary)
          × (is_official_kind signature.evidence_kind ≡ true))
  pub covering : OneCovers signature.jurisdiction source.jurisdictions
  pub known_authority : source.authority_level ≢ unknown_authority
  pub real_authority : source.authority_level ≢ other_authority

matching : (m : MatchLevel) → is_no_match m ≡ false → m ≢ no_match
matching no_match h e = cc
matching m h e = cc

matched : (m : MatchLevel) → m ≢ no_match → is_no_match m ≡ false
matched no_match h = absurd (h refl)
matched _ h = refl

authoritative :
    (a : AuthorityLevel) → has_authority a ≡ true → (a ≢ unknown_authority) × (a ≢ other_authority)
authoritative unknown_authority h = cc
authoritative other_authority h = cc
authoritative _ h = (λ e. cc, λ e. cc)

has_authority_lem :
    (a : AuthorityLevel) → a ≢ unknown_authority → a ≢ other_authority → has_authority a ≡ true
has_authority_lem unknown_authority n m = absurd (n refl)
has_authority_lem other_authority n m = absurd (m refl)
has_authority_lem _ n m = refl

intergovernmental :
    (t : SourceType) → is_intergovernmental t ≡ true → t ≡ intergovernmental_organization
intergovernmental intergovernmental_organization h = refl
intergovernmental _ h = cc

primary : (a : AuthorityLevel) → is_supranational_primary a ≡ true → a ≡ supranational_primary
primary supranational_primary h = refl
primary _ h = cc

module _ (signature : Signature) (source : Classification) where
  fitting_type :
      source_type_is_eligible signature source ≡ true
      → (provides signature.evidence_kind source.source_type ≡ true)
        ⊎ ((source.source_type ≡ intergovernmental_organization)
            × (source.authority_level ≡ supranational_primary)
            × (is_official_kind signature.evidence_kind ≡ true))
  unfolding source_type_is_eligible
  fitting_type h = elim (Bool-cases (provides signature.evidence_kind source.source_type)) [
    | inl e ↦ inl e
    | inr e ↦ inr (
      intergovernmental source.source_type (ground arith),
      primary source.authority_level (ground arith),
      ground arith,
    )
  ]

  fitting_type_lem :
      (provides signature.evidence_kind source.source_type ≡ true)
        ⊎ ((source.source_type ≡ intergovernmental_organization)
            × (source.authority_level ≡ supranational_primary)
            × (is_official_kind signature.evidence_kind ≡ true))
      → source_type_is_eligible signature source ≡ true
  unfolding source_type_is_eligible
  fitting_type_lem (inl e) = ground arith
  fitting_type_lem (inr (e, e', official)) =
      let a = ap is_intergovernmental e in
      let b = ap is_supranational_primary e' in ground (arith, a, b)

  -- A source is eligible exactly if its topic and its kind of evidence match at all, its type provides
  -- that kind or it is an intergovernmental organisation with primary authority over official records,
  -- one of its jurisdictions covers the one of the assertion, and its authority is a known one.
  pub is_eligible_iff : (is_eligible signature source ≡ true) ↔ IsUsable signature source
  unfolding is_eligible jurisdiction_is_eligible
  is_eligible_iff = (forth, back)
    where
      forth : is_eligible signature source ≡ true → IsUsable signature source
      forth h =
          let (known, real) = authoritative source.authority_level (ground arith) in
          record {
            topic = matching source.topic_match (ground arith);
            kind = matching source.evidence_kind_match (ground arith);
            fitting = fitting_type (ground arith);
            covering = any-OneCovers signature.jurisdiction source.jurisdictions (ground arith);
            known_authority = known;
            real_authority = real;
          }

      back : IsUsable signature source → is_eligible signature source ≡ true
      back u =
          let (j, listed, covers) = u.covering in
          let topic = matched source.topic_match u.topic in
          let kind = matched source.evidence_kind_match u.kind in
          let fits = fitting_type_lem u.fitting in
          let covered = OneCovers-any signature.jurisdiction j source.jurisdictions listed covers in
          let authority =
            has_authority_lem source.authority_level u.known_authority u.real_authority in
          rw (topic, kind, fits, covered) authority
