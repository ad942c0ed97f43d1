-- ===== src/Router/Eligibility.antt =====
-- eligibility.py: the sources that a route may use.
use trust_news.Prelude.{
  String, Bool, true, false, ◌&&◌, ◌||◌, not, Option, none, some, List, any, keep, if◌then◌else◌,
}
use trust_news.Prelude.Dict.{is_member}
use trust_news.Router.Taxonomy.{
  JurisdictionScope, global, supranational, country, unknown_scope, AuthorityLevel,
  supranational_primary, other_authority, unknown_authority, MatchLevel, no_match, SourceType,
  intergovernmental_organization, EvidenceKind, legal_text, regulatory_decision, government_record,
  public_statement, Jurisdiction, same_code, provides,
}

-- What eligibility and the reuse of profiles read of a signature, and what a classification says.
pub record Signature : Type 0 where
  pub topic_code : String
  pub evidence_kind : EvidenceKind
  pub jurisdiction : Jurisdiction

pub record Classification : Type 0 where
  pub domain : String
  pub source_type : SourceType
  pub authority_level : AuthorityLevel
  pub jurisdictions : List Jurisdiction
  pub topic_match : MatchLevel
  pub evidence_kind_match : MatchLevel

-- `target.country_code in applicable_country_codes`.
abbrev pub includes : List String → Option String → Bool
includes codes none = false
includes codes (some c) = is_member c codes

-- The body of the loop over the jurisdictions of a source, by the scopes of the source's
-- jurisdiction and of the target.
unfoldable pub covers_by_scope :
    JurisdictionScope → JurisdictionScope → Jurisdiction → Jurisdiction → Bool
unfolding is_member
covers_by_scope global target_scope j target = true
covers_by_scope supranational supranational j target =
    same_code j.jurisdiction_code target.jurisdiction_code
covers_by_scope supranational _ j target = includes j.applicable_country_codes target.country_code
covers_by_scope _ global j target = false
covers_by_scope _ unknown_scope j target = false
covers_by_scope _ supranational j target = false
covers_by_scope country _ j target = same_code j.country_code target.country_code
covers_by_scope _ country j target = false
covers_by_scope _ _ j target =
    same_code j.country_code target.country_code && same_code j.region_code target.region_code

unfoldable pub jurisdiction_is_eligible : Signature → Classification → Bool
unfolding covers_by_scope
jurisdiction_is_eligible signature source =
    any (λ j. covers_by_scope j.scope signature.jurisdiction.scope j signature.jurisdiction)
      source.jurisdictions

-- Membership in SUPRANATIONAL_OFFICIAL_EVIDENCE_KINDS.
abbrev pub is_official_kind : EvidenceKind → Bool
is_official_kind legal_text = true
is_official_kind regulatory_decision = true
is_official_kind government_record = true
is_official_kind public_statement = true
is_official_kind _ = false

abbrev pub is_intergovernmental : SourceType → Bool
is_intergovernmental intergovernmental_organization = true
is_intergovernmental _ = false

abbrev pub is_supranational_primary : AuthorityLevel → Bool
is_supranational_primary supranational_primary = true
is_supranational_primary _ = false

unfoldable pub source_type_is_eligible : Signature → Classification → Bool
unfolding provides
source_type_is_eligible signature source =
    provides signature.evidence_kind source.source_type
    || is_intergovernmental source.source_type
      && is_supranational_primary source.authority_level
      && is_official_kind signature.evidence_kind

abbrev pub is_no_match : MatchLevel → Bool
is_no_match no_match = true
is_no_match _ = false

abbrev pub has_authority : AuthorityLevel → Bool
has_authority unknown_authority = false
has_authority other_authority = false
has_authority _ = true

unfoldable pub is_eligible : Signature → Classification → Bool
unfolding source_type_is_eligible jurisdiction_is_eligible
is_eligible signature source =
    if is_no_match source.topic_match || is_no_match source.evidence_kind_match
    then false
    else if not (source_type_is_eligible signature source)
    then false
    else if not (jurisdiction_is_eligible signature source)
    then false
    else has_authority source.authority_level

unfoldable pub eligible_sources : Signature → List Classification → List Classification
unfolding is_eligible
eligible_sources signature = keep (is_eligible signature)
