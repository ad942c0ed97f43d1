-- ===== src/Router/Taxonomy.antt =====
-- common/routing_taxonomy.py and the jurisdictions of common/models/protocol_models.py.
use trust_news.Prelude.{String, Bool, true, false, Option, none, some, List, ◌==◌}

pub data JurisdictionScope : Type 0 where
  global supranational country region local unknown_scope : JurisdictionScope

pub data AuthorityLevel : Type 0 where
  local_primary regional_primary national_primary supranational_primary : AuthorityLevel
  international_primary global_primary secondary_authoritative : AuthorityLevel
  other_authority unknown_authority : AuthorityLevel

pub data MatchLevel : Type 0 where
  exact partial no_match unknown_match : MatchLevel

pub data SourceType : Type 0 where
  statistical_office central_bank government_agency official_gazette : SourceType
  legislature court regulator electoral_authority : SourceType
  public_health_authority intergovernmental_organization : SourceType
  research_institution academic_publisher company organization : SourceType
  sports_governing_body infrastructure_operator news_agency media : SourceType
  fact_checker ngo think_tank other_type unknown_type : SourceType

pub data EvidenceKind : Type 0 where
  statistical_data legal_text regulatory_decision judicial_decision : EvidenceKind
  election_result research_publication company_disclosure : EvidenceKind
  sports_record weather_observation government_record public_statement : EvidenceKind
  primary_document general unknown_kind : EvidenceKind

-- A jurisdiction whose codes were validated; `none` is a code that is absent.
pub record Jurisdiction : Type 0 where
  pub scope : JurisdictionScope
  pub country_code : Option String
  pub region_code : Option String
  pub jurisdiction_code : Option String
  pub applicable_country_codes : List String

-- `a == b` on codes.
abbrev pub same_code : Option String → Option String → Bool
same_code none none = true
same_code (some a) (some b) = a == b
same_code _ _ = false

-- Membership in EVIDENCE_SOURCE_TYPES.
unfoldable pub provides : EvidenceKind → SourceType → Bool
provides statistical_data statistical_office = true
provides statistical_data central_bank = true
provides statistical_data government_agency = true
provides statistical_data intergovernmental_organization = true
provides statistical_data infrastructure_operator = true
provides legal_text official_gazette = true
provides legal_text legislature = true
provides legal_text government_agency = true
provides regulatory_decision regulator = true
provides judicial_decision court = true
provides election_result electoral_authority = true
provides election_result government_agency = true
provides research_publication research_institution = true
provides research_publication academic_publisher = true
provides research_publication intergovernmental_organization = true
provides company_disclosure company = true
provides company_disclosure regulator = true
provides sports_record sports_governing_body = true
provides weather_observation government_agency = true
provides weather_observation intergovernmental_organization = true
provides weather_observation research_institution = true
provides government_record government_agency = true
provides government_record official_gazette = true
provides government_record legislature = true
provides public_statement government_agency = true
provides public_statement company = true
provides public_statement organization = true
provides primary_document source = true
provides general source = true
provides unknown_kind source = true
provides _ source = false

-- `kind.value`, by which kinds are compared.
abbrev pub kind_value : EvidenceKind → String
kind_value statistical_data = "STATISTICAL_DATA"
kind_value legal_text = "LEGAL_TEXT"
kind_value regulatory_decision = "REGULATORY_DECISION"
kind_value judicial_decision = "JUDICIAL_DECISION"
kind_value election_result = "ELECTION_RESULT"
kind_value research_publication = "RESEARCH_PUBLICATION"
kind_value company_disclosure = "COMPANY_DISCLOSURE"
kind_value sports_record = "SPORTS_RECORD"
kind_value weather_observation = "WEATHER_OBSERVATION"
kind_value government_record = "GOVERNMENT_RECORD"
kind_value public_statement = "PUBLIC_STATEMENT"
kind_value primary_document = "PRIMARY_DOCUMENT"
kind_value general = "GENERAL"
kind_value unknown_kind = "UNKNOWN"
