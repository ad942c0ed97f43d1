-- ===== src/Evidence/Claims.antt =====
-- The claims of a verdict and their evidence references in evidence.py: what is read, and what an
-- evaluation returns.
use trust_news.Prelude.{
  ℕ, String, Bool, Option, none, some, List, ◌∷◌, ◌==◌, strip, upper_is, if◌then◌else◌,
}
use trust_news.Scoring.Weights.{Verdict, verdict_true, verdict_false, verdict_unknown}
use trust_news.Evidence.Url.{UrlParser, missing, Links, sanitize_evidence_item}
use trust_news.Evidence.Contexts.{Context, Source}

-- A citation by the model; `supports` is `none` unless it is a bool.
pub record Claim : Type 0 where
  pub context_id : String
  pub supports : Option Bool
  pub reason : String

-- `evidence_used` as the model gave it; `none` is an item that is no dict.
abbrev pub Claims : Type 0
Claims = List (Option Claim)

pub record Reference : Type 0 where
  pub source_id : String
  pub context_id : String
  pub links : Links
  pub title : String
  pub supports : Option Bool
  pub evidence_text : String
  pub reason : String
  pub chunk_id : Option String
  pub evidence_text_sha256 : Option String
  pub document_provenance : Option String

pub data IssueCode : Type 0 where
  invalid_evidence_item : IssueCode
  context_id_required : IssueCode
  context_id_ambiguous : IssueCode
  context_not_citable : IssueCode
  context_not_retrieved : IssueCode
  source_is_original_document : IssueCode
  retrieved_source_url_invalid : IssueCode
  supports_required : IssueCode
  verdict_without_support : IssueCode
  provider_sources_not_server_verified : IssueCode
  documentary_evidence_not_available : IssueCode

pub record Issue : Type 0 where
  pub index : Option ℕ
  pub code : IssueCode
  pub context_id : Option String
  pub source_id : Option String
  pub verdict : Option Verdict

pub data Status : Type 0 where
  unverified : Status
  not_applicable : Status
  unsupported : Status
  partially_verified : Status
  invalid : Status
  verified : Status
  not_required : Status

pub record Grounding : Type 0 where
  pub effective_verdict : Verdict
  pub evidence_used : List Reference
  pub status : Status
  pub basis : String
  pub original_verdict : Verdict
  pub claimed_count : ℕ
  pub verified_count : ℕ
  pub rejected_count : ℕ
  pub issues : List Issue

abbrev non_empty : String → Option String
non_empty s = if s == "" then none else some s

unfoldable pub canonical_evidence_reference : UrlParser → Source → Context → Claim → Reference
unfolding strip
canonical_evidence_reference parser source context claimed = record {
  source_id = source.source_id;
  context_id = context.context_id;
  links =
      sanitize_evidence_item parser (record {
        url = source.url;
        url_text = none;
        source_url = missing;
        source_url_text = none;
      });
  title = source.title;
  supports = claimed.supports;
  evidence_text = context.text;
  reason = strip claimed.reason;
  chunk_id = non_empty context.selected_chunk_id;
  evidence_text_sha256 = non_empty context.text_sha256;
  document_provenance = source.document_provenance;
}

-- `str(getattr(verdict, "name", verdict) or "UNKNOWN").upper()`, given that text.
unfoldable pub read_verdict : String → Verdict
unfolding upper_is
read_verdict s =
    if upper_is s "TRUE"
    then verdict_true
    else if upper_is s "FALSE"
    then verdict_false
    else verdict_unknown

-- What becomes of one claim.
pub data Outcome : Type 0 where
  accepted : Reference → Outcome
  rejected : Issue → Outcome

abbrev pub issue : ℕ → IssueCode → Issue
issue i code = record {
  index = some i;
  code = code;
  context_id = none;
  source_id = none;
  verdict = none;
}

abbrev pub general_issue : IssueCode → Issue
general_issue code = record {
  index = none;
  code = code;
  context_id = none;
  source_id = none;
  verdict = none;
}

abbrev pub record_outcome : Outcome → List Reference × List Issue → List Reference × List Issue
record_outcome (accepted r) (refs, issues) = (r ∷ refs, issues)
record_outcome (rejected x) (refs, issues) = (refs, x ∷ issues)
