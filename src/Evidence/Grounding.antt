-- ===== src/Evidence/Grounding.antt =====
-- `_canonical_evidence_reference` and `evaluate_evidence_grounding` of evidence.py: the citations of
-- a verdict against the evidence that the server retrieved.
use trust_news.Prelude.{
  ℕ, ◌+◌, ◌-◌, String, Bool, true, false, not, ◌&&◌, Option, none, some, List, [], ◌∷◌, ◌++◌, ◌==◌,
  any, length, strip, if◌then◌else◌,
}
use trust_news.Scoring.Weights.{Verdict, verdict_true, verdict_unknown}
use trust_news.Scoring.Consensus.{is_decisive, is_empty}
use trust_news.Evidence.Url.{UrlParser, is_http_url}
use trust_news.Evidence.Contexts.{
  Context, Source, Retrieved, Contexts, find, member, citation_contexts,
}
use trust_news.Evidence.Claims.{
  Claim, Claims, Reference, invalid_evidence_item, context_id_required, context_id_ambiguous,
  context_not_citable, context_not_retrieved, source_is_original_document,
  retrieved_source_url_invalid, supports_required, verdict_without_support,
  provider_sources_not_server_verified, documentary_evidence_not_available, Issue, Status,
  unverified, not_applicable, unsupported, partially_verified, invalid, verified, not_required,
  Grounding, canonical_evidence_reference, read_verdict, Outcome, accepted, rejected, issue,
  general_issue, record_outcome,
}

abbrev pub same_bool : Option Bool → Bool → Bool
same_bool none b = false
same_bool (some true) b = b
same_bool (some false) b = not b

abbrev pub is_true_verdict : Verdict → Bool
is_true_verdict verdict_true = true
is_true_verdict _ = false

abbrev pub supports_verdict : Verdict → List Reference → Bool
supports_verdict v = any (λ r. same_bool r.supports (is_true_verdict v))

module _ (parser : UrlParser) where
  -- The checks on a claim whose id was resolved.
  unfoldable pub check_resolved : ℕ → Claim → String → Source × Context → Outcome
  unfolding strip
  check_resolved i claim k (source, context) =
      let source_id = strip source.source_id in
      if source.relationship_to_origin == "ORIGINAL"
      then rejected (record (issue i source_is_original_document) {
        source_id = some source_id;
        context_id = some k;
      })
      else if not (is_http_url parser source.url)
      then rejected (record (issue i retrieved_source_url_invalid) { source_id = some source_id })
      else elim claim.supports [
        | none ↦ rejected (record (issue i supports_required) { context_id = some k })
        | some b ↦ accepted (canonical_evidence_reference parser source context claim)
      ]

  -- The body of the loop over the claims.
  unfoldable pub check_claim : Contexts → ℕ → Option Claim → Outcome
  check_claim st i none = rejected (issue i invalid_evidence_item)
  check_claim st i (some claim) =
      let k = strip claim.context_id in
      if k == ""
      then rejected (issue i context_id_required)
      else if member k st.ambiguous
      then rejected (record (issue i context_id_ambiguous) { context_id = some k })
      else if member k st.uncitable
      then rejected (record (issue i context_not_citable) { context_id = some k })
      else elim (find k st.indexed) [
        | none ↦ rejected (record (issue i context_not_retrieved) { context_id = some k })
        | some x ↦ check_resolved i claim k x
      ]

  -- The loop: the verified references and the issues, each in the order of the claims.
  unfoldable pub check_claims : Contexts → ℕ → Claims → List Reference × List Issue
  check_claims st i [] = ([], [])
  check_claims st i (claim ∷ rest) =
      record_outcome (check_claim st i claim) (check_claims st (i + 1) rest)

  -- The result where the server has no corpus to check against.
  unfoldable pub without_grounding : Verdict → Claims → String → Grounding
  without_grounding v claimed basis =
      let provider_search = basis == "PROVIDER_SEARCH_UNVERIFIED" in
      record {
        effective_verdict = v;
        evidence_used = [];
        status = if provider_search then unverified else not_applicable;
        basis = basis;
        original_verdict = v;
        claimed_count = length claimed;
        verified_count = 0;
        rejected_count = if provider_search then 0 else length claimed;
        issues =
            if is_empty claimed
            then []
            else general_issue (
                if provider_search
                then provider_sources_not_server_verified
                else documentary_evidence_not_available)
              ∷ [];
      }

  abbrev status_of : Verdict → List Reference → List Issue → Status
  status_of v verified_refs issues =
      if not (is_empty issues)
      then if is_empty verified_refs then invalid else partially_verified
      else if not (is_empty verified_refs)
      then verified
      else if is_decisive v
      then unsupported
      else not_required

  unfoldable pub with_grounding : Verdict → Claims → List Reference × List Issue → Grounding
  with_grounding v claimed (verified_refs, issues) =
      let abstains = is_decisive v && not (supports_verdict v verified_refs) in
      record {
        effective_verdict = if abstains then verdict_unknown else v;
        evidence_used = verified_refs;
        status = if abstains then unsupported else status_of v verified_refs issues;
        basis = "RETRIEVED_EVIDENCE";
        original_verdict = v;
        claimed_count = length claimed;
        verified_count = length verified_refs;
        rejected_count = length claimed - length verified_refs;
        issues =
            if abstains
            then issues ++ record (general_issue verdict_without_support) { verdict = some v } ∷ []
            else issues;
      }

  unfoldable pub evaluate_evidence_grounding :
      (verdict : String)
      → Claims
      → Retrieved
      → (require_grounding : Bool) → (basis : String) → Grounding
  unfolding without_grounding with_grounding
  evaluate_evidence_grounding verdict evidence_used retrieved require_grounding basis =
      let v = read_verdict verdict in
      if require_grounding
      then with_grounding v evidence_used
          (check_claims (citation_contexts retrieved) 0 evidence_used)
      else without_grounding v evidence_used basis
