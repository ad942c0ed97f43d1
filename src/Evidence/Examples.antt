-- ===== src/Evidence/Examples.antt =====
-- Grounding at small inputs.
use trust_news.Prelude.{
  strip, ◌≡◌, ◌+◌, ◌==◌, refl, true, false, none, some, [], ◌∷◌, ltb, any, keep, length,
}
use trust_news.Scoring.Weights.{verdict_true}
use trust_news.Scoring.Consensus.{is_decisive}
use trust_news.Evidence.Url.{
  is_http_url, UrlParser, null, text, Links, IsSafeLink, sanitize_evidence_item, sanitize_is_safe,
}
use trust_news.Evidence.Contexts.{
  add_sources, add_contexts, add_context, id_of, is_citable, Context, Source, Retrieved, find,
  member, citation_contexts,
}
use trust_news.Evidence.Citable.{entries, cites, blocks, only, citation_contexts_exact}
use trust_news.Evidence.Claims.{canonical_evidence_reference, Claims, read_verdict}
use trust_news.Evidence.Grounding.{
  check_claims, check_claim, check_resolved, evaluate_evidence_grounding, is_true_verdict,
}
use trust_news.Evidence.Citations.{citations}
use trust_news.Evidence.Support.{IsSupport, grounded_exact, decisive_is_supported, counts_add_up}

abbrev parser : UrlParser
parser = record { scheme = λ s. some "https"; has_hostname = λ s. true; accepts = λ s. true }

abbrev report : Context
report = record {
  context_id = "c1";
  text = "The bridge opened.";
  citation_eligible = true;
  selected_chunk_id = "k1";
  text_sha256 = "";
}

abbrev gazette : Source
gazette = record {
  source_id = "s1";
  url = text "https://gazette.example/bridge";
  title = "Bridge";
  relationship_to_origin = "INDEPENDENT";
  document_provenance = none;
  contexts = some report ∷ none ∷ [];
}

abbrev retrieved : Retrieved
retrieved = none ∷ some gazette ∷ []

abbrev claims : Claims
claims =
    some (record { context_id = " c1 "; supports = some true; reason = "It says so." })
    ∷ some (record { context_id = "c9"; supports = some true; reason = "" })
    ∷ []

abbrev tainted : Links
tainted = record {
  url = text "not a link";
  url_text = none;
  source_url = null;
  source_url_text = none;
}

sanitize_is_safe_example :
    IsSafeLink parser (sanitize_evidence_item parser tainted).url
    × IsSafeLink parser (sanitize_evidence_item parser tainted).source_url
    × (sanitize_evidence_item parser (sanitize_evidence_item parser tainted)
        ≡ sanitize_evidence_item parser tainted)
sanitize_is_safe_example = sanitize_is_safe parser tainted

named : ("c1" == "") ≡ false
named = refl

citation_contexts_exact_example :
    (find "c1" (citation_contexts retrieved).indexed ≡ only (keep (cites "c1") (entries retrieved)))
    × (member "c1" (citation_contexts retrieved).ambiguous
        ≡ ltb 1 (length (keep (cites "c1") (entries retrieved))))
    × (member "c1" (citation_contexts retrieved).uncitable ≡ any (blocks "c1") (entries retrieved))
citation_contexts_exact_example = citation_contexts_exact "c1" retrieved named

grounded_exact_example :
    ((evaluate_evidence_grounding parser "TRUE" claims retrieved true "").evidence_used
      ≡ citations parser retrieved claims)
    × ((evaluate_evidence_grounding parser "TRUE" claims retrieved true "").effective_verdict
        ≡ verdict_true)
unfolding read_verdict strip id_of is_citable is_http_url canonical_evidence_reference
grounded_exact_example = grounded_exact parser "TRUE" claims retrieved

is_true :
    is_decisive
      (evaluate_evidence_grounding parser "TRUE" claims retrieved true "").effective_verdict
    ≡ true
unfolding evaluate_evidence_grounding citation_contexts read_verdict check_claims check_claim strip
    add_sources add_contexts add_context id_of is_citable find check_resolved is_http_url
    canonical_evidence_reference
is_true = refl

decisive_is_supported_example :
    let g = evaluate_evidence_grounding parser "TRUE" claims retrieved true "" in
    (g.effective_verdict ≡ read_verdict "TRUE")
    × IsSupport parser retrieved (is_true_verdict g.effective_verdict) claims
decisive_is_supported_example = decisive_is_supported parser "TRUE" claims retrieved is_true

counts_add_up_example :
    let g = evaluate_evidence_grounding parser "TRUE" claims retrieved true "" in
    (g.verified_count + g.rejected_count ≡ g.claimed_count)
    × (g.verified_count ≡ length g.evidence_used)
    × (g.claimed_count ≡ 2)
    × (length g.issues ≡ g.rejected_count + 0)
unfolding read_verdict strip id_of is_citable is_http_url canonical_evidence_reference
counts_add_up_example = counts_add_up parser "TRUE" claims retrieved
