-- ===== src/Worker/Support.antt =====
-- What a verdict of a documentary validator rests on.
use trust_news.Prelude.{◌≡◌, inl, inr, refl, ◌∙◌, String, true, false, Option, List, Bool-cases}
use trust_news.Scoring.Weights.{
  Verdict, verdict_true, verdict_false, verdict_unknown, rag_evidence_validation,
}
use trust_news.Scoring.Consensus.{is_decisive}
use trust_news.Evidence.Url.{UrlParser}
use trust_news.Evidence.Contexts.{Retrieved}
use trust_news.Evidence.Claims.{read_verdict}
use trust_news.Evidence.Grounding.{evaluate_evidence_grounding, is_true_verdict}
use trust_news.Evidence.Support.{IsSupport, decisive_is_supported}
use trust_news.Worker.Circuit.{CallResult}
use trust_news.Worker.Evidences.{
  Fetched, fetched, not_fetched, Strategy, Route, has_citable_evidence, is_automatic_validator,
  uses_evidence_search, uses_online_search, fetch_evidences_for_payload,
}
use trust_news.Worker.Verdicts.{
  Answer, LlmReply, request_failed, not_parsed, parsed, Judgement, judged, failed_at, Validated,
  parsed_verdict, verdict_name, judge, validate_fetched, validate_payload_v2, claimed_evidence,
}

read_verdict-verdict_name : (v : Verdict) → read_verdict (verdict_name v) ≡ v
unfolding read_verdict
read_verdict-verdict_name verdict_true = refl
read_verdict-verdict_name verdict_false = refl
read_verdict-verdict_name verdict_unknown = refl

module _ (parser : UrlParser) (evidences : Retrieved) where
  -- A verdict that is not TRUE or FALSE, or is the model's own, supported by one of its citations of
  -- the evidences; a failure has none.
  pub data Rests (reply : LlmReply) (v : Verdict) : Type 0 where
    undecided : is_decisive v ≡ false → Rests reply v
    supported :
        (a : Answer)
        → reply ≡ parsed a
        → v ≡ parsed_verdict a.resultado
        → IsSupport parser evidences (is_true_verdict v) a.evidence_used
        → Rests reply v

  abbrev pub RestsIfJudged : LlmReply → Judgement → Type 0
  RestsIfJudged reply (failed_at stage) = Unit
  RestsIfJudged reply (judged j) = Rests reply j.verdict

  answer-Rests :
      (a : Answer)
      → Rests
          (parsed a)
          (evaluate_evidence_grounding parser
            (verdict_name (parsed_verdict a.resultado))
            a.evidence_used
            evidences
            true
            "").effective_verdict
  answer-Rests a =
      let name = verdict_name (parsed_verdict a.resultado) in
      let g = evaluate_evidence_grounding parser name a.evidence_used evidences true "" in
      elim (Bool-cases (is_decisive g.effective_verdict)) [
        | inl e ↦
            let (own, support) = decisive_is_supported parser name a.evidence_used evidences e in
            supported a refl (own ∙ read_verdict-verdict_name (parsed_verdict a.resultado)) support
        | inr e ↦ undecided e
      ]

  judge-RestsIfJudged :
      (reply : LlmReply)
      → RestsIfJudged reply (judge parser rag_evidence_validation evidences reply)
  unfolding judge uses_evidence_search claimed_evidence evaluate_evidence_grounding
      uses_online_search
  judge-RestsIfJudged request_failed = tt
  judge-RestsIfJudged not_parsed = tt
  judge-RestsIfJudged (parsed a) = answer-Rests a

-- A verdict, if there is one, is UNKNOWN.
abbrev pub IsUnknown : Judgement → Type 0
IsUnknown (failed_at stage) = Unit
IsUnknown (judged j) = j.verdict ≡ verdict_unknown

module _ (parser : UrlParser) (llm : Retrieved → LlmReply) where
  -- The model was called, with evidences that were fetched and hold an eligible context, and a verdict
  -- rests on its answer; or it was not, and the verdict, if there is one, is UNKNOWN.
  pub data IsJustified (f : Fetched) (v : Validated) : Type 0 where
    called :
        (evidences : Retrieved)
        → v.asked ≡ true
        → f ≡ fetched evidences false
        → has_citable_evidence evidences ≡ true
        → RestsIfJudged parser evidences (llm evidences) v.judgement
        → IsJustified f v
    not_called : v.asked ≡ false → IsUnknown v.judgement → IsJustified f v

  validate_fetched-IsJustified :
      (f : Fetched) → IsJustified f (validate_fetched parser rag_evidence_validation llm f)
  unfolding validate_fetched uses_evidence_search
  validate_fetched-IsJustified (not_fetched stage) = not_called refl tt
  validate_fetched-IsJustified (fetched evidences true) = not_called refl refl
  validate_fetched-IsJustified (fetched evidences false) =
      elim (Bool-cases (has_citable_evidence evidences)) [
        | inl e ↦
            rw e
              (called evidences refl refl e (judge-RestsIfJudged parser evidences (llm evidences)))
        | inr e ↦ rw e (not_called refl refl)
      ]

-- A documentary validator calls the model only with fetched evidences that hold an eligible context.
-- A TRUE or FALSE that it answers then is the model's own, and one of the model's citations supports
-- it: it cites, by an id that stands for exactly one citable context of these evidences, a source with
-- a web address that is not the document under test. Without the call it answers UNKNOWN or fails.
pub documentary_verdict-IsJustified :
    (parser : UrlParser) (strategy : Option Strategy) (route : Route)
    (search : List String → CallResult Retrieved) (llm : Retrieved → LlmReply)
    → IsJustified parser llm
        (fetch_evidences_for_payload rag_evidence_validation strategy route search)
        (validate_payload_v2 parser rag_evidence_validation strategy route search llm)
unfolding validate_payload_v2 is_automatic_validator
documentary_verdict-IsJustified parser strategy route search llm =
    validate_fetched-IsJustified parser llm
      (fetch_evidences_for_payload rag_evidence_validation strategy route search)
