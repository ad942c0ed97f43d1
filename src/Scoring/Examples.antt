-- ===== src/Scoring/Examples.antt =====
-- Scoring at small inputs, over the fixed-point numbers.
use mathlib.Core.Bool.{false≢true}
use mathlib.Core.List.{Permᴰ}
use trust_news.Prelude.{
  String, ◌≡◌, refl, sym, ◌∙◌, ◌≢◌, false, Option, none, some, [], ◌∷◌, ◌==◌, eq_iff, text_leb,
  keep,
}
use trust_news.Prelude.Int.{pos, ◌+ℤ◌, ◌-ℤ◌}
use trust_news.Scoring.Values.{null, int, text}
use trust_news.Scoring.Weights.{
  Verdict, verdict_true, verdict_false, verdict_unknown, Config, WeightSnapshot,
  validation_weight_snapshot,
}
use trust_news.Scoring.Detail.{Fields, Validation, validation_weight_detail}
use trust_news.Scoring.Consensus.{
  Responses, AssertionResult, true_weight_exceeds_false_weight, weighted_majority, is_completed,
  details_of, sorted_by_key, calculate_assertion_result,
}
use trust_news.Scoring.Order.{HasDistinctKeys, calculate_assertion_result-perm}
use trust_news.Scoring.Verdicts.{IsMajority, tally, verdict_iff}
use trust_news.Scoring.Snapshot.{with_snapshot, snapshot_is_final}
use trust_news.Scoring.Errors.{only_completed_count}
use trust_news.Scoring.Neutral.{exchange_all, opposite, exchange_decides_opposite}
use trust_news.Prelude.Dict.{lookup, is_member}
use trust_news.Scoring.Results.{
  ScoredOrder, calculate_order_assertion_results, every_assertion_has_its_result,
}
use trust_news.Scoring.Fixed.{fixed, fixed-laws}

abbrev blank : Fields fixed
blank = record {
  validator_config = none;
  validator_type = null;
  validator_type_weight = none;
  reputation_at_validation = none;
  effective_weight = none;
  policy_version = "";
  approval = none;
  sources = [];
  sources_declared = [];
  evidence_used = [];
  evidence_validation = none;
}

abbrev rag : Config fixed
rag = record {
  validator_type = int (pos 3);
  config_type = null;
  reputation = some (int (pos 1));
  alias = "rag";
}

abbrev memory : Config fixed
memory = record {
  validator_type = text "LLM_MEMORY_VALIDATION";
  config_type = null;
  reputation = none;
  alias = "memory";
}

abbrev validation : Config fixed → String → String → Validation fixed
validation cfg approval status = record {
  own = record blank { validator_config = some cfg; approval = some (text approval) };
  payload = blank;
  execution_status = status;
  text = "";
}

abbrev no_cache : String → Option (Config fixed)
no_cache k = none

abbrev responses : Responses fixed
responses =
    ("0xb", validation memory "FALSE" "COMPLETED")
    ∷ ("0xc", validation rag "FALSE" "ERROR")
    ∷ ("0xa", validation rag "TRUE" "COMPLETED")
    ∷ []

abbrev reordered : Responses fixed
reordered =
    ("0xc", validation rag "FALSE" "ERROR")
    ∷ ("0xb", validation memory "FALSE" "COMPLETED")
    ∷ ("0xa", validation rag "TRUE" "COMPLETED")
    ∷ []

abbrev scored : Responses fixed → AssertionResult fixed
scored rs = calculate_assertion_result fixed "1" rs no_cache []

scored_responses :
    ((scored responses).decision ≡ record {
      verdict = verdict_true;
      decision_status = weighted_majority;
      reason_code = true_weight_exceeds_false_weight;
    })
    × ((scored responses).excluded_validators ≡ "0xc" ∷ [])
unfolding calculate_assertion_result ◌+ℤ◌ ◌-ℤ◌ text_leb
scored_responses = (refl, refl)

distinct : (s t : String) → (s == t) ≡ false → s ≢ t
distinct s t h e = false≢true (sym h ∙ (eq_iff s t).1 e)

responses-HasDistinctKeys : HasDistinctKeys responses
responses-HasDistinctKeys = (
  (distinct "0xb" "0xc" refl, (distinct "0xb" "0xa" refl, tt)),
  ((distinct "0xc" "0xa" refl, tt), (tt, tt)),
)

calculate_assertion_result-perm_example : scored responses ≡ scored reordered
calculate_assertion_result-perm_example =
    calculate_assertion_result-perm fixed "1" no_cache [] (Permᴰ.swap refl refl)
      responses-HasDistinctKeys

abbrev counted_weight : Verdict → fixed.Float
counted_weight v = tally fixed v fixed.zero (details_of fixed (sorted_by_key responses) no_cache [])

scored_true : (scored responses).decision.verdict ≡ verdict_true
unfolding calculate_assertion_result ◌+ℤ◌ ◌-ℤ◌ text_leb
scored_true = refl

verdict_iff_example :
    IsMajority fixed
      (counted_weight verdict_true)
      (counted_weight verdict_false)
      (counted_weight verdict_true)
      (counted_weight verdict_false)
      (counted_weight verdict_unknown)
verdict_iff_example = ((verdict_iff fixed fixed-laws "1" responses no_cache []).0.0 scored_true).1

abbrev snapshot : WeightSnapshot fixed
snapshot = validation_weight_snapshot fixed (some memory) []

only_completed_count_example :
    (scored (keep (is_completed fixed) responses)).details ≡ (scored responses).details
only_completed_count_example = (only_completed_count fixed "1" responses no_cache []).4

-- The validator is trusted less, and its type reconfigured, after the validation was stored.
abbrev later : String → Option (Config fixed)
later k = some (record memory { reputation = some (int (pos 0)) })

snapshot_is_final_example :
    (validation_weight_detail fixed "0xb"
      (with_snapshot fixed snapshot (validation rag "TRUE" "COMPLETED"))
      later
      (("LLM_MEMORY_VALIDATION", int (pos 9)) ∷ [])).effective_weight
    ≡ snapshot.effective_weight
snapshot_is_final_example =
    (snapshot_is_final fixed fixed-laws (some memory) [] (validation rag "TRUE" "COMPLETED") "0xb"
      later (("LLM_MEMORY_VALIDATION", int (pos 9)) ∷ [])).3

exchange_decides_opposite_example :
    (scored (exchange_all fixed responses)).decision.verdict
    ≡ opposite (scored responses).decision.verdict
exchange_decides_opposite_example =
    (exchange_decides_opposite fixed fixed-laws "1" responses no_cache []).0

abbrev order : ScoredOrder fixed
order = record { validations = ("1", responses) ∷ []; assertion_ids = "1" ∷ "2" ∷ [] }

every_assertion_has_its_result_example :
    lookup "2" (calculate_order_assertion_results fixed order no_cache [])
    ≡ some (calculate_assertion_result fixed "2" [] no_cache [])
unfolding lookup is_member
every_assertion_has_its_result_example = every_assertion_has_its_result fixed order no_cache [] "2"
