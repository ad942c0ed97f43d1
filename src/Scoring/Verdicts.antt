-- ===== src/Scoring/Verdicts.antt =====
-- When an assertion gets a decided verdict: the weights that must stand behind it.
use trust_news.Prelude.{
  String, ◌≡◌, refl, sym, subst, ◌∙◌, ap, ◌↔◌, Bool, true, false, not, Option, List, [], ◌∷◌, arith,
  if◌then◌else◌,
}
use trust_news.Scoring.Values.{PyFloat, FloatLaws, float}
use trust_news.Scoring.Weights.{
  Verdict, verdict_true, verdict_false, verdict_unknown, Weights, Config, safe_non_negative_number,
}
use trust_news.Scoring.Safe.{IsWeight, zero-IsWeight}
use trust_news.Scoring.Detail.{Detail}
use trust_news.Scoring.Consensus.{
  Responses, no_weight, all_failed, RawWeight, add_vote, add_votes, decide, share, is_empty,
  details_of, sorted_by_key, calculate_assertion_result,
}

abbrev pub same_verdict : Verdict → Verdict → Bool
same_verdict verdict_true verdict_true = true
same_verdict verdict_false verdict_false = true
same_verdict verdict_unknown verdict_unknown = true
same_verdict _ _ = false

module _ (P : PyFloat) where
  -- One more vote, which counts if it is for the verdict and does not overflow the sum.
  vote : Verdict → P.Float → Verdict → P.Float → P.Float
  unfolding safe_non_negative_number
  vote v acc result x =
      if same_verdict v result then safe_non_negative_number P (float (P.add acc x)) acc else acc

  -- The weight of one verdict among the details, added up in their order.
  pub tally : Verdict → P.Float → List (Detail P) → P.Float
  tally v acc [] = acc
  tally v acc (d ∷ rest) = tally v (vote v acc d.result d.effective_weight) rest

  vote-IsWeight :
      (v : Verdict) (acc : P.Float) (result : Verdict) (x : P.Float)
      → IsWeight P acc
      → IsWeight P (vote v acc result x)
  unfolding vote
  vote-IsWeight v acc result x h = ground arith

  pub tally-IsWeight :
      (v : Verdict) (ds : List (Detail P)) (acc : P.Float)
      → IsWeight P acc
      → IsWeight P (tally v acc ds)
  unfolding tally
  tally-IsWeight v [] acc h = h
  tally-IsWeight v (d ∷ rest) acc h =
      tally-IsWeight v rest (vote v acc d.result d.effective_weight)
        (vote-IsWeight v acc d.result d.effective_weight h)

  abbrev tallies : RawWeight P → List (Detail P) → RawWeight P
  tallies w ds = record {
    true_weight = tally verdict_true w.true_weight ds;
    false_weight = tally verdict_false w.false_weight ds;
    unknown_weight = tally verdict_unknown w.unknown_weight ds;
  }

  add_vote-eq-vote :
      (w : RawWeight P) (result : Verdict) (x : P.Float)
      → add_vote P w result x ≡ record {
        true_weight = vote verdict_true w.true_weight result x;
        false_weight = vote verdict_false w.false_weight result x;
        unknown_weight = vote verdict_unknown w.unknown_weight result x;
      }
  unfolding add_vote vote
  add_vote-eq-vote w verdict_true x = refl
  add_vote-eq-vote w _ x = refl

  pub add_votes-eq-tally :
      (w : RawWeight P) (ds : List (Detail P)) → add_votes P w ds ≡ tallies w ds
  unfolding add_votes tally
  add_votes-eq-tally w [] = refl
  add_votes-eq-tally w (d ∷ rest) =
      ap (λ w'. add_votes P w' rest) (add_vote-eq-vote w d.result d.effective_weight)
      ∙ add_votes-eq-tally
          (record {
            true_weight = vote verdict_true w.true_weight d.result d.effective_weight;
            false_weight = vote verdict_false w.false_weight d.result d.effective_weight;
            unknown_weight = vote verdict_unknown w.unknown_weight d.result d.effective_weight;
          })
          rest

  pub add_votes-IsWeight :
      (w : RawWeight P) (ds : List (Detail P))
      → IsWeight P w.true_weight
      → IsWeight P w.false_weight
      → IsWeight P (add_votes P w ds).true_weight × IsWeight P (add_votes P w ds).false_weight
  add_votes-IsWeight w ds ht hf =
      subst (λ w'. IsWeight P w'.true_weight × IsWeight P w'.false_weight)
        (sym (add_votes-eq-tally w ds))
        (
          tally-IsWeight verdict_true ds w.true_weight ht,
          tally-IsWeight verdict_false ds w.false_weight hf,
        )

  -- The weights behind a decided verdict: they make up more than half of all the weight that was
  -- given, and the winner's weight passes the loser's by more than the epsilon.
  pub record IsMajority (winner loser true_weight false_weight unknown_weight : P.Float)
      : Type 0 where
    pub decisive : P.eq (P.add true_weight false_weight) P.zero ≡ false
    pub covered :
        P.le
          (share P
            (P.add true_weight false_weight)
            (P.add (P.add true_weight false_weight) unknown_weight))
          P.half
        ≡ false
    pub apart : P.le (P.abs (P.sub true_weight false_weight)) P.tie_epsilon ≡ false
    pub heavier : P.lt loser winner ≡ true

  module _ (laws : FloatLaws P) (w : RawWeight P) (ht : IsWeight P w.true_weight)
      (hf : IsWeight P w.false_weight) where
    open laws use {eq_lt_trans, lt_asymm, finite_total, eq_within_epsilon}

    abbrev MajorityFor : P.Float → P.Float → Type 0
    MajorityFor winner loser = IsMajority winner loser w.true_weight w.false_weight w.unknown_weight

    decide-true_iff :
        (any_details all_failed : Bool)
        → ((decide P any_details all_failed w).verdict ≡ verdict_true)
          ↔ ((any_details ≡ true) × MajorityFor w.true_weight w.false_weight)
    unfolding decide
    decide-true_iff any_details all_failed = (
      (λ h. ground (arith, eq_lt_trans w.false_weight P.zero w.true_weight)),
      (λ h. ground (
        arith,
        eq_lt_trans w.true_weight P.zero w.false_weight,
        lt_asymm w.true_weight w.false_weight,
      )),
    )

    decide-false_iff :
        (any_details all_failed : Bool)
        → ((decide P any_details all_failed w).verdict ≡ verdict_false)
          ↔ ((any_details ≡ true) × MajorityFor w.false_weight w.true_weight)
    unfolding decide
    decide-false_iff any_details all_failed = (
      (λ h. ground (
        arith,
        eq_lt_trans w.true_weight P.zero w.false_weight,
        finite_total w.false_weight w.true_weight hf.finite ht.finite,
        eq_within_epsilon w.true_weight w.false_weight ht.finite,
      )),
      (λ h. ground (
        arith,
        eq_lt_trans w.false_weight P.zero w.true_weight,
        lt_asymm w.true_weight w.false_weight,
      )),
    )

module _ (P : PyFloat) (laws : FloatLaws P) (assertion_id : String) (responses : Responses P)
    (get_cached : String → Option (Config P)) (weights : Weights P) where
  abbrev counted : List (Detail P)
  counted = details_of P (sorted_by_key responses) get_cached weights

  abbrev total : Verdict → P.Float
  total v = tally P v P.zero counted

  abbrev Majority : P.Float → P.Float → Type 0
  Majority winner loser =
      IsMajority P winner loser (total verdict_true) (total verdict_false) (total verdict_unknown)

  abbrev verdict_of : Verdict
  verdict_of =
      (calculate_assertion_result P assertion_id responses get_cached weights).decision.verdict

  total-IsWeight : (v : Verdict) → IsWeight P (total v)
  total-IsWeight v = tally-IsWeight P v counted P.zero (zero-IsWeight P laws)

  abbrev some_completed : Bool
  some_completed = not (is_empty counted)

  abbrev none_left : Bool
  none_left = all_failed P (sorted_by_key responses)

  decision-eq :
      (calculate_assertion_result P assertion_id responses get_cached weights).decision
      ≡ decide P some_completed none_left (tallies P (no_weight P) counted)
  unfolding calculate_assertion_result
  decision-eq = ap (decide P some_completed none_left) (add_votes-eq-tally P (no_weight P) counted)

  -- The verdict is TRUE exactly when a validation was completed and the total of the TRUE weights
  -- is a majority over that of the FALSE weights; and FALSE exactly when one was completed and the
  -- total of the FALSE weights is a majority over that of the TRUE weights.
  pub verdict_iff :
      ((verdict_of ≡ verdict_true)
        ↔ ((some_completed ≡ true) × Majority (total verdict_true) (total verdict_false)))
      × ((verdict_of ≡ verdict_false)
          ↔ ((some_completed ≡ true) × Majority (total verdict_false) (total verdict_true)))
  verdict_iff =
      let t = Majority (total verdict_true) (total verdict_false) in
      let f = Majority (total verdict_false) (total verdict_true) in
      subst
        (λ d.
          ((d.verdict ≡ verdict_true) ↔ ((some_completed ≡ true) × t))
          × ((d.verdict ≡ verdict_false) ↔ ((some_completed ≡ true) × f)))
        (sym decision-eq)
        (
          decide-true_iff P laws (tallies P (no_weight P) counted) (total-IsWeight verdict_true)
              (total-IsWeight verdict_false) some_completed none_left,
          decide-false_iff P laws (tallies P (no_weight P) counted) (total-IsWeight verdict_true)
              (total-IsWeight verdict_false) some_completed none_left,
        )
