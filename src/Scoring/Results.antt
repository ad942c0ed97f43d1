-- ===== src/Scoring/Results.antt =====
-- `calculate_order_assertion_results` of scoring.py: the results of all assertions of an order.
use trust_news.Prelude.{
  String, ◌≡◌, refl, ◌∙◌, ap, ◌||◌, Option, none, some, List, [], ◌∷◌, ◌++◌, map, arith, ◌==◌,
  eq_iff, if◌then◌else◌,
}
use trust_news.Prelude.Dict.{lookup, keys, or_default, is_member, distinct, is_member-distinct}
use trust_news.Scoring.Values.{PyFloat}
use trust_news.Scoring.Weights.{Weights, Config}
use trust_news.Scoring.Consensus.{
  AssertionResult, Responses, insert, sorted_by_key, calculate_assertion_result,
}

-- An order, as far as scoring reads it. Every assertion has its `idAssertion`.
pub record ScoredOrder (P : PyFloat) : Type 0 where
  pub validations : List (String × Responses P)
  pub assertion_ids : List String

abbrev keyed : List String → List (String × Unit {0})
keyed = map (λ k. (k, tt))

-- `sorted(set(ids))`.
unfoldable pub sorted_ids : List String → List String
unfolding sorted_by_key distinct
sorted_ids ids = keys (sorted_by_key (keyed (distinct ids)))

module _ (P : PyFloat) where
  abbrev pub all_ids : ScoredOrder P → List String
  all_ids order = keys order.validations ++ order.assertion_ids

  unfoldable pub calculate_order_assertion_results :
      ScoredOrder P → (String → Option (Config P)) → Weights P → List (String × AssertionResult P)
  unfolding sorted_ids lookup calculate_assertion_result
  calculate_order_assertion_results order get_cached weights =
      map
        (λ aid. (
          aid,
          calculate_assertion_result P aid (or_default (lookup aid order.validations) []) get_cached
              weights,
        ))
        (sorted_ids (all_ids order))

is_member-insert :
    (k : String) (x : String × Unit {0}) (l : List (String × Unit {0}))
    → is_member k (keys (insert x l)) ≡ (x.0 == k || is_member k (keys l))
unfolding insert is_member
is_member-insert k x [] = ground arith
is_member-insert k x (y ∷ l) = ground (arith, is_member-insert k x l)

is_member-sorted :
    (k : String) (l : List String) → is_member k (keys (sorted_by_key (keyed l))) ≡ is_member k l
unfolding sorted_by_key is_member
is_member-sorted k [] = refl
is_member-sorted k (x ∷ l) =
    ground (arith, is_member-sorted k l, is_member-insert k (x, tt) (sorted_by_key (keyed l)))

lookup-map :
    {A : Type 0} (f : String → A) (k : String) (l : List String)
    → lookup k (map (λ j. (j, f j)) l) ≡ (if is_member k l then some (f k) else none)
unfolding lookup is_member
lookup-map f k [] = refl
lookup-map f k (j ∷ l) = ground (arith, eq_iff j k, lookup-map f k l)

-- The results have an entry for every assertion that the order lists or has validations of, and no
-- other: the result of that assertion's validations, or of none where nothing is stored.
pub every_assertion_has_its_result :
    (P : PyFloat) (order : ScoredOrder P) (get_cached : String → Option (Config P))
    (weights : Weights P) (k : String)
    → lookup k (calculate_order_assertion_results P order get_cached weights) ≡ (
        if is_member k (all_ids P order)
        then some (
            calculate_assertion_result P k
              (or_default (lookup k order.validations) [])
              get_cached
              weights)
        else none)
unfolding calculate_order_assertion_results sorted_ids
every_assertion_has_its_result P order get_cached weights k =
    let ids = all_ids P order in
    let result = λ (aid : String).
      calculate_assertion_result P aid (or_default (lookup aid order.validations) []) get_cached
        weights in
    lookup-map result k (sorted_ids ids)
    ∙ ap (λ b. if b then some (result k) else none)
        (is_member-sorted k (distinct ids) ∙ is_member-distinct k ids)
