-- ===== src/Scoring/Order.antt =====
-- The sort that scoring.py begins with, and why the order of the responses does not matter.
use mathlib.Core.List.{Permᴰ}
use trust_news.Prelude.{
  String, ◌≡◌, ◌≢◌, refl, sym, ap, ◌∙◌, subst, Option, List, [], ◌∷◌, arith, text_leb-total,
  text_leb_trans, text_leb-antisym,
}
use trust_news.Scoring.Values.{PyFloat}
use trust_news.Scoring.Weights.{Weights, Config}
use trust_news.Scoring.Consensus.{
  Responses, insert, sorted_by_key, result_of_sorted, calculate_assertion_result,
}

module _ {ℓ} {V : Type ℓ} where
  abbrev pub Fresh : String → List (String × V) → Type 0
  Fresh k [] = Unit
  Fresh k (x ∷ rest) = (k ≢ x.0) × Fresh k rest

  -- No two entries have one key, as in a dict.
  abbrev pub HasDistinctKeys : List (String × V) → Type 0
  HasDistinctKeys [] = Unit
  HasDistinctKeys (x ∷ rest) = Fresh x.0 rest × HasDistinctKeys rest

  insert_comm :
      (x y : String × V) (l : List (String × V))
      → x.0 ≢ y.0
      → insert x (insert y l) ≡ insert y (insert x l)
  unfolding insert
  insert_comm x y [] h =
      ground (arith, text_leb-total x.0 y.0, text_leb-antisym x.0 y.0, text_leb-total y.0 x.0)
  insert_comm x y (z ∷ l) h = ground (
    arith,
    text_leb-total x.0 y.0,
    text_leb-antisym x.0 y.0,
    text_leb-total y.0 x.0,
    text_leb_trans x.0 y.0 z.0,
    text_leb_trans y.0 x.0 z.0,
    text_leb-total x.0 z.0,
    text_leb-total y.0 z.0,
    text_leb_trans y.0 z.0 x.0,
    text_leb_trans x.0 z.0 y.0,
    insert_comm x y l,
  )

  Fresh-perm : (k : String) {l m : List (String × V)} → Permᴰ l m → Fresh k l → Fresh k m
  Fresh-perm k Permᴰ.nil h = h
  Fresh-perm k (Permᴰ.cons e p) h = ((λ q. h.0 (q ∙ ap (λ x. x.0) (sym e))), Fresh-perm k p h.1)
  Fresh-perm k (Permᴰ.swap e f) h =
      ((λ q. h.1.0 (q ∙ ap (λ x. x.0) (sym f))), ((λ q. h.0 (q ∙ ap (λ x. x.0) (sym e))), h.1.1))
  Fresh-perm k (Permᴰ.trans p q) h = Fresh-perm k q (Fresh-perm k p h)

  HasDistinctKeys-perm :
      {l m : List (String × V)} → Permᴰ l m → HasDistinctKeys l → HasDistinctKeys m
  HasDistinctKeys-perm Permᴰ.nil h = h
  HasDistinctKeys-perm (Permᴰ.cons {l₂ = m} e p) h =
      (subst (λ x. Fresh x.0 m) e (Fresh-perm _ p h.0), HasDistinctKeys-perm p h.1)
  HasDistinctKeys-perm (Permᴰ.swap {l = l} e f) h = (
    (
      (λ q. h.0.0 (ap (λ x. x.0) e ∙ sym q ∙ ap (λ x. x.0) (sym f))),
      subst (λ x. Fresh x.0 l) f h.1.0,
    ),
    (subst (λ x. Fresh x.0 l) e h.0.1, h.1.1),
  )
  HasDistinctKeys-perm (Permᴰ.trans p q) h = HasDistinctKeys-perm q (HasDistinctKeys-perm p h)

  -- Two orders of the same entries are sorted to one list.
  pub sorted_by_key-perm :
      {l m : List (String × V)} → Permᴰ l m → HasDistinctKeys l → sorted_by_key l ≡ sorted_by_key m
  unfolding sorted_by_key
  sorted_by_key-perm Permᴰ.nil h = refl
  sorted_by_key-perm (Permᴰ.cons {b = b} {l₁ = l₁} e p) h =
      ap (λ x. insert x (sorted_by_key l₁)) e ∙ ap (insert b) (sorted_by_key-perm p h.1)
  sorted_by_key-perm (Permᴰ.swap {a = a} {b = b} {a' = a'} {l = l} e f) h =
      insert_comm a b (sorted_by_key l) h.0.0
      ∙ ap (λ x. insert x (insert a (sorted_by_key l))) f
      ∙ ap (λ x. insert a' (insert x (sorted_by_key l))) e
  sorted_by_key-perm (Permᴰ.trans p q) h =
      sorted_by_key-perm p h ∙ sorted_by_key-perm q (HasDistinctKeys-perm p h)

-- The order in which a dict lists the responses has no effect on any part of the result.
pub calculate_assertion_result-perm :
    (P : PyFloat) (assertion_id : String) {responses other : Responses P}
    (get_cached : String → Option (Config P)) (weights : Weights P)
    → Permᴰ responses other
    → HasDistinctKeys responses
    → calculate_assertion_result P assertion_id responses get_cached weights
      ≡ calculate_assertion_result P assertion_id other get_cached weights
unfolding calculate_assertion_result
calculate_assertion_result-perm P assertion_id get_cached weights p distinct =
    ap (λ l. result_of_sorted P assertion_id l get_cached weights) (sorted_by_key-perm p distinct)
