-- ===== src/Orders/Registration.antt =====
-- What a registration on the chain makes an order wait for.
use trust_news.Prelude.{
  String, ◌≡◌, refl, ◌∙◌, ap, false, Option, some, List, [], ◌∷◌, map, arith, length, int_of_text,
}
use trust_news.Prelude.Int.{ℤ}
use trust_news.Prelude.Dict.{lookup, is_member, distinct, difference}
use trust_news.Scoring.Values.{PyFloat}
use trust_news.Scoring.Consensus.{is_empty}
use trust_news.Orders.Model.{
  validation_pending, Assertion, Order, RegisteredAssertion, Registration,
}
use trust_news.Orders.World.{World, get_order_doc}
use trust_news.Orders.Counting.{missing_of, total_pending}
use trust_news.Orders.Publication.{
  addresses_of, assertions_of, validator_info, addresses_total, registered, register_on,
  register_parsed, blockchain_registered,
}
use trust_news.Orders.Accounting.{get-own-update}

distinct-distinct : (xs : List String) → distinct (distinct xs) ≡ distinct xs
unfolding distinct is_member
distinct-distinct [] = refl
distinct-distinct (x ∷ xs) = ground (arith, distinct-distinct xs)

difference-nil : (xs : List String) → difference xs [] ≡ xs
unfolding difference is_member
difference-nil [] = refl
difference-nil (x ∷ xs) = ap (λ l. x ∷ l) (difference-nil xs)

missing_of-info :
    (P : PyFloat) (canonical : List Assertion) (a : RegisteredAssertion)
    → missing_of {P = P} (validator_info canonical a) []
      ≡ (validator_info canonical a).validator_addresses
unfolding missing_of validator_info lookup
missing_of-info P canonical a =
    let all = addresses_of a.validator_addresses in
    difference-nil (distinct (distinct all)) ∙ distinct-distinct all

addresses_total-exact :
    (P : PyFloat) (canonical : List Assertion) (items : List RegisteredAssertion)
    → addresses_total (map (validator_info canonical) items)
      ≡ total_pending {P = P} (map (validator_info canonical) items) []
unfolding addresses_total total_pending
addresses_total-exact P canonical [] = refl
addresses_total-exact P canonical (a ∷ rest) =
    omega (arith, ap length (missing_of-info P canonical a), addresses_total-exact P canonical rest)

named-infos :
    (canonical : List Assertion) (items : List RegisteredAssertion)
    → map (λ v. v.id_assertion) (map (validator_info canonical) items)
      ≡ map (λ a. a.id_assertion) items
unfolding validator_info
named-infos canonical [] = refl
named-infos canonical (a ∷ rest) = ap (λ l. a.id_assertion ∷ l) (named-infos canonical rest)

listed-infos :
    (canonical : List Assertion) (items : List RegisteredAssertion)
    → map (λ v. v.validator_addresses) (map (validator_info canonical) items)
      ≡ map (λ a. distinct (addresses_of a.validator_addresses)) items
unfolding validator_info
listed-infos canonical [] = refl
listed-infos canonical (a ∷ rest) =
    ap (λ l. distinct (addresses_of a.validator_addresses) ∷ l) (listed-infos canonical rest)

module _ {P : PyFloat} where
  -- The order after a registration, against the order before.
  pub record IsRegistered (reg : Registration) (post_id : ℤ) (before : Order P)
      (found : Option (Order P)) : Type 0 where
    pub after : Order P
    pub same : found ≡ some after
    pub addresses :
        map (λ v. v.validator_addresses) after.validators
        ≡ map (λ a. distinct (addresses_of a.validator_addresses)) reg.assertions
    pub pending : after.validators_pending ≡ total_pending {P = P} after.validators []
    pub status : after.status ≡ validation_pending
    pub numbered : after.post_id ≡ some post_id
    pub kept : after.validations ≡ before.validations
    pub named :
        map (λ v. v.id_assertion) after.validators ≡ map (λ a. a.id_assertion) reg.assertions

  -- A registration with a numeric post id and at least one assertion makes its order pending and
  -- gives it the post id, with an entry for each assertion of the registration, in their order, that
  -- has the distinct addresses of the validators registered for it. The pending count is the number
  -- of these over all entries, as if none had answered yet; the responses that are recorded stay.
  pub registration_waits_for_all :
      (order_id : String) (reg : Registration) (post_id : ℤ) (w : World P) (doc : Order P)
      → int_of_text reg.post_id ≡ some post_id
      → is_empty reg.assertions ≡ false
      → get_order_doc w order_id ≡ some doc
      → IsRegistered reg post_id doc (get_order_doc (blockchain_registered order_id reg w) order_id)
  unfolding blockchain_registered register_parsed register_on registered
  registration_waits_for_all order_id reg post_id w doc number some_left found = record {
    after = registered reg post_id (assertions_of doc.document) doc;
    same = rw (number, some_left, found) (get-own-update order_id _ w (some doc) found);
    addresses = listed-infos (assertions_of doc.document) reg.assertions;
    pending = addresses_total-exact P (assertions_of doc.document) reg.assertions;
    status = refl;
    numbered = refl;
    kept = refl;
    named = named-infos (assertions_of doc.document) reg.assertions;
  }
