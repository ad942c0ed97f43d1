-- ===== src/Orders/Dispatch.antt =====
-- What dispatching an order in the LIGHT flow sends and stores.
use mathlib.Core.List.{append_assoc, append-nil}
use trust_news.Prelude.{
  concat, ◌+◌, String, ◌≡◌, refl, sym, ◌∙◌, ap, Bool, true, Option, none, some, List, [], ◌∷◌, ◌++◌,
  map, arith, eqb, length, length-append, if◌then◌else◌,
}
use trust_news.Prelude.Dict.{lookup}
use trust_news.Scoring.Values.{PyFloat}
use trust_news.Orders.Model.{
  no_validators_available, validation_pending, Assertion, Document, ValidatorInfo, Order,
}
use trust_news.Orders.World.{
  Sent, light_validation_request, Env, World, get_order_doc, update_order, log_event, send,
}
use trust_news.Orders.Dispatches.{Dispatch, light_info, nothing, add_assertion}
use trust_news.Orders.Generation.{
  send_requests, ids_for, dispatch_all, dispatched, close_dispatch,
  dispatch_light_validation_requests,
}
use trust_news.Orders.Publication.{addresses_total}
use trust_news.Orders.Keeps.{orders-log_event}
use trust_news.Orders.Accounting.{get-own-update}

addresses_total-append :
    (xs ys : List ValidatorInfo)
    → addresses_total (xs ++ ys) ≡ addresses_total xs + addresses_total ys
unfolding addresses_total
addresses_total-append [] ys = omega arith
addresses_total-append (x ∷ xs) ys = omega (arith, addresses_total-append xs ys)

map-append {ℓ κ} :
    {A : Type ℓ} {B : Type κ} (f : A → B) (xs ys : List A) → map f (xs ++ ys) ≡ map f xs ++ map f ys
map-append f [] ys = refl
map-append f (x ∷ xs) ys = ap (λ l. f x ∷ l) (map-append f xs ys)

abbrev ids_of : List ValidatorInfo → List String
ids_of = map (λ v. v.id_assertion)

module _ {P : PyFloat} where
  sent-log_event : (k action : String) (w : World P) → (log_event k action w).sent ≡ w.sent
  unfolding log_event
  sent-log_event k action w = ground arith

  module _ (env : Env P) (accepts : (m : Sent) → env.send_accepted m ≡ true) (k : String) where
    -- Every request is sent, and the orders are as before.
    send_requests-all :
        (a : String) (ids : List String) (w : World P)
        → let r = send_requests env k a ids w in
          (r.1 ≡ true) × (r.0.orders ≡ w.orders) × (length r.0.sent ≡ length w.sent + length ids)
    unfolding send_requests send
    send_requests-all a [] w = (refl, refl, omega arith)
    send_requests-all a (v ∷ rest) w =
        let m = light_validation_request k a v (concat k (concat ":" (concat a (concat ":" v)))) in
        let w' = log_event k "light_validation_request" (send m w) in
        let (all, same, more) = send_requests-all a rest w' in
        let one = length-append w.sent (m ∷ []) in
        rw (accepts m) (
          all,
          same ∙ sym (orders-log_event k "light_validation_request" (send m w)),
          more
              ∙ ap (λ l. length l + length rest)
                  (sent-log_event k "light_validation_request" (send m w))
              ∙ omega (arith, one),
        )

    -- What the loop over the assertions has filled, starting from `d`.
    record IsFilled (d : Dispatch) (items : List Assertion) (w : World P)
        (found : World P × Option Dispatch) : Type 0 where
      filled : Dispatch
      ready : found.1 ≡ some filled
      same_orders : found.0.orders ≡ w.orders
      counted : length found.0.sent + d.total_pending ≡ length w.sent + filled.total_pending
      addresses :
          filled.total_pending + addresses_total d.validators
          ≡ d.total_pending + addresses_total filled.validators
      named : ids_of filled.validators ≡ ids_of d.validators ++ map (λ a. a.assertion_id) items

    IsFilled-step :
        (a : Assertion) (rest : List Assertion) (ids : List String) (d : Dispatch) (w w' : World P)
        (found : World P × Option Dispatch)
        → w'.orders ≡ w.orders
        → length w'.sent ≡ length w.sent + length ids
        → IsFilled (add_assertion a ids d) rest w' found
        → IsFilled d (a ∷ rest) w found
    unfolding add_assertion addresses_total
    IsFilled-step a rest ids d w w' found same more h = record {
      filled = h.filled;
      ready = h.ready;
      same_orders = h.same_orders ∙ same;
      counted = omega (arith, h.counted, more);
      addresses =
          omega (arith, h.addresses, addresses_total-append d.validators (light_info a ids ∷ []));
      named =
          h.named
          ∙ ap (λ l. l ++ map (λ x. x.assertion_id) rest)
              (map-append (λ v. v.id_assertion) d.validators (light_info a ids ∷ []))
          ∙ append_assoc (ids_of d.validators) (a.assertion_id ∷ [])
              (map (λ x. x.assertion_id) rest);
    }

    dispatch_all-IsFilled :
        (items : List Assertion) (health : List (String × Bool)) (d : Dispatch) (w : World P)
        → IsFilled d items w (dispatch_all env k items health d w)
    unfolding dispatch_all
    dispatch_all-IsFilled [] health d w = record {
      filled = d;
      ready = refl;
      same_orders = refl;
      counted = refl;
      addresses = refl;
      named = sym (append-nil (ids_of d.validators));
    }
    dispatch_all-IsFilled (a ∷ rest) health d w =
        let (ids, after) = ids_for env a w health in
        let (all, same, more) = send_requests-all a.assertion_id ids w in
        let w' = (send_requests env k a.assertion_id ids w).0 in
        let h = dispatch_all-IsFilled rest after (add_assertion a ids d) w' in
        rw all (IsFilled-step a rest ids d w w' _ same more h)

  -- The order after dispatching, and what was sent.
  pub record IsDispatched (document : Document) (before w : World P) (found : Option (Order P))
      : Type 0 where
    pub after : Order P
    pub same : found ≡ some after
    pub counted : length w.sent ≡ length before.sent + after.validators_pending
    pub addresses : after.validators_pending ≡ addresses_total after.validators
    pub named : ids_of after.validators ≡ map (λ a. a.assertion_id) document.assertions
    pub status :
        after.status
        ≡ (if eqb after.validators_pending 0 then no_validators_available else validation_pending)

  close-IsDispatched :
      (env : Env P) (accepts : (m : Sent) → env.send_accepted m ≡ true) (k : String)
      (document : Document) (w : World P) (doc : Order P) (r : World P × Option Dispatch)
      → get_order_doc w k ≡ some doc
      → IsFilled env accepts k nothing document.assertions w r
      → IsDispatched document w (close_dispatch k r) (get_order_doc (close_dispatch k r) k)
  unfolding get_order_doc update_order dispatched addresses_total
  close-IsDispatched env accepts k document w doc (w', none) found h =
      absurd (let e = h.ready in cc)
  close-IsDispatched env accepts k document w doc (w', some d) found h =
      let e : d ≡ h.filled = let r = h.ready in cc in
      record {
        after = dispatched d doc;
        same = get-own-update k (dispatched d) w' (some doc) (ap (lookup k) h.same_orders ∙ found);
        counted = omega (arith, h.counted, ap (λ x. x.total_pending) e);
        addresses = omega (
          arith,
          h.addresses,
          ap (λ x. x.total_pending) e,
          ap (λ x. addresses_total x.validators) e,
        );
        named = ap (λ x. ids_of x.validators) e ∙ h.named;
        status = refl;
      }

  -- If Kafka takes every message: an order that is dispatched has an entry for each assertion of its
  -- document, in their order; its pending count is the number of requests that were sent, and of the
  -- addresses in its entries; and its status is NO_VALIDATORS_AVAILABLE if that is zero, and else
  -- VALIDATION_PENDING.
  pub dispatch_counts_requests :
      (env : Env P) (order_id : String) (document : Document) (w : World P) (doc : Order P)
      → ((m : Sent) → env.send_accepted m ≡ true)
      → get_order_doc w order_id ≡ some doc
      → let w' = dispatch_light_validation_requests env order_id document w in
        IsDispatched document w w' (get_order_doc w' order_id)
  unfolding dispatch_light_validation_requests
  dispatch_counts_requests env order_id document w doc accepts found =
      close-IsDispatched env accepts order_id document w doc
        (dispatch_all env order_id document.assertions [] nothing w) found
        (dispatch_all-IsFilled env accepts order_id document.assertions [] nothing w)
