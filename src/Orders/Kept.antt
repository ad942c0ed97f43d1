-- ===== src/Orders/Kept.antt =====
-- Each handler keeps the responses that were recorded before.
use trust_news.Prelude.{
  String, ◌≡◌, refl, sym, ◌∙◌, ap, Bool, true, false, not, Option, none, some, List, arith, eq_iff,
  Bool-cases, inl, inr,
}
use trust_news.Prelude.Dict.{lookup, put, lookup-put}
use trust_news.Scoring.Values.{PyFloat}
use trust_news.Scoring.Weights.{Verdict}
use trust_news.Prelude.Int.{ℤ}
use trust_news.Scoring.Consensus.{is_empty}
use trust_news.Orders.Model.{
  Stored, Validations, Order, Response, ValidatorInfo, Document, Registration, ValidationRequest,
}
use trust_news.Orders.World.{
  register_blockchain, Env, World, LoggedValidation, Quotas, get_order_doc, send,
  update_client_consumed,
}
use trust_news.Orders.Responses.{
  finish, accept, charged, light_read, blockchain_read, charge_validation, light_on_order,
  blockchain_on_order,
}
use trust_news.Orders.Counting.{of_assertion, is_done, record_validation}
use trust_news.Orders.Publication.{
  registered, register_on, register_parsed, handle_blockchain_request, fail_request,
  request_registration, upload_on, request_on,
}
use trust_news.Orders.Process.{}
use trust_news.Orders.Keeps.{
  Keeps, Keeps-refl, Keeps-trans, Keeps-if, Keeps-same, Keeps-update, Keeps-fields, Keeps-log_event,
  Keeps-log_validation, entry,
}
use trust_news.Orders.Model.{}

module _ {P : PyFloat} where
  pub Keeps-handle_blockchain_request :
      (k cid : String) (w : World P) → Keeps w (handle_blockchain_request k cid w)
  unfolding handle_blockchain_request send
  Keeps-handle_blockchain_request k cid w =
      Keeps-trans (Keeps-same refl)
        (Keeps-log_event k "register_blockchain" (send (register_blockchain k cid) w))

  pub Keeps-fail_request :
      (env : Env P) (k : String) (b : Bool) (w : World P) → Keeps w (fail_request env k b w)
  unfolding fail_request
  Keeps-fail_request env k b w = Keeps-fields k _ w (λ o. refl)

  pub Keeps-request_registration :
      (env : Env P) (k cid : String) (d : Option Document) (w : World P)
      → Keeps w (request_registration env k cid d w)
  unfolding request_registration
  Keeps-request_registration env k cid none w = Keeps-fail_request env k true w
  Keeps-request_registration env k cid (some d) w =
      Keeps-if (not d.is_valid) (Keeps-fail_request env k false w) (
        Keeps-if _ (Keeps-fail_request env k true w)
          (Keeps-trans (Keeps-handle_blockchain_request k cid w) (Keeps-fields k _ _ (λ o. refl))))

  pub Keeps-upload_on :
      (env : Env P) (k cid : String) (o : Option (Order P)) (w : World P)
      → Keeps w (upload_on env k cid o w)
  unfolding upload_on
  Keeps-upload_on env k cid none w = Keeps-refl w
  Keeps-upload_on env k cid (some doc) w = Keeps-if _ (Keeps-refl w) (
      Keeps-trans (Keeps-fields k _ w (λ o. refl))
        (Keeps-request_registration env k cid doc.document _))

  pub Keeps-register_on :
      (k : String) (reg : Registration) (n : ℤ) (o : Option (Order P)) (w : World P)
      → Keeps w (register_on k reg n o w)
  unfolding register_on registered
  Keeps-register_on k reg n none w = Keeps-refl w
  Keeps-register_on k reg n (some doc) w = Keeps-fields k _ w (λ o. refl)

  pub Keeps-register_parsed :
      (k : String) (reg : Registration) (n : Option ℤ) (w : World P)
      → Keeps w (register_parsed k reg n w)
  unfolding register_parsed
  Keeps-register_parsed k reg none w = Keeps-refl w
  Keeps-register_parsed k reg (some n) w =
      Keeps-if (is_empty reg.assertions) (Keeps-refl w) (Keeps-register_on k reg n _ w)

  pub Keeps-request_on :
      (k : String) (r : ValidationRequest) (o : Option (Order P)) (w : World P)
      → Keeps w (request_on k r o w)
  unfolding request_on
  Keeps-request_on k r none w = Keeps-refl w
  Keeps-request_on k r (some doc) w =
      Keeps-if _ (Keeps-refl w) (Keeps-if _ (Keeps-refl w) (Keeps-fields k _ w (λ o. refl)))

  entry-record :
      (a v : String) (r : Stored P) (vs : Validations P) (b u : String) (s : Stored P)
      → is_done a v vs ≡ false
      → entry vs b u ≡ some s
      → entry (record_validation a v r vs) b u ≡ some s
  unfolding is_done record_validation
  entry-record a v r vs b u s h e = ground (
    arith,
    eq_iff a b,
    eq_iff v u,
    lookup-put a b (put v r (of_assertion a vs)) vs,
    lookup-put v u r (of_assertion a vs),
  )

  pub Keeps-finish :
      (k : String) (infos : List ValidatorInfo) (vs : Validations P) (w : World P)
      → Keeps w (finish k infos vs w)
  unfolding finish
  Keeps-finish k infos vs w =
      let counted = Keeps-fields k _ w (λ o. refl) in
      Keeps-if _ (Keeps-trans counted (Keeps-fields k _ _ (λ o. refl))) counted

  pub Keeps-accept :
      (k : String) (r : Response) (s : Stored P) (v : LoggedValidation P) (doc : Order P)
      (w : World P)
      → get_order_doc w k ≡ some doc
      → is_done r.id_assertion r.validator doc.validations ≡ false
      → Keeps w (accept k r s v doc w)
  unfolding accept
  Keeps-accept k r s v doc w found fresh =
      Keeps-trans
        (Keeps-update k _ w (λ o a u t at e.
          entry-record r.id_assertion r.validator s doc.validations a u t fresh (ground arith)))
        (Keeps-trans (Keeps-log_validation v _) (Keeps-finish k doc.validators _ _))

  orders-charged :
      (env : Env P) (client : String) (q : Option Quotas) (w : World P)
      → w.orders ≡ (charged env client q w).orders
  unfolding charged update_client_consumed
  orders-charged env client none w = refl
  orders-charged env client (some q) w = ground arith

  pub orders-charge_validation :
      (env : Env P) (client : String) (w : World P)
      → w.orders ≡ (charge_validation env client w).orders
  unfolding charge_validation
  orders-charge_validation env client w =
      ground (arith, orders-charged env client (env.fetch_client_quotas client) w)

  pub Keeps-light_on_order :
      (env : Env P) (k : String) (r : Response) (a : Option Verdict) (o : Option (Order P))
      (w : World P)
      → get_order_doc w k ≡ o
      → Keeps w (light_on_order env k r a o w)
  unfolding light_on_order
  Keeps-light_on_order env k r a none w found = Keeps-refl w
  Keeps-light_on_order env k r a (some doc) w found =
      elim (Bool-cases (is_done r.id_assertion r.validator doc.validations)) [
        | inl done ↦ rw done (Keeps-if _ (Keeps-refl w) (Keeps-refl w))
        | inr fresh ↦ rw fresh (Keeps-if _ (Keeps-refl w) (Keeps-accept k r _ _ doc w found fresh))
      ]

  pub Keeps-blockchain_on_order :
      (env : Env P) (k : String) (r : Response) (a : Option Verdict) (o : Option (Order P))
      (w : World P)
      → get_order_doc w k ≡ o
      → Keeps w (blockchain_on_order env k r a o w)
  unfolding blockchain_on_order get_order_doc
  Keeps-blockchain_on_order env k r a none w found = Keeps-refl w
  Keeps-blockchain_on_order env k r a (some doc) w found =
      elim (Bool-cases (is_done r.id_assertion r.validator doc.validations)) [
        | inl done ↦ rw done (Keeps-refl w)
        | inr fresh ↦
            let same = orders-charge_validation env doc.client_id w in
            rw fresh (
              Keeps-trans (Keeps-same same) (
                Keeps-accept k r _ _ doc (charge_validation env doc.client_id w)
                  (ap (lookup k) (sym same) ∙ found) fresh))
      ]

  pub Keeps-light_read :
      (env : Env P) (k : String) (r : Response) (a : Option (Option Verdict)) (w : World P)
      → Keeps w (light_read env k r a w)
  unfolding light_read
  Keeps-light_read env k r none w = Keeps-refl w
  Keeps-light_read env k r (some a) w =
      Keeps-if _ (Keeps-refl w) (Keeps-light_on_order env k r a (get_order_doc w k) w refl)

  pub Keeps-blockchain_read :
      (env : Env P) (k : String) (r : Response) (a : Option (Option Verdict)) (w : World P)
      → Keeps w (blockchain_read env k r a w)
  unfolding blockchain_read
  Keeps-blockchain_read env k r none w = Keeps-refl w
  Keeps-blockchain_read env k r (some a) w =
      Keeps-if _ (Keeps-refl w) (Keeps-blockchain_on_order env k r a (get_order_doc w k) w refl)
