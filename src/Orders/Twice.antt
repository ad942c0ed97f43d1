-- ===== src/Orders/Twice.antt =====
-- A response that is delivered again.
use trust_news.Prelude.{
  String, ◌≡◌, refl, sym, ap, ◌∙◌, ◌==◌, Bool, true, false, Option, none, some, arith, Bool-cases,
  inl, inr,
}
use trust_news.Scoring.Values.{PyFloat}
use trust_news.Scoring.Weights.{Verdict}
use trust_news.Prelude.Dict.{lookup}
use trust_news.Orders.Model.{
  Stored, Order, Response, Payload, generated, not_generated, uploaded, registered,
  registration_failed, requested, light_completed, completed_on_chain,
}
use trust_news.Orders.Keeps.{orders-log_event}
use trust_news.Orders.Process.{
  Message, valid, handle, handle_parsed, resolved_order, process_kafka_message,
}
use trust_news.Orders.World.{Env, World, get_order_doc, log_event}
use trust_news.Orders.Responses.{
  charge_validation, blockchain_on_order, blockchain_read, light_on_order, light_read,
  validation_completed, light_validation_completed,
}
use trust_news.Orders.Counting.{normalize_validation_mode, is_light, is_done, is_incomplete}
use trust_news.Orders.Accounting.{accounted, get-accept, get-charge, entry-own}

-- The payloads that answer a validation request.
abbrev pub is_answer : Payload → Bool
is_answer (light_completed r) = true
is_answer (completed_on_chain r) = true
is_answer _ = false

module _ {P : PyFloat} where
  done-own :
      (a u : String) (s : Stored P) (doc : Order P)
      → is_done a u (accounted a u s doc).validations ≡ true
  unfolding is_done
  done-own a u s doc = ground (arith, entry-own a u s doc.validations)

  blockchain-done :
      (env : Env P) (k : String) (r : Response) (a : Option Verdict) (o : Option (Order P))
      (doc : Order P) (w : World P)
      → o ≡ some doc
      → is_done r.id_assertion r.validator doc.validations ≡ true
      → blockchain_on_order env k r a o w ≡ w
  unfolding blockchain_on_order
  blockchain-done env k r a o doc w e d = rw (e, d) refl

  light-done :
      (env : Env P) (k : String) (r : Response) (a : Option Verdict) (o : Option (Order P))
      (doc : Order P) (w : World P)
      → o ≡ some doc
      → is_done r.id_assertion r.validator doc.validations ≡ true
      → light_on_order env k r a o w ≡ w
  unfolding light_on_order
  light-done env k r a o doc w e d = rw e (ground arith)

  get-same :
      (k : String) (v u : World P) (o : Option (Order P))
      → get_order_doc v k ≡ o
      → v.orders ≡ u.orders
      → get_order_doc u k ≡ o
  unfolding get_order_doc
  get-same k v u o e same = sym (ap (lookup k) same) ∙ e

  -- After a branch, from any world with its orders, the branch does nothing.
  blockchain-twice :
      (env later : Env P) (k : String) (r : Response) (a : Option Verdict) (o : Option (Order P))
      (w : World P)
      → get_order_doc w k ≡ o
      → (u : World P) → (blockchain_on_order env k r a o w).orders ≡ u.orders
      → blockchain_on_order later k r a (get_order_doc u k) u ≡ u
  unfolding blockchain_on_order
  blockchain-twice env later k r a none w e = λ u same. rw (get-same k w u none e same) refl
  blockchain-twice env later k r a (some doc) w e =
      elim (Bool-cases (is_done r.id_assertion r.validator doc.validations)) [
        | inl d ↦ rw d (λ u same. blockchain-done later k r a _ doc u (get-same k w u _ e same) d)
        | inr d ↦ rw d (λ u same.
            blockchain-done later k r a _ _ u
              (get-same k _ u _
                (get-accept k r _ _ doc (charge_validation env doc.client_id w)
                  (get-charge env doc.client_id k w ∙ e))
                same)
              (done-own r.id_assertion r.validator _ doc))
      ]

  light-twice :
      (env later : Env P) (k : String) (r : Response) (a : Option Verdict) (o : Option (Order P))
      (w : World P)
      → get_order_doc w k ≡ o
      → (u : World P) → (light_on_order env k r a o w).orders ≡ u.orders
      → light_on_order later k r a (get_order_doc u k) u ≡ u
  unfolding light_on_order
  light-twice env later k r a none w e = λ u same. rw (get-same k w u none e same) refl
  light-twice env later k r a (some doc) w e =
      elim (Bool-cases (is_light (normalize_validation_mode doc.validation_mode))) [
        | inr other ↦ rw other (λ u same. rw (get-same k w u _ e same, other) refl)
        | inl mode ↦
            rw mode (elim (Bool-cases (is_done r.id_assertion r.validator doc.validations)) [
              | inl d ↦ rw d (λ u same. light-done later k r a _ doc u (get-same k w u _ e same) d)
              | inr d ↦ rw d (λ u same.
                  light-done later k r a _ _ u (get-same k _ u _ (get-accept k r _ _ doc w e) same)
                    (done-own r.id_assertion r.validator _ doc))
            ])
      ]

  blockchain_read-twice :
      (env later : Env P) (k : String) (r : Response) (a : Option (Option Verdict)) (w u : World P)
      → (blockchain_read env k r a w).orders ≡ u.orders
      → blockchain_read later k r a u ≡ u
  unfolding blockchain_read
  blockchain_read-twice env later k r none w u = λ same. refl
  blockchain_read-twice env later k r (some a) w u = elim (Bool-cases (is_incomplete r)) [
    | inl e ↦ rw e (λ same. refl)
    | inr e ↦ rw e (blockchain-twice env later k r a (get_order_doc w k) w refl u)
  ]

  light_read-twice :
      (env later : Env P) (k : String) (r : Response) (a : Option (Option Verdict)) (w u : World P)
      → (light_read env k r a w).orders ≡ u.orders
      → light_read later k r a u ≡ u
  unfolding light_read
  light_read-twice env later k r none w u = λ same. refl
  light_read-twice env later k r (some a) w u = elim (Bool-cases (is_incomplete r)) [
    | inl e ↦ rw e (λ same. refl)
    | inr e ↦ rw e (light-twice env later k r a (get_order_doc w k) w refl u)
  ]

  handle-twice :
      (env later : Env P) (k : String) (p : Payload) (w u : World P)
      → is_answer p ≡ true
      → (handle env k p w).orders ≡ u.orders
      → handle later k p u ≡ u
  unfolding handle validation_completed light_validation_completed
  handle-twice env later k (light_completed r) w u h = light_read-twice env later k r _ w u
  handle-twice env later k (completed_on_chain r) w u h = blockchain_read-twice env later k r _ w u
  handle-twice env later k (generated document trace) w u h = absurd cc
  handle-twice env later k (not_generated failure trace) w u h = absurd cc
  handle-twice env later k (uploaded cid) w u h = absurd cc
  handle-twice env later k (registered reg) w u h = absurd cc
  handle-twice env later k (registration_failed failure) w u h = absurd cc
  handle-twice env later k (requested r) w u h = absurd cc

  parsed-valid :
      (env : Env P) (k action : String) (p : Payload) (w : World P)
      → handle_parsed env k action (valid p) w ≡ handle env k p (log_event k action w)
  unfolding handle_parsed
  parsed-valid env k action p w = refl

  process-parsed :
      (env : Env P) (m : Message) (w : World P)
      → (m.action == "") ≡ false
      → (m.order_id == "") ≡ false
      → process_kafka_message env m w ≡ handle_parsed env m.order_id m.action m.parsed w
  unfolding process_kafka_message resolved_order
  process-parsed env m w acts named = rw (acts, named, named) refl

  process-named :
      (env : Env P) (m : Message) (p : Payload) (w : World P)
      → m.parsed ≡ valid p
      → (m.action == "") ≡ false
      → (m.order_id == "") ≡ false
      → process_kafka_message env m w ≡ handle env m.order_id p (log_event m.order_id m.action w)
  process-named env m p w parsed acts named =
      process-parsed env m w acts named
      ∙ ap (λ x. handle_parsed env m.order_id m.action x w) parsed
      ∙ parsed-valid env m.order_id m.action p w

  -- A message that answers a validation request of the order that it names, delivered a second time
  -- and at any later answers of the services around, only adds its entry to the log of incoming
  -- messages: the orders, the logged validations, the messages sent and what clients have consumed
  -- stay as the first delivery left them.
  pub second_delivery_is_only_logged :
      (env later : Env P) (m : Message) (p : Payload) (w : World P)
      → m.parsed ≡ valid p
      → is_answer p ≡ true
      → (m.action == "") ≡ false
      → (m.order_id == "") ≡ false
      → process_kafka_message later m (process_kafka_message env m w)
        ≡ log_event m.order_id m.action (process_kafka_message env m w)
  second_delivery_is_only_logged env later m p w parsed answer acts named =
      let once = process_kafka_message env m w in
      process-named later m p once parsed acts named
      ∙ handle-twice env later m.order_id p (log_event m.order_id m.action w)
          (log_event m.order_id m.action once) answer
          (ap (λ x. x.orders) (sym (process-named env m p w parsed acts named))
            ∙ orders-log_event m.order_id m.action once)
