-- ===== src/Orders/History.antt =====
-- The responses that are recorded, through any sequence of messages.
use trust_news.Prelude.{
  All, String, ◌≡◌, refl, Bool, true, false, Option, none, some, List, [], ◌∷◌, ◌==◌,
}
use trust_news.Orders.Model
use trust_news.Scoring.Values.{PyFloat}
use trust_news.Prelude.{All}
use trust_news.Orders.Model.{
  Stored, Validations, Order, Response, ValidatorInfo, Document, Payload, Registration,
  ValidationRequest,
}
use trust_news.Orders.World.{Env, World, log_event}
use trust_news.Orders.Responses.{light_validation_completed, validation_completed}
use trust_news.Orders.Publication.{
  blockchain_registered, blockchain_registration_failed, ipfs_upload_done, request_validation,
}
use trust_news.Orders.Process.{
  Parsed, Message, handle, handle_parsed, on_resolved, resolved_order, process_kafka_message,
}
use trust_news.Orders.Keeps.{
  Keeps, Keeps-refl, Keeps-trans, Keeps-if, Keeps-fields, Keeps-log_event, recorded,
}
use trust_news.Orders.Generation.{assertions_not_generated, not_generated_on, trace_kept}
use trust_news.Orders.Process.{unknown, invalid, valid}
use trust_news.Orders.Model.{
  generated, not_generated, uploaded, registration_failed, requested, light_completed,
  completed_on_chain, AssertionsError,
}
use trust_news.Orders.Kept.{
  Keeps-blockchain_read, Keeps-light_read, Keeps-register_parsed, Keeps-request_on, Keeps-upload_on,
}

abbrev pub is_generation : Parsed → Bool
is_generation (valid (generated document trace)) = true
is_generation _ = false

module _ {P : PyFloat} where
  Keeps-trace_kept : (k : String) (t : Option String) (w : World P) → Keeps w (trace_kept k t w)
  Keeps-trace_kept k none w = Keeps-refl w
  Keeps-trace_kept k (some t) w = Keeps-fields k _ w (λ o. refl)

  Keeps-not_generated_on :
      (k : String) (e : AssertionsError) (t : Option String) (o : Option (Order P)) (w : World P)
      → Keeps w (not_generated_on k e t o w)
  unfolding not_generated_on
  Keeps-not_generated_on k e t none w = Keeps-refl w
  Keeps-not_generated_on k e t (some doc) w =
      Keeps-trans (Keeps-trace_kept k t w) (Keeps-fields k _ _ (λ o. refl))

  Keeps-handle :
      (env : Env P) (k : String) (p : Payload) (w : World P)
      → is_generation (valid p) ≡ false
      → Keeps w (handle env k p w)
  unfolding handle light_validation_completed validation_completed blockchain_registered
      ipfs_upload_done request_validation blockchain_registration_failed assertions_not_generated
  Keeps-handle env k (generated document trace) w h = absurd (cc)
  Keeps-handle env k (not_generated failure trace) w h = Keeps-not_generated_on k failure trace _ w
  Keeps-handle env k (uploaded cid) w h = Keeps-if _ (Keeps-refl w) (Keeps-upload_on env k cid _ w)
  Keeps-handle env k (Model.registered reg) w h = Keeps-register_parsed k reg _ w
  Keeps-handle env k (registration_failed failure) w h = Keeps-fields k _ w (λ o. refl)
  Keeps-handle env k (requested r) w h = Keeps-if _ (Keeps-refl w) (Keeps-request_on k r _ w)
  Keeps-handle env k (light_completed r) w h = Keeps-light_read env k r _ w
  Keeps-handle env k (completed_on_chain r) w h = Keeps-blockchain_read env k r _ w

  Keeps-handle_parsed :
      (env : Env P) (k action : String) (p : Parsed) (w : World P)
      → is_generation p ≡ false
      → Keeps w (handle_parsed env k action p w)
  unfolding handle_parsed
  Keeps-handle_parsed env k action unknown w h = Keeps-log_event k _ w
  Keeps-handle_parsed env k action invalid w h = Keeps-log_event k _ w
  Keeps-handle_parsed env k action (valid p) w h =
      Keeps-trans (Keeps-log_event k action w) (Keeps-handle env k p (log_event k action w) h)

  Keeps-on_resolved :
      (env : Env P) (m : Message) (w : World P) (o : Option String)
      → is_generation m.parsed ≡ false
      → Keeps w (on_resolved env m w o)
  Keeps-on_resolved env m w none h = Keeps-refl w
  Keeps-on_resolved env m w (some k) h =
      Keeps-if _ (Keeps-refl w) (Keeps-handle_parsed env k m.action m.parsed w h)

  pub Keeps-process_kafka_message :
      (env : Env P) (m : Message) (w : World P)
      → is_generation m.parsed ≡ false
      → Keeps w (process_kafka_message env m w)
  unfolding process_kafka_message
  Keeps-process_kafka_message env m w h =
      Keeps-if (m.action == "") (Keeps-refl w) (Keeps-on_resolved env m w (resolved_order w m) h)

  -- Messages one after another, each with what the outside answers to it.
  abbrev pub run : List (Env P × Message) → World P → World P
  run [] w = w
  run (m ∷ rest) w = run rest (process_kafka_message m.0 m.1 w)

  Keeps-run :
      (ms : List (Env P × Message)) (w : World P)
      → All (λ m. is_generation m.1.parsed ≡ false) ms
      → Keeps w (run ms w)
  Keeps-run [] w h = Keeps-refl w
  Keeps-run (m ∷ rest) w h =
      Keeps-trans (Keeps-process_kafka_message m.0 m.1 w h.0) (Keeps-run rest _ h.1)

  -- Once a validator's response on an assertion is recorded, it stays as it is through any sequence
  -- of messages, duplicates, registrations and failures included, as long as no new assertions are
  -- generated.
  pub first_response_stays :
      (ms : List (Env P × Message)) (w : World P) (order_id id_assertion validator : String)
      (s : Stored P)
      → recorded w order_id id_assertion validator ≡ some s
      → All (λ m. is_generation m.1.parsed ≡ false) ms
      → recorded (run ms w) order_id id_assertion validator ≡ some s
  first_response_stays ms w order_id id_assertion validator s h calm =
      (Keeps-run ms w calm).kept order_id id_assertion validator s h
