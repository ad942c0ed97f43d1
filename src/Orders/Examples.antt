-- ===== src/Orders/Examples.antt =====
-- Orders at small inputs, over the fixed-point numbers of scoring.
use mathlib.Core.Bool.{false≢true}
use trust_news.Scoring.Consensus.{is_empty}
use trust_news.Prelude.Dict.{lookup}
use trust_news.Prelude.{◌+◌, ◌≡◌, ◌≢◌, refl, ap, ◌∙◌, false, some, [], ◌∷◌, length, int_of_text}
use trust_news.Prelude.Int.{pos}
use trust_news.Scoring.Values.{truthy}
use trust_news.Scoring.Weights.{verdict_true}
use trust_news.Scoring.Fixed.{fixed}
use trust_news.Orders.Model.{
  light, completed, plain, completed_on_chain, Registration, registered, Stored,
}
use trust_news.Orders.World.{
  Quotas, update_order, log_event, send, update_client_consumed, World, get_order_doc, upload_ipfs,
}
use trust_news.Orders.Responses.{
  validation_completed, light_validation_completed, stored_blockchain, stored_light,
}
use trust_news.Orders.Registry.{light_validators_for_category, light_validator_is_healthy}
use trust_news.Orders.Counting.{normalize_validation_mode, is_done, approval_value, consume}
use trust_news.Orders.Publication.{blockchain_registered}
use trust_news.Orders.Dispatches.{is_exceeded}
use trust_news.Orders.Generation.{
  ids_for, request_upload, start_blockchain_flow, dispatch_light_validation_requests,
}
use trust_news.Orders.Process.{Message, valid, process_kafka_message}
use trust_news.Orders.Keeps.{entry_of, recorded}
use trust_news.Orders.History.{run, first_response_stays}
use trust_news.Orders.Accounting.{
  IsAccounted, validation_completed_accounts, light_validation_completed_accounts,
}
use trust_news.Orders.Twice.{second_delivery_is_only_logged}
use trust_news.Orders.Dispatch.{IsDispatched, dispatch_counts_requests}
use trust_news.Orders.Quota.{MayPublish, publication_is_checked_and_counted}
use trust_news.Orders.Registration.{IsRegistered, registration_waits_for_all}
use trust_news.Orders.Samples.{env, document, order, world, response}

found : get_order_doc world "o1" ≡ some order
unfolding get_order_doc lookup
found = refl

fresh : is_done "a1" "0xA" order.validations ≡ false
unfolding is_done lookup
fresh = refl

read : approval_value completed (some verdict_true) ≡ some (some verdict_true)
unfolding approval_value
read = refl

validation_completed_accounts_example :
    IsAccounted "a1" "0xA"
      (stored_blockchain env "o1" response (some verdict_true) world)
      order
      (get_order_doc (validation_completed env "o1" response world) "o1")
validation_completed_accounts_example =
    validation_completed_accounts env "o1" response (some verdict_true) world order found fresh read
      refl

light_mode : normalize_validation_mode (some "LIGHT") ≡ some light
unfolding normalize_validation_mode
light_mode = refl

light_validation_completed_accounts_example :
    IsAccounted "a1" "0xA"
      (stored_light env "o1" response (some verdict_true) world)
      order
      (get_order_doc (light_validation_completed env "o1" response world) "o1")
light_validation_completed_accounts_example =
    light_validation_completed_accounts env "o1" response (some verdict_true) world order found
      fresh read refl light_mode

abbrev delivery : Message
delivery = record {
  action = "validation_completed";
  order_id = "o1";
  post_id = "7";
  parsed = valid (completed_on_chain response);
}

second_delivery_is_only_logged_example :
    process_kafka_message env delivery (process_kafka_message env delivery world)
    ≡ log_event "o1" "validation_completed" (process_kafka_message env delivery world)
second_delivery_is_only_logged_example =
    second_delivery_is_only_logged env env delivery (completed_on_chain response) world refl refl
      refl refl

abbrev registration : Registration
registration = record {
  post_id = "7";
  tx_hash = "0x1";
  hash_text = "h";
  assertions =
      record {
        id_assertion = "a1";
        category_id = pos 4;
        validator_addresses = plain "0xA" ∷ plain "0xB" ∷ plain "0xA" ∷ [];
      }
      ∷ [];
}

seven : int_of_text "7" ≡ some (pos 7)
unfolding int_of_text
seven = refl

registration_waits_for_all_example :
    IsRegistered registration
      (pos 7)
      order
      (get_order_doc (blockchain_registered "o1" registration world) "o1")
registration_waits_for_all_example =
    registration_waits_for_all "o1" registration (pos 7) world order seven refl found

abbrev answered : World fixed
answered = validation_completed env "o1" response world

abbrev later : Message
later = record {
  action = "blockchain_registered";
  order_id = "o1";
  post_id = "7";
  parsed = valid (registered registration);
}

abbrev stored : Stored fixed
stored = stored_blockchain env "o1" response (some verdict_true) world

is_recorded : recorded answered "o1" "a1" "0xA" ≡ some stored
is_recorded =
    let h = validation_completed_accounts_example in
    ap (λ o. entry_of o "a1" "0xA") h.same ∙ h.stored

first_response_stays_example :
    recorded (run ((env, later) ∷ []) answered) "o1" "a1" "0xA" ≡ some stored
first_response_stays_example =
    first_response_stays ((env, later) ∷ []) answered "o1" "a1" "0xA" stored is_recorded (refl, tt)

dispatch_counts_requests_example :
    IsDispatched document world
      (dispatch_light_validation_requests env "o1" document world)
      (get_order_doc (dispatch_light_validation_requests env "o1" document world) "o1")
dispatch_counts_requests_example =
    dispatch_counts_requests env "o1" document world order (λ m. refl) found

requests_are_sent : length (dispatch_light_validation_requests env "o1" document world).sent ≡ 1
unfolding dispatch_light_validation_requests ids_for light_validators_for_category
    light_validator_is_healthy truthy
requests_are_sent = refl

publishes : (start_blockchain_flow env "o1" "c" document world).sent ≢ world.sent
unfolding start_blockchain_flow request_upload update_order log_event send update_client_consumed
    is_exceeded
publishes e = false≢true (ap is_empty e)

publication_is_checked_and_counted_example :
    (q : Quotas) × (env.fetch_client_quotas "c" ≡ some q)
    × MayPublish q document
    × ((start_blockchain_flow env "o1" "c" document world).consumed
        ≡ consume "c" "news_generation" (q.news_consumed + 1) ∷ [])
    × ((start_blockchain_flow env "o1" "c" document world).sent ≡ upload_ipfs "o1" document ∷ [])
publication_is_checked_and_counted_example =
    publication_is_checked_and_counted env "o1" "c" document world refl publishes
