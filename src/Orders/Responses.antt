-- ===== src/Orders/Responses.antt =====
-- The responses of validators: the `light_validation_completed` and `validation_completed` branches
-- of process_kafka_message in news-handler/main.py.
use trust_news.Prelude.{◌+◌, String, not, Option, none, some, List, [], ◌==◌, eqb, if◌then◌else◌}
use trust_news.Scoring.Values.{PyFloat, Raw, null}
use trust_news.Scoring.Weights.{Verdict, Config, WeightSnapshot, validation_weight_snapshot}
use trust_news.Scoring.Detail.{Fields, Validation}
use trust_news.Scoring.Snapshot.{with_snapshot}
use trust_news.Orders.Model.{light, ValidatorInfo, Stored, Validations, Order, Response}
use trust_news.Orders.Registry.{get_cached_validator_config}
use trust_news.Orders.World.{
  Quotas, Env, World, LoggedValidation, get_order_doc, update_order, log_validation,
  update_client_consumed,
}
use trust_news.Orders.Counting.{
  status_text, normalize_validation_mode, approval_value, is_light, consume, is_incomplete,
  verdict_member, total_pending, terminal_status, is_done, record_validation,
}

module _ {P : PyFloat} where
  abbrev blank : Fields P
  blank = record {
    validator_config = none;
    validator_type = null;
    validator_type_weight = none;
    reputation_at_validation = none;
    effective_weight = none;
    policy_version = "";
    approval = none;
    sources = [];
    sources_declared = [];
    evidence_used = [];
    evidence_validation = none;
  }

  abbrev approval_raw : Option Verdict → Raw P
  approval_raw none = null
  approval_raw (some v) = verdict_member v

  -- The part of the stored dict that scoring reads.
  unfoldable pub scored_part :
      Response → Option Verdict → Option (Config P) → WeightSnapshot P → Validation P
  unfolding with_snapshot
  scored_part r approval cfg snapshot = with_snapshot P snapshot (record {
    own = record blank {
      validator_config = cfg;
      approval = some (approval_raw approval);
      sources = r.sources;
      sources_declared = r.sources_declared;
      evidence_used = r.evidence_used;
      evidence_validation = r.evidence_validation;
    };
    payload = blank;
    execution_status = status_text r.execution_status;
    text = r.text;
  })

  abbrev config_name : Option (Config P) → String
  config_name none = ""
  config_name (some cfg) = cfg.alias

  abbrev snapshot_for : Env P → World P → String → WeightSnapshot P
  snapshot_for env w validator =
      validation_weight_snapshot P (get_cached_validator_config w.validators_cache validator)
        env.validator_type_weights

  unfoldable pub stored_light : Env P → String → Response → Option Verdict → World P → Stored P
  unfolding scored_part get_cached_validator_config validation_weight_snapshot
  stored_light env order_id r approval w =
      let cfg = get_cached_validator_config w.validators_cache r.validator in
      record {
        validation = scored_part r approval cfg (snapshot_for env w r.validator);
        tx_hash = none;
        validator_alias = config_name cfg;
        validation_mode = some light;
        category_id = r.category_id;
        correlation_id = r.correlation_id;
        extras = r.extras;
        response_time_seconds = env.response_time_seconds order_id r.id_assertion r.validator;
      }

  unfoldable pub stored_blockchain : Env P → String → Response → Option Verdict → World P → Stored P
  unfolding scored_part get_cached_validator_config validation_weight_snapshot
  stored_blockchain env order_id r approval w = record {
    validation =
        scored_part r approval (get_cached_validator_config w.validators_cache r.validator)
          (snapshot_for env w r.validator);
    tx_hash = r.tx_hash;
    validator_alias = r.validator_alias;
    validation_mode = none;
    category_id = none;
    correlation_id = none;
    extras = record r.extras { confidence = none };
    response_time_seconds = env.response_time_seconds order_id r.id_assertion r.validator;
  }

  abbrev logged :
      Env P
      → String
      → String
      → Option String
      → Response
      → Option Verdict
      → World P
      → LoggedValidation P
  logged env order_id post_id tx_hash r approval w = record {
    order_id = order_id;
    post_id = post_id;
    id_assertion = r.id_assertion;
    id_validator = r.validator;
    approval = approval;
    execution_status = r.execution_status;
    tx_hash = tx_hash;
    weight_snapshot = snapshot_for env w r.validator;
    response_time_seconds = env.response_time_seconds order_id r.id_assertion r.validator;
  }

  -- The writes after a validation was recorded: the pending count, and the final status at zero.
  unfoldable pub finish : String → List ValidatorInfo → Validations P → World P → World P
  unfolding update_order
  finish order_id validators vs w =
      let left = total_pending validators vs in
      let counted = update_order order_id (λ o. record o { validators_pending = left }) w in
      if eqb left 0
      then update_order order_id (λ o. record o { status = terminal_status vs }) counted
      else counted

  -- From the write of the validations to the end of the branch.
  unfoldable pub accept :
      String → Response → Stored P → LoggedValidation P → Order P → World P → World P
  unfolding update_order log_validation finish
  accept order_id r s entry doc w =
      let vs = record_validation r.id_assertion r.validator s doc.validations in
      finish order_id doc.validators vs
        (log_validation entry (update_order order_id (λ o. record o { validations = vs }) w))

  unfoldable pub charged : Env P → String → Option Quotas → World P → World P
  unfolding update_client_consumed
  charged env client_id none w = w
  charged env client_id (some q) w =
      let c = consume client_id "blockchain_validation" (q.validations_consumed + 1) in
      if env.update_accepted c then update_client_consumed c w else w

  -- The quota step; its exceptions are only logged.
  unfoldable pub charge_validation : Env P → String → World P → World P
  unfolding charged
  charge_validation env client_id w =
      if client_id == "" then w else charged env client_id (env.fetch_client_quotas client_id) w

  -- Under the order's lock, with what was found of the order.
  unfoldable pub light_on_order :
      Env P → String → Response → Option Verdict → Option (Order P) → World P → World P
  unfolding normalize_validation_mode
  light_on_order env order_id r approval none w = w
  light_on_order env order_id r approval (some doc) w =
      if not (is_light (normalize_validation_mode doc.validation_mode))
      then w
      else if is_done r.id_assertion r.validator doc.validations
      then w
      else accept order_id r (stored_light env order_id r approval w)
          (logged env order_id order_id none r approval w) doc w

  unfoldable pub blockchain_on_order :
      Env P → String → Response → Option Verdict → Option (Order P) → World P → World P
  blockchain_on_order env order_id r approval none w = w
  blockchain_on_order env order_id r approval (some doc) w =
      if is_done r.id_assertion r.validator doc.validations
      then w
      else accept order_id r (stored_blockchain env order_id r approval w)
          (logged env order_id r.post_id r.tx_hash r approval w) doc
          (charge_validation env doc.client_id w)

  -- After the approval was read, which may have raised.
  unfoldable pub light_read :
      Env P → String → Response → Option (Option Verdict) → World P → World P
  unfolding light_on_order get_order_doc
  light_read env order_id r none w = w
  light_read env order_id r (some approval) w =
      if is_incomplete r
      then w
      else light_on_order env order_id r approval (get_order_doc w order_id) w

  unfoldable pub blockchain_read :
      Env P → String → Response → Option (Option Verdict) → World P → World P
  unfolding blockchain_on_order get_order_doc
  blockchain_read env order_id r none w = w
  blockchain_read env order_id r (some approval) w =
      if is_incomplete r
      then w
      else blockchain_on_order env order_id r approval (get_order_doc w order_id) w

  unfoldable pub light_validation_completed : Env P → String → Response → World P → World P
  unfolding light_read approval_value
  light_validation_completed env order_id r w =
      light_read env order_id r (approval_value r.execution_status r.approval) w

  unfoldable pub validation_completed : Env P → String → Response → World P → World P
  unfolding blockchain_read approval_value
  validation_completed env order_id r w =
      blockchain_read env order_id r (approval_value r.execution_status r.approval) w
