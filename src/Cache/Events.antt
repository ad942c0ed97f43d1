-- ===== src/Cache/Events.antt =====
-- `update_validator_cache_from_event` of news-handler/main.py.
use mathlib.Core.Option
use trust_news.Prelude.{
  ℕ, String, Bool, true, false, not, ◌&&◌, Option, none, some, List, [], ◌==◌, and_then,
  if◌then◌else◌,
}
use trust_news.Prelude.Dict.{lookup, put, or_default}
use trust_news.Scoring.Values.{PyFloat, null, float, text}
use trust_news.Cache.Fields.{
  Value, plain, object, array, ValidatorFields, is_filled, is_true, or_value, get,
}
use trust_news.Cache.Refresh.{
  CacheState, CallEnd, returned, raised, Named, chosen_type, reputation_of,
  load_validators_cache_from_chain,
}

module _ {P : PyFloat} where
  abbrev is_null : Value P → Bool
  is_null (plain null) = true
  is_null _ = false

  -- The categories of an event, or those that are known.
  unfoldable pub event_categories : ValidatorFields P → ValidatorFields P → Value P
  unfolding lookup is_true
  event_categories payload existing =
      let incoming =
        if is_null (get "categories" payload)
        then or_default (lookup "categories" existing) (array [])
        else get "categories" payload in
      or_value incoming (array [])

  -- `config` of an event, or the one that is known.
  unfoldable pub event_config : ValidatorFields P → ValidatorFields P → Value P
  unfolding lookup is_true
  event_config payload existing =
      or_value (get "config" payload) (or_value (get "config" existing) (object []))

  -- The entry after an event at the time `now`, with the type and the reputation that it gets.
  unfoldable pub event_entry :
      String
      → ValidatorFields P
      → ValidatorFields P
      → String
      → Value P
      → Value P
      → ValidatorFields P
  unfolding event_categories event_config lookup put is_true
  event_entry validator payload existing now validator_type reputation =
      let source =
        or_value (get "source" payload)
          (or_value (get "source" existing) (plain (text "validator-event"))) in
      let metrics_reset_at =
        or_value (get "metrics_reset_at" payload) (get "metrics_reset_at" existing) in
      let updated_at = or_value (get "timestamp" payload) (plain (text now)) in
      let ipfs_hash = or_value (get "ipfs_hash" payload) (get "ipfs_hash" existing) in
      put "_cache_origin" (plain (text "validator-event")) (
        put "source" source (
          put "metrics_reset_at" metrics_reset_at (
            put "updated_at" updated_at (
              put "reputation" reputation (
                put "validator_type" validator_type (
                  put "categories" (event_categories payload existing) (
                    put "config" (event_config payload existing) (
                      put "ipfs_hash" ipfs_hash
                        (put "validator" (plain (text validator)) existing)))))))))

  -- `updated_validator`; `none` is an exception.
  unfoldable pub updated_validator :
      String → ValidatorFields P → ValidatorFields P → String → Option (ValidatorFields P)
  unfolding event_entry event_config chosen_type reputation_of lookup is_true
  updated_validator validator payload existing now =
      let stated = or_value (get "validator_type" payload) (get "validator_type" existing) in
      let reputation =
        or_default (lookup "reputation" payload)
          (or_default (lookup "reputation" existing) (plain (float P.one))) in
      and_then (chosen_type stated (event_config payload existing)) (λ validator_type.
        Option.map (λ r. event_entry validator payload existing now validator_type r)
          (reputation_of reputation))

  unfoldable pub store_entry :
      String → Option (ValidatorFields P) → CacheState P → CallEnd × CacheState P
  unfolding put
  store_entry validator_key none w = (raised, w)
  store_entry validator_key (some updated) w = (
    returned true,
    record {
      cache = put validator_key updated w.cache;
      registry = put validator_key updated w.registry;
    },
  )

  -- The part under the lock.
  unfoldable pub apply_event :
      (String → String) → Named P → String → CacheState P → CallEnd × CacheState P
  unfolding updated_validator store_entry lookup
  apply_event lower payload now w =
      let validator_key = lower payload.validator in
      store_entry validator_key
        (updated_validator payload.validator payload.fields
          (or_default (lookup validator_key w.cache) []) now)
        w

  -- An exception of the load ends the handler.
  unfoldable pub after_load :
      (String → String) → Named P → String → CallEnd × CacheState P → CallEnd × CacheState P
  unfolding apply_event
  after_load lower payload now (raised, w) = (raised, w)
  after_load lower payload now (returned loaded, w) = apply_event lower payload now w

  module _ (from_iso : String → Option ℕ) (lower : String → String)
      (fetched : Option (List (Option (Named P)))) (meanwhile : CacheState P → CacheState P) where
    -- `blockchain_enabled` is BLOCKCHAIN_ENABLED.
    unfoldable pub update_validator_cache_from_event :
        Bool → Named P → String → CacheState P → CallEnd × CacheState P
    unfolding after_load load_validators_cache_from_chain
    update_validator_cache_from_event blockchain_enabled payload now w =
        if payload.validator == ""
        then (returned false, w)
        else after_load lower payload now (
            if not (is_filled w.cache) && blockchain_enabled
            then load_validators_cache_from_chain from_iso lower fetched meanwhile true w
            else (returned true, w))
