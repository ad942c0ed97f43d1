-- ===== src/Cache/Refresh.antt =====
-- `load_validators_cache_from_chain` and `update_validator_cache_from_event` of news-handler/main.py.
-- `from_iso` and `lower` are `datetime.fromisoformat` and `str.lower`.
use mathlib.Core.Option
use trust_news.Prelude.{
  ℕ, String, Bool, true, false, not, ◌&&◌, Option, none, some, List, [], ◌∷◌, ◌==◌, strip, and_then,
  if◌then◌else◌,
}
use trust_news.Prelude.Dict.{lookup, put, or_default, is_present}
use trust_news.Prelude.Int.{pos}
use trust_news.Scoring.Values.{PyFloat, null, int, float, text, to_float}
use trust_news.Cache.Fields.{
  Value, plain, object, array, ValidatorFields, is_filled, is_true, or_value, get, comes_from_event,
  merge_refreshed_validator,
}

abbrev pub Entries : PyFloat → Type 0
Entries P = List (String × ValidatorFields P)

-- `validators_cache` and the collection of persisted entries.
pub record CacheState (P : PyFloat) : Type 0 where
  pub cache : Entries P
  pub registry : Entries P

-- How a call ends: with a result, or with an exception.
pub data CallEnd : Type 0 where
  returned : Bool → CallEnd
  raised : CallEnd

-- A validator of a snapshot, or an event: its fields, and `str` of its "validator", which is empty
-- where that is absent.
pub record Named (P : PyFloat) : Type 0 where
  pub validator : String
  pub fields : ValidatorFields P

module _ {P : PyFloat} where
  -- `config.get("type")`; `none` is the AttributeError of a value that is no dict.
  unfoldable pub config_type : Value P → Option (Value P)
  unfolding lookup
  config_type (object fields) = some (plain (or_default (lookup "type" fields) null))
  config_type _ = none

  -- `stated or config.get("type") or int(ValidatorType.LLM_MEMORY_VALIDATION)`.
  unfoldable pub chosen_type : Value P → Value P → Option (Value P)
  unfolding is_true config_type
  chosen_type stated config =
      if is_true stated
      then some stated
      else Option.map (λ t. or_value t (plain (int (pos 1)))) (config_type config)

  -- `float(value or 1.0)`.
  unfoldable pub reputation_of : Value P → Option (Value P)
  unfolding is_true to_float
  reputation_of (plain r) =
      if is_true (plain r)
      then Option.map (λ x. plain (float x)) (to_float P r)
      else some (plain (float P.one))
  reputation_of (object fields) = if is_filled fields then none else some (plain (float P.one))
  reputation_of (array items) = if is_filled items then none else some (plain (float P.one))

  -- `refreshed`, with the type and the reputation that it gets.
  unfoldable pub snapshot_entry : String → ValidatorFields P → Value P → Value P → ValidatorFields P
  unfolding put is_true
  snapshot_entry validator_hash fields validator_type reputation =
      put "_cache_origin" (plain (text "news-chain")) (
        put "reputation" reputation (
          put "validator_type" validator_type (
            put "validator" (or_value (get "validator" fields) (plain (text validator_hash)))
              fields)))

  -- The entry of a validator of the snapshot; `none` is an exception.
  unfoldable pub refreshed_fields : String → ValidatorFields P → Option (ValidatorFields P)
  unfolding snapshot_entry chosen_type reputation_of lookup is_true
  refreshed_fields validator_hash fields =
      and_then
        (chosen_type (get "validator_type" fields) (or_value (get "config" fields) (object [])))
        (λ validator_type.
          Option.map (λ reputation. snapshot_entry validator_hash fields validator_type reputation)
            (reputation_of (or_default (lookup "reputation" fields) (plain (float P.one)))))

  module _ (from_iso : String → Option ℕ) (lower : String → String) where
    -- A round of the loop over the snapshot, where `none` is an item that is no dict.
    unfoldable pub refresh_one : Entries P → Entries P → Option (Named P) → Option (Entries P)
    unfolding refreshed_fields merge_refreshed_validator lookup put strip
    refresh_one previous_cache refreshed_cache none = some refreshed_cache
    refresh_one previous_cache refreshed_cache (some v) =
        let validator_hash = lower (strip v.validator) in
        if validator_hash == ""
        then some refreshed_cache
        else Option.map
            (λ refreshed.
              put validator_hash
                (merge_refreshed_validator from_iso
                  (or_default (lookup validator_hash previous_cache) []) refreshed)
                refreshed_cache)
            (refreshed_fields validator_hash v.fields)

    unfoldable pub refresh_all :
        Entries P → Entries P → List (Option (Named P)) → Option (Entries P)
    unfolding refresh_one
    refresh_all previous_cache refreshed_cache [] = some refreshed_cache
    refresh_all previous_cache refreshed_cache (v ∷ rest) =
        and_then (refresh_one previous_cache refreshed_cache v)
          (λ now. refresh_all previous_cache now rest)

  -- The loop that keeps the validators of events that the snapshot does not have.
  unfoldable pub keep_events : Entries P → Entries P → Entries P
  unfolding lookup put
  keep_events [] refreshed_cache = refreshed_cache
  keep_events ((k, previous) ∷ rest) refreshed_cache = keep_events rest (
      if not (is_present (lookup k refreshed_cache)) && comes_from_event previous
      then put k previous refreshed_cache
      else refreshed_cache)

  -- `persist_validator_registry_entry` for each entry.
  unfoldable pub persist_all : Entries P → Entries P → Entries P
  unfolding put
  persist_all [] registry = registry
  persist_all ((k, entry) ∷ rest) registry = persist_all rest (put k entry registry)

  unfoldable pub install : Option (Entries P) → CacheState P → CallEnd × CacheState P
  unfolding keep_events persist_all
  install none w = (raised, w)
  install (some refreshed_cache) w =
      let cache = keep_events w.cache refreshed_cache in
      if is_filled refreshed_cache
      then (returned true, record { cache = cache; registry = persist_all cache w.registry })
      else (returned false, w)

  module _ (from_iso : String → Option ℕ) (lower : String → String)
      (fetched : Option (List (Option (Named P)))) (meanwhile : CacheState P → CacheState P) where
    -- What follows the request to the chain, whose failure is `none`.
    unfoldable pub load_fetched :
        Bool → Option (List (Option (Named P))) → CacheState P → CallEnd × CacheState P
    unfolding refresh_all install
    load_fetched only_if_empty none w = (returned false, w)
    load_fetched only_if_empty (some validators) w =
        if not (is_filled validators)
        then (returned false, w)
        else if only_if_empty && is_filled w.cache
        then (returned true, w)
        else install (refresh_all from_iso lower w.cache [] validators) w

    -- `load_validators_cache_from_chain`; `meanwhile` is what other tasks do during the request.
    unfoldable pub load_validators_cache_from_chain : Bool → CacheState P → CallEnd × CacheState P
    unfolding load_fetched
    load_validators_cache_from_chain only_if_empty w =
        if only_if_empty && is_filled w.cache
        then (returned true, w)
        else load_fetched only_if_empty fetched (meanwhile w)
